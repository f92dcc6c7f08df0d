-- ===== src/FileManager/Close.antt =====
-- `Sync` and `Close`, which repeat a call that a signal interrupts, and what is left of a closed file.
use vroot_kv.Base.{
  ◌≢◌, ◌⊎◌, inl, inr, ℕ, zero, suc, ◌<◌, ◌≡◌, refl, arith, Bool, true, false, none, some, List,
}
use vroot_kv.FileManager.{
  Outcome, returned, interrupted, failed, Posix, PosixFile, retry, succeeded, write_file,
  flush_file, sync_file, close_file, destroy_file, read_file,
}

-- Only finitely many signals interrupt a call, fewer than `patience` says.
pub record Settles {W : Type 0} {A : Type 0} (call : W → Outcome A × W) (patience : W → ℕ)
    : Type 0 where
  pub signalled : (w : W) → (call w).0 ≡ interrupted → patience (call w).1 < patience w

-- The last of the calls that are made from `w` on: one that no signal interrupts, after calls that signals do.
pub data Reaches {W A : Type 0} (call : W → Outcome A × W) : W → Outcome A → W → Type 0 where
  now : {w : W} {o : Outcome A} → (call w).0 ≡ o → o ≢ interrupted → Reaches call w o (call w).1
  again :
      {w w' : W} {o : Outcome A}
      → (call w).0 ≡ interrupted
      → Reaches call (call w).1 o w'
      → Reaches call w o w'

Outcome-split : {A : Type 0} (o : Outcome A) → (o ≡ interrupted) ⊎ (o ≢ interrupted)
Outcome-split (returned a) = inr (λ e. absurd cc)
Outcome-split interrupted = inl refl
Outcome-split failed = inr (λ e. absurd cc)

module _ {W A : Type 0} (call : W → Outcome A × W) (patience : W → ℕ)
    (h : Settles call patience) where
  settled :
      (fuel : ℕ) (w : W)
      → (call w).0 ≢ interrupted
      → retry (suc fuel) call w ≡ some ((call w).0, (call w).1)
  unfolding retry
  settled fuel w ne = cases (call w).0 refl
    where
      cases : (o : Outcome A) → (call w).0 ≡ o → retry (suc fuel) call w ≡ some (o, (call w).1)
      cases (returned a) e = rw (e, retry) refl
      cases interrupted e = absurd (ne e)
      cases failed e = rw (e, retry) refl

  pub retry-Reaches :
      (fuel : ℕ) (w : W)
      → patience w < fuel
      → (o : Outcome A) × (w' : W) × (retry fuel call w ≡ some (o, w')) × Reaches call w o w'
  unfolding retry
  retry-Reaches zero w enough = absurd (omega arith)
  retry-Reaches (suc fuel) w enough = elim (Outcome-split (call w).0) [
    | inl e ↦
        let (o, w', e', r) =
          retry-Reaches fuel (call w).1 (omega (arith, h.signalled w e, enough)) in
        (o, w', rw (e, retry) e', again e r)
    | inr ne ↦ ((call w).0, (call w).1, settled fuel w ne, now refl ne)
  ]

module _ {W : Type 0} (p : Posix W) (fd : ℕ) (patience : W → ℕ) (fuel : ℕ) (w : W)
    (enough : patience w < fuel) where
  -- `Close` of an open file ends. Its answer is that of the last `close`, and the file has no descriptor.
  close_file-Reaches :
      Settles (λ u. p.sys_close u fd) patience
      → (o : Outcome ℕ) × (w' : W) × (close_file p fuel (record { fd = some fd }) w
          ≡ some (record { fd = none }, succeeded o, w'))
        × Reaches (λ u. p.sys_close u fd) w o w'
  unfolding close_file
  close_file-Reaches h =
      let (o, w', e, r) = retry-Reaches (λ u. p.sys_close u fd) patience h fuel w enough in
      (o, w', rw (e, close_file) refl, r)

-- What a file without a descriptor does: no call of the system.
abbrev pub Closed : (W : Type 0) → Posix W → PosixFile → Type 0
Closed W p f =
    (fuel n : ℕ) (bytes : List ℕ) (has_result : Bool) (w : W)
    → (write_file p fuel f w bytes ≡ some (false, w))
      × (flush_file p f ≡ false)
      × (sync_file p fuel f w ≡ some (false, w))
      × (read_file p fuel f w n has_result ≡ some (none, w))
      × (close_file p fuel f w ≡ some (f, true, w))
      × (destroy_file p fuel f w ≡ some w)

no_descriptor-Closed : {W : Type 0} (p : Posix W) → Closed W p (record { fd = none })
unfolding write_file flush_file sync_file read_file close_file destroy_file
no_descriptor-Closed p fuel n bytes has_result w = (refl, refl, refl, refl, refl, refl)

-- `Close` of an open file ends where only finitely many signals interrupt it, with the answer of the last
-- `close`, which no signal interrupted; and the file is closed then: its methods make no call of the system
-- any more, and say so.
pub close_file-Closed :
    {W : Type 0} (p : Posix W) (fd : ℕ) (patience : W → ℕ) (fuel : ℕ) (w : W)
    → patience w < fuel
    → Settles (λ u. p.sys_close u fd) patience
    → (f' : PosixFile) × (o : Outcome ℕ) × (w' : W) × (close_file p fuel (record { fd = some fd }) w
        ≡ some (f', succeeded o, w'))
      × Reaches (λ u. p.sys_close u fd) w o w'
      × Closed W p f'
close_file-Closed p fd patience fuel w enough h =
    let (o, w', e, r) = close_file-Reaches p fd patience fuel w enough h in
    (record { fd = none }, o, w', e, r, no_descriptor-Closed p)
