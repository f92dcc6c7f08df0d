-- ===== src/FileManager/Default/Saves.antt =====
-- `Write` and `Close` on POSIX: which file they change.
use vroot_kv.Base.{
  ℕ, zero, suc, ◌≤◌, ◌≡◌, ◌⊎◌, inl, inr, refl, sym, ap, ◌∙◌, arith, Bool, false, ◌==◌, Bool-cases,
  Option, none, some,
}
use vroot_kv.Base.{List, [], ◌∷◌, drop}
use vroot_kv.FileManager.{
  Outcome, returned, interrupted, failed, Posix, FileName, write_loop, sync_file, close_file,
  destroy_file, succeeded,
}
use vroot_kv.FileManager.Write.{
  Outcome-cases, write_loop-returned, write_loop-interrupted, write_loop-failed,
}
use vroot_kv.FileManager.Close.{Reaches, now, again, retry-Reaches}
use vroot_kv.FileManager.Default.Disk.{Disk}

module _ {W : Type 0} (p : Posix W) (d : Disk p) (fd : ℕ) where
  -- `Write` writes to one file.
  pub write_loop-target :
      (fuel : ℕ) (w : W) (bytes : List ℕ) (b : Bool) (w' : W)
      → write_loop p fuel w fd bytes ≡ some (b, w')
      → d.target w' fd ≡ d.target w fd
  unfolding write_loop
  write_loop-target fuel w [] b w' e = let same : w ≡ w' = cc in ap (λ u. d.target u fd) (sym same)
  write_loop-target zero w (x ∷ bytes) b w' e = absurd cc
  write_loop-target (suc fuel) w (x ∷ bytes) b w' e =
      let w₁ = (p.sys_write w fd (x ∷ bytes)).1 in
      let kept : d.target w₁ fd ≡ d.target w fd = d.write_keeps w fd (x ∷ bytes) in
      elim (Outcome-cases (p.sys_write w fd (x ∷ bytes)).0) [
        | inl (n, c) ↦
            let e₁ = sym (write_loop-returned p fuel w fd x bytes n c) ∙ e in
            elim (Bool-cases (n == 0)) [
              | inl nothing ↦ stopped w₁ false w' b (rw nothing at e₁) ∙ kept
              | inr more ↦
                  write_loop-target fuel w₁ (drop n (x ∷ bytes)) b w' (rw more at e₁) ∙ kept
            ]
        | inr (inl c) ↦
            write_loop-target fuel w₁ (x ∷ bytes) b w'
              (sym (write_loop-interrupted p fuel w fd x bytes c) ∙ e)
            ∙ kept
        | inr (inr c) ↦
            stopped w₁ false w' b (sym (write_loop-failed p fuel w fd x bytes c) ∙ e) ∙ kept
      ]
    where
      stopped :
          (u : W) (c : Bool) (u' : W) (c' : Bool)
          → ◌≡◌ {A = Option (Bool × W)} (some (c, u)) (some (c', u'))
          → d.target u' fd ≡ d.target u fd
      stopped u c u' c' q = let same : u ≡ u' = cc in ap (λ v. d.target v fd) (sym same)

  -- `close` is repeated, and leaves the files as they are.
  Reaches-files :
      {w w' : W} {o : Outcome ℕ} (fname : FileName)
      → Reaches (λ u. p.sys_close u fd) w o w'
      → d.files w' fname ≡ d.files w fname
  Reaches-files {w} fname (now e ne) = d.close_keeps w fd fname
  Reaches-files {w} fname (again e r) = Reaches-files fname r ∙ d.close_keeps w fd fname

  -- `fsync` is repeated, and leaves the file as it is; the last call says whether the file is on the device.
  Reaches-synced :
      {w w' : W} {o : Outcome ℕ} (fname : FileName)
      → d.target w fd ≡ some fname
      → Reaches (λ u. p.sys_fsync u fd) w o w'
      → (d.files w' fname ≡ d.files w fname)
        × (o ≡ returned 0 → d.persisted w' fname ≡ d.files w' fname)
  Reaches-synced {w} fname to (now e ne) =
      ((d.fsync_keeps w fd fname to).1, λ z. d.fsync_persists w fd fname to (e ∙ z))
  Reaches-synced {w} fname to (again e r) =
      let (to', kept) = d.fsync_keeps w fd fname to in
      let (same, synced) = Reaches-synced fname to' r in (same ∙ kept, synced)

  zero_returned : (o : Outcome ℕ) → (succeeded o ≡ false) ⊎ (o ≡ returned 0)
  unfolding succeeded
  zero_returned (returned n) = elim (Bool-cases (n == 0)) [
    | inl e ↦ inr (ap returned (ground arith))
    | inr e ↦ inl e
  ]
  zero_returned interrupted = inl refl
  zero_returned failed = inl refl

  pub sync_lem :
      (fuel : ℕ) (w : W) (fname : FileName)
      → d.limit ≤ fuel
      → d.target w fd ≡ some fname
      → (b : Bool) × (w' : W) × (sync_file p fuel (record { fd = some fd }) w ≡ some (b, w'))
        × (d.files w' fname ≡ d.files w fname)
        × ((b ≡ false) ⊎ (d.persisted w' fname ≡ d.files w' fname))
  unfolding sync_file
  sync_lem fuel w fname enough to =
      let (o, w', e, r) =
        retry-Reaches (λ u. p.sys_fsync u fd) d.patience
          (record { signalled = λ u s. d.fsync_signalled u fd s }) fuel w
          (omega (arith, enough, d.few w)) in
      let (same, synced) = Reaches-synced fname to r in
      (
        succeeded o,
        w',
        rw (e, sync_file) refl,
        same,
        elim (zero_returned o) [ inl no_success ↦ inl no_success | inr z ↦ inr (synced z) ],
      )

  pub close_lem :
      (fuel : ℕ) (w : W) (fname : FileName)
      → d.limit ≤ fuel
      → (b : Bool) × (w' : W) × (close_file p fuel (record { fd = some fd }) w
          ≡ some (record { fd = none }, b, w'))
        × (d.files w' fname ≡ d.files w fname)
  unfolding close_file
  close_lem fuel w fname enough =
      let (o, w', e, r) =
        retry-Reaches (λ u. p.sys_close u fd) d.patience
          (record { signalled = λ u s. d.close_signalled u fd s }) fuel w
          (omega (arith, enough, d.few w)) in
      (succeeded o, w', rw (e, close_file) refl, Reaches-files fname r)

  pub destroy_lem :
      (fuel : ℕ) (w : W)
      → d.limit ≤ fuel
      → (w' : W) × (destroy_file p fuel (record { fd = some fd }) w ≡ some w')
  unfolding destroy_file
  destroy_lem fuel w enough =
      let (b, w', e, same) = close_lem fuel w [] enough in (w', rw (e, destroy_file) refl)
