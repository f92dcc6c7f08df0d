-- ===== src/FileManager/Write.antt =====
-- `Write`: what reaches the file.
use vroot_kv.Base.{
  ℕ, zero, suc, ◌+◌, ◌≤◌, ◌<◌, ◌≡◌, ◌≢◌, ◌⊎◌, inl, inr, refl, sym, ap, ◌∙◌, arith, Bool, true,
  false, ◌==◌, if◌then◌else◌, Option, some,
}
use vroot_kv.Base.{
  List, [], ◌∷◌, ◌++◌, append_assoc, append-nil, length, length-drop, take, drop, take-append-drop,
}
use vroot_kv.FileManager.{Outcome, returned, interrupted, failed, Posix, write_loop, write_file}
use mathlib.Core.Path.{subst}
use native.Mathlib.Decide.{ℕ_discrete}

-- `write(2)` as documented: it appends as many of the bytes as it says, and none where it fails; and between
-- two calls that succeed only finitely many signals arrive, fewer than `patience` says.
pub record Appends {W : Type 0} (p : Posix W) (contents : W → ℕ → List ℕ) (patience : W → ℕ)
    : Type 0 where
  pub accepted :
      (w : W) (fd : ℕ) (bytes : List ℕ) (n : ℕ)
      → (p.sys_write w fd bytes).0 ≡ returned n
      → let w' = (p.sys_write w fd bytes).1 in
        (n ≤ length bytes)
        × (contents w' fd ≡ contents w fd ++ take n bytes)
        × (patience w' ≤ patience w)
  pub refused :
      (w : W) (fd : ℕ) (bytes : List ℕ)
      → (p.sys_write w fd bytes).0 ≡ failed
      → contents (p.sys_write w fd bytes).1 fd ≡ contents w fd
  pub signalled :
      (w : W) (fd : ℕ) (bytes : List ℕ)
      → (p.sys_write w fd bytes).0 ≡ interrupted
      → let w' = (p.sys_write w fd bytes).1 in
        (contents w' fd ≡ contents w fd) × (patience w' < patience w)

-- `Write` answers, and what it answers says whether all bytes are in the file or only some of the first.
abbrev pub Written : (W : Type 0) → (W → ℕ → List ℕ) → W → ℕ → List ℕ → Option (Bool × W) → Type 0
Written W contents w fd bytes r =
    (w' : W) × (((r ≡ some (true, w')) × (contents w' fd ≡ contents w fd ++ bytes))
      ⊎ ((k : ℕ) × (k < length bytes)
          × (r ≡ some (false, w'))
          × (contents w' fd ≡ contents w fd ++ take k bytes)))

pub Outcome-cases :
    (o : Outcome ℕ) → ((n : ℕ) × (o ≡ returned n)) ⊎ ((o ≡ interrupted) ⊎ (o ≡ failed))
Outcome-cases (returned n) = inl (n, refl)
Outcome-cases interrupted = inr (inl refl)
Outcome-cases failed = inr (inr refl)

take_add : (n k : ℕ) (xs : List ℕ) → take n xs ++ take k (drop n xs) ≡ take (n + k) xs
take_add zero k xs = ap (λ m. take m xs) (omega arith)
take_add (suc n) k [] = take-nil k ∙ sym (take-nil (suc n + k))
  where
    take-nil : (m : ℕ) → take {A = ℕ} m [] ≡ []
    take-nil zero = refl
    take-nil (suc m) = refl
take_add (suc n) k (x ∷ xs) =
    ap (λ ys. x ∷ ys) (take_add n k xs) ∙ ap (λ m. take m (x ∷ xs)) {x = suc (n + k)} (omega arith)

-- One round.
module _ {W : Type 0} (p : Posix W) (fuel : ℕ) (w : W) (fd b : ℕ) (bs : List ℕ) where
  abbrev pub after : W
  after = (p.sys_write w fd (b ∷ bs)).1

  pub write_loop-returned :
      (n : ℕ)
      → (p.sys_write w fd (b ∷ bs)).0 ≡ returned n
      → write_loop p (suc fuel) w fd (b ∷ bs)
        ≡ (if n == 0 then some (false, after) else write_loop p fuel after fd (drop n (b ∷ bs)))
  unfolding write_loop
  write_loop-returned n e = rw (e, write_loop) refl

  pub write_loop-interrupted :
      (p.sys_write w fd (b ∷ bs)).0 ≡ interrupted
      → write_loop p (suc fuel) w fd (b ∷ bs) ≡ write_loop p fuel after fd (b ∷ bs)
  unfolding write_loop
  write_loop-interrupted e = rw (e, write_loop) refl

  pub write_loop-failed :
      (p.sys_write w fd (b ∷ bs)).0 ≡ failed
      → write_loop p (suc fuel) w fd (b ∷ bs) ≡ some (false, after)
  unfolding write_loop
  write_loop-failed e = rw (e, write_loop) refl

module _ {W : Type 0} (p : Posix W) (contents : W → ℕ → List ℕ) (patience : W → ℕ)
    (h : Appends p contents patience) (fd : ℕ) where
  -- After the first `n` bytes, the rest.
  resume :
      (w w₁ : W) (bytes : List ℕ) (n : ℕ) (r : Option (Bool × W))
      → n ≤ length bytes
      → contents w₁ fd ≡ contents w fd ++ take n bytes
      → Written W contents w₁ fd (drop n bytes) r
      → Written W contents w fd bytes r
  resume w w₁ bytes n r le e (w', inl (done, same)) = (
    w',
    inl (
      done,
      same
          ∙ ap (λ c. c ++ drop n bytes) e
          ∙ append_assoc (contents w fd) (take n bytes) (drop n bytes)
          ∙ ap (λ c. contents w fd ++ c) (take-append-drop n bytes),
    ),
  )
  resume w w₁ bytes n r le e (w', inr (k, less, stopped, same)) = (
    w',
    inr (
      n + k,
      omega (arith, less, length-drop n bytes, le),
      stopped,
      same
          ∙ ap (λ c. c ++ take k (drop n bytes)) e
          ∙ append_assoc (contents w fd) (take n bytes) (take k (drop n bytes))
          ∙ ap (λ c. contents w fd ++ c) (take_add n k bytes),
    ),
  )

  write_loop_lem :
      (fuel : ℕ) (w : W) (bytes : List ℕ)
      → patience w + length bytes ≤ fuel
      → Written W contents w fd bytes (write_loop p fuel w fd bytes)
  unfolding write_loop
  write_loop_lem fuel w [] enough = (w, inl (refl, sym (append-nil (contents w fd))))
  write_loop_lem zero w (b ∷ bs) enough = absurd (omega arith)
  write_loop_lem (suc fuel) w (b ∷ bs) enough =
      let w₁ = (p.sys_write w fd (b ∷ bs)).1 in
      elim (Outcome-cases (p.sys_write w fd (b ∷ bs)).0) [
        | inr (inr e) ↦ (
          w₁,
          inr (
            0,
            omega arith,
            write_loop-failed p fuel w fd b bs e,
            h.refused w fd (b ∷ bs) e ∙ sym (append-nil (contents w fd)),
          ),
        )
        | inr (inl e) ↦
            let (same, less) = h.signalled w fd (b ∷ bs) e in
            subst (Written W contents w fd (b ∷ bs))
              (sym (write_loop-interrupted p fuel w fd b bs e))
              (resume w w₁ (b ∷ bs) 0 _ (omega arith) (same ∙ sym (append-nil (contents w fd)))
                (write_loop_lem fuel w₁ (b ∷ bs) (omega (arith, enough, less))))
        | inl (n, e) ↦
            let (le, same, left) = h.accepted w fd (b ∷ bs) n e in
            elim (ℕ_discrete n 0) [
              | yes zero_written ↦ (
                w₁,
                inr (
                  0,
                  omega arith,
                  write_loop-returned p fuel w fd b bs n e ∙ rw zero_written refl,
                  same ∙ ap (λ m. contents w fd ++ take m (b ∷ bs)) zero_written,
                ),
              )
              | no some_written ↦
                  subst (Written W contents w fd (b ∷ bs))
                    (sym (
                      write_loop-returned p fuel w fd b bs n e ∙ rw (not_zero n some_written) refl))
                    (resume w w₁ (b ∷ bs) n _ le same (
                      write_loop_lem fuel w₁ (drop n (b ∷ bs))
                        (omega (arith, enough, left, le, some_written, length-drop n (b ∷ bs)))))
            ]
      ]
    where
      not_zero : (n : ℕ) → n ≢ 0 → (n == 0) ≡ false
      not_zero n ne = ground arith

  -- `Write` of an open file ends, and answers `true` where all bytes were appended to the file, and `false`
  -- where only some of the first were.
  pub write_file-Written :
      (fuel : ℕ) (w : W) (bytes : List ℕ)
      → patience w + length bytes ≤ fuel
      → Written W contents w fd bytes (write_file p fuel (record { fd = some fd }) w bytes)
  unfolding write_file
  write_file-Written fuel w bytes enough = write_loop_lem fuel w bytes enough
