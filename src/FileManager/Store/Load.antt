-- ===== src/FileManager/Store/Load.antt =====
-- What is read of a file to its end.
use vroot_kv.Base.{
  ℕ, zero, suc, ◌≤◌, ◌<◌, ◌≡◌, ◌⊎◌, inl, inr, refl, sym, ap, ◌∙◌, arith, true, Option, none, some,
  Option-cases,
}
use vroot_kv.Base.{List, [], ◌∷◌, ◌++◌, append_assoc, length, length-append}
use vroot_kv.FileManager.{FileName}
use vroot_kv.FileManager.Interface.{IFileManager, View, IsFileManager}
use vroot_kv.FileManager.Store.{read_all, load_file}

-- Reading on from a state, the system fails in one of the calls of `Read`: in this one, or in one after it.
pub data Breaks {W : Type 0} (m : IFileManager W) (v : View m) (n : ℕ) (f : m.ReadableFile)
    : W → Type 0 where
  fails_now : {w : W} → v.ReadFailed w f n → Breaks m v n f w
  fails_later :
      {w w' : W} {b : ℕ} {bs : List ℕ}
      → m.readable.read f w n true ≡ some (some (b ∷ bs), w')
      → Breaks m v n f w'
      → Breaks m v n f w

-- What is loaded is only the beginning of the file, since the system fails in one of the reads that load it.
abbrev pub Broken :
    {W : Type 0} (m : IFileManager W)
    → View m
    → ℕ
    → W
    → FileName
    → Option (List ℕ)
    → List ℕ
    → Type 0
Broken m v n w fname o file =
    (f : m.ReadableFile) × (bytes : List ℕ) × (rest : List ℕ) × ((m.new_readable_file w fname).0
      ≡ some f)
    × Breaks m v n f (m.new_readable_file w fname).1
    × (o ≡ some bytes)
    × (bytes ++ rest ≡ file)

module _ {W : Type 0} (m : IFileManager W) (v : View m) (law : IsFileManager m v) (n : ℕ)
    (some_room : 0 < n) (fits : n ≤ v.chunk) where
  -- Reading to the end stops, with all that was there, or with the beginning of it where the system fails.
  read_all_lem :
      (rounds : ℕ) (f : m.ReadableFile) (w : W)
      → length (v.unread w f) < rounds
      → (bytes : List ℕ) × (w' : W) × (read_all m rounds f w n ≡ some (bytes, w'))
        × ((bytes ≡ v.unread w f)
            ⊎ (Breaks m v n f w × ((rest : List ℕ) × (bytes ++ rest ≡ v.unread w f))))
  unfolding read_all
  read_all_lem zero f w more = absurd (omega arith)
  read_all_lem (suc rounds) f w more =
      let (w₁, c) = law.reads w f n some_room fits in
      elim c [
        | inr (e, stop) ↦ (
          [],
          w₁,
          elim e [ inl unset ↦ rw (unset, read_all) refl | inr empty ↦ rw (empty, read_all) refl ],
          elim stop [
            | inl ended ↦ inl (sym ended)
            | inr x ↦ inr (fails_now x, (v.unread w f, refl))
          ],
        )
        | inl (b, bs, e, same) ↦
            let fewer : length (v.unread w₁ f) < rounds =
              omega
                (arith, more, ap (length {A = ℕ}) same, length-append (b ∷ bs) (v.unread w₁ f)) in
            let (rest, w₂, e₂, ended) = read_all_lem rounds f w₁ fewer in
            (
              (b ∷ bs) ++ rest,
              w₂,
              rw (e, read_all, e₂) refl,
              elim ended [
                | inl whole ↦ inl (ap (λ r. (b ∷ bs) ++ r) whole ∙ sym same)
                | inr (x, (missing, cut)) ↦ inr (
                  fails_later e x,
                  (
                    missing,
                    append_assoc (b ∷ bs) rest missing ∙ ap (λ r. (b ∷ bs) ++ r) cut ∙ sym same,
                  ),
                )
              ],
            )
      ]

  -- Loading a file ends. What it gives, if the file is opened, is all of the file, or its beginning where the
  -- system fails in one of the reads.
  pub load_file_lem :
      (rounds : ℕ) (w : W) (fname : FileName)
      → length (v.files w fname) < rounds
      → (o : Option (List ℕ)) × (w' : W) × (load_file m rounds w fname n ≡ some (o, w'))
        × (((o ≡ none) × ((m.new_readable_file w fname).0 ≡ none))
            ⊎ ((o ≡ some (v.files w fname)) ⊎ Broken m v n w fname o (v.files w fname)))
  unfolding load_file
  load_file_lem rounds w fname enough =
      let w₁ = (m.new_readable_file w fname).1 in
      elim (Option-cases (m.new_readable_file w fname).0) [
        | inl refused ↦ (none, w₁, rw (refused, load_file) refl, inl (refl, refused))
        | inr (f, e) ↦
            let here = law.opens w fname f e in
            let fewer : length (v.unread w₁ f) < rounds =
              omega (arith, enough, ap (length {A = ℕ}) here) in
            let (bytes, w₂, e₂, ended) = read_all_lem rounds f w₁ fewer in
            (
              some bytes,
              w₂,
              rw (e, load_file, e₂) refl,
              elim ended [
                | inl whole ↦ inr (inl (ap some (whole ∙ here)))
                | inr (x, (missing, cut)) ↦ inr (inr (f, bytes, missing, e, x, refl, cut ∙ here))
              ],
            )
      ]
