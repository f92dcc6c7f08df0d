-- ===== src/FileManager/Store/Save.antt =====
-- A file that is stored has its parts in it.
use vroot_kv.Base.{
  ℕ, ◌≤◌, ◌≡◌, inl, inr, refl, sym, ap, ◌∙◌, arith, Bool, true, false, Bool-cases, some,
  Option-cases,
}
use vroot_kv.Base.{List, [], ◌∷◌, ◌++◌, append_assoc, append-nil, length, length-append}
use vroot_kv.FileManager.{FileName}
use vroot_kv.FileManager.Interface.{IFileManager, View, IsFileManager}
use vroot_kv.FileManager.Store.{write_parts, store_file, join}

module _ {W : Type 0} (m : IFileManager W) (v : View m) (law : IsFileManager m v) where
  -- The parts, one after the other.
  write_parts_lem :
      (f : m.WritableFile) (w : W) (fname : FileName) (parts : List (List ℕ))
      → length (join parts) ≤ v.room
      → v.target w f ≡ some fname
      → (b : Bool) × (w' : W) × (write_parts m f w parts ≡ some (b, w'))
        × (v.target w' f ≡ some fname)
        × (b ≡ true → v.files w' fname ≡ v.files w fname ++ join parts)
  unfolding write_parts
  write_parts_lem f w fname [] enough to =
      (true, w, refl, to, λ t. sym (append-nil (v.files w fname)))
  write_parts_lem f w fname (part ∷ parts) enough to =
      let room : length part ≤ v.room = omega (arith, enough, length-append part (join parts)) in
      let (w₁, to₁, c) = law.writes w f fname part to room in
      elim c [
        | inr e ↦ (false, w₁, rw (e, write_parts) refl, to₁, λ t. absurd cc)
        | inl (e, here) ↦
            let (b, w', e', to', all) =
              write_parts_lem f w₁ fname parts
                (omega (arith, enough, length-append part (join parts))) to₁ in
            (
              b,
              w',
              rw (e, write_parts) e',
              to',
              λ t.
                  all t
                  ∙ ap (λ bs. bs ++ join parts) here
                  ∙ append_assoc (v.files w fname) part (join parts),
            )
      ]

  -- Storing a file ends, and where it answers `true` the file has the parts, one after the other.
  pub store_file_lem :
      (w : W) (fname : FileName) (parts : List (List ℕ))
      → length (join parts) ≤ v.room
      → (b : Bool) × (w' : W) × (store_file m w fname parts ≡ some (b, w'))
        × (b ≡ true → v.files w' fname ≡ join parts)
  unfolding store_file
  store_file_lem w fname parts enough =
      let w₁ = (m.new_writable_file w fname).1 in
      elim (Option-cases (m.new_writable_file w fname).0) [
        | inl refused ↦ (false, w₁, rw (refused, store_file) refl, λ t. absurd cc)
        | inr (f, e) ↦
            let (to, empty) = law.creates w fname f e in
            let (b, w₂, e₂, to₂, all) = write_parts_lem f w₁ fname parts enough to in
            let (f', b₃, w₃, e₃, same) = law.closes w₂ f fname to₂ in
            let (w₄, e₄) = law.destroys w₂ f in
            elim (Bool-cases b) [
              | inl whole ↦ (
                b₃,
                w₃,
                rw (e, e₂, whole, e₃, store_file) refl,
                λ t. same ∙ all whole ∙ ap (λ bs. bs ++ join parts) empty,
              )
              | inr part ↦ (false, w₄, rw (e, e₂, part, e₄, store_file) refl, λ t. absurd cc)
            ]
      ]
