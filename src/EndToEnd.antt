-- ===== src/EndToEnd.antt =====
-- SSTables in files: the whole of tests/io/test_sstable_end_to_end.cpp, for any blocks of entries, any key, and any
-- file manager that keeps the promises of its interfaces.
use vroot_kv.Base.{
  ℕ, ◌≤◌, ◌<◌, ◌≡◌, ◌⊎◌, inl, inr, sym, ap, ◌∙◌, arith, Bool-cases, true, false, Option, none, some,
  List, length, Result, ok,
}
use mathlib.Core.Path.{subst}
use vroot_kv.Key.{Key}
use vroot_kv.Sstable.DataBlock.Layout.{Run, flatten, lookup}
use vroot_kv.Sstable.Table.{TableError, write_table, get_from_table}
use vroot_kv.Sstable.Table.Correct.{IsTableInput, write_table-get_from_table}
use vroot_kv.FileManager.{FileName}
use vroot_kv.FileManager.Interface.{IFileManager, View, IsFileManager}
use vroot_kv.FileManager.Store.{store_file, load_file, join}
use vroot_kv.FileManager.Store.Save.{store_file_lem}
use vroot_kv.FileManager.Store.Load.{Broken, load_file_lem}

module _ {W : Type 0} (m : IFileManager W) (v : View m) (law : IsFileManager m v) (n : ℕ)
    (some_room : 0 < n) (short : n ≤ v.chunk) where
  -- Loading the file ends, and what it gives is all of it, or its beginning where the system fails in one of the
  -- reads, or nothing where the file is not opened.
  abbrev pub Loaded : ℕ → W → FileName → List ℕ → Type 0
  Loaded rounds w fname file =
      (o : Option (List ℕ)) × (w' : W) × (load_file m rounds w fname n ≡ some (o, w'))
      × (((o ≡ none) × ((m.new_readable_file w fname).0 ≡ none))
          ⊎ ((o ≡ some file) ⊎ Broken m v n w fname o file))

  -- With a file manager that keeps its promises, storing the parts of a file ends, and where it answers `true`,
  -- loading the file ends with all of it, or with its beginning where the system fails in one of the reads of
  -- this loading, or with nothing where the file is not opened.
  pub store_file-load_file :
      (rounds : ℕ) (w : W) (fname : FileName) (parts : List (List ℕ))
      → length (join parts) ≤ v.room
      → length (join parts) < rounds
      → (w' : W) × ((store_file m w fname parts ≡ some (false, w'))
          ⊎ ((store_file m w fname parts ≡ some (true, w')) × Loaded rounds w' fname (join parts)))
  store_file-load_file rounds w fname parts fits enough =
      let (stored, w₁, e, kept) = store_file_lem m v law w fname parts fits in
      (
        w₁,
        elim (Bool-cases stored) [
          | inr part ↦ inl (e ∙ ap (λ b. some (b, w₁)) part)
          | inl whole ↦
              let here : v.files w₁ fname ≡ join parts = kept whole in
              inr (
                e ∙ ap (λ b. some (b, w₁)) whole,
                subst (Loaded rounds w₁ fname) here (
                    load_file_lem m v law n some_room short rounds w₁ fname
                      (omega (arith, enough, ap (length {A = ℕ}) here))),
              )
        ],
      )

  -- Loading the file ends, and the lookups in what it gives answer as the entries do, unless the file is not
  -- opened, or only its beginning is loaded since the system fails in one of the reads.
  abbrev pub Answers : ℕ → W → FileName → List ℕ → List Run → Type 0
  Answers rounds w fname table blocks =
      (o : Option (List ℕ)) × (w' : W) × (load_file m rounds w fname n ≡ some (o, w'))
      × (((o ≡ none) × ((m.new_readable_file w fname).0 ≡ none))
          ⊎ (((file : List ℕ) × (o ≡ some file)
                × ((key : Key) → get_from_table file key ≡ ok (lookup key (flatten blocks))))
              ⊎ Broken m v n w fname o table))

  -- With a file manager that keeps its promises, storing in any parts the table that was written of blocks of
  -- entries that a table takes ends; where it answers `true`, loading the file ends, and the lookup in what
  -- was loaded gives every key the value that the entries of all blocks give it, unless the file is not
  -- opened, or only the beginning of the table is loaded since the system fails in one of the reads of this
  -- loading.
  pub write_table-load_file :
      (interval rounds : ℕ) (w : W) (fname : FileName) (blocks : List Run) (parts : List (List ℕ))
      → IsTableInput blocks
      → write_table interval blocks ≡ ok (join parts)
      → length (join parts) ≤ v.room
      → length (join parts) < rounds
      → (w' : W) × ((store_file m w fname parts ≡ some (false, w'))
          ⊎ ((store_file m w fname parts ≡ some (true, w'))
              × Answers rounds w' fname (join parts) blocks))
  write_table-load_file interval rounds w fname blocks parts input written fits enough =
      let (w₁, c) = store_file-load_file rounds w fname parts fits enough in
      (
        w₁,
        elim c [
          | inl refused ↦ inl refused
          | inr (stored, (o, w₂, e, found)) ↦ inr (
            stored,
            (
              o,
              w₂,
              e,
              elim found [
                | inl closed ↦ inl closed
                | inr (inl whole) ↦ inr (inl (join parts, whole, answers))
                | inr (inr failing) ↦ inr (inr failing)
              ],
            ),
          )
        ],
      )
    where
      ok-injective : {x y : List ℕ} → ◌≡◌ {A = Result TableError (List ℕ)} (ok x) (ok y) → x ≡ y
      ok-injective q = cc

      answers : (key : Key) → get_from_table (join parts) key ≡ ok (lookup key (flatten blocks))
      answers key =
          let (table, e, found) = write_table-get_from_table interval blocks input in
          let same : table ≡ join parts = ok-injective (sym e ∙ written) in
          ap (λ bs. get_from_table bs key) (sym same) ∙ found key
