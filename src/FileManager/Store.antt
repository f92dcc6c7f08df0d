-- ===== src/FileManager/Store.antt =====
-- A file that is created, written part by part, closed, opened and read to its end through the interfaces, as
-- tests/io/test_sstable_end_to_end.cpp does.
use vroot_kv.Base.{ℕ, zero, suc, Bool, true, false, Option, none, some, List, [], ◌∷◌, ◌++◌}
use vroot_kv.FileManager.{FileName}
use vroot_kv.FileManager.Interface.{IFileManager}
pub mod Save
pub mod Load

module _ {W : Type 0} (m : IFileManager W) where
  -- `Write` of the parts, to the first that fails.
  unfoldable pub write_parts : m.WritableFile → W → List (List ℕ) → Option (Bool × W)
  write_parts f w [] = some (true, w)
  write_parts f w (part ∷ parts) = elim (m.writable.write f w part) [
    | none ↦ none
    | some (true, w') ↦ write_parts f w' parts
    | some (false, w') ↦ some (false, w')
  ]

  -- The file is made, written and closed. Where a `Write` fails, its destructor closes it.
  unfoldable pub store_file : W → FileName → List (List ℕ) → Option (Bool × W)
  unfolding write_parts
  store_file w fname parts =
      let r = m.new_writable_file w fname in
      elim r.0 [
        | none ↦ some (false, r.1)
        | some f ↦ elim (write_parts f r.1 parts) [
          | none ↦ none
          | some (true, w') ↦ elim (m.writable.close f w') [
            | none ↦ none
            | some closed ↦ some (closed.1, closed.2)
          ]
          | some (false, w') ↦ elim (m.writable.destroy f w') [
            | none ↦ none
            | some w'' ↦ some (false, w'')
          ]
        ]
      ]

  -- `Read` of `n` bytes until it answers 0, for at most `rounds` rounds: what was read.
  unfoldable pub read_all : ℕ → m.ReadableFile → W → ℕ → Option (List ℕ × W)
  read_all zero f w n = none
  read_all (suc rounds) f w n = elim (m.readable.read f w n true) [
    | none ↦ none
    | some (none, w') ↦ some ([], w')
    | some (some [], w') ↦ some ([], w')
    | some (some (b ∷ bs), w') ↦ elim (read_all rounds f w' n) [
      | none ↦ none
      | some (rest, w'') ↦ some ((b ∷ bs) ++ rest, w'')
    ]
  ]

  -- The file is opened and read to its end; `none` inside where it is not opened.
  unfoldable pub load_file : ℕ → W → FileName → ℕ → Option (Option (List ℕ) × W)
  unfolding read_all
  load_file rounds w fname n =
      let r = m.new_readable_file w fname in
      elim r.0 [
        | none ↦ some (none, r.1)
        | some f ↦ elim (read_all rounds f r.1 n) [
          | none ↦ none
          | some (file_contents, w') ↦ some (some file_contents, w')
        ]
      ]

-- The parts in one.
abbrev pub join : List (List ℕ) → List ℕ
join [] = []
join (part ∷ parts) = part ++ join parts
