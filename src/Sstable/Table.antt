-- ===== src/Sstable/Table.antt =====
-- A whole SSTable, put together and read as tests/io/test_sstable_end_to_end.cpp does: the data blocks, the
-- index block and the footer, one behind the other. The test writes one data block; a list of them is
-- written here, each with its entry of the index.
pub mod Route
pub mod Index
pub mod Correct
use vroot_kv.Base.{
  ℕ, ◌-◌, List, [], ◌∷◌, ◌++◌, length, take, drop, ltb, if◌then◌else◌, Option, none, some,
}
use vroot_kv.Base.{Result, ok, err, fault, ◌>>=◌, ◌>>◌, throw_if}
use vroot_kv.Key.{Key}
use vroot_kv.Sstable.Format.{
  BlockHandle, SstableFooter, FormatError, table_magic, encode_footer, decode_footer,
}
use vroot_kv.Sstable.DataBlock.Builder.{BuilderError}
use vroot_kv.Sstable.DataBlock.Reader.{BlockError, new_reader, get}
use vroot_kv.Sstable.DataBlock.Layout.{Run}
use vroot_kv.Sstable.DataBlock.Build.{build}
use vroot_kv.Sstable.IndexBlock.{
  IndexError, IndexBlockBuilder, new_index, add_divider, finish_index, new_index_reader, find,
}

-- The exceptions of the classes. A file without a footer, and a handle that begins behind the file
-- (`substr`), are the last two.
pub data TableError : Type 0 where
  bad_footer : FormatError → TableError
  bad_builder : BuilderError → TableError
  bad_index : IndexError → TableError
  bad_block : BlockError → TableError
  no_footer out_of_file : TableError

-- An exception of a component as one of the table.
abbrev pub within {ℓ} : {E F : Type 0} {A : Type ℓ} → (E → F) → Result E A → Result F A
within wrap (ok a) = ok a
within wrap (err e) = err (wrap e)
within wrap fault = fault

-- What was written, and the index of it.
pub record TableWriter : Type 0 where
  pub file : List ℕ
  pub index : IndexBlockBuilder

abbrev pub new_table : TableWriter
new_table = record { file = []; index = new_index }

-- The smallest key of a data block, which is its divider.
abbrev pub first_key : Run → Key
first_key [] = []
first_key ((k, v) ∷ es) = k

-- One data block: it is built, the index is told where it will be, and it is written.
unfoldable pub append_block : ℕ → TableWriter → Run → Result TableError TableWriter
append_block restart_interval t es = do
  data_block ← within bad_builder (build restart_interval es)
  let handle : BlockHandle = record { offset = length t.file; size = length data_block }
  index ← within bad_index (add_divider t.index (first_key es) handle)
  ok (record { file = t.file ++ data_block; index = index })

unfoldable pub append_blocks : ℕ → TableWriter → List Run → Result TableError TableWriter
append_blocks restart_interval t [] = ok t
append_blocks restart_interval t (es ∷ blocks) =
    append_block restart_interval t es >>= λ t'. append_blocks restart_interval t' blocks

abbrev pub no_handle : BlockHandle
no_handle = record { offset = 0; size = 0 }

-- The footer, which names no filter, and the order in the file.
unfoldable pub finish_table : TableWriter → List ℕ
finish_table t =
    let index_block = (finish_index t.index).1 in
    let footer : SstableFooter = record {
      filter_handle = no_handle;
      index_handle = record { offset = length t.file; size = length index_block };
      magic = table_magic;
    } in
    (t.file ++ index_block) ++ encode_footer footer []

unfoldable pub write_table : ℕ → List Run → Result TableError (List ℕ)
write_table restart_interval blocks =
    append_blocks restart_interval new_table blocks >>= λ t. ok (finish_table t)

-- `substr(h.offset, h.size)`
unfoldable pub slice : List ℕ → BlockHandle → Result TableError (List ℕ)
slice file h =
    if ltb (length file) h.offset then err out_of_file else ok (take h.size (drop h.offset file))

unfoldable pub get_from_block : List ℕ → Key → BlockHandle → Result TableError (Option (List ℕ))
get_from_block file key handle = do
  data_block ← slice file handle
  within bad_block (new_reader data_block >>= λ r. get r key)

-- `none` where the index or the block answers `false`.
unfoldable pub get_from_table : List ℕ → Key → Result TableError (Option (List ℕ))
get_from_table file key = do
  throw_if (ltb (length file) 40) no_footer
  footer ← within bad_footer (decode_footer (drop (length file - 40) file))
  index_block ← slice file footer.0.index_handle
  found ← within bad_index (new_index_reader index_block >>= λ r. find r key)
  elim found [ none ↦ ok none | some handle ↦ get_from_block file key handle ]
