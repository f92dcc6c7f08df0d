-- ===== src/Sstable/Format.antt =====
-- include/VrootKV/io/sstable_format.h: block handles and the footer of an SSTable file.
pub mod RoundTrip
use vroot_kv.Base.{ℕ, ◌+◌, List, ◌++◌, length, take, drop, ltb, Result, ok, ◌>>=◌, ◌>>◌, throw_if}
use vroot_kv.Codec.Fixed.{to_le, from_le}

pub record BlockHandle : Type 0 where
  pub offset : ℕ
  pub size : ℕ

pub record SstableFooter : Type 0 where
  pub filter_handle : BlockHandle
  pub index_handle : BlockHandle
  pub magic : ℕ

-- The default of `magic`.
abbrev pub table_magic : ℕ
table_magic = 0xF00DBAADF00DBAAD

-- The messages of the `std::runtime_error`s.
pub data FormatError : Type 0 where
  truncated_handle truncated_footer missing_magic : FormatError

-- `BlockHandle::EncodeTo` and `BlockHandle::DecodeFrom`; the second also gives what is left of the view.
unfoldable pub encode_handle : BlockHandle → List ℕ → List ℕ
encode_handle h dst = dst ++ (to_le 8 h.offset ++ to_le 8 h.size)

unfoldable pub decode_handle : List ℕ → Result FormatError (BlockHandle × List ℕ)
decode_handle input = do
  throw_if (ltb (length input) 16) truncated_handle
  offset ← from_le 8 input
  size ← from_le 8 (drop 8 input)
  ok (record { offset = offset; size = size }, drop 16 input)

-- `SSTableFooter::EncodeTo` and `SSTableFooter::DecodeFrom`.
unfoldable pub encode_footer : SstableFooter → List ℕ → List ℕ
unfolding encode_handle
encode_footer f dst =
    let with_filter = encode_handle f.filter_handle dst in
    let with_index = encode_handle f.index_handle with_filter in with_index ++ to_le 8 f.magic

unfoldable pub decode_footer : List ℕ → Result FormatError (SstableFooter × List ℕ)
decode_footer input = do
  throw_if (ltb (length input) 40) truncated_footer
  (filter_handle, after_filter) ← decode_handle (take 40 input)
  (index_handle, after_index) ← decode_handle after_filter
  throw_if (ltb (length after_index) 8) missing_magic
  magic ← from_le 8 after_index
  ok (
    record { filter_handle = filter_handle; index_handle = index_handle; magic = magic },
    drop 40 input,
  )
