-- ===== src/Sstable/IndexBlock.antt =====
-- Index blocks, which lead from divider keys to block handles: `IndexBlockBuilder` of
-- src/io/sstable_builder.cpp and `IndexBlockReader` of src/io/sstable_reader.cpp. Blocks are below 2 ^ 32
-- bytes in the theorems, so that `i * 4` of an index of 32 bits is a plain number here.
pub mod Layout
pub mod Search
pub mod Correct
pub mod Safety
use vroot_kv.Base.{
  ℕ, zero, suc, ◌+◌, ◌-◌, ◌*◌, ◌/◌, ◌^◌, List, [], ◌∷◌, ◌++◌, length, take, drop, get_elem?,
}
use vroot_kv.Base.{Bool, not, ◌&&◌, ltb, ◌==◌, if◌then◌else◌, Option, none, some}
use vroot_kv.Base.{Result, ok, err, fault, ◌>>=◌, ◌>>◌, throw_if}
use vroot_kv.Codec.Bytes.{u32}
use vroot_kv.Codec.Fixed.{put_fixed32, decode_fixed32}
use vroot_kv.Codec.Varint.{put_varint32, get_varint32}
use vroot_kv.Key.{Key, key_lt, key_le}
use vroot_kv.Sstable.Format.{BlockHandle, FormatError, encode_handle, decode_handle}
use vroot_kv.Sstable.DataBlock.Builder.{is_empty, put_all}

-- What the builder, the constructor of the reader, `substr`, and `BlockHandle::DecodeFrom` throw.
pub data IndexError : Type 0 where
  keys_not_increasing index_too_small index_corrupt corrupt_offsets out_of_range : IndexError
  bad_handle : FormatError → IndexError

pub record IndexBlockBuilder : Type 0 where
  pub buffer : List ℕ
  pub offsets : List ℕ
  pub last_key : Key

abbrev pub new_index : IndexBlockBuilder
new_index = record { buffer = []; offsets = []; last_key = [] }

unfoldable pub add_divider :
    IndexBlockBuilder → Key → BlockHandle → Result IndexError IndexBlockBuilder
add_divider b divider_key handle =
    if not (is_empty b.last_key) && not (key_lt b.last_key divider_key)
    then err keys_not_increasing
    else (let with_length = put_varint32 b.buffer (u32 (length divider_key)) in
        ok (record {
          buffer = encode_handle handle (with_length ++ divider_key);
          offsets = b.offsets ++ (u32 (length b.buffer) ∷ []);
          last_key = divider_key;
        }))

-- The builder afterwards, and the block. There is no mark that the builder is finished.
unfoldable pub finish_index : IndexBlockBuilder → IndexBlockBuilder × List ℕ
finish_index b =
    let block = put_fixed32 (put_all b.buffer b.offsets) (u32 (length b.offsets)) in
    (record b { buffer = block }, block)

-- `full_` is read by the constructor only, and `num_` is the length of `offsets_`.
pub record IndexBlockReader : Type 0 where
  pub entries : List ℕ
  pub offsets : List ℕ

-- The loop over `num` offsets from `p` on. `previous` is 0 in the first round, of which no offset is below.
unfoldable pub read_checked : ℕ → ℕ → ℕ → List ℕ → Result IndexError (List ℕ)
read_checked zero limit previous p = ok []
read_checked (suc num) limit previous p = do
  off ← decode_fixed32 p
  throw_if (ltb off previous) corrupt_offsets
  throw_if (ltb limit off) corrupt_offsets
  offs ← read_checked num limit off (drop 4 p)
  ok (off ∷ offs)

unfoldable pub new_index_reader : List ℕ → Result IndexError IndexBlockReader
new_index_reader block = do
  throw_if (ltb (length block) 4) index_too_small
  num ← decode_fixed32 (drop (length block - 4) block)
  throw_if (ltb (length block / 4) num) index_corrupt
  let off_bytes = num * 4
  throw_if (ltb (length block) (4 + off_bytes)) index_corrupt
  offsets ←
      read_checked num (length block - 4 - off_bytes) 0 (drop (length block - 4 - off_bytes) block)
  ok (record { entries = take (length block - 4 - off_bytes) block; offsets = offsets })

-- `klen` and the length of a handle are added as `size_t`s.
unfoldable pub split_key : List ℕ → Result IndexError (Option (Key × List ℕ))
split_key sv = elim (get_varint32 sv) [
  | none ↦ ok none
  | some (klen, rest) ↦
      if ltb (length rest) (klen + 16) then ok none else ok (some (take klen rest, drop klen rest))
]

-- `BlockHandle::DecodeFrom`
unfoldable pub handle_of : List ℕ → Result IndexError BlockHandle
handle_of sv = elim (decode_handle sv) [
  | ok h ↦ ok h.0
  | err e ↦ err (bad_handle e)
  | fault ↦ fault
]

module _ (r : IndexBlockReader) where
  -- `key_at` without its last part: the key of an entry, and the bytes behind it. `none` is the answer
  -- `false`.
  unfoldable pub key_at : ℕ → Result IndexError (Option (Key × List ℕ))
  key_at idx = elim (get_elem? r.offsets idx) [
    | none ↦ fault
    | some off ↦
        if ltb (length r.entries) off then err out_of_range else split_key (drop off r.entries)
  ]

  -- The binary search. `none`: the search gave up. To run out of rounds is a fault, and so is an `int` sum that
  -- overflows.
  unfoldable pub search_divider : Key → ℕ → ℕ → ℕ → Result IndexError (Option ℕ)
  search_divider key zero lo hi = if ltb lo hi then fault else ok (some lo)
  search_divider key (suc rounds) lo hi =
      let mid = (lo + hi + 1) / 2 in
      let upper = search_divider key rounds mid hi in
      let lower = search_divider key rounds lo (mid - 1) in
      if ltb lo hi
      then (if not (ltb (lo + hi + 1) (2 ^ 31))
          then fault
          else key_at mid >>= λ found. elim found [
            | none ↦ ok none
            | some k ↦ if key_le k.0 key then upper else lower
          ])
      else ok (some lo)

  -- `some h` is the answer `true` with `h` for `handle_out`.
  unfoldable pub find : Key → Result IndexError (Option BlockHandle)
  unfolding key_at search_divider
  find key =
      if length r.offsets == 0
      then ok none
      else search_divider key (length r.offsets) 0 (length r.offsets - 1) >>= λ found. elim found [
        | none ↦ ok none
        | some lo ↦ key_at lo >>= λ e. elim e [
          | none ↦ ok none
          | some (k, sv) ↦ handle_of sv >>= λ h. ok (if key_lt key k then none else some h)
        ]
      ]
