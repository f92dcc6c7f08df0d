-- ===== src/Sstable/DataBlock/Layout.antt =====
-- What a data block holds, in plain terms: runs of entries, and the reads of an entry.
use vroot_kv.Base.{ℕ, zero, suc, ◌+◌, ◌-◌, ◌*◌, ◌^◌, ◌≤◌, ◌<◌, ◌≡◌, refl, sym, ap, ◌∙◌, arith, min}
use vroot_kv.Base.{
  List, [], ◌∷◌, ◌++◌, append_assoc, length, take, drop, get_elem?, get_or, split_at, All, ◌==◌,
  if◌then◌else◌, Bool, true, false,
}
use vroot_kv.Base.{
  length-append, length-drop, take-append, drop-append, drop-append_right, take-append-drop,
}
use vroot_kv.Base.{Option, none, some, Result, ok, ◌>>=◌}
use vroot_kv.Codec.Bytes.{u32}
use vroot_kv.Codec.Fixed.{to_le, from_le, decode_fixed32, length-to_le, from_le-to_le}
use vroot_kv.Key.{Key, key_lt, key_eq}
use vroot_kv.Sstable.DataBlock.Builder.{shared_prefix, shared_loop}
use vroot_kv.Sstable.DataBlock.Reader.{BlockError, Header, read_header}
pub use vroot_kv.Entries.{Entry, Ascending, IsSorted}
unfoldable pub use vroot_kv.Entries.{lookup}
pub mod Parts
pub mod Runs

abbrev pub Run : Type 0
Run = List Entry

-- One entry as its five parts.
unfoldable pub entry_bytes : ℕ → Key → List ℕ → List ℕ
entry_bytes shared k v =
    to_le 4 shared ++ (to_le 4 (length k - shared) ++ (to_le 4 (length v) ++ (drop shared k ++ v)))

-- The entries behind the key `prev`, and the runs one behind the other.
unfoldable pub encode_run : Key → Run → List ℕ
encode_run prev [] = []
encode_run prev ((k, v) ∷ es) = entry_bytes (shared_prefix prev k) k v ++ encode_run k es

unfoldable pub encode_runs : List Run → List ℕ
encode_runs [] = []
encode_runs (r ∷ rs) = encode_run [] r ++ encode_runs rs

-- Where each run begins, the first one at `base`.
unfoldable pub run_offsets : ℕ → List Run → List ℕ
run_offsets base [] = []
run_offsets base (r ∷ rs) = base ∷ run_offsets (base + length (encode_run [] r)) rs

abbrev pub flatten : List Run → Run
flatten [] = []
flatten (r ∷ rs) = r ++ flatten rs

-- Key and value have lengths that fit the header.
abbrev pub IsEntry : Entry → Type 0
IsEntry (k, v) = (length k < 2 ^ 32) × (length v < 2 ^ 32)
