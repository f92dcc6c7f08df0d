-- ===== src/Sstable/DataBlock/Reader.antt =====
-- `DataBlockReader` of src/io/sstable_reader.cpp. Blocks are below 2 ^ 32 bytes in the theorems, so that `i * 4` of an
-- index of 32 bits is a plain number here.
use vroot_kv.Base.{◌^◌}
use vroot_kv.Base.{
  ℕ, zero, suc, ◌+◌, ◌-◌, ◌*◌, ◌/◌, List, [], ◌∷◌, ◌++◌, length, take, drop, get_elem?,
}
use vroot_kv.Base.{Bool, false, not, ◌||◌, ltb, leb, ◌==◌, if◌then◌else◌, Option, none, some}
use vroot_kv.Base.{Result, ok, fault, ◌>>=◌, ◌>>◌, throw_if}
use vroot_kv.Codec.Bytes.{u32, u64}
use vroot_kv.Codec.Fixed.{decode_fixed32}
use vroot_kv.Key.{Key, key_lt, key_le, key_eq}

-- The `std::runtime_error`s of the constructor.
pub data BlockError : Type 0 where
  block_too_small corrupt : BlockError

-- `full_` is read by the constructor only.
pub record DataBlockReader : Type 0 where
  pub entries : List ℕ
  pub restarts : List ℕ

-- The `num` integers from `p` on.
unfoldable pub read_offsets : ℕ → List ℕ → Result BlockError (List ℕ)
read_offsets zero p = ok []
read_offsets (suc num) p = do
  off ← decode_fixed32 p
  offs ← read_offsets num (drop 4 p)
  ok (off ∷ offs)

unfoldable pub new_reader : List ℕ → Result BlockError DataBlockReader
new_reader block = do
  throw_if (ltb (length block) 4) block_too_small
  num_restarts ← decode_fixed32 (drop (length block - 4) block)
  throw_if (ltb (length block / 4) num_restarts) corrupt
  let rest_bytes = num_restarts * 4
  throw_if (ltb (length block) (4 + rest_bytes)) corrupt
  restarts ← read_offsets num_restarts (drop (length block - 4 - rest_bytes) block)
  ok (record { entries = take (length block - 4 - rest_bytes) block; restarts = restarts })

-- The header of the entry at `off`, three integers. The bytes are read wherever `off` points.
pub record Header : Type 0 where
  pub shared : ℕ
  pub nonshared : ℕ
  pub vlen : ℕ

unfoldable pub read_header : List ℕ → ℕ → Result BlockError Header
read_header entries off = do
  shared ← decode_fixed32 (drop off entries)
  nonshared ← decode_fixed32 (drop (off + 4) entries)
  vlen ← decode_fixed32 (drop (off + 8) entries)
  ok (record { shared = shared; nonshared = nonshared; vlen = vlen })

abbrev pub need : Header → ℕ
need h = 12 + h.nonshared + h.vlen

-- The `n` bytes from `p` on, which are read wherever `p` points.
unfoldable pub bytes_at : List ℕ → ℕ → ℕ → Result BlockError (List ℕ)
bytes_at entries p n = if ltb (length entries) (p + n) then fault else ok (take n (drop p entries))

-- `key_at_offset`: `none` is the answer `false`. `off + 12` is a sum of 32-bit numbers, `off + need` one
-- of 64-bit numbers.
unfoldable pub key_at_offset : List ℕ → ℕ → Result BlockError (Option Key)
unfolding bytes_at
key_at_offset entries off =
    if ltb (length entries) (u32 (off + 12))
    then ok none
    else read_header entries off >>= λ h.
        if not (h.shared == 0)
        then ok none
        else if ltb (length entries) (u64 (off + need h))
        then ok none
        else bytes_at entries (off + 12) h.nonshared >>= λ k. ok (some k)

-- `off >= restarts_[i]`, if there is such a restart
abbrev pub past : Option ℕ → ℕ → Bool
past none off = false
past (some next) off = leb next off

module _ (r : DataBlockReader) (key : Key) where
  -- `restarts_[i]`
  unfoldable pub restart_at : ℕ → Result BlockError ℕ
  restart_at i = elim (get_elem? r.restarts i) [ none ↦ fault | some off ↦ ok off ]

  -- The binary search. `none`: the search gave up. To run out of rounds is a fault, and so is an `int` sum that
  -- overflows.
  unfoldable pub search_run : ℕ → ℕ → ℕ → Result BlockError (Option ℕ)
  search_run zero lo hi = if ltb lo hi then fault else ok (some lo)
  search_run (suc rounds) lo hi =
      let mid = (lo + hi + 1) / 2 in
      let upper = search_run rounds mid hi in
      let lower = search_run rounds lo (mid - 1) in
      if ltb lo hi
      then (if not (ltb (lo + hi + 1) (2 ^ 31))
          then fault
          else restart_at mid >>= λ off. key_at_offset r.entries off >>= λ found. elim found [
            | none ↦ ok none
            | some k ↦ if key_le k key then upper else lower
          ])
      else ok (some lo)

  -- `lo + 1 < restarts_.size() && off >= restarts_[lo + 1]`
  abbrev pub at_boundary : ℕ → ℕ → Bool
  at_boundary lo off = past (get_elem? r.restarts (lo + 1)) off

  -- The key of the entry, from the one before it: `none` if that is too short.
  abbrev pub rebuild : Key → Header → ℕ → Result BlockError (Option Key)
  rebuild prev h off = bytes_at r.entries (off + 12) h.nonshared >>= λ delta. ok (
      if h.shared == 0
      then some delta
      else if ltb (length prev) h.shared
      then none
      else some (take h.shared prev ++ delta))

  -- The scan of run `lo`. `none` is the answer `false`. To run out of rounds is a fault.
  unfoldable pub scan_run : ℕ → ℕ → ℕ → Key → Result BlockError (Option (List ℕ))
  unfolding bytes_at
  scan_run zero lo off prev =
      if not (ltb off (length r.entries)) || at_boundary lo off then ok none else fault
  scan_run (suc rounds) lo off prev =
      if not (ltb off (length r.entries)) || at_boundary lo off
      then ok none
      else if ltb (length r.entries) (u32 (off + 12))
      then ok none
      else read_header r.entries off >>= λ h.
          if ltb (length r.entries) (u64 (off + need h))
          then ok none
          else rebuild prev h off >>= λ built. elim built [
            | none ↦ ok none
            | some cur ↦
                let more = scan_run rounds lo (u32 (off + need h)) cur in
                if key_eq cur key
                then (bytes_at r.entries (off + 12 + h.nonshared) h.vlen >>= λ v. ok (some v))
                else if key_lt key cur
                then ok none
                else more
          ]

  -- `some v` is the answer `true` with `v` for `value_out`.
  unfoldable pub get : Result BlockError (Option (List ℕ))
  unfolding restart_at search_run scan_run
  get =
      if length r.restarts == 0
      then ok none
      else search_run (length r.restarts) 0 (length r.restarts - 1) >>= λ found. elim found [
        | none ↦ ok none
        | some lo ↦ restart_at lo >>= λ off. scan_run (length r.entries) lo off []
      ]
