-- ===== src/Bloom.antt =====
-- `BloomFilter` of src/common/bloom_filter.cpp and include/VrootKV/common/bloom_filter.h.
pub mod Hash
pub mod BitArray
pub mod Member
pub mod Header
pub mod RoundTrip
pub mod Sizing
use vroot_kv.Base.{
  ℕ, zero, suc, ◌+◌, ◌-◌, ◌*◌, ◌/◌, ◌%◌, ◌^◌, bit_and, bit_or, Bool, true, false, not, ◌||◌, ltb,
  ◌==◌, if◌then◌else◌,
}
use vroot_kv.Base.{
  List, [], ◌∷◌, ◌++◌, length, drop, take, replicate, set, get_elem?, Option, none, some,
}
use vroot_kv.Base.{Result, ok, err, fault, ◌>>=◌, ◌>>◌, throw_if}
use vroot_kv.Codec.Bytes.{u8, u32, u64}
use vroot_kv.Bloom.Hash.{hash64}

-- The `std::runtime_error`s of `Deserialize`.
pub data BloomError : Type 0 where
  truncated_header bad_magic_or_version invalid_parameters size_mismatch : BloomError

pub record BloomFilter : Type 0 where
  pub num_bits : ℕ
  pub num_hashes : ℕ
  pub bits : List ℕ

-- `(m + 7u) / 8u` in 64 bits
abbrev pub byte_count : ℕ → ℕ
byte_count m = u64 (m + 7) / 8

-- The public constructor, with the sizes that `OptimalNumBits` and `OptimalNumHashes` computed in
-- floating point.
unfoldable pub new_filter : ℕ → ℕ → BloomFilter
new_filter num_bits num_hashes = record {
  num_bits = num_bits;
  num_hashes = num_hashes;
  bits = replicate (byte_count num_bits) 0;
}

-- `1u << (bit_index & 7u)`
abbrev pub mask : ℕ → ℕ
mask bit_index = u8 (2 ^ bit_and bit_index 7)

-- `bits_[byte] |= mask`
unfoldable pub set_bit : List ℕ → ℕ → Result BloomError (List ℕ)
set_bit bits bit_index = elim (get_elem? bits (bit_index / 2 ^ 3)) [
  | none ↦ fault
  | some byte ↦ ok (set bits (bit_index / 2 ^ 3) (bit_or byte (mask bit_index)))
]

unfoldable pub get_bit : List ℕ → ℕ → Result BloomError Bool
get_bit bits bit_index = elim (get_elem? bits (bit_index / 2 ^ 3)) [
  | none ↦ fault
  | some byte ↦ ok (not (bit_and byte (mask bit_index) == 0))
]

-- The loop of `positions`: `k` positions, the first one `x`.
unfoldable pub position_loop : ℕ → ℕ → ℕ → ℕ → List ℕ
position_loop zero step m x = []
position_loop (suc k) step m x =
    x ∷ position_loop k step m (if m == 0 then x else u64 (x + step) % m)

-- The array that the caller gives has room for `num_hashes_` positions, on the stack or in `dyn`.
unfoldable pub positions : ℕ → List ℕ → ℕ → List ℕ
unfolding position_loop
positions num_bits key k =
    let h1 = hash64 key 0x243F6A8885A308D3 in
    let h2 = hash64 key 0x13198A2E03707344 in
    let step = bit_or (u64 (h2 * 2)) 1 in
    position_loop k step num_bits (if num_bits == 0 then 0 else h1 % num_bits)

unfoldable pub set_bits : List ℕ → List ℕ → Result BloomError (List ℕ)
set_bits bits [] = ok bits
set_bits bits (i ∷ idxs) = set_bit bits i >>= λ bits'. set_bits bits' idxs

unfoldable pub add : BloomFilter → List ℕ → Result BloomError BloomFilter
add f key =
    if f.num_bits == 0
    then ok f
    else (set_bits f.bits (positions f.num_bits key f.num_hashes) >>= λ bits.
        ok (record f { bits = bits }))

unfoldable pub get_bits : List ℕ → List ℕ → Result BloomError Bool
get_bits bits [] = ok true
get_bits bits (i ∷ idxs) = get_bit bits i >>= λ b. if b then get_bits bits idxs else ok false

unfoldable pub might_contain : BloomFilter → List ℕ → Result BloomError Bool
might_contain f key =
    if f.num_bits == 0 then ok false else get_bits f.bits (positions f.num_bits key f.num_hashes)

-- `PutU32` and `PutU64`: the lowest byte first, by shifts.
unfoldable pub put_shifted : ℕ → List ℕ → ℕ → List ℕ
put_shifted zero dst v = dst
put_shifted (suc n) dst v = put_shifted n (dst ++ (u8 (bit_and v 0xFF) ∷ [])) (v / 2 ^ 8)

abbrev pub put_u32 : List ℕ → ℕ → List ℕ
put_u32 dst v = put_shifted 4 dst v

abbrev pub put_u64 : List ℕ → ℕ → List ℕ
put_u64 dst v = put_shifted 8 dst v

-- `GetU32` and `GetU64`: `acc | p[0] << shift | …` for the `n` bytes at `p`
unfoldable pub get_shifted : {E : Type 0} → ℕ → ℕ → ℕ → List ℕ → Result E ℕ
get_shifted zero acc shift p = ok acc
get_shifted (suc n) acc shift [] = fault
get_shifted (suc n) acc shift (b ∷ p) = get_shifted n (bit_or acc (b * 2 ^ shift)) (shift + 8) p

abbrev pub get_u32 : List ℕ → Result BloomError ℕ
get_u32 p = get_shifted 4 0 0 p

abbrev pub get_u64 : List ℕ → Result BloomError ℕ
get_u64 p = get_shifted 8 0 0 p

unfoldable pub serialize : BloomFilter → List ℕ
serialize f =
    let with_magic = put_u32 [] 0x46424B56 in
    let with_version = put_u32 with_magic 1 in
    let with_bits = put_u64 with_version (u64 f.num_bits) in
    let with_k = put_u32 with_bits (u32 f.num_hashes) in
    let with_pad = put_u32 with_k 0 in with_pad ++ f.bits

unfoldable pub deserialize : List ℕ → Result BloomError BloomFilter
deserialize bytes = do
  throw_if (ltb (length bytes) 24) truncated_header
  magic ← get_u32 bytes
  version ← get_u32 (drop 4 bytes)
  m_bits ← get_u64 (drop 8 bytes)
  k ← get_u32 (drop 16 bytes)
  throw_if (not (magic == 0x46424B56) || not (version == 1)) bad_magic_or_version
  throw_if (m_bits == 0 || k == 0) invalid_parameters
  let needed = byte_count m_bits
  throw_if (not (length bytes == 24 + needed)) size_mismatch
  ok (record { num_bits = m_bits; num_hashes = k; bits = take needed (drop 24 bytes) })
