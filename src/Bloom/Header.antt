-- ===== src/Bloom/Header.antt =====
-- `serialize` and `Deserialize`: the header of 24 bytes and the array behind it.
use vroot_kv.Base.{
  ℕ, zero, suc, ◌+◌, ◌*◌, ◌/◌, ◌%◌, ◌^◌, ◌≤◌, ◌<◌, ◌≡◌, refl, sym, ap, ◌∙◌, arith, bit_and,
}
use vroot_kv.Base.{not, ◌||◌, le→ltb, ◌==◌, Result, ok, ◌>>◌, throw_if}
use vroot_kv.Base.{
  List, [], ◌∷◌, ◌++◌, append-nil, append_assoc, length, length-append, take, drop, drop-append,
}
use vroot_kv.Base.Bits.{bit_or_comm, bit_or_fields}
use vroot_kv.Codec.Bytes.{u8, u32, u64}
use vroot_kv.Codec.Fixed.{to_le, length-to_le}
use vroot_kv.Codec.Crc.Step.{low_eight}
use vroot_kv.Bloom.{BloomError, invalid_parameters, size_mismatch, BloomFilter, byte_count}
use vroot_kv.Bloom.{put_shifted, get_shifted, get_u32, get_u64, serialize, deserialize}
use native.Mathlib.Nat.{pow-suc, add-mul, mul_assoc, mul_comm, mul-le-mul_right}

put_shifted_lem : (n : ℕ) (dst : List ℕ) (v : ℕ) → put_shifted n dst v ≡ dst ++ to_le n v
unfolding put_shifted to_le
put_shifted_lem zero dst v = sym (append-nil dst)
put_shifted_lem (suc n) dst v =
    put_shifted_lem n (dst ++ (u8 (bit_and v 0xFF) ∷ [])) (v / 256)
    ∙ append_assoc dst (u8 (bit_and v 0xFF) ∷ []) (to_le n (v / 256))
    ∙ ap (λ b. dst ++ (b ∷ to_le n (v / 256))) (omega (arith, low_eight v))

-- A byte put in front of the bytes above it, at the weight `p`.
join_byte : (v p : ℕ) → v % 256 * p + v / 256 * (p * 256) ≡ v * p
join_byte v p =
    ap (λ n. v % 256 * p + n)
      (ap (λ n. v / 256 * n) (mul_comm p 256) ∙ sym (mul_assoc (v / 256) 256 p))
    ∙ sym (add-mul (v % 256) (v / 256 * 256) p)
    ∙ ap (λ n. n * p) (omega arith)

pow_next : (s n k : ℕ) → k ≡ n + 1 → 2 ^ (s + k) ≡ 2 ^ (s + n) * 2
pow_next s n k e = ap (λ j. 2 ^ j) (omega arith) ∙ pow-suc 2 (s + n)

pow_byte : (s : ℕ) → 2 ^ (s + 8) ≡ 2 ^ s * 256
pow_byte s =
    let same : 2 ^ (s + 0) ≡ 2 ^ s = ap (λ j. 2 ^ j) (omega arith) in
    omega (
      arith,
      same,
      pow_next s 0 1 refl,
      pow_next s 1 2 refl,
      pow_next s 2 3 refl,
      pow_next s 3 4 refl,
      pow_next s 4 5 refl,
      pow_next s 5 6 refl,
      pow_next s 6 7 refl,
      pow_next s 7 8 refl,
    )

below : (acc b p : ℕ) → acc < p → b < 256 → acc + b * p < p * 256
below acc b p h l = let most : b ≤ 255 = omega arith in omega (arith, mul-le-mul_right p most)

get_shifted_lem :
    {E : Type 0} (n acc shift v : ℕ) (rest : List ℕ)
    → acc < 2 ^ shift
    → v < 256 ^ n
    → get_shifted {E = E} n acc shift (to_le n v ++ rest) ≡ ok (acc + v * 2 ^ shift)
unfolding get_shifted to_le
get_shifted_lem zero acc shift v rest h l = ap ok (omega (arith, ap (λ n. n * 2 ^ shift) none))
  where
    none : v ≡ 0
    none = omega arith
get_shifted_lem {E} (suc n) acc shift v rest h l =
    rw (bit_or_comm acc (v % 256 * 2 ^ shift), bit_or_fields shift (v % 256) acc h)
      (get_shifted_lem {E = E} n (v % 256 * 2 ^ shift + acc) (shift + 8) (v / 256) rest
          (omega (arith, weight, below acc (v % 256) (2 ^ shift) h (omega arith)))
          (omega (arith, pow-suc 256 n))
        ∙ ap ok (
            ap (λ p. v % 256 * 2 ^ shift + acc + v / 256 * p) weight
            ∙ omega (arith, join_byte v (2 ^ shift))))
  where
    weight : 2 ^ (shift + 8) ≡ 2 ^ shift * 256
    weight = pow_byte shift

unfoldable pub header : ℕ → ℕ → List ℕ
header m k = to_le 4 0x46424B56 ++ (to_le 4 1 ++ (to_le 8 m ++ (to_le 4 k ++ to_le 4 0)))

pub length-header : (m k : ℕ) → length (header m k) ≡ 24
unfolding header
length-header m k = omega (
  arith,
  length-append (to_le 4 0x46424B56) (to_le 4 1 ++ (to_le 8 m ++ (to_le 4 k ++ to_le 4 0))),
  length-append (to_le 4 1) (to_le 8 m ++ (to_le 4 k ++ to_le 4 0)),
  length-append (to_le 8 m) (to_le 4 k ++ to_le 4 0),
  length-append (to_le 4 k) (to_le 4 0),
  length-to_le 4 0x46424B56,
  length-to_le 4 1,
  length-to_le 8 m,
  length-to_le 4 k,
  length-to_le 4 0,
)

pub serialize_lem :
    (f : BloomFilter)
    → f.num_bits < 2 ^ 64
    → f.num_hashes < 2 ^ 32
    → serialize f ≡ header f.num_bits f.num_hashes ++ f.bits
unfolding serialize header
serialize_lem f hm hk =
    rw
      (
        put_shifted_lem 4 [] 0x46424B56,
        put_shifted_lem 4 (to_le 4 0x46424B56) 1,
        bits_fit,
        hashes_fit,
        put_shifted_lem 8 (to_le 4 0x46424B56 ++ to_le 4 1) f.num_bits,
        put_shifted_lem 4 ((to_le 4 0x46424B56 ++ to_le 4 1) ++ to_le 8 f.num_bits) f.num_hashes,
        put_shifted_lem 4
            (((to_le 4 0x46424B56 ++ to_le 4 1) ++ to_le 8 f.num_bits) ++ to_le 4 f.num_hashes) 0,
      )
      (simp append_assoc)
  where
    bits_fit : u64 f.num_bits ≡ f.num_bits
    bits_fit = omega arith

    hashes_fit : u32 f.num_hashes ≡ f.num_hashes
    hashes_fit = omega arith

-- What `Deserialize` does behind a header that is read.
unfoldable pub behind_header : ℕ → ℕ → List ℕ → Result BloomError BloomFilter
behind_header m k bits = do
  throw_if (m == 0 || k == 0) invalid_parameters
  throw_if (not (24 + length bits == 24 + byte_count m)) size_mismatch
  ok (record { num_bits = m; num_hashes = k; bits = take (byte_count m) bits })

read_at :
    (n v skip : ℕ) (front rest : List ℕ)
    → length front ≡ skip
    → v < 256 ^ n
    → get_shifted {E = BloomError} n 0 0 (drop skip (front ++ (to_le n v ++ rest))) ≡ ok v
read_at n v skip front rest size h =
    ap (get_shifted {E = BloomError} n 0 0) (drop-append skip front (to_le n v ++ rest) size)
    ∙ get_shifted_lem {E = BloomError} n 0 0 v rest (omega arith) h
    ∙ ap ok (omega arith)

module _ (m k : ℕ) (bits : List ℕ) (hm : m < 2 ^ 64) (hk : k < 2 ^ 32) where
  abbrev whole : List ℕ
  whole = header m k ++ bits

  abbrev magic_part : List ℕ
  magic_part = to_le 4 0x46424B56

  abbrev version_part : List ℕ
  version_part = magic_part ++ to_le 4 1

  abbrev bits_part : List ℕ
  bits_part = version_part ++ to_le 8 m

  split_magic :
      whole ≡ [] ++ (magic_part ++ (to_le 4 1 ++ (to_le 8 m ++ (to_le 4 k ++ (to_le 4 0 ++ bits)))))
  unfolding header
  split_magic = simp append_assoc

  split_version :
      whole ≡ magic_part ++ (to_le 4 1 ++ (to_le 8 m ++ (to_le 4 k ++ (to_le 4 0 ++ bits))))
  split_version = split_magic

  split_bits : whole ≡ version_part ++ (to_le 8 m ++ (to_le 4 k ++ (to_le 4 0 ++ bits)))
  unfolding header
  split_bits = simp append_assoc

  split_hashes : whole ≡ bits_part ++ (to_le 4 k ++ (to_le 4 0 ++ bits))
  unfolding header
  split_hashes = simp append_assoc

  length-version_part : length version_part ≡ 8
  length-version_part =
      omega
        (arith, length-append magic_part (to_le 4 1), length-to_le 4 0x46424B56, length-to_le 4 1)

  length-bits_part : length bits_part ≡ 16
  length-bits_part =
      omega (arith, length-append version_part (to_le 8 m), length-version_part, length-to_le 8 m)

  at_magic : get_u32 whole ≡ ok 0x46424B56
  at_magic = ap get_u32 split_magic ∙ read_at 4 0x46424B56 0 [] _ refl (omega arith)

  at_version : get_u32 (drop 4 whole) ≡ ok 1
  at_version =
      ap (λ bs. get_u32 (drop 4 bs)) split_version
      ∙ read_at 4 1 4 magic_part _ (length-to_le 4 _) (omega arith)

  at_bits : get_u64 (drop 8 whole) ≡ ok m
  at_bits =
      ap (λ bs. get_u64 (drop 8 bs)) split_bits
      ∙ read_at 8 m 8 version_part _ length-version_part (omega arith)

  at_hashes : get_u32 (drop 16 whole) ≡ ok k
  at_hashes =
      ap (λ bs. get_u32 (drop 16 bs)) split_hashes
      ∙ read_at 4 k 16 bits_part _ length-bits_part (omega arith)

  length-whole : length whole ≡ 24 + length bits
  length-whole = omega (arith, length-append (header m k) bits, length-header m k)

  pub deserialize_lem : deserialize whole ≡ behind_header m k bits
  unfolding deserialize behind_header
  deserialize_lem =
      rw
        (
          le→ltb (length whole) 24 (omega (arith, length-whole)),
          at_magic,
          at_version,
          at_bits,
          at_hashes,
          length-whole,
          drop-append 24 (header m k) bits (length-header m k),
        )
        refl
