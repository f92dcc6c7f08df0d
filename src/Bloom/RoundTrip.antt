-- ===== src/Bloom/RoundTrip.antt =====
-- `serialize` and `Deserialize` together, and `Deserialize` on any bytes.
use vroot_kv.Base.{
  ℕ, zero, suc, ◌+◌, ◌-◌, ◌*◌, ◌^◌, ◌≤◌, ◌<◌, ◌≡◌, ◌⊎◌, inl, inr, refl, sym, ap, ◌∙◌, arith, bit_or,
}
use vroot_kv.Base.{false, not, ◌||◌, ltb, ltb→le, ◌==◌, ==_refl, Bool-cases, ok, err, fault}
use vroot_kv.Base.{List, [], ◌∷◌, append-nil, length, take, drop, take_all}
use vroot_kv.Bloom.{
  BloomError, invalid_parameters, size_mismatch, BloomFilter, byte_count, get_bit, positions,
  position_loop, might_contain, get_bits,
}
use vroot_kv.Bloom.{get_shifted, serialize, deserialize}
use vroot_kv.Bloom.Member.{IsFilter}
use vroot_kv.Base.{length-drop, length-take}
use vroot_kv.Bloom.{truncated_header, bad_magic_or_version}
use vroot_kv.Bloom.Header.{header, behind_header, serialize_lem, deserialize_lem}

-- The bytes of a filter that has bits, fewer than 2 ^ 64 - 7, an array of its size and at least one hash
-- give the same filter back.
pub deserialize-serialize :
    (f : BloomFilter)
    → IsFilter f
    → 0 < f.num_hashes
    → f.num_hashes < 2 ^ 32
    → deserialize (serialize f) ≡ ok f
deserialize-serialize f v some_hashes hk =
    ap deserialize (serialize_lem f hm hk)
    ∙ deserialize_lem f.num_bits f.num_hashes f.bits hm hk
    ∙ accepted
  where
    hm : f.num_bits < 2 ^ 64
    hm = omega (arith, v.num_bits_fits)

    positive : (f.num_bits == 0 || f.num_hashes == 0) ≡ false
    positive = ground (arith, v.some_bits)

    accepted : behind_header f.num_bits f.num_hashes f.bits ≡ ok f
    accepted =
        unfold behind_header in
        rw
          (
            positive,
            ap (λ n. 24 + n == 24 + byte_count f.num_bits) v.length_eq,
            ==_refl (24 + byte_count f.num_bits),
            take_all (byte_count f.num_bits) f.bits (omega (arith, v.length_eq)),
          )
          refl

-- `Deserialize` rounds the number of bits up to bytes with a sum that wraps: seven numbers of bits at the
-- top of 64 bits pass with no array behind the header, and `might_contain` then reads outside the
-- empty array, whatever the key.
pub deserialize_wraps :
    (m k : ℕ) (key : List ℕ)
    → 2 ^ 64 - 7 ≤ m
    → m < 2 ^ 64
    → 0 < k
    → k < 2 ^ 32
    → (deserialize (header m k) ≡ ok (record { num_bits = m; num_hashes = k; bits = [] }))
      × (might_contain (record { num_bits = m; num_hashes = k; bits = [] }) key ≡ fault)
deserialize_wraps m k key low hm some_hashes hk = (
  ap deserialize (sym (append-nil (header m k))) ∙ deserialize_lem m k [] hm hk ∙ accepted,
  faults k some_hashes,
)
  where
    no_bytes : byte_count m ≡ 0
    no_bytes = omega arith

    positive : (m == 0 || k == 0) ≡ false
    positive = ground arith

    accepted : behind_header m k [] ≡ ok (record { num_bits = m; num_hashes = k; bits = [] })
    accepted = unfold behind_header in rw (positive, no_bytes) refl

    not_zero : (m == 0) ≡ false
    not_zero = ground arith

    faults :
        (n : ℕ)
        → 0 < n
        → might_contain (record { num_bits = m; num_hashes = n; bits = [] }) key ≡ fault
    faults zero h = absurd (omega arith)
    faults (suc n) h =
        unfold might_contain positions position_loop get_bits get_bit in rw (not_zero) refl

get_shifted_inside :
    {E : Type 0} (n acc shift : ℕ) (p : List ℕ)
    → n ≤ length p
    → (v : ℕ) × (get_shifted {E = E} n acc shift p ≡ ok v)
unfolding get_shifted
get_shifted_inside zero acc shift p h = (acc, refl)
get_shifted_inside (suc n) acc shift [] h = absurd (omega arith)
get_shifted_inside {E} (suc n) acc shift (b ∷ p) h =
    get_shifted_inside {E = E} n (bit_or acc (b * 2 ^ shift)) (shift + 8) p (omega arith)

-- `Deserialize` throws, or returns a filter with bits and hashes whose array is as long as the sum that may
-- wrap says: it reads no byte outside its input, whatever the bytes are.
pub deserialize_total :
    (input : List ℕ)
    → ((e : BloomError) × (deserialize input ≡ err e))
      ⊎ ((f : BloomFilter) × (deserialize input ≡ ok f)
          × (length f.bits ≡ byte_count f.num_bits)
          × (0 < f.num_bits)
          × (0 < f.num_hashes))
unfolding deserialize
deserialize_total input = elim (Bool-cases (ltb (length input) 24)) [
  | inl short ↦ inl (truncated_header, rw short refl)
  | inr long ↦
      let fits : 24 ≤ length input = ltb→le _ 24 long in
      let (magic, e1) = get_shifted_inside {E = BloomError} 4 0 0 input (omega arith) in
      let (version, e2) =
        get_shifted_inside {E = BloomError} 4 0 0 (drop 4 input)
          (omega (arith, length-drop 4 input)) in
      let (m, e3) =
        get_shifted_inside {E = BloomError} 8 0 0 (drop 8 input)
          (omega (arith, length-drop 8 input)) in
      let (k, e4) =
        get_shifted_inside {E = BloomError} 4 0 0 (drop 16 input)
          (omega (arith, length-drop 16 input)) in
      elim (Bool-cases (not (magic == 0x46424B56) || not (version == 1))) [
        | inl bad ↦ inl (bad_magic_or_version, rw (long, e1, e2, e3, e4, bad) refl)
        | inr good ↦ elim (Bool-cases (m == 0 || k == 0)) [
          | inl none ↦ inl (invalid_parameters, rw (long, e1, e2, e3, e4, good, none) refl)
          | inr some ↦ elim (Bool-cases (not (length input == 24 + byte_count m))) [
            | inl other ↦ inl (size_mismatch, rw (long, e1, e2, e3, e4, good, some, other) refl)
            | inr same ↦
                let whole : length input ≡ 24 + byte_count m = ground arith in
                inr (
                  record {
                    num_bits = m;
                    num_hashes = k;
                    bits = take (byte_count m) (drop 24 input);
                  },
                  rw (long, e1, e2, e3, e4, good, some, same) refl,
                  omega (arith, length-take (byte_count m) (drop 24 input), length-drop 24 input),
                  ground arith,
                  ground arith,
                )
          ]
        ]
      ]
]
