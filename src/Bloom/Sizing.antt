-- ===== src/Bloom/Sizing.antt =====
-- The sizes that the public constructor of `BloomFilter` computes in floating point:
-- `BloomFilter::OptimalNumBits` and `BloomFilter::OptimalNumHashes` of src/common/bloom_filter.cpp, and the
-- members of include/VrootKV/common/bloom_filter.h that tell the sizes. The arithmetic of `double` is a
-- parameter.
use vroot_kv.Base.{
  ℕ, ◌+◌, ◌^◌, ◌≤◌, ◌<◌, ◌≡◌, ◌⊎◌, inl, inr, refl, arith, Bool, true, false, Bool-cases, ◌||◌, ◌==◌,
  if◌then◌else◌, Option, none, some, Option-cases, Result, ok, fault, ◌>>=◌,
}
use vroot_kv.Base.{List, length, All}
use vroot_kv.Bloom.{BloomError, BloomFilter, byte_count, new_filter, might_contain}
use vroot_kv.Bloom.Member.{new_filter-IsFilter, add_all, no_false_negatives}

-- `double`, with the functions of <cmath> that are called. `at_most x y` is `x <= y`. A conversion to
-- `std::size_t` or `std::uint32_t` is `none` where the number does not fit, which C++ leaves undefined.
pub record Floats : Type 1 where
  pub Double : Type 0
  pub of_size : ℕ → Double
  pub negate : Double → Double
  pub times : Double → Double → Double
  pub over : Double → Double → Double
  pub log : Double → Double
  pub ceil : Double → Double
  pub round : Double → Double
  pub at_most : Double → Double → Bool
  pub to_size : Double → Option ℕ
  pub to_u32 : Double → Option ℕ
  -- `0.0`, `1.0`, `2.0`, `1e-9` and `0.999999`
  pub zero_point : Double
  pub one_point : Double
  pub two_point : Double
  pub smallest_rate : Double
  pub greatest_rate : Double

-- A `double` has 53 bits, so the greatest that a `std::size_t` holds is 2048 below 2 ^ 64.
pub record IsBinary64 (c : Floats) : Type 0 where
  pub size_bound : (d : c.Double) (n : ℕ) → c.to_size d ≡ some n → n + 2048 ≤ 2 ^ 64

-- What a conversion gives, if C++ says what.
abbrev pub converted : Option ℕ → Result BloomError ℕ
converted none = fault
converted (some n) = ok n

-- `if (n == 0) n = 1;`
abbrev pub at_least_one : ℕ → ℕ
at_least_one n = if n == 0 then 1 else n

module _ (c : Floats) where
  -- The two tests of `p`, one after the other.
  unfoldable pub clamp_rate : c.Double → c.Double
  clamp_rate p =
      let raised = if c.at_most p c.zero_point then c.smallest_rate else p in
      if c.at_most c.one_point raised then c.greatest_rate else raised

  -- `ceil(m)`
  unfoldable pub bits_for : ℕ → c.Double → c.Double
  unfolding clamp_rate
  bits_for n p =
      let ln2 = c.log c.two_point in
      c.ceil (c.over (c.times (c.negate (c.of_size n)) (c.log (clamp_rate p))) (c.times ln2 ln2))

  unfoldable pub optimal_num_bits : ℕ → c.Double → Result BloomError ℕ
  unfolding bits_for
  optimal_num_bits n p =
      if n == 0 then ok 1 else (converted (c.to_size (bits_for n p)) >>= λ mm. ok (at_least_one mm))

  -- `round(k)`
  unfoldable pub hashes_for : ℕ → ℕ → c.Double
  hashes_for n m = c.round (c.times (c.over (c.of_size m) (c.of_size n)) (c.log c.two_point))

  unfoldable pub optimal_num_hashes : ℕ → ℕ → Result BloomError ℕ
  unfolding hashes_for
  optimal_num_hashes n m =
      if n == 0 || m == 0
      then ok 1
      else (converted (c.to_u32 (hashes_for n m)) >>= λ kk. ok (at_least_one kk))

  -- The public constructor.
  unfoldable pub bloom_filter : ℕ → c.Double → Result BloomError BloomFilter
  unfolding optimal_num_bits optimal_num_hashes
  bloom_filter expected_items false_positive_rate = do
    num_bits ← optimal_num_bits expected_items false_positive_rate
    num_hashes ← optimal_num_hashes expected_items num_bits
    ok (new_filter num_bits num_hashes)

-- `bit_size`, `byte_size` and `num_hashes`
unfoldable pub bit_size : BloomFilter → ℕ
bit_size f = f.num_bits

unfoldable pub byte_size : BloomFilter → ℕ
byte_size f = byte_count f.num_bits

unfoldable pub hash_count : BloomFilter → ℕ
hash_count f = f.num_hashes

-- A filter that answers for all keys that are added to it, with bits, hashes and an array of the size it tells.
pub record Sound (f : BloomFilter) : Type 0 where
  pub some_bits : 0 < bit_size f
  pub some_hashes : 0 < hash_count f
  pub array : length f.bits ≡ byte_size f
  pub never_missed :
      (keys : List (List ℕ))
      → (f' : BloomFilter) × (add_all f keys ≡ ok f')
        × All (λ key. might_contain f' key ≡ ok true) keys

at_least_one-positive : (n : ℕ) → 0 < at_least_one n
at_least_one-positive n = ground arith

new_filter-Sound : (m k : ℕ) → 0 < m → m + 7 < 2 ^ 64 → 0 < k → Sound (new_filter m k)
unfolding new_filter bit_size byte_size hash_count
new_filter-Sound m k some_bits fits some_hashes =
    let v = new_filter-IsFilter m k some_bits fits in
    record {
      some_bits = some_bits;
      some_hashes = some_hashes;
      array = v.length_eq;
      never_missed = λ keys. no_false_negatives keys (new_filter m k) v;
    }

module _ (c : Floats) (law : IsBinary64 c) (n : ℕ) (p : c.Double) where
  positive : (n == 0) ≡ false → 0 < n
  positive items = ground arith

  bits_found :
      ((0 < n) × (c.to_size (bits_for c n p) ≡ none) × (optimal_num_bits c n p ≡ fault))
      ⊎ ((m : ℕ) × (optimal_num_bits c n p ≡ ok m) × (0 < m) × (m + 7 < 2 ^ 64))
  unfolding optimal_num_bits
  bits_found = elim (Bool-cases (n == 0)) [
    | inl nothing ↦ inr (1, rw nothing refl, omega arith, omega arith)
    | inr items ↦ elim (Option-cases (c.to_size (bits_for c n p))) [
      | inl unfit ↦ inl (positive items, unfit, rw (items, unfit) refl)
      | inr (m, e) ↦ inr (
        at_least_one m,
        rw (items, e) refl,
        at_least_one-positive m,
        (let bound = law.size_bound (bits_for c n p) m e in ground (arith, bound)),
      )
    ]
  ]

  hashes_found :
      (m : ℕ)
      → 0 < m
      → ((0 < n) × (c.to_u32 (hashes_for c n m) ≡ none) × (optimal_num_hashes c n m ≡ fault))
        ⊎ ((k : ℕ) × (optimal_num_hashes c n m ≡ ok k) × (0 < k))
  unfolding optimal_num_hashes
  hashes_found m some_bits = elim (Bool-cases (n == 0)) [
    | inl nothing ↦ inr (1, rw nothing refl, omega arith)
    | inr items ↦
        let no_bits : (m == 0) ≡ false = ground arith in
        elim (Option-cases (c.to_u32 (hashes_for c n m))) [
          | inl unfit ↦ inl (positive items, unfit, rw (items, no_bits, unfit) refl)
          | inr (k, e) ↦ inr (at_least_one k, rw (items, no_bits, e) refl, at_least_one-positive k)
        ]
  ]

  -- A number that is computed for some items is too great for the integer that it is converted to.
  abbrev pub Unfit : Type 0
  Unfit =
      (c.to_size (bits_for c n p) ≡ none)
      ⊎ ((m : ℕ) × (optimal_num_bits c n p ≡ ok m) × (c.to_u32 (hashes_for c n m) ≡ none))

  -- Whatever the number of items and the rate are, the public constructor makes a filter with a bit and a hash at
  -- least, whose array has the size that `byte_size` tells, and which answers true of every key that is
  -- added to it; or items are expected and it converts a number that does not fit its integer.
  pub bloom_filter-Sound :
      ((f : BloomFilter) × (bloom_filter c n p ≡ ok f) × Sound f)
      ⊎ ((0 < n) × Unfit × (bloom_filter c n p ≡ fault))
  unfolding bloom_filter
  bloom_filter-Sound = elim bits_found [
    | inl (items, unfit, e) ↦ inr (items, inl unfit, rw e refl)
    | inr (m, bits, some_bits, fits) ↦ elim (hashes_found m some_bits) [
      | inl (items, unfit, e) ↦ inr (items, inr (m, bits, unfit), rw (bits, e) refl)
      | inr (k, hashes, some_hashes) ↦
          inl (
            new_filter m k,
            rw (bits, hashes) refl,
            new_filter-Sound m k some_bits fits some_hashes,
          )
    ]
  ]
