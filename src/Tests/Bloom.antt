-- ===== src/Tests/Bloom.antt =====
-- A filter of 16 bits and 2 hashes.
use vroot_kv.Base.{
  Option, none, some, inl, inr, ltb, leb, Bool-cases, if◌then◌else◌, ◌+◌, ◌*◌, ◌/◌, ◌≤◌, ℕ, ◌-◌,
  ◌<◌, ◌≡◌, ◌^◌, ◌⊎◌, refl, arith, true, List, [], ◌∷◌, length, All, ok, err, fault,
}
use vroot_kv.Bloom.{
  BloomError, BloomFilter, byte_count, new_filter, might_contain, serialize, deserialize,
}
use vroot_kv.Bloom.Member.{IsFilter, add_all, no_false_negatives}
use vroot_kv.Bloom.Sizing.{
  Floats, IsBinary64, bloom_filter, optimal_num_bits, optimal_num_hashes, bits_for, hashes_for,
  clamp_rate, Sound, Unfit, bloom_filter-Sound,
}
use vroot_kv.Bloom.Header.{header}
use vroot_kv.Bloom.RoundTrip.{deserialize-serialize, deserialize_total, deserialize_wraps}

abbrev empty : BloomFilter
empty = record { num_bits = 16; num_hashes = 2; bits = 0 ∷ 0 ∷ [] }

empty-IsFilter : IsFilter empty
empty-IsFilter = record { some_bits = omega arith; num_bits_fits = omega arith; length_eq = refl }

-- The constructor makes that filter.
new_filter_16 : new_filter 16 2 ≡ empty
unfolding new_filter
new_filter_16 = refl

abbrev two_keys : List (List ℕ)
two_keys = (97 ∷ []) ∷ (98 ∷ 99 ∷ []) ∷ []

no_false_negatives_example :
    (f' : BloomFilter) × (add_all empty two_keys ≡ ok f')
    × All (λ key. might_contain f' key ≡ ok true) two_keys
no_false_negatives_example = no_false_negatives two_keys empty empty-IsFilter

deserialize-serialize_example : deserialize (serialize empty) ≡ ok empty
deserialize-serialize_example =
    deserialize-serialize empty empty-IsFilter (omega arith) (omega arith)

deserialize_total_example :
    ((e : BloomError) × (deserialize (1 ∷ []) ≡ err e))
    ⊎ ((f : BloomFilter) × (deserialize (1 ∷ []) ≡ ok f)
        × (length f.bits ≡ byte_count f.num_bits)
        × (0 < f.num_bits)
        × (0 < f.num_hashes))
deserialize_total_example = deserialize_total (1 ∷ [])

deserialize_wraps_example :
    (deserialize (header (2 ^ 64 - 1) 1)
      ≡ ok (record { num_bits = 2 ^ 64 - 1; num_hashes = 1; bits = [] }))
    × (might_contain (record { num_bits = 2 ^ 64 - 1; num_hashes = 1; bits = [] }) (97 ∷ [])
        ≡ fault)
deserialize_wraps_example =
    deserialize_wraps (2 ^ 64 - 1) 1 (97 ∷ []) (omega arith) (omega arith) (omega arith)
      (omega arith)

-- Numbers without a sign or a fraction, where every logarithm is 1: enough to run the constructor on.
abbrev whole_numbers : Floats
whole_numbers = record {
  Double = ℕ;
  of_size = λ n. n;
  negate = λ x. x;
  times = λ x y. x * y;
  over = λ x y. x / y;
  log = λ x. 1;
  ceil = λ x. x;
  round = λ x. x;
  at_most = leb;
  to_size = λ x. if leb (x + 2048) (2 ^ 64) then some x else none;
  to_u32 = λ x. if ltb x (2 ^ 32) then some x else none;
  zero_point = 0;
  one_point = 1;
  two_point = 2;
  smallest_rate = 0;
  greatest_rate = 0;
}

some_of : {m n : ℕ} → ◌≡◌ {A = Option ℕ} (some m) (some n) → m ≡ n
some_of e = cc

whole_numbers-IsBinary64 : IsBinary64 whole_numbers
whole_numbers-IsBinary64 = record { size_bound = fits }
  where
    fits :
        (d n : ℕ) → (if leb (d + 2048) (2 ^ 64) then some d else none) ≡ some n → n + 2048 ≤ 2 ^ 64
    fits d n e = elim (Bool-cases (leb (d + 2048) (2 ^ 64))) [
      | inl small ↦
          let same : d ≡ n = some_of (rw small at e) in
          let bound : d + 2048 ≤ 2 ^ 64 = ground arith in omega (arith, same, bound)
      | inr great ↦ absurd (cc (rw great at e))
    ]

-- A filter for 20 items has 20 bits and a hash.
bloom_filter_20 : bloom_filter whole_numbers 20 0 ≡ ok (new_filter 20 1)
unfolding bloom_filter optimal_num_bits optimal_num_hashes bits_for hashes_for clamp_rate new_filter
bloom_filter_20 = refl

bloom_filter-Sound_example :
    ((f : BloomFilter) × (bloom_filter whole_numbers 20 0 ≡ ok f) × Sound f)
    ⊎ ((0 < 20)
        × Unfit whole_numbers whole_numbers-IsBinary64 20 0
        × (bloom_filter whole_numbers 20 0 ≡ fault))
bloom_filter-Sound_example = bloom_filter-Sound whole_numbers whole_numbers-IsBinary64 20 0
