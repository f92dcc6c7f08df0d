-- ===== src/Bloom/BitArray.antt =====
-- `set_bit` and `get_bit`: the array as a set of positions.
use vroot_kv.Base.{
  ℕ, zero, suc, ◌*◌, ◌/◌, ◌%◌, ◌^◌, ◌<◌, ◌≡◌, refl, sym, ap, ◌∙◌, arith, bit_and, bit_or,
}
use vroot_kv.Base.{true, not, ◌==◌, ok, some}
use vroot_kv.Base.{
  List, [], ◌∷◌, length, get_or, get_elem?, set, All, length-set, get_or-set_self, get_or-set_ne,
}
use vroot_kv.Codec.Bytes.{u8}
use vroot_kv.Bloom.{mask, set_bit, get_bit}
use vroot_kv.Bloom.{set_bits, get_bits}
use native.Mathlib.Nat.{one-le-pow, div_self}
use native.Mathlib.Decide.{ℕ_discrete}
use mathlib.Core.Path.{subst}
use vroot_kv.Base.Bits.{bit_and_step, bit_and-zero, bit_and-two-pow, bit_or-digit}

-- Bit `i` of the array, 0 or 1.
unfoldable pub digit : List ℕ → ℕ → ℕ
digit bits i = get_or bits (i / 2 ^ 3) 0 / 2 ^ (i % 8) % 2

abbrev pub Inside : ℕ → ℕ → Type 0
Inside size i = i / 2 ^ 3 < size

small_power : (k : ℕ) → k < 8 → u8 (2 ^ k) ≡ 2 ^ k
small_power zero h = refl
small_power (suc zero) h = refl
small_power (suc (suc zero)) h = refl
small_power (suc (suc (suc zero))) h = refl
small_power (suc (suc (suc (suc zero)))) h = refl
small_power (suc (suc (suc (suc (suc zero))))) h = refl
small_power (suc (suc (suc (suc (suc (suc zero)))))) h = refl
small_power (suc (suc (suc (suc (suc (suc (suc zero))))))) h = refl
small_power (suc (suc (suc (suc (suc (suc (suc (suc k)))))))) h = absurd (omega arith)

mask_lem : (i : ℕ) → mask i ≡ 2 ^ (i % 8)
mask_lem i = ap (λ k. u8 (2 ^ k)) low_three ∙ small_power (i % 8) (omega arith)
  where
    low_three : bit_and i 7 ≡ i % 8
    low_three = omega (
      arith,
      bit_and_step i 7,
      bit_and_step (i / 2) 3,
      bit_and_step (i / 2 / 2) 1,
      bit_and-zero (i / 2 / 2 / 2),
    )

get_elem?_inside : (bs : List ℕ) (i : ℕ) → i < length bs → get_elem? bs i ≡ some (get_or bs i 0)
get_elem?_inside [] i h = absurd (omega arith)
get_elem?_inside (b ∷ bs) zero h = refl
get_elem?_inside (b ∷ bs) (suc i) h = get_elem?_inside bs i (omega arith)

masked_test : (p d : ℕ) → 0 < p → d < 2 → not (p * d == 0) ≡ (d == 1)
masked_test p zero h s = rw (ap (λ n. n == 0) product) refl
  where
    product : p * 0 ≡ 0
    product = omega arith
masked_test zero (suc zero) h s = absurd (omega arith)
masked_test (suc p) (suc zero) h s = ground arith
masked_test p (suc (suc d)) h s = absurd (omega arith)

pub get_bit_lem :
    (bits : List ℕ) (i : ℕ) → Inside (length bits) i → get_bit bits i ≡ ok (digit bits i == 1)
unfolding get_bit digit
get_bit_lem bits i h =
    rw
      (
        get_elem?_inside bits (i / 2 ^ 3) h,
        get_bit,
        mask_lem i,
        bit_and-two-pow (i % 8) (get_or bits (i / 2 ^ 3) 0),
      )
      (ap ok (masked_test (2 ^ (i % 8)) _ (one-le-pow (i % 8) 2 (omega arith)) (omega arith)))

module _ (bits : List ℕ) (i : ℕ) (h : Inside (length bits) i) where
  abbrev q : ℕ
  q = i / 2 ^ 3

  abbrev marked : ℕ
  marked = bit_or (get_or bits q 0) (2 ^ (i % 8))

  abbrev bits_set : List ℕ
  bits_set = set bits q marked

  own_bit : 2 ^ (i % 8) / 2 ^ (i % 8) % 2 ≡ 1
  own_bit = omega (arith, div_self {n = 2 ^ (i % 8)} (one-le-pow (i % 8) 2 (omega arith)))

  set_bit_eq : set_bit bits i ≡ ok bits_set
  unfolding set_bit
  set_bit_eq = rw (get_elem?_inside bits q h, set_bit, mask_lem i) refl

  -- bit `i` is set,
  set_here : digit bits_set i ≡ 1
  unfolding digit
  set_here =
      rw (get_or-set_self bits q marked 0 h)
        (omega (arith, bit_or-digit (i % 8) (get_or bits q 0) (2 ^ (i % 8)), own_bit))

  kept :
      (p j : ℕ)
      → q ≡ p
      → get_or bits p 0 / 2 ^ (j % 8) % 2 ≡ 1
      → get_or bits_set p 0 / 2 ^ (j % 8) % 2 ≡ 1
  kept p j same =
      subst (λ p. get_or bits p 0 / 2 ^ (j % 8) % 2 ≡ 1 → get_or bits_set p 0 / 2 ^ (j % 8) % 2 ≡ 1)
        same
        (λ e.
          rw (get_or-set_self bits q marked 0 h)
            (omega (arith, bit_or-digit (j % 8) (get_or bits q 0) (2 ^ (i % 8)), e)))

  -- and no bit is cleared.
  none_cleared : (j : ℕ) → digit bits j ≡ 1 → digit bits_set j ≡ 1
  unfolding digit
  none_cleared j e = elim (ℕ_discrete q (j / 2 ^ 3)) [
    | yes same ↦ kept (j / 2 ^ 3) j same e
    | no other ↦ rw (get_or-set_ne bits marked 0 other) e
  ]

-- All bits of a list of positions are set, and no bit is cleared.
pub set_bits_lem :
    (idxs bits : List ℕ)
    → All (Inside (length bits)) idxs
    → (bits' : List ℕ) × (set_bits bits idxs ≡ ok bits')
      × (length bits' ≡ length bits)
      × ((j : ℕ) → digit bits j ≡ 1 → digit bits' j ≡ 1)
      × All (λ i. digit bits' i ≡ 1) idxs
unfolding set_bits
set_bits_lem [] bits h = (bits, refl, refl, (λ j e. e), tt)
set_bits_lem (i ∷ idxs) bits h =
    let same = length-set bits (i / 2 ^ 3) (marked bits i h.0) in
    let (bits', e, size, keeps, all) =
      set_bits_lem idxs (bits_set bits i h.0) (subst (λ n. All (Inside n) idxs) (sym same) h.1) in
    (
      bits',
      rw (set_bit_eq bits i h.0) e,
      size ∙ same,
      (λ j d. keeps j (none_cleared bits i h.0 j d)),
      (keeps i (set_here bits i h.0), all),
    )

pub get_bits_lem :
    (idxs bits : List ℕ)
    → All (Inside (length bits)) idxs
    → All (λ i. digit bits i ≡ 1) idxs
    → get_bits bits idxs ≡ ok true
unfolding get_bits
get_bits_lem [] bits h a = refl
get_bits_lem (i ∷ idxs) bits h a =
    rw (get_bit_lem bits i h.0, ap (λ d. d == 1) a.0) (get_bits_lem idxs bits h.1 a.1)
