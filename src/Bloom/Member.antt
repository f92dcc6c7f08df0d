-- ===== src/Bloom/Member.antt =====
-- `add` and `might_contain`: the bits that a key sets stay set.
use vroot_kv.Base.{ℕ, zero, suc, ◌+◌, ◌%◌, ◌^◌, ◌<◌, ◌≡◌, refl, sym, ◌∙◌, arith}
use vroot_kv.Base.{Bool, true, false, Bool-cases, inl, inr, ◌==◌, if◌then◌else◌, Result, ok, ◌>>=◌}
use vroot_kv.Base.{List, [], ◌∷◌, length, All, length-replicate}
use vroot_kv.Codec.Bytes.{u64}
use vroot_kv.Bloom.{BloomError, BloomFilter, byte_count, new_filter}
use vroot_kv.Bloom.{position_loop, positions, add, get_bits, might_contain}
use native.Mathlib.Nat.{mod-lt}
use mathlib.Core.Path.{subst}
use vroot_kv.Bloom.BitArray.{digit, Inside, set_bits_lem, get_bits_lem, get_bit_lem}

-- A filter whose array has its size.
pub record IsFilter (f : BloomFilter) : Type 0 where
  pub some_bits : 0 < f.num_bits
  pub num_bits_fits : f.num_bits + 7 < 2 ^ 64
  pub length_eq : length f.bits ≡ byte_count f.num_bits

pub new_filter-IsFilter :
    (num_bits num_hashes : ℕ)
    → 0 < num_bits
    → num_bits + 7 < 2 ^ 64
    → IsFilter (new_filter num_bits num_hashes)
unfolding new_filter
new_filter-IsFilter num_bits num_hashes h fits = record {
  some_bits = h;
  num_bits_fits = fits;
  length_eq = length-replicate _ 0;
}

not_zero : (m : ℕ) → 0 < m → (m == 0) ≡ false
not_zero m h = ground arith

-- The positions are below the number of bits.
next-lt : (m x step : ℕ) → 0 < m → x < m → (if m == 0 then x else u64 (x + step) % m) < m
next-lt m x step h l = rw (not_zero m h) (mod-lt (u64 (x + step)) h)

position_loop-Inside :
    (k step m x : ℕ)
    → 0 < m
    → m + 7 < 2 ^ 64
    → x < m
    → All (Inside (byte_count m)) (position_loop k step m x)
unfolding position_loop
position_loop-Inside zero step m x h fits l = tt
position_loop-Inside (suc k) step m x h fits l =
    (omega arith, position_loop-Inside k step m _ h fits (next-lt m x step h l))

first-lt : (m x : ℕ) → 0 < m → (if m == 0 then 0 else x % m) < m
first-lt m x h = rw (not_zero m h) (mod-lt x h)

positions-Inside :
    (m : ℕ) (key : List ℕ) (k : ℕ)
    → 0 < m
    → m + 7 < 2 ^ 64
    → All (Inside (byte_count m)) (positions m key k)
unfolding positions
positions-Inside m key k h fits = position_loop-Inside k _ m _ h fits (first-lt m _ h)

-- All bits of a key are set.
Marked : BloomFilter → List ℕ → Type 0
Marked f key = All (λ i. digit f.bits i ≡ 1) (positions f.num_bits key f.num_hashes)

might_contain-Marked :
    (f : BloomFilter) (key : List ℕ) → IsFilter f → Marked f key → might_contain f key ≡ ok true
unfolding might_contain Marked
might_contain-Marked f key v marks = rw (not_zero f.num_bits v.some_bits) (
    get_bits_lem (positions f.num_bits key f.num_hashes) f.bits
      (subst (λ n. All (Inside n) (positions f.num_bits key f.num_hashes)) (sym v.length_eq)
        (positions-Inside f.num_bits key f.num_hashes v.some_bits v.num_bits_fits))
      marks)

-- `add` marks its key and unmarks none.
add_lem :
    (f : BloomFilter) (key : List ℕ)
    → IsFilter f
    → (f' : BloomFilter) × (add f key ≡ ok f')
      × IsFilter f'
      × Marked f' key
      × ((other : List ℕ) → Marked f other → Marked f' other)
unfolding add Marked
add_lem f key v =
    let (bits', e, size, keeps, all) = set_bits_lem (positions f.num_bits key f.num_hashes) f.bits (
      subst (λ n. All (Inside n) (positions f.num_bits key f.num_hashes)) (sym v.length_eq)
        (positions-Inside f.num_bits key f.num_hashes v.some_bits v.num_bits_fits)) in
    (
      record f { bits = bits' },
      rw (not_zero f.num_bits v.some_bits, e) refl,
      record {
        some_bits = v.some_bits;
        num_bits_fits = v.num_bits_fits;
        length_eq = size ∙ v.length_eq;
      },
      all,
      λ other. All-map (positions f.num_bits other f.num_hashes) keeps,
    )
  where
    All-map : {P Q : ℕ → Type 0} (is : List ℕ) → ((i : ℕ) → P i → Q i) → All P is → All Q is
    All-map [] g a = tt
    All-map (i ∷ is) g a = (g i a.0, All-map is g a.1)

unfoldable pub add_all : BloomFilter → List (List ℕ) → Result BloomError BloomFilter
add_all f [] = ok f
add_all f (key ∷ keys) = add f key >>= λ f'. add_all f' keys

add_all_lem :
    (keys : List (List ℕ)) (f : BloomFilter)
    → IsFilter f
    → (f' : BloomFilter) × (add_all f keys ≡ ok f')
      × IsFilter f'
      × ((other : List ℕ) → Marked f other → Marked f' other)
      × All (Marked f') keys
unfolding add_all
add_all_lem [] f v = (f, refl, v, (λ other m. m), tt)
add_all_lem (key ∷ keys) f v =
    let (f₁, e₁, v₁, own, old) = add_lem f key v in
    let (f₂, e₂, v₂, later, all) = add_all_lem keys f₁ v₁ in
    (f₂, rw e₁ e₂, v₂, (λ other m. later other (old other m)), (later key own, all))

-- To a filter that has bits, fewer than 2 ^ 64 - 7, and an array of its size, any keys are added without
-- a write outside the array, and afterwards `might_contain` is true of each of them.
pub no_false_negatives :
    (keys : List (List ℕ)) (f : BloomFilter)
    → IsFilter f
    → (f' : BloomFilter) × (add_all f keys ≡ ok f')
      × All (λ key. might_contain f' key ≡ ok true) keys
no_false_negatives keys f v =
    let (f', e, v', old, all) = add_all_lem keys f v in (f', e, found f' v' keys all)
  where
    found :
        (f' : BloomFilter)
        → IsFilter f'
        → (ks : List (List ℕ)) → All (Marked f') ks
        → All (λ key. might_contain f' key ≡ ok true) ks
    found f' v' [] a = tt
    found f' v' (k ∷ ks) a = (might_contain-Marked f' k v' a.0, found f' v' ks a.1)

get_bits_total :
    (bits idxs : List ℕ)
    → All (Inside (length bits)) idxs
    → (b : Bool) × (get_bits bits idxs ≡ ok b)
unfolding get_bits
get_bits_total bits [] h = (true, refl)
get_bits_total bits (i ∷ idxs) h =
    let (b, e) = get_bits_total bits idxs h.1 in
    elim (Bool-cases (digit bits i == 1)) [
      | inl present ↦ (b, rw (get_bit_lem bits i h.0, present) e)
      | inr clear ↦ (false, rw (get_bit_lem bits i h.0, clear) refl)
    ]

-- `might_contain` answers for every key where the array has the size that the number of bits asks for,
-- and reads inside the array.
pub might_contain_total :
    (f : BloomFilter) (key : List ℕ) → IsFilter f → (b : Bool) × (might_contain f key ≡ ok b)
unfolding might_contain
might_contain_total f key v =
    let (b, e) = get_bits_total f.bits (positions f.num_bits key f.num_hashes) (
      subst (λ n. All (Inside n) (positions f.num_bits key f.num_hashes)) (sym v.length_eq)
        (positions-Inside f.num_bits key f.num_hashes v.some_bits v.num_bits_fits)) in
    (b, rw (not_zero f.num_bits v.some_bits) e)
