-- ===== src/Base/Bits.antt =====
-- `&`, `|` and `^` at variables, as arithmetic, from the digit recursion that they stand for.
use Prim.Native.Nat.{ℕ, zero, suc, ◌+◌, ◌-◌, ◌*◌, ◌/◌, ◌%◌, ◌^◌, ◌≤◌, ◌<◌, min, max, differ}
use Prim.Native.Nat.{bit_and, bit_or, bit_xor, digits, bitwise}
use Prim.Native.Nat.{bit_and-bitwise, bit_or-bitwise, bit_xor-bitwise}
use mathlib.Core.Path.{◌≡◌, refl, ap}
use native.Mathlib.Nat.{
  le_refl, mul_assoc, pow-suc, pow-zero, pow-succ', div-one, div-div-eq-div-mul,
}
use native.Mathlib.Decide.{dec_le}
use native.Mathlib.Omega.{arith}

-- The recursion on digits with fuel to spare: more of it gives the same number.
spare_fuel :
    (unit : ℕ → ℕ) (op : ℕ → ℕ → ℕ) (x y fuel total : ℕ)
    → x ≤ fuel
    → fuel ≤ total
    → digits unit op total x y ≡ digits unit op fuel x y
spare_fuel unit op (suc x) y (suc fuel) (suc total) h g =
    ap (λ upper. upper * 2 + op (suc x % 2) (y % 2))
      (spare_fuel unit op (suc x / 2) (y / 2) fuel total (omega arith) (omega arith))
spare_fuel unit op zero y (suc fuel) (suc total) h g = refl
spare_fuel unit op zero y zero (suc total) h g = refl
spare_fuel unit op zero y zero zero h g = refl
spare_fuel unit op (suc x) y zero total h g = absurd (omega arith)
spare_fuel unit op x y (suc fuel) zero h g = absurd (omega arith)

-- The lowest digit of a number above 0, and the digits above it.
lowest_digit :
    (unit : ℕ → ℕ) (op : ℕ → ℕ → ℕ) (x y : ℕ)
    → bitwise unit op (suc x) y ≡ op (suc x % 2) (y % 2) + 2 * bitwise unit op (suc x / 2) (y / 2)
lowest_digit unit op x y = omega (arith, exact)
  where
    exact : digits unit op x (suc x / 2) (y / 2) ≡ digits unit op (suc x / 2) (suc x / 2) (y / 2)
    exact = spare_fuel unit op (suc x / 2) (y / 2) (suc x / 2) x (le_refl _) (omega arith)

pub bit_and_step : (x y : ℕ) → bit_and x y ≡ bit_and (x / 2) (y / 2) * 2 + min (x % 2) (y % 2)
bit_and_step zero y = simp bit_and-bitwise (omega arith)
bit_and_step (suc x) y = omega (
  arith,
  bit_and-bitwise (suc x) y,
  bit_and-bitwise (suc x / 2) (y / 2),
  lowest_digit (λ n. 0) min x y,
)

pub bit_or_step : (x y : ℕ) → bit_or x y ≡ bit_or (x / 2) (y / 2) * 2 + max (x % 2) (y % 2)
bit_or_step zero y = simp bit_or-bitwise (omega arith)
bit_or_step (suc x) y = omega (
  arith,
  bit_or-bitwise (suc x) y,
  bit_or-bitwise (suc x / 2) (y / 2),
  lowest_digit (λ n. n) max x y,
)

differ-mod : (x y : ℕ) → x < 2 → y < 2 → differ x y ≡ (x + y) % 2
differ-mod zero y p q = omega arith
differ-mod (suc zero) zero p q = refl
differ-mod (suc zero) (suc zero) p q = refl
differ-mod (suc zero) (suc (suc y)) p q = absurd (omega arith)
differ-mod (suc (suc x)) y p q = absurd (omega arith)

pub bit_xor_step : (a b : ℕ) → bit_xor a b ≡ bit_xor (a / 2) (b / 2) * 2 + (a + b) % 2
bit_xor_step zero b = simp bit_xor-bitwise (omega arith)
bit_xor_step (suc a) b = omega (
  arith,
  bit_xor-bitwise (suc a) b,
  bit_xor-bitwise (suc a / 2) (b / 2),
  lowest_digit (λ n. n) differ a b,
  differ-mod (suc a % 2) (b % 2) (omega arith) (omega arith),
)

-- An operand that is 0, by recursion on a bound of the other.
bounded_or-zero : (bound x : ℕ) → x ≤ bound → bit_or x 0 ≡ x
bounded_or-zero bound zero less = refl
bounded_or-zero (suc bound) (suc x) less =
    omega (arith, bounded_or-zero bound (suc x / 2) (omega arith), bit_or_step (suc x) 0)
bounded_or-zero zero (suc x) less = absurd (omega arith)

pub bit_or-zero : (x : ℕ) → bit_or x 0 ≡ x
bit_or-zero x = bounded_or-zero x x (le_refl x)

bounded_and-zero : (bound x : ℕ) → x ≤ bound → bit_and x 0 ≡ 0
bounded_and-zero bound zero less = refl
bounded_and-zero (suc bound) (suc x) less =
    omega (arith, bounded_and-zero bound (suc x / 2) (omega arith), bit_and_step (suc x) 0)
bounded_and-zero zero (suc x) less = absurd (omega arith)

pub bit_and-zero : (x : ℕ) → bit_and x 0 ≡ 0
bit_and-zero x = bounded_and-zero x x (le_refl x)

pub mul-two-pow-suc : (high width : ℕ) → high * 2 ^ suc width ≡ 2 * (high * 2 ^ width)
mul-two-pow-suc high width = omega (arith, ap (λ (p : ℕ). high * p) (pow-suc 2 width))

-- `(high << width) | low` is a sum when `low` fits in `width` bits.
pub bit_or_fields :
    (width high low : ℕ) → low < 2 ^ width → bit_or (high * 2 ^ width) low ≡ high * 2 ^ width + low
bit_or_fields zero high low fits = ground (arith, bit_or-zero high)
bit_or_fields (suc width) high low fits = ground (
  arith,
  bit_or_step (high * 2 ^ suc width) low,
  mul-two-pow-suc high width,
  pow-suc 2 width,
  bit_or_fields width high (low / 2) (omega (arith, pow-suc 2 width)),
)

bit_or_comm_fuel : (rounds x y : ℕ) → x + y ≤ rounds → bit_or x y ≡ bit_or y x
bit_or_comm_fuel zero zero zero bound = refl
bit_or_comm_fuel zero zero (suc y) bound = absurd (omega arith)
bit_or_comm_fuel zero (suc x) y bound = absurd (omega arith)
bit_or_comm_fuel (suc rounds) x y bound = elim (dec_le (x + y) rounds) [
  | yes small ↦ bit_or_comm_fuel rounds x y small
  | no large ↦ omega (
    arith,
    bit_or_step x y,
    bit_or_step y x,
    bit_or_comm_fuel rounds (x / 2) (y / 2) (omega arith),
  )
]

pub bit_or_comm : (a b : ℕ) → bit_or a b ≡ bit_or b a
bit_or_comm a b = bit_or_comm_fuel (a + b) a b (le_refl _)

bit_xor_comm_fuel : (rounds x y : ℕ) → x + y ≤ rounds → bit_xor x y ≡ bit_xor y x
bit_xor_comm_fuel zero zero zero bound = refl
bit_xor_comm_fuel zero zero (suc y) bound = absurd (omega arith)
bit_xor_comm_fuel zero (suc x) y bound = absurd (omega arith)
bit_xor_comm_fuel (suc rounds) x y bound = elim (dec_le (x + y) rounds) [
  | yes small ↦ bit_xor_comm_fuel rounds x y small
  | no large ↦ omega (
    arith,
    bit_xor_step x y,
    bit_xor_step y x,
    bit_xor_comm_fuel rounds (x / 2) (y / 2) (omega arith),
  )
]

pub bit_xor_comm : (a b : ℕ) → bit_xor a b ≡ bit_xor b a
bit_xor_comm a b = bit_xor_comm_fuel (a + b) a b (le_refl _)

bit_xor_cancel_fuel : (n a b c : ℕ) → b + c ≤ n → bit_xor a b ≡ bit_xor a c → b ≡ c
bit_xor_cancel_fuel zero a b c h e = omega arith
bit_xor_cancel_fuel (suc n) a b c h e = elim (dec_le (b + c) n) [
  | yes small ↦ bit_xor_cancel_fuel n a b c small e
  | no large ↦ omega (
    arith,
    bit_xor_step a b,
    bit_xor_step a c,
    bit_xor_cancel_fuel n (a / 2) (b / 2) (c / 2) (omega arith)
        (omega (arith, bit_xor_step a b, bit_xor_step a c)),
  )
]

-- `^` by a fixed number loses nothing.
pub bit_xor_cancel : (a b c : ℕ) → bit_xor a b ≡ bit_xor a c → b ≡ c
bit_xor_cancel a b c = bit_xor_cancel_fuel (b + c) a b c (le_refl _)

div-two-pow-suc : (a k : ℕ) → a / 2 ^ suc k ≡ a / 2 / 2 ^ k
div-two-pow-suc a k = rw (pow-succ' 2 k, ← div-div-eq-div-mul) refl

-- The upper bits of `a ^ b` are those of `a` and `b`.
pub bit_xor-div : (k a b : ℕ) → bit_xor a b / 2 ^ k ≡ bit_xor (a / 2 ^ k) (b / 2 ^ k)
bit_xor-div zero a b = simp (pow-zero, div-one)
bit_xor-div (suc k) a b =
    rw (div-two-pow-suc (bit_xor a b) k, div-two-pow-suc a k, div-two-pow-suc b k, half)
      (bit_xor-div k (a / 2) (b / 2))
  where
    half : bit_xor a b / 2 ≡ bit_xor (a / 2) (b / 2)
    half = omega (arith, bit_xor_step a b)

pub bit_xor-lt : (k a b : ℕ) → a < 2 ^ k → b < 2 ^ k → bit_xor a b < 2 ^ k
bit_xor-lt zero zero zero p q = omega arith
bit_xor-lt zero zero (suc b) p q = absurd (omega arith)
bit_xor-lt zero (suc a) b p q = absurd (omega arith)
bit_xor-lt (suc k) a b p q = omega (
  arith,
  bit_xor_step a b,
  pow-suc 2 k,
  bit_xor-lt k (a / 2) (b / 2) (omega (arith, pow-suc 2 k)) (omega (arith, pow-suc 2 k)),
)

bit_and_even : (a b : ℕ) → bit_and a (2 * b) ≡ 2 * bit_and (a / 2) b
bit_and_even a b = omega (arith, bit_and_step a (2 * b), half_double b)
  where
    half_double : (n : ℕ) → bit_and (a / 2) (2 * n / 2) ≡ bit_and (a / 2) n
    half_double n = ap (bit_and (a / 2)) (omega arith)

bit_or_even : (a b : ℕ) → bit_or a (2 * b) ≡ 2 * bit_or (a / 2) b + a % 2
bit_or_even a b = omega (arith, bit_or_step a (2 * b), half_double b)
  where
    half_double : (n : ℕ) → bit_or (a / 2) (2 * n / 2) ≡ bit_or (a / 2) n
    half_double n = ap (bit_or (a / 2)) (omega arith)

-- `a & (1 << k)`, and `a | (1 << k)`.
pub bit_and-two-pow : (k a : ℕ) → bit_and a (2 ^ k) ≡ 2 ^ k * (a / 2 ^ k % 2)
bit_and-two-pow zero a = omega (arith, bit_and_step a 1, bit_and-zero (a / 2))
bit_and-two-pow (suc k) a =
    rw (div-two-pow-suc a k, pow-succ' 2 k, bit_and_even, bit_and-two-pow k (a / 2)) (omega arith)

pub bit_or-two-pow : (k a : ℕ) → bit_or a (2 ^ k) ≡ a + 2 ^ k * (1 - a / 2 ^ k % 2)
bit_or-two-pow zero a = omega (arith, bit_or_step a 1, bit_or-zero (a / 2))
bit_or-two-pow (suc k) a =
    rw (div-two-pow-suc a k, pow-succ' 2 k, bit_or_even, bit_or-two-pow k (a / 2))
      (omega (arith, mul_assoc 2 (2 ^ k) (1 - a / 2 / 2 ^ k % 2)))

-- A bit of `a | b` is set where one of theirs is.
pub bit_or-digit : (k a b : ℕ) → bit_or a b / 2 ^ k % 2 ≡ max (a / 2 ^ k % 2) (b / 2 ^ k % 2)
bit_or-digit zero a b = simp (pow-zero, div-one) (omega (arith, bit_or_step a b))
bit_or-digit (suc k) a b =
    rw (div-two-pow-suc (bit_or a b) k, div-two-pow-suc a k, div-two-pow-suc b k, half)
      (bit_or-digit k (a / 2) (b / 2))
  where
    half : bit_or a b / 2 ≡ bit_or (a / 2) (b / 2)
    half = omega (arith, bit_or_step a b)

-- Bits below a width stay below it.
pub bit_or-lt : (width x y : ℕ) → x < 2 ^ width → y < 2 ^ width → bit_or x y < 2 ^ width
bit_or-lt zero x y hx hy =
    let none_x : x ≡ 0 = omega arith in
    let none_y : y ≡ 0 = omega arith in rw (none_x, none_y) (omega arith)
bit_or-lt (suc width) x y hx hy = ground (
  arith,
  bit_or_step x y,
  pow-suc 2 width,
  bit_or-lt width (x / 2) (y / 2) (omega (arith, pow-suc 2 width)) (omega (arith, pow-suc 2 width)),
)
