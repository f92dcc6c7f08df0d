-- ===== src/Codec/Fixed.antt =====
-- Fixed-width integers of src/wal/wal_format.h: `memcpy` between an unsigned integer and a buffer,
-- on the little-endian host that the file formats ask for.
use vroot_kv.Base.{ℕ, zero, suc, ◌+◌, ◌*◌, ◌/◌, ◌%◌, ◌^◌, ◌≤◌, ◌<◌, ◌≡◌, ◌∙◌, refl, ap, arith}
use vroot_kv.Base.{List, [], ◌∷◌, ◌++◌, length, length-append, Result, ok, fault, ◌>>=◌}
use vroot_kv.Codec.Bytes.{IsBytes}
use mathlib.Core.Path.{ap₂}
use native.Mathlib.Nat.{pow-suc}

-- The object representation of `v` in `n` bytes, lowest byte first.
unfoldable pub to_le : ℕ → ℕ → List ℕ
to_le zero v = []
to_le (suc n) v = (v % 256) ∷ to_le n (v / 256)

-- The number that the first `n` bytes at a pointer represent; `fault` if the buffer ends before.
unfoldable pub from_le : {E : Type 0} → ℕ → List ℕ → Result E ℕ
from_le zero bs = ok 0
from_le (suc n) [] = fault
from_le (suc n) (b ∷ bs) = from_le n bs >>= λ v. ok (b + 256 * v)

unfoldable pub put_fixed32 : List ℕ → ℕ → List ℕ
put_fixed32 dst v = dst ++ to_le 4 v

unfoldable pub put_fixed64 : List ℕ → ℕ → List ℕ
put_fixed64 dst v = dst ++ to_le 8 v

unfoldable pub decode_fixed32 : {E : Type 0} → List ℕ → Result E ℕ
decode_fixed32 p = from_le 4 p

unfoldable pub decode_fixed64 : {E : Type 0} → List ℕ → Result E ℕ
decode_fixed64 p = from_le 8 p

pub length-to_le : (n v : ℕ) → length (to_le n v) ≡ n
unfolding to_le
length-to_le zero v = refl
length-to_le (suc n) v = ap suc (length-to_le n (v / 256))

pub to_le-IsBytes : (n v : ℕ) → IsBytes (to_le n v)
unfolding to_le
to_le-IsBytes zero v = tt
to_le-IsBytes (suc n) v = (omega arith, to_le-IsBytes n (v / 256))

-- What `memcpy` wrote of a number that fits, it reads back, whatever follows.
pub from_le-to_le :
    {E : Type 0} (n v : ℕ) (rest : List ℕ)
    → v < 256 ^ n
    → from_le {E = E} n (to_le n v ++ rest) ≡ ok v
unfolding to_le from_le
from_le-to_le zero v rest h = ap ok (omega arith)
from_le-to_le {E} (suc n) v rest h =
    rw (from_le-to_le {E = E} n (v / 256) rest (omega (arith, pow-suc 256 n))) (ap ok (omega arith))

-- A read inside the buffer gives a number of that width.
pub from_le_total :
    {E : Type 0} (n : ℕ) (bs : List ℕ)
    → n ≤ length bs
    → IsBytes bs
    → (v : ℕ) × (from_le {E = E} n bs ≡ ok v) × (v < 256 ^ n)
unfolding from_le
from_le_total zero bs h b = (0, refl, omega arith)
from_le_total (suc n) [] h b = absurd (omega arith)
from_le_total {E} (suc n) (x ∷ bs) h b =
    let (v, e, small) = from_le_total {E = E} n bs (omega arith) b.1 in
    (x + 256 * v, rw e, omega (arith, pow-suc 256 n))

-- A read of `n` bytes inside the buffer does not look past them.
pub from_le_inside :
    {E : Type 0} (n : ℕ) (bs : List ℕ) → n ≤ length bs → (v : ℕ) × (from_le {E = E} n bs ≡ ok v)
unfolding from_le
from_le_inside zero bs h = (0, refl)
from_le_inside (suc n) [] h = absurd (omega arith)
from_le_inside {E} (suc n) (x ∷ bs) h =
    let (v, e) = from_le_inside {E = E} n bs (omega arith) in (x + 256 * v, rw e)

ok-injective : {E : Type 0} {a b : ℕ} → ◌≡◌ {A = Result E ℕ} (ok a) (ok b) → a ≡ b
ok-injective e = cc

-- The bytes that a number was read from are its representation: no two byte strings of one length read
-- as the same number.
pub to_le-from_le :
    {E : Type 0} (n v : ℕ) (bs rest : List ℕ)
    → length bs ≡ n
    → IsBytes bs
    → from_le {E = E} n (bs ++ rest) ≡ ok v
    → to_le n v ≡ bs
unfolding to_le from_le
to_le-from_le zero v [] rest h b e = refl
to_le-from_le zero v (x ∷ bs) rest h b e = absurd (omega arith)
to_le-from_le (suc n) v [] rest h b e = absurd (omega arith)
to_le-from_le {E} (suc n) v (x ∷ bs) rest h b e =
    ap₂ (λ y ys. y ∷ ys) (omega (arith, value))
      (ap (to_le n) (omega (arith, value)) ∙ to_le-from_le {E = E} n u bs rest (omega arith) b.1 eu)
  where
    inner : (w : ℕ) × (from_le {E = E} n (bs ++ rest) ≡ ok w)
    inner = from_le_inside n (bs ++ rest) (omega (arith, length-append bs rest))

    u : ℕ
    u = inner.0

    eu : from_le {E = E} n (bs ++ rest) ≡ ok u
    eu = inner.1

    value : x + 256 * u ≡ v
    value = ok-injective {E = E} (rw eu at e)
