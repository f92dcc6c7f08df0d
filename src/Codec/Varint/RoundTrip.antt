-- ===== src/Codec/Varint/RoundTrip.antt =====
-- What `PutVarint32` writes, `GetVarint32` reads back.
use vroot_kv.Base.{ℕ, zero, suc, ◌+◌, ◌*◌, ◌/◌, ◌%◌, ◌^◌, ◌≤◌, ◌<◌, ◌≡◌, ap, arith}
use vroot_kv.Base.{List, [], ◌∷◌, ◌++◌, length, some}
use vroot_kv.Codec.Bytes.{IsBytes}
use vroot_kv.Codec.Varint.{varint_loop, put_varint32, get_varint_loop, get_varint32}
use vroot_kv.Codec.Varint.Bits.{low_seven, top_bit, set_top_bit, put_group}
use native.Mathlib.Nat.{div-add-mod}
use native.Mathlib.Numerals.{towards_suc}

-- One round of the reader: on a last byte `w`, and on a byte with the top bit set over the group `g`.
last_byte :
    (w result shift : ℕ) (rest : List ℕ)
    → w < 128
    → shift ≤ 28
    → result < 2 ^ shift
    → w * 2 ^ shift < 2 ^ 32
    → get_varint_loop (w ∷ rest) result shift ≡ some (result + w * 2 ^ shift, rest)
unfolding get_varint_loop
last_byte w result shift rest hw hs low fits =
    ground (arith, low_seven w, top_bit w, put_group result w shift)

inner_byte :
    (g result shift : ℕ) (rest : List ℕ)
    → g < 128
    → shift ≤ 28
    → result < 2 ^ shift
    → g * 2 ^ shift < 2 ^ 32
    → get_varint_loop ((g + 128) ∷ rest) result shift
      ≡ get_varint_loop rest (result + g * 2 ^ shift) (shift + 7)
unfolding get_varint_loop
inner_byte g result shift rest hg hs low fits =
    ground (arith, low_seven (g + 128), top_bit (g + 128), put_group result g shift)

two-pow-add_seven : (width : ℕ) → 2 ^ (width + 7) ≡ 128 * 2 ^ width
two-pow-add_seven width = simp towards_suc (omega arith)

-- A number at some weight: its lowest group, and the groups above it.
split_group :
    (value width : ℕ) → value * 2 ^ width ≡ value % 128 * 2 ^ width + value / 128 * 2 ^ (width + 7)
split_group value width =
    let whole = ap (λ (n : ℕ). n * 2 ^ width) (div-add-mod value 128) in
    let above = ap (λ (p : ℕ). value / 128 * p) (two-pow-add_seven width) in
    omega (arith, above, whole)

group-lt : (g s r : ℕ) → g < 128 → r < 2 ^ s → r + g * 2 ^ s < 2 ^ (s + 7)
group-lt g s r hg hr = rw two-pow-add_seven (grind arith)

-- `w` is what is still to be read, and counts from bit `shift` on.
get_varint_loop-varint_loop :
    (k w result shift : ℕ) (rest : List ℕ)
    → w < 128 ^ suc k
    → shift + 7 * k ≤ 28
    → result < 2 ^ shift
    → result + w * 2 ^ shift < 2 ^ 32
    → get_varint_loop (varint_loop k w ++ rest) result shift ≡ some (result + w * 2 ^ shift, rest)
unfolding varint_loop
get_varint_loop-varint_loop zero w result shift rest hw hs low fits =
    ground (arith, last_byte w result shift rest)
get_varint_loop-varint_loop (suc k) w result shift rest hw hs low fits = ground (
  arith,
  set_top_bit w,
  last_byte w result shift rest,
  split_group w shift,
  group-lt (w % 128) shift result,
  inner_byte (w % 128) result shift (varint_loop k (w / 128) ++ rest),
  get_varint_loop-varint_loop k (w / 128) (result + w % 128 * 2 ^ shift) (shift + 7) rest
      (omega arith),
)

-- `GetVarint32` reads back the `uint32_t` that `PutVarint32` appended to an empty buffer, and leaves
-- whatever follows it.
pub get_varint32-put_varint32 :
    (v : ℕ) (rest : List ℕ) → v < 2 ^ 32 → get_varint32 (put_varint32 [] v ++ rest) ≡ some (v, rest)
unfolding get_varint32 put_varint32
get_varint32-put_varint32 v rest h = ground (arith, get_varint_loop-varint_loop 4 v 0 0 rest)

varint_loop_shape :
    (k v : ℕ)
    → IsBytes (varint_loop k v)
      × (1 ≤ length (varint_loop k v))
      × (length (varint_loop k v) ≤ suc k)
unfolding varint_loop
varint_loop_shape zero v = omega arith
varint_loop_shape (suc k) v = ground (arith, varint_loop_shape k (v / 128))

-- `PutVarint32` appends one to five bytes, so `buf` holds them.
pub put_varint32_shape :
    (v : ℕ)
    → IsBytes (put_varint32 [] v)
      × (1 ≤ length (put_varint32 [] v))
      × (length (put_varint32 [] v) ≤ 5)
unfolding put_varint32
put_varint32_shape v = varint_loop_shape 4 v

-- The four rounds are enough: with more the loop writes the same.
pub varint_loop_rounds : (k v : ℕ) → v < 128 ^ suc k → varint_loop (suc k) v ≡ varint_loop k v
unfolding varint_loop
varint_loop_rounds zero v h = ground arith
varint_loop_rounds (suc k) v h = ground (arith, varint_loop_rounds k (v / 128) (omega arith))
