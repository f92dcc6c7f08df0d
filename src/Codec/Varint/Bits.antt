-- ===== src/Codec/Varint/Bits.antt =====
-- The masks of the varint code as arithmetic.
use vroot_kv.Base.{ℕ, ◌+◌, ◌*◌, ◌/◌, ◌%◌, ◌^◌, ◌<◌, ◌≡◌, bit_and, bit_or, arith}
use vroot_kv.Base.Bits.{
  bit_and_step, bit_and-zero, bit_and-two-pow, bit_or-two-pow, bit_or_fields, bit_or_comm,
}
use vroot_kv.Codec.Bytes.{u8, u32}

-- One step of the recursion takes one digit off a mask of ones.
low_one : (b : ℕ) → bit_and b 1 ≡ b % 2
low_one b = omega (arith, bit_and_step b 1, bit_and-zero (b / 2))

low_two : (b : ℕ) → bit_and b 3 ≡ b % 4
low_two b = omega (arith, bit_and_step b 3, low_one (b / 2))

low_three : (b : ℕ) → bit_and b 7 ≡ b % 8
low_three b = omega (arith, bit_and_step b 7, low_two (b / 2))

low_four : (b : ℕ) → bit_and b 15 ≡ b % 16
low_four b = omega (arith, bit_and_step b 15, low_three (b / 2))

low_five : (b : ℕ) → bit_and b 31 ≡ b % 32
low_five b = omega (arith, bit_and_step b 31, low_four (b / 2))

low_six : (b : ℕ) → bit_and b 63 ≡ b % 64
low_six b = omega (arith, bit_and_step b 63, low_five (b / 2))

pub low_seven : (b : ℕ) → bit_and b 0x7f ≡ b % 128
low_seven b = omega (arith, bit_and_step b 127, low_six (b / 2))

pub top_bit : (b : ℕ) → b < 256 → bit_and b 0x80 ≡ b / 128 * 128
top_bit b h = omega (arith, bit_and-two-pow 7 b)

pub set_top_bit : (v : ℕ) → u8 (bit_or v 0x80) ≡ v % 128 + 128
set_top_bit v = omega (arith, bit_or-two-pow 7 v)

-- `result |= group << shift`, while `result` ends below bit `shift` and nothing is shifted out.
pub put_group :
    (result g shift : ℕ)
    → result < 2 ^ shift
    → g * 2 ^ shift < 2 ^ 32
    → bit_or result (u32 (g * 2 ^ shift)) ≡ result + g * 2 ^ shift
put_group result g shift low fits =
    ground (arith, bit_or_comm result (g * 2 ^ shift), bit_or_fields shift g result)
