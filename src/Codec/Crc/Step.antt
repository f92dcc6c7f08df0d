-- ===== src/Codec/Crc/Step.antt =====
-- One step of the CRC over a byte: it stays in 32 bits and loses nothing.
use Prim.Native.Nat.{bit_xor-bitwise}
use vroot_kv.Base.{
  false, if◌then◌else◌, ℕ, zero, suc, ◌+◌, ◌*◌, ◌/◌, ◌%◌, ◌^◌, ◌<◌, ◌≡◌, refl, ap, sym, ◌∙◌, arith,
}
use vroot_kv.Base.{bit_and, bit_xor, get_or, leb, ltb, ltb→lt, ◌==◌, ==_iff}
use vroot_kv.Base.{Bool, true, if◌then◌else◌}
use vroot_kv.Base.Bits.{bit_and_step, bit_xor_comm, bit_xor_cancel, bit_xor-div, bit_xor-lt}
use vroot_kv.Codec.Varint.Bits.{low_seven}
use vroot_kv.Codec.Crc.{crc_rounds, crc_fill, crc_table, crc_step}

crc_fill_lem : (n i j : ℕ) → j < n → get_or (crc_fill n i) j 0 ≡ crc_rounds 8 (i + j)
unfolding crc_fill
crc_fill_lem zero i j h = absurd (omega arith)
crc_fill_lem (suc n) i zero h = ap (crc_rounds 8) (omega arith)
crc_fill_lem (suc n) i (suc j) h =
    crc_fill_lem n (i + 1) j (omega arith) ∙ ap (crc_rounds 8) (omega arith)

table_entry : (j : ℕ) → j < 256 → get_or crc_table j 0 ≡ crc_rounds 8 j
unfolding crc_table
table_entry j h = crc_fill_lem 256 0 j h ∙ ap (crc_rounds 8) (omega arith)

-- The rounds undone: each puts back the bit that was shifted out, which the top bit tells.
unround : ℕ → ℕ
unround c = if leb (2 ^ 31) c then bit_xor c 0xEDB88320 * 2 % 2 ^ 32 + 1 else c * 2

unrounds : ℕ → ℕ → ℕ
unfolding unround
unrounds zero c = c
unrounds (suc k) c = unrounds k (unround c)

-- The index of a table entry, from its top byte.
index_of : ℕ → ℕ
unfolding unrounds
index_of top = unrounds 8 (top * 2 ^ 24) % 256

holds_below : (ℕ → Bool) → ℕ → Bool
holds_below test zero = true
holds_below test (suc bound) = if test bound then holds_below test bound else false

holds_below-at :
    (test : ℕ → Bool) (bound i : ℕ) → i < bound → holds_below test bound ≡ true → test i ≡ true
unfolding holds_below
holds_below-at test (suc bound) i less all = ground (arith, holds_below-at test bound i)
holds_below-at test zero i less all = absurd (omega arith)

index_table : holds_below (λ j. index_of (crc_rounds 8 j / 2 ^ 24) == j) 256 ≡ true
unfolding holds_below index_of crc_rounds
index_table = refl

bound_table : holds_below (λ j. ltb (crc_rounds 8 j) (2 ^ 32)) 256 ≡ true
unfolding holds_below crc_rounds
bound_table = refl

entry-lt : (j : ℕ) → j < 256 → crc_rounds 8 j < 2 ^ 32
entry-lt j h = ltb→lt _ _ (holds_below-at _ 256 j h bound_table)

index_of-entry : (j : ℕ) → j < 256 → index_of (crc_rounds 8 j / 2 ^ 24) ≡ j
index_of-entry j h = (==_iff _ j).0 (holds_below-at _ 256 j h index_table)

pub low_eight : (x : ℕ) → bit_and x 0xFF ≡ x % 256
low_eight x = omega (arith, bit_and_step x 255, low_seven (x / 2))

zero-bit_xor : (x : ℕ) → bit_xor 0 x ≡ x
zero-bit_xor x = bit_xor-bitwise 0 x

-- The step in plain terms: the table is read at the low byte of `c ^ byte`.
abbrev index : ℕ → ℕ → ℕ
index c byte = bit_xor c byte % 256

step_eq : (c byte : ℕ) → crc_step c byte ≡ bit_xor (crc_rounds 8 (index c byte)) (c / 2 ^ 8)
unfolding crc_step
step_eq c byte = rw (low_eight (bit_xor c byte), table_entry (index c byte) (omega arith)) refl

-- The CRC register stays a `uint32_t`.
pub crc_step-lt : (c byte : ℕ) → c < 2 ^ 32 → crc_step c byte < 2 ^ 32
crc_step-lt c byte h =
    rw (step_eq c byte) (bit_xor-lt 32 _ _ (entry-lt (index c byte) (omega arith)) (omega arith))

top_byte :
    (c byte : ℕ) → c < 2 ^ 32 → crc_step c byte / 2 ^ 24 ≡ crc_rounds 8 (index c byte) / 2 ^ 24
top_byte c byte h =
    rw
      (
        step_eq c byte,
        bit_xor-div 24 (crc_rounds 8 (index c byte)) (c / 2 ^ 8),
        bit_xor_comm (crc_rounds 8 (index c byte) / 2 ^ 24) (c / 2 ^ 8 / 2 ^ 24),
        upper_zero,
      )
      (zero-bit_xor _)
  where
    upper_zero : c / 2 ^ 8 / 2 ^ 24 ≡ 0
    upper_zero = omega arith

-- Equal results come from equal indices and equal upper parts.
module _ (c c' byte byte' : ℕ) (h : c < 2 ^ 32) (h' : c' < 2 ^ 32)
    (same : crc_step c byte ≡ crc_step c' byte') where
  index_eq : index c byte ≡ index c' byte'
  index_eq =
      sym (index_of-entry (index c byte) (omega arith))
      ∙ ap index_of
          (sym (top_byte c byte h) ∙ ap (λ (t : ℕ). t / 2 ^ 24) same ∙ top_byte c' byte' h')
      ∙ index_of-entry (index c' byte') (omega arith)

  upper_eq : c / 2 ^ 8 ≡ c' / 2 ^ 8
  upper_eq = bit_xor_cancel (crc_rounds 8 (index c byte)) _ _ (
      sym (step_eq c byte)
      ∙ same
      ∙ step_eq c' byte'
      ∙ ap (λ (t : ℕ). bit_xor (crc_rounds 8 t) (c' / 2 ^ 8)) (sym index_eq))

  xor_eq : byte < 256 → byte' < 256 → bit_xor c byte ≡ bit_xor c' byte'
  xor_eq p p' = omega (arith, index_eq, whole c byte p, whole c' byte' p', upper_eq)
    where
      whole : (x y : ℕ) → y < 256 → bit_xor x y / 256 ≡ x / 2 ^ 8
      whole x y q =
          bit_xor-div 8 x y
          ∙ ap (bit_xor (x / 2 ^ 8)) (omega arith)
          ∙ bit_xor_comm (x / 2 ^ 8) 0
          ∙ zero-bit_xor _

-- A step is injective in the register, and in the byte.
pub crc_step_state :
    (c c' byte : ℕ)
    → c < 2 ^ 32
    → c' < 2 ^ 32
    → byte < 256
    → crc_step c byte ≡ crc_step c' byte
    → c ≡ c'
crc_step_state c c' byte h h' p same =
    bit_xor_cancel byte c c'
      (bit_xor_comm byte c ∙ xor_eq c c' byte byte h h' same p p ∙ bit_xor_comm c' byte)

pub crc_step_byte :
    (c byte byte' : ℕ)
    → c < 2 ^ 32
    → byte < 256
    → byte' < 256
    → crc_step c byte ≡ crc_step c byte'
    → byte ≡ byte'
crc_step_byte c byte byte' h p p' same =
    bit_xor_cancel c byte byte' (xor_eq c c byte byte' h h same p p')
