-- ===== src/Codec/Crc/Detect.antt =====
-- What the checksum detects.
use vroot_kv.Base.{ℕ, ◌^◌, ◌<◌, ◌≡◌, sym, ◌∙◌, ◌≢◌, arith}
use vroot_kv.Base.{List, [], ◌∷◌, ◌++◌}
use vroot_kv.Base.Bits.{bit_xor_cancel, bit_xor_comm, bit_xor-lt}
use vroot_kv.Codec.Bytes.{IsByte, IsBytes}
use vroot_kv.Codec.Crc.{crc_step, crc32}
use vroot_kv.Codec.Crc.Step.{crc_step-lt, crc_step_state, crc_step_byte}
use mathlib.Core.List.{foldl, foldl-append}

fold-lt : (c : ℕ) (bs : List ℕ) → c < 2 ^ 32 → foldl crc_step c bs < 2 ^ 32
fold-lt c [] h = h
fold-lt c (b ∷ bs) h = fold-lt (crc_step c b) bs (crc_step-lt c b h)

fold_state :
    (c c' : ℕ) (bs : List ℕ)
    → c < 2 ^ 32
    → c' < 2 ^ 32
    → IsBytes bs
    → foldl crc_step c bs ≡ foldl crc_step c' bs
    → c ≡ c'
fold_state c c' [] h h' p e = e
fold_state c c' (b ∷ bs) h h' p e =
    crc_step_state c c' b h h' p.0
      (fold_state (crc_step c b) (crc_step c' b) bs (crc_step-lt c b h) (crc_step-lt c' b h') p.1 e)

-- The checksum is a `uint32_t`.
pub crc32-lt : (bs : List ℕ) → crc32 bs < 2 ^ 32
unfolding crc32
crc32-lt bs = bit_xor-lt 32 _ _ (fold-lt 0xFFFFFFFF bs (omega arith)) (omega arith)

-- Two buffers that differ in one byte only, with bytes behind it, have different checksums.
pub crc32_byte_change :
    (front back : List ℕ) (b b' : ℕ)
    → IsByte b
    → IsByte b'
    → IsBytes back
    → b ≢ b'
    → crc32 (front ++ (b ∷ back)) ≢ crc32 (front ++ (b' ∷ back))
unfolding crc32
crc32_byte_change front back b b' p p' q differ e = differ (
    crc_step_byte c b b' small p p'
      (fold_state _ _ back (crc_step-lt c b small) (crc_step-lt c b' small) q registers))
  where
    c : ℕ
    c = foldl crc_step 0xFFFFFFFF front

    small : c < 2 ^ 32
    small = fold-lt 0xFFFFFFFF front (omega arith)

    registers : foldl crc_step c (b ∷ back) ≡ foldl crc_step c (b' ∷ back)
    registers =
        sym (foldl-append crc_step 0xFFFFFFFF front (b ∷ back))
        ∙ bit_xor_cancel 0xFFFFFFFF _ _ (bit_xor_comm 0xFFFFFFFF _ ∙ e ∙ bit_xor_comm _ 0xFFFFFFFF)
        ∙ foldl-append crc_step 0xFFFFFFFF front (b' ∷ back)
