-- ===== src/Codec/Crc.antt =====
-- `Crc32` of src/wal/wal_format.h: the reflected CRC-32 with its table of 256 entries.
pub mod Step
pub mod Detect
use vroot_kv.Base.{ℕ, zero, suc, ◌+◌, ◌/◌, ◌^◌, bit_and, bit_xor}
use vroot_kv.Base.{List, [], ◌∷◌, get_or, ◌==◌, if◌then◌else◌}
use mathlib.Core.List.{foldl}

-- `c = (c & 1) ? (0xEDB88320u ^ (c >> 1)) : (c >> 1)`, and `k` rounds of it
crc_round : ℕ → ℕ
crc_round c = if bit_and c 1 == 1 then bit_xor 0xEDB88320 (c / 2) else c / 2

crc_rounds : ℕ → ℕ → ℕ
unfolding crc_round
crc_rounds zero c = c
crc_rounds (suc k) c = crc_rounds k (crc_round c)

-- The entries of the table from index `i` on, `n` of them.
crc_fill : ℕ → ℕ → List ℕ
unfolding crc_rounds
crc_fill zero i = []
crc_fill (suc n) i = crc_rounds 8 i ∷ crc_fill n (i + 1)

-- The static table, as the first call leaves it.
pub crc_table : List ℕ
unfolding crc_fill
crc_table = crc_fill 256 0

-- `c = table[(c ^ data[i]) & 0xFF] ^ (c >> 8)`; the index is below 256, so the read is in range.
pub crc_step : ℕ → ℕ → ℕ
unfolding crc_table
crc_step c byte = bit_xor (get_or crc_table (bit_and (bit_xor c byte) 0xFF) 0) (c / 2 ^ 8)

unfoldable pub crc32 : List ℕ → ℕ
unfolding crc_step
crc32 bytes = bit_xor (foldl crc_step 0xFFFFFFFF bytes) 0xFFFFFFFF
