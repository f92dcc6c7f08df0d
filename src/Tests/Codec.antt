-- ===== src/Tests/Codec.antt =====
-- Integers and checksums at concrete values.
use vroot_kv.Base.{◌≡◌, ◌≢◌, refl, arith, [], ◌∷◌, ◌++◌, some}
use vroot_kv.Codec.Varint.{put_varint32, get_varint32}
use vroot_kv.Codec.Varint.RoundTrip.{get_varint32-put_varint32}
use vroot_kv.Codec.Crc.{crc32}
use vroot_kv.Codec.Crc.Detect.{crc32_byte_change}

-- The checksum of "123456789" that CRC-32 publishes.
crc32_check : crc32 (49 ∷ 50 ∷ 51 ∷ 52 ∷ 53 ∷ 54 ∷ 55 ∷ 56 ∷ 57 ∷ []) ≡ 0xCBF43926
unfolding crc32
crc32_check = refl

put_varint32_300 : put_varint32 [] 300 ≡ 0xAC ∷ 0x02 ∷ []
unfolding put_varint32
put_varint32_300 = refl

-- A padded form of 0 is accepted.
get_varint32_padded : get_varint32 (0x80 ∷ 0x00 ∷ []) ≡ some (0, [])
unfolding get_varint32
get_varint32_padded = refl

get_varint32-put_varint32_example :
    get_varint32 (put_varint32 [] 300 ++ (5 ∷ [])) ≡ some (300, 5 ∷ [])
get_varint32-put_varint32_example = get_varint32-put_varint32 300 (5 ∷ []) (omega arith)

crc32_byte_change_example : crc32 ((1 ∷ []) ++ (2 ∷ (9 ∷ []))) ≢ crc32 ((1 ∷ []) ++ (3 ∷ (9 ∷ [])))
crc32_byte_change_example =
    crc32_byte_change (1 ∷ []) (9 ∷ []) 2 3 (omega arith) (omega arith) (omega arith, tt)
      (λ e. absurd (omega (arith, e)))
