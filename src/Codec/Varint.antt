-- ===== src/Codec/Varint.antt =====
-- `PutVarint32` and `GetVarint32` of src/wal/wal_format.h (src/io/sstable_builder.cpp and
-- src/io/sstable_reader.cpp carry the same text): seven bits a byte, lowest group first.
pub mod Bits
pub mod RoundTrip
use vroot_kv.Base.{ℕ, zero, suc, ◌+◌, ◌*◌, ◌/◌, ◌^◌, bit_and, bit_or}
use vroot_kv.Base.{List, [], ◌∷◌, ◌++◌, Option, none, some, ◌&&◌, leb, ◌==◌, if◌then◌else◌}
use vroot_kv.Codec.Bytes.{u8, u32}

-- The bytes that the loop stores. `buf` has room for five, so the loop runs four rounds at most; a
-- `uint32_t` needs no more.
unfoldable pub varint_loop : ℕ → ℕ → List ℕ
varint_loop zero v = u8 v ∷ []
varint_loop (suc rounds) v =
    let rest = varint_loop rounds (v / 2 ^ 7) in
    if leb 0x80 v then u8 (bit_or v 0x80) ∷ rest else u8 v ∷ []

unfoldable pub put_varint32 : List ℕ → ℕ → List ℕ
unfolding varint_loop
put_varint32 dst v = dst ++ varint_loop 4 v

-- The list is what the loop has not read. `none` is the answer `false`.
unfoldable pub get_varint_loop : List ℕ → ℕ → ℕ → Option (ℕ × List ℕ)
get_varint_loop [] result shift = none
get_varint_loop (byte ∷ rest) result shift =
    let result' = bit_or result (u32 (bit_and byte 0x7f * 2 ^ shift)) in
    let more = get_varint_loop rest result' (shift + 7) in
    if leb shift 28 then (if bit_and byte 0x80 == 0 then some (result', rest) else more) else none

unfoldable pub get_varint32 : List ℕ → Option (ℕ × List ℕ)
unfolding get_varint_loop
get_varint32 bs = get_varint_loop bs 0 0
