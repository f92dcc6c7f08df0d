-- ===== src/Codec.antt =====
-- The encodings that the write-ahead log and the SSTable blocks share: bytes, fixed-width
-- integers, varints and the CRC.
pub mod Bytes
pub mod Fixed
pub mod Varint
pub mod Crc
