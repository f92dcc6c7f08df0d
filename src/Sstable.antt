-- ===== src/Sstable.antt =====
-- The SSTable: the footer and block handles, the data blocks the index blocks, and the table that they make up.
pub mod Format
pub mod DataBlock
pub mod IndexBlock
pub mod Varint
pub mod Table
