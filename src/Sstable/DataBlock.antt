-- ===== src/Sstable/DataBlock.antt =====
-- Data blocks: sorted entries in runs, each key cut by the prefix that it shares with the key before it.
-- `Builder` is src/io/sstable_builder.cpp, `Reader` is src/io/sstable_reader.cpp.
pub mod Builder
pub mod Reader
pub mod Layout
pub mod Build
pub mod Scan
pub mod Search
pub mod Lookup
pub mod Open
pub mod Correct
pub mod Guards
pub mod Safety
