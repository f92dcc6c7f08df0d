-- ===== src/Tests.antt =====
-- Concrete inputs for the theorems of the other modules.
pub mod Wal
pub mod Sstable
pub mod Bloom
pub mod Codec
pub mod Memtable
pub mod FileManager
pub mod Table
pub mod EndToEnd
pub mod OnWindows
