-- ===== src/Lib.antt =====
-- VrootKV, a storage engine with a write-ahead log and SSTables: its formats and the code that
-- writes and reads them.
--
-- The parts of the program and where they are modelled:
--   src/wal/wal_format.h: the codecs of integers and the CRC in Codec (PutFixed32 and PutFixed64
--     are put_fixed32 and put_fixed64, DecodeFixed32 and DecodeFixed64 are decode_fixed32 and
--     decode_fixed64, PutVarint32 and GetVarint32 are put_varint32 and get_varint32, Crc32 is
--     crc32); the records, payloads and frames in Wal (SerializePayload, SerializeFrame,
--     ParsePayload and ParseFrame under their names in small letters). Wal/Replay is the loop of
--     tests/wal/test_wal.cpp that reads a log frame by frame.
--   include/VrootKV/io/sstable_format.h: BlockHandle and SSTableFooter in Sstable/Format.
--   src/io/sstable_builder.cpp and src/io/sstable_reader.cpp: the data blocks in
--     Sstable/DataBlock, with DataBlockBuilder in Builder (Add is add, Finish is finish,
--     CurrentSize is current_size) and DataBlockReader in Reader (the constructor is new_reader,
--     Get is get, its lambda is key_at_offset, its two loops are search_run and scan_run). The
--     order of keys is in Key. Layout, Build, Open, Search, Scan, Lookup and Correct are about a
--     block that is built and read, Guards about what is refused, and
--     Safety about Get on any bytes. IndexBlockBuilder and
--     IndexBlockReader are in Sstable/IndexBlock: Add is add_divider, Finish is finish_index, the
--     constructor is new_index_reader, Find is find, and its lambda key_at is split_key, key_at
--     and handle_of. Its children Layout, Search and Correct are about a block that is built and
--     read, Safety about any bytes. The copies of PutVarint32 and GetVarint32 in these files are
--     append_varint32 and take_varint32 in Sstable/Varint.
--   tests/io/test_sstable_end_to_end.cpp, the only code that puts a whole SSTable together:
--     Sstable/Table has its steps 2 to 5 as write_table, for any number of data blocks, and 7 to
--     10 as get_from_table, for any key (Route, Index and Correct are about them);
--     FileManager/Store has the calls of the interfaces in steps 1, 5 and 6 as store_file and
--     load_file; EndToEnd is about both together, with any file manager that keeps its promises.
--   src/memtable/skip_list.h: Memtable, with the methods of SkipList and its Iterator under their
--     names in small letters. A node is a cell of a heap that maps addresses to nodes, with a
--     list of forward pointers. The loop of a search stands in the code three times, as walk,
--     walk_mut and erase_walk. Memtable/Holds says that a heap holds towers, linked in order
--     level by level, and no cell besides; Chain, Relink, Search, Descend, Splice and Unlink are
--     about the pointers, Lookup, Update, Erase, Clear and Iterate about the methods, Commands
--     about sequences of calls, and Flush about the two components together: the entries of an
--     iteration, written as a data block or as a table (no code of the program calls both).
--     Entries has the sorted association lists that data blocks and memtables stand for.
--   src/io/file_manager.cpp: FileManager, with PosixWritableFile and PosixReadableFile as
--     PosixFile, and DefaultFileManager. The system calls and std::filesystem are the parameter
--     Posix; what write and close do as documented are the hypotheses Appends (Write) and Settles
--     (Close). Windows has the classes on Windows, with Win32 for its calls. Log puts Write and
--     the log of Wal together. Interface has IWritableFile, IReadableFile and IFileManager of
--     include/VrootKV/io/file_manager.h, with what their comments promise as IsFileManager;
--     Default has the classes on POSIX and on Windows as implementations, Disk in it what the
--     calls do to files, AllWin32 those of Win32 as such calls, and Lawful and OnWindows are
--     about the promises.
--   src/common/bloom_filter.cpp: Bloom, with the hash in Bloom/Hash. The public constructor is
--     bloom_filter in Bloom/Sizing, with OptimalNumBits and OptimalNumHashes; Floats has the
--     arithmetic of double.
--   Base has what they share: lists and tests on the native numbers, bits, and results.
--
-- The models of the blocks call the codecs of wal_format.h, of which the SSTable code has copies,
-- and the data blocks have the order of std::string, as the index blocks and the memtable do.
--
-- State and errors: a class is a record, a method a function from the record to the next record
-- and the result. An exception is err with a constructor for its message. fault stands for a read
-- or write outside the buffer, view or vector that the code was given, or through a null pointer
-- or a deleted node, for an int sum of a search that overflows, and for a distribution of an empty
-- range, all of which C++ leaves undefined, in Bloom/Sizing for the conversion of a double that
-- does not fit, and in the blocks also for a loop that runs out of rounds. A std::string_view is
-- the list of bytes that it views; remove_prefix of the log's views faults where the view is
-- shorter, and is drop elsewhere, behind the checks of the code.
--
-- Numbers: an integer of w bits is a natural number with the remainder by 2 ^ w written where the
-- code converts, adds or shifts beyond the width. Buffers in memory are shorter than 2 ^ 64. The
-- int sums of the searches in a block are checked to fit. The index i of 32 bits by which the
-- constructors of the readers walk their offsets is a plain number, since a block below 4 GiB has
-- fewer than 2 ^ 30 of them. The parameters of the constructor of the skip list are ints, of any
-- sign.
--
-- Loops: a loop over bytes, keys or bits is recursion on the list. PutVarint32 has 4 rounds,
-- enough for 32 bits. The binary search has as many rounds as there are restarts, and the scan of
-- a run as many as there are bytes of entries, of which each round passes twelve. Reading a log
-- has as many rounds as the log has bytes, of which each frame takes eight.
--
-- The skip list: a walk along a level has one round more than the list has nodes, and Clear as
-- many. The descent has a round for each level, and randomLevel one for each level that is
-- allowed. The numbers that dist_ draws are an argument, a function from how many were drawn. A
-- loop of a file has fuel, and ends with more fuel than bytes and signals. Loading a file has
-- more rounds than the file has bytes, and each but the last reads one.
--
-- Not modelled: the probability of a level in the skip list; the arithmetic of double, so that
-- how many bits and hashes the filter gets, and how often it answers true of a key that was not
-- added, is open; what std::filesystem and the calls of the system do inside, of which Disk says
-- what their manuals promise; and the other tests. The host is little-endian, as the comments of
-- the program ask for.
pub mod Base
pub mod Codec
pub mod Key
pub mod Entries
pub mod Wal
pub mod Sstable
pub mod Bloom
pub mod Memtable
pub mod FileManager
pub mod EndToEnd
pub mod Tests
