-- ===== src/Tests/Table.antt =====
-- A table of two data blocks, in a file of a disk in memory.
use vroot_kv.Base.{ℕ, ◌≡◌, refl, arith, ok, List, [], ◌∷◌}
use vroot_kv.Key.{Key, key_lt}
use vroot_kv.Sstable.DataBlock.Layout.{Run, flatten, lookup}
use vroot_kv.Sstable.Table.{write_table, finish_table, append_blocks, append_block, get_from_table}
use vroot_kv.Sstable.DataBlock.Builder.{
  add, append_entry, finish, new_builder, shared_prefix, shared_loop, put_all, is_empty,
}
use vroot_kv.Sstable.DataBlock.Build.{build, add_all}
use vroot_kv.Codec.Fixed.{put_fixed32, to_le}
use vroot_kv.Codec.Varint.{put_varint32}
use vroot_kv.Sstable.IndexBlock.{add_divider, finish_index}
use vroot_kv.Sstable.Format.{encode_handle, encode_footer}
use vroot_kv.Sstable.Table.Correct.{IsTableInput, write_table-get_from_table}

abbrev pub two_blocks : List Run
two_blocks = ((97 ∷ [], 1 ∷ []) ∷ (97 ∷ 98 ∷ [], []) ∷ []) ∷ ((99 ∷ [], 2 ∷ 3 ∷ []) ∷ []) ∷ []

pub two_blocks-IsTableInput : IsTableInput two_blocks
unfolding key_lt
two_blocks-IsTableInput = record {
  sorted = (refl, (refl, tt));
  headed = (
    ((λ e. cc), ((omega arith, omega arith), ((omega arith, omega arith), tt))),
    (((λ e. cc), ((omega arith, omega arith), tt)), tt),
  );
  blocks_fit = (omega arith, (omega arith, tt));
  index_fits = omega arith;
}

write_table-get_from_table_example :
    (file : List ℕ) × (write_table 2 two_blocks ≡ ok file)
    × ((key : Key) → get_from_table file key ≡ ok (lookup key (flatten two_blocks)))
write_table-get_from_table_example = write_table-get_from_table 2 two_blocks two_blocks-IsTableInput

-- Its bytes: the two data blocks, the index and the footer.
abbrev pub two_blocks_table : List ℕ
two_blocks_table =
    0 ∷ 0 ∷ 0 ∷ 0 ∷ 1 ∷ 0 ∷ 0 ∷ 0 ∷ 1 ∷ 0 ∷ 0 ∷ 0 ∷ 97 ∷ 1 ∷ 1 ∷ 0 ∷ 0 ∷ 0 ∷ 1 ∷ 0 ∷ 0 ∷ 0 ∷ 0 ∷ 0
    ∷ 0 ∷ 0 ∷ 98 ∷ 0 ∷ 0 ∷ 0 ∷ 0 ∷ 1 ∷ 0 ∷ 0 ∷ 0 ∷ 0 ∷ 0 ∷ 0 ∷ 0 ∷ 1 ∷ 0 ∷ 0 ∷ 0 ∷ 2 ∷ 0 ∷ 0 ∷ 0
    ∷ 99 ∷ 2 ∷ 3 ∷ 0 ∷ 0 ∷ 0 ∷ 0 ∷ 1 ∷ 0 ∷ 0 ∷ 0 ∷ 1 ∷ 97 ∷ 0 ∷ 0 ∷ 0 ∷ 0 ∷ 0 ∷ 0 ∷ 0 ∷ 0 ∷ 35 ∷ 0
    ∷ 0 ∷ 0 ∷ 0 ∷ 0 ∷ 0 ∷ 0 ∷ 1 ∷ 99 ∷ 35 ∷ 0 ∷ 0 ∷ 0 ∷ 0 ∷ 0 ∷ 0 ∷ 0 ∷ 23 ∷ 0 ∷ 0 ∷ 0 ∷ 0 ∷ 0 ∷ 0
    ∷ 0 ∷ 0 ∷ 0 ∷ 0 ∷ 0 ∷ 18 ∷ 0 ∷ 0 ∷ 0 ∷ 2 ∷ 0 ∷ 0 ∷ 0 ∷ 0 ∷ 0 ∷ 0 ∷ 0 ∷ 0 ∷ 0 ∷ 0 ∷ 0 ∷ 0 ∷ 0 ∷ 0
    ∷ 0 ∷ 0 ∷ 0 ∷ 0 ∷ 0 ∷ 58 ∷ 0 ∷ 0 ∷ 0 ∷ 0 ∷ 0 ∷ 0 ∷ 0 ∷ 48 ∷ 0 ∷ 0 ∷ 0 ∷ 0 ∷ 0 ∷ 0 ∷ 0 ∷ 173
    ∷ 186 ∷ 13 ∷ 240 ∷ 173 ∷ 186 ∷ 13 ∷ 240 ∷ []

pub two_blocks_written : write_table 2 two_blocks ≡ ok two_blocks_table
unfolding write_table finish_table append_blocks append_block build add_all add append_entry finish
    new_builder shared_prefix shared_loop put_all put_fixed32 to_le add_divider finish_index
    encode_handle encode_footer put_varint32 key_lt is_empty
two_blocks_written = refl
