-- ===== src/Memtable/Flush.antt =====
-- A memtable written as a data block, or as a table: the entries that an iterator gives, added in its order.
use vroot_kv.Base.{ℕ, ◌+◌, ◌^◌, ◌<◌, ◌≡◌, sym, ap, ◌∙◌, List, All, ok, ◌>>=◌}
use vroot_kv.Key.{Key}
use vroot_kv.Entries.{lookup}
use vroot_kv.Memtable.{SkipList}
use vroot_kv.Memtable.Chain.{Tower}
use vroot_kv.Memtable.Holds.{entries, Holds}
use vroot_kv.Memtable.Lookup.{get_lem}
use vroot_kv.Memtable.Iterate.{begin, scan, begin_lem}
use vroot_kv.Sstable.DataBlock.Reader.{new_reader}
use vroot_kv.Sstable.DataBlock.Layout.{Run, flatten, IsEntry, IsSorted}
use vroot_kv.Sstable.DataBlock.Build.{build}
use vroot_kv.Sstable.DataBlock.Build.Add.{weight}
use vroot_kv.Sstable.DataBlock.Correct.{build-get}
use vroot_kv.Sstable.Table.{write_table, get_from_table}
use vroot_kv.Sstable.Table.Index.{Headed, index_weight}
use vroot_kv.Sstable.Table.Correct.{write_table-get_from_table}
use mathlib.Core.Path.{subst}
use vroot_kv.Memtable as Memtable
use vroot_kv.Sstable.DataBlock.Reader as Reader

module _ (s : SkipList) (ts : List Tower) (h : Holds s ts) where
  -- The scan of a memtable whose entries fit a block gives a block, in which `Get` finds for every key what
  -- `Get` finds in the memtable.
  pub flush-get :
      (interval : ℕ)
      → All IsEntry (entries ts)
      → weight (entries ts) + 8 < 2 ^ 32
      → (block : List ℕ) × ((begin s >>= λ it. scan s.size s it) ≡ ok (entries ts))
        × (build interval (entries ts) ≡ ok block)
        × ((key : Key)
            → (v : _) × (Memtable.get s key ≡ ok v)
              × ((new_reader block >>= λ r. Reader.get r key) ≡ ok v))
  flush-get interval fit small =
      let (block, e, found) =
        build-get interval (entries ts)
          (record { sorted = h.sorted; entries_fit = fit; fits = small }) in
      (block, begin_lem s ts h, e, λ key. (lookup key (entries ts), get_lem s ts h key, found key))

  -- Where the entries of a memtable are cut into blocks that a table takes, the scan of the memtable gives them in
  -- order, the table is written, and the lookup in it finds for every key what `Get` finds in the memtable.
  pub flush-table :
      (interval : ℕ) (blocks : List Run)
      → flatten blocks ≡ entries ts
      → All Headed blocks
      → All (λ es. weight es + 8 < 2 ^ 32) blocks
      → index_weight blocks + 4 < 2 ^ 32
      → (file : List ℕ) × ((begin s >>= λ it. scan s.size s it) ≡ ok (flatten blocks))
        × (write_table interval blocks ≡ ok file)
        × ((key : Key) → (v : _) × (Memtable.get s key ≡ ok v) × (get_from_table file key ≡ ok v))
  flush-table interval blocks same headed fit small =
      let (file, e, found) = write_table-get_from_table interval blocks (record {
        sorted = subst IsSorted (sym same) h.sorted;
        headed = headed;
        blocks_fit = fit;
        index_fits = small;
      }) in
      (
        file,
        begin_lem s ts h ∙ ap ok (sym same),
        e,
        λ key. (
          lookup key (flatten blocks),
          get_lem s ts h key ∙ ap (λ es. ok (lookup key es)) (sym same),
          found key,
        ),
      )
