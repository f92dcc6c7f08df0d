-- ===== src/Tests/Memtable.antt =====
-- A memtable of at most four levels, and its calls.
use vroot_kv.Base.{ℕ, ◌≤◌, ◌≡◌, refl, sym, arith, true, false, none, some, ◌%◌}
use vroot_kv.Base.{List, [], ◌∷◌, ok, ◌>>=◌}
use vroot_kv.Key.{Key, key_eq, key_lt}
use vroot_kv.Entries.{lookup, put_entry, erase_entry}
use vroot_kv.Memtable.{
  Ptr, SkipList, descend_mut, walk, next_at, load, write, link, match_key, add_node, splice,
  level_loop, pred_at, fill_update, descend, points_to, set_next, shrink, unlink, new_list,
  random_level, find_greater_or_equal, find_greater_or_equal_mut, contains, get, insert, put, erase,
  pos, negsuc, int_lt, to_nat, record_at, walk_mut, made_list, erase_walk, erase_descend,
  erase_search, destroy,
}
use vroot_kv.Memtable.Chain.{Tower}
use vroot_kv.Memtable.Holds.{entries, Holds}
use vroot_kv.Memtable.Levels.{random_level_bounds}
use vroot_kv.Memtable.Update.{absent, put_lem}
use vroot_kv.Memtable.Clear.{destroy_lem, new_list-Holds}
use vroot_kv.Memtable.Iterate.{begin, seek, scan, at_least, begin_lem, seek_lem}
use vroot_kv.Memtable.Flush.{flush-table}
use vroot_kv.Sstable.DataBlock.Layout.{Run, flatten}
use vroot_kv.Sstable.Table.{write_table, get_from_table}
use vroot_kv.Memtable.Commands.{
  step, Command, insert_command, put_command, erase_command, get_command, contains_command,
  size_command, flag, found, count, run, run_entries, step_entries, run_lem,
  find_greater_or_equal-find_greater_or_equal_mut, run-new_list,
}

-- Numbers that promote some nodes.
abbrev draws : ℕ → ℕ
draws n = n % 3

abbrev key_a : Key
key_a = 97 ∷ []

abbrev key_b : Key
key_b = 98 ∷ []

abbrev key_c : Key
key_c = 99 ∷ []

abbrev calls : List Command
calls =
    put_command key_b (1 ∷ [])
    ∷ insert_command key_a (2 ∷ [])
    ∷ insert_command key_b (3 ∷ [])
    ∷ put_command key_c (4 ∷ [])
    ∷ put_command key_b (5 ∷ [])
    ∷ get_command key_b
    ∷ erase_command key_a
    ∷ get_command key_a
    ∷ contains_command key_c
    ∷ size_command
    ∷ []

-- The calls on the heap answer so.
run-calls :
    (new_list (pos 4) (pos 1) (pos 4) >>= λ s. run draws s calls >>= λ r. ok r.1)
    ≡ ok (
        flag true
        ∷ flag true
        ∷ flag false
        ∷ flag true
        ∷ flag false
        ∷ found (some (5 ∷ []))
        ∷ flag true
        ∷ found none
        ∷ flag true
        ∷ count 2
        ∷ [])
unfolding run step put find_greater_or_equal_mut descend_mut new_list walk next_at load write link
    match_key add_node splice random_level level_loop pred_at fill_update key_eq key_lt contains
    descend erase erase_search erase_descend erase_walk record_at walk_mut int_lt to_nat made_list
    find_greater_or_equal get insert points_to set_next shrink unlink
run-calls = refl

int_lt_four : int_lt (pos 4) (pos 1) ≡ false
unfolding int_lt
int_lt_four = refl

run-new_list_example :
    (s' : SkipList) × (ts' : List Tower) × ((new_list (pos 4) (negsuc 2) (pos 4) >>= λ s.
    run draws s calls)
      ≡ ok (s', (run_entries [] calls).1))
    × Holds s' ts'
    × (entries ts' ≡ (run_entries [] calls).0)
run-new_list_example = run-new_list draws (pos 4) (negsuc 2) (pos 4) calls int_lt_four

-- A new list of at most four levels.
abbrev made : (s : SkipList) × (new_list (pos 4) (pos 1) (pos 4) ≡ ok s) × Holds s []
made = new_list-Holds (pos 4) (pos 1) (pos 4) int_lt_four

abbrev held :
    (s' : SkipList) × (ts' : List Tower) × (run draws made.0 calls
      ≡ ok (s', (run_entries [] calls).1))
    × Holds s' ts'
    × (entries ts' ≡ (run_entries [] calls).0)
held = run_lem draws calls made.0 [] made.2

-- The list after the calls, its towers, and what it holds.
abbrev after_calls : SkipList
after_calls = held.0

abbrev its_towers : List Tower
its_towers = held.1

its_entries : entries its_towers ≡ (key_b, 5 ∷ []) ∷ (key_c, 4 ∷ []) ∷ []
unfolding run_entries step_entries put_entry erase_entry lookup key_eq key_lt
its_entries = held.4

put_lem_example :
    (s' : SkipList) × (ts' : List Tower) × (put draws after_calls key_b (7 ∷ [])
      ≡ ok (s', absent (lookup key_b (entries its_towers))))
    × Holds s' ts'
    × (entries ts' ≡ put_entry key_b (7 ∷ []) (entries its_towers))
put_lem_example = put_lem draws after_calls its_towers held.3 key_b (7 ∷ [])

destroy_lem_example :
    (s' : SkipList) × (destroy after_calls ≡ ok s') × ((q : Ptr) → s'.cells q ≡ none)
destroy_lem_example = destroy_lem after_calls its_towers held.3

begin_lem_example :
    (begin after_calls >>= λ it. scan after_calls.size after_calls it) ≡ ok (entries its_towers)
begin_lem_example = begin_lem after_calls its_towers held.3

seek_lem_example :
    (seek after_calls key_c >>= λ it. scan after_calls.size after_calls it)
    ≡ ok (at_least key_c (entries its_towers))
seek_lem_example = seek_lem after_calls its_towers held.3 key_c

random_level_bounds_example :
    (1 ≤ (random_level draws after_calls).0)
    × ((random_level draws after_calls).0 ≤ after_calls.max_level)
random_level_bounds_example =
    random_level_bounds draws after_calls (omega (arith, held.3.some_level, held.3.level_fits))

find_greater_or_equal-find_greater_or_equal_mut_example :
    (find_greater_or_equal after_calls key_a
      ≡ (find_greater_or_equal_mut after_calls key_a >>= λ r. ok r.0))
    × (erase_search after_calls key_a ≡ find_greater_or_equal_mut after_calls key_a)
find_greater_or_equal-find_greater_or_equal_mut_example =
    find_greater_or_equal-find_greater_or_equal_mut after_calls key_a held.3.level_fits

-- A block for each of the two entries.
abbrev one_each : List Run
one_each = ((key_b, 5 ∷ []) ∷ []) ∷ ((key_c, 4 ∷ []) ∷ []) ∷ []

flush-table_example :
    (file : List ℕ) × ((begin after_calls >>= λ it. scan after_calls.size after_calls it)
      ≡ ok (flatten one_each))
    × (write_table 16 one_each ≡ ok file)
    × ((key : Key) → (v : _) × (get after_calls key ≡ ok v) × (get_from_table file key ≡ ok v))
flush-table_example =
    flush-table after_calls its_towers held.3 16 one_each (sym its_entries)
      (
        ((λ e. cc), ((omega arith, omega arith), tt)),
        (((λ e. cc), ((omega arith, omega arith), tt)), tt),
      )
      (omega arith, (omega arith, tt)) (omega arith)
