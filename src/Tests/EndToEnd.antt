-- ===== src/Tests/EndToEnd.antt =====
-- The table of two blocks in the file of a disk in memory, which holds one file, and reads three bytes at a time.
use vroot_kv.Base.{ℕ, zero, suc, ◌<◌, ◌≡◌, ◌⊎◌, refl, sym, ap, ◌∙◌, arith, true, false, some}
use vroot_kv.Base.{List, [], ◌∷◌, ◌++◌, length, take, drop, take-append-drop, take_all}
use vroot_kv.FileManager.{Outcome, returned, Posix, FileName}
use vroot_kv.FileManager.Default.Disk.{Disk}
use vroot_kv.FileManager.{
  write_file, write_loop, read_file, close_file, new_writable_file, new_readable_file, file_exists,
  retry, succeeded,
}
use vroot_kv.FileManager.Interface.{IsFileManager}
use vroot_kv.FileManager.Default.{posix_manager}
use vroot_kv.FileManager.Default.Lawful.{posix_view, posix_manager-IsFileManager}
use vroot_kv.FileManager.Store.{store_file, write_parts, load_file, read_all, join}
use vroot_kv.EndToEnd.{Loaded, Answers, store_file-load_file, write_table-load_file}
use vroot_kv.Tests.Table.{two_blocks, two_blocks-IsTableInput, two_blocks_table, two_blocks_written}

pub record Memory : Type 0 where
  pub name : FileName
  pub saved : List ℕ
  pub rest : List ℕ

abbrev pub memory : Posix Memory
memory = record {
  sys_write = λ m fd bytes. (returned (length bytes), record m { saved = m.saved ++ bytes });
  sys_read = λ m fd n. (returned (take n m.rest), record m { rest = drop n m.rest });
  sys_fsync = λ m fd. (returned 0, m);
  sys_close = λ m fd. (returned 0, m);
  open_truncated = λ m fname. (some 3, record m { name = fname; saved = [] });
  open_existing = λ m fname. (some 4, record m { rest = m.saved });
  fs_exists = λ m fname. some true;
  fs_remove = λ m fname. (false, m);
  fs_rename = λ m src target. (false, m);
}

pub count_of : {n m : ℕ} → ◌≡◌ {A = Outcome ℕ} (returned n) (returned m) → n ≡ m
count_of e = cc

pub bytes_read : {xs ys : List ℕ} → ◌≡◌ {A = Outcome (List ℕ)} (returned xs) (returned ys) → xs ≡ ys
bytes_read e = cc

pub nothing_taken : (n : ℕ) (xs : List ℕ) → 0 < n → take n xs ≡ [] → xs ≡ []
nothing_taken zero xs h e = absurd (omega arith)
nothing_taken (suc n) [] h e = refl
nothing_taken (suc n) (x ∷ xs) h e = absurd cc

abbrev memory-Disk : Disk memory
memory-Disk = record {
  files = λ m fname. m.saved;
  persisted = λ m fname. m.saved;
  present = λ m fname. true;
  target = λ m fd. some m.name;
  contents = λ m fd. m.saved;
  unread = λ m fd. m.rest;
  patience = λ m. 0;
  limit = 1;
  few = λ m. omega arith;
  one_file = λ m fd fname e. refl;
  creates = λ m fname fd e. (refl, refl);
  appends = record {
    accepted = λ m fd bytes n e.
        let all : length bytes ≡ n = count_of e in
        (
          omega (arith, all),
          ap (λ bs. m.saved ++ bs) (sym (take_all n bytes (omega (arith, all)))),
          omega arith,
        );
    refused = λ m fd bytes e. absurd cc;
    signalled = λ m fd bytes e. absurd cc;
  };
  write_keeps = λ m fd bytes. refl;
  close_keeps = λ m fd fname. refl;
  close_signalled = λ m fd e. absurd cc;
  fsync_keeps = λ m fd fname to. (to, refl);
  fsync_persists = λ m fd fname to e. refl;
  fsync_signalled = λ m fd e. absurd cc;
  looks = λ m fname b e. cc;
  removes = λ m fname e. absurd cc;
  renames = λ m src target e. absurd cc;
  opens = λ m fname fd e. refl;
  reads = λ m fd n bytes e.
      sym (take-append-drop n m.rest) ∙ ap (λ bs. bs ++ drop n m.rest) (bytes_read e);
  reads_end = λ m fd n h e. nothing_taken n m.rest h (bytes_read e);
  read_fails = λ m fd n e. absurd cc;
  read_signalled = λ m fd n e. absurd cc;
}

abbrev blank : Memory
blank = record { name = []; saved = []; rest = [] }

-- The manager on that system, with 300 rounds at most, and 200 bytes at once.
memory-IsFileManager :
    IsFileManager (posix_manager 300 memory) (posix_view 300 200 1024 memory memory-Disk)
memory-IsFileManager = posix_manager-IsFileManager 300 200 1024 memory memory-Disk (omega arith)

-- Five bytes in two parts, read back three at a time.
abbrev two_parts : List (List ℕ)
two_parts = (1 ∷ 2 ∷ []) ∷ (3 ∷ 4 ∷ 5 ∷ []) ∷ []

store_file-load_file_example :
    (w' : Memory) × ((store_file (posix_manager 300 memory) blank (116 ∷ []) two_parts
        ≡ some (false, w'))
      ⊎ ((store_file (posix_manager 300 memory) blank (116 ∷ []) two_parts ≡ some (true, w'))
          × Loaded
              (posix_manager 300 memory)
              (posix_view 300 200 1024 memory memory-Disk)
              memory-IsFileManager
              3
              (omega arith)
              (omega arith)
              9
              w'
              (116 ∷ [])
              (join two_parts)))
store_file-load_file_example =
    store_file-load_file (posix_manager 300 memory) (posix_view 300 200 1024 memory memory-Disk)
      memory-IsFileManager 3 (omega arith) (omega arith) 9 blank (116 ∷ []) two_parts (omega arith)
      (omega arith)

-- The table, cut behind twenty bytes.
abbrev table_parts : List (List ℕ)
table_parts = take 20 two_blocks_table ∷ drop 20 two_blocks_table ∷ []

write_table-load_file_example :
    (w' : Memory) × ((store_file (posix_manager 300 memory) blank (116 ∷ []) table_parts
        ≡ some (false, w'))
      ⊎ ((store_file (posix_manager 300 memory) blank (116 ∷ []) table_parts ≡ some (true, w'))
          × Answers
              (posix_manager 300 memory)
              (posix_view 300 200 1024 memory memory-Disk)
              memory-IsFileManager
              3
              (omega arith)
              (omega arith)
              200
              w'
              (116 ∷ [])
              (join table_parts)
              two_blocks))
write_table-load_file_example =
    write_table-load_file (posix_manager 300 memory) (posix_view 300 200 1024 memory memory-Disk)
      memory-IsFileManager 3 (omega arith) (omega arith) 2 200 blank (116 ∷ []) two_blocks
      table_parts two_blocks-IsTableInput two_blocks_written (omega arith) (omega arith)

-- The bytes are there again: stored, and loaded with six rounds.
two_parts_again :
    (store_file (posix_manager 300 memory) blank (116 ∷ []) two_parts
      ≡ some (true, record { name = 116 ∷ []; saved = join two_parts; rest = [] }))
    × (load_file
          (posix_manager 300 memory)
          6
          (record { name = 116 ∷ []; saved = join two_parts; rest = [] })
          (116 ∷ [])
          3
        ≡ some
            (some (join two_parts), record { name = 116 ∷ []; saved = join two_parts; rest = [] }))
unfolding store_file write_parts load_file read_all write_file write_loop read_file close_file
    new_writable_file new_readable_file file_exists retry succeeded
two_parts_again = (refl, refl)
