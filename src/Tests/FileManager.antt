-- ===== src/Tests/FileManager.antt =====
-- A system that answers from a script, with one file.
use vroot_kv.Base.{ℕ, zero, suc, ◌≤◌, ◌<◌, ◌≡◌, ◌∙◌, refl, sym, ap, arith, true, false, some}
use vroot_kv.Base.{List, [], ◌∷◌, ◌++◌, length, length-take, take, drop, take_all}
use vroot_kv.FileManager.{
  Outcome, returned, interrupted, failed, Posix, PosixFile, write_loop, write_file, succeeded,
  close_file,
}
use vroot_kv.FileManager.Write.{Appends, Written, write_file-Written}
use vroot_kv.FileManager.Close.{Reaches, Closed, close_file-Closed}
use vroot_kv.FileManager.Log.{Recovered, write_file-replay}
use vroot_kv.Codec.Fixed.{to_le, put_fixed32, put_fixed64}
use vroot_kv.Codec.Varint.{put_varint32}
use vroot_kv.Wal.{WalRecord, begin_tx, serialize_payload, serialize_frame}
use vroot_kv.Wal.Payload.{IsRecord}
use vroot_kv.Wal.Replay.{write_log}
use vroot_kv.FileManager.Windows.{Win32, windows_loop, windows_write}

-- What the next calls do, and the bytes of the file.
record Script : Type 0 where
  answers : List (Outcome ℕ)
  stored : List ℕ

-- The answer `n` of the script to a write stands for `n` bytes at most.
unfoldable scripted_write : Script → List ℕ → Outcome ℕ × Script
scripted_write s bytes = elim s.answers [
  | [] ↦ (returned (length bytes), record s { stored = s.stored ++ bytes })
  | returned n ∷ more ↦ (
    returned (length (take n bytes)),
    record { answers = more; stored = s.stored ++ take n bytes },
  )
  | interrupted ∷ more ↦ (interrupted, record s { answers = more })
  | failed ∷ more ↦ (failed, record s { answers = more })
]

unfoldable scripted_call : Script → Outcome ℕ × Script
scripted_call s = elim s.answers [
  | [] ↦ (returned 0, s)
  | o ∷ more ↦ (o, record s { answers = more })
]

abbrev scripted : Posix Script
scripted = record {
  sys_write = λ s fd bytes. scripted_write s bytes;
  sys_read = λ s fd n. (returned (take n s.stored), record s { stored = drop n s.stored });
  sys_fsync = λ s fd. scripted_call s;
  sys_close = λ s fd. scripted_call s;
  open_truncated = λ s name. (some 3, record s { stored = [] });
  open_existing = λ s name. (some 3, s);
  fs_exists = λ s name. some true;
  fs_remove = λ s name. (true, s);
  fs_rename = λ s src target. (true, s);
}

abbrev four_bytes : List ℕ
four_bytes = 1 ∷ 2 ∷ 3 ∷ 4 ∷ []

-- A short write, a signal, and the rest.
abbrev short_write : Script
short_write = record { answers = returned 1 ∷ interrupted ∷ returned 2 ∷ []; stored = [] }

write-short_write :
    write_file scripted 10 (record { fd = some 3 }) short_write four_bytes
    ≡ some (true, record { answers = []; stored = four_bytes })
unfolding write_file write_loop scripted_write
write-short_write = refl

-- Then an error: one byte is in the file.
write-failed :
    write_file scripted 10
      (record { fd = some 3 })
      (record { answers = returned 1 ∷ failed ∷ []; stored = [] })
      four_bytes
    ≡ some (false, record { answers = []; stored = 1 ∷ [] })
unfolding write_file write_loop scripted_write
write-failed = refl

abbrev left : Script → ℕ
left s = length s.answers

pub take-length-take : (n : ℕ) (xs : List ℕ) → take (length (take n xs)) xs ≡ take n xs
take-length-take zero xs = refl
take-length-take (suc n) [] = refl
take-length-take (suc n) (x ∷ xs) = ap (λ ys. x ∷ ys) (take-length-take n xs)

count_of : {n m : ℕ} → ◌≡◌ {A = Outcome ℕ} (returned n) (returned m) → n ≡ m
count_of e = cc

abbrev script : List (Outcome ℕ) → List ℕ → Script
script answers stored = record { answers = answers; stored = stored }

accepts :
    (answers : List (Outcome ℕ)) (stored bytes : List ℕ) (n : ℕ)
    → (scripted_write (script answers stored) bytes).0 ≡ returned n
    → let s = (scripted_write (script answers stored) bytes).1 in
      (n ≤ length bytes) × (s.stored ≡ stored ++ take n bytes) × (left s ≤ length answers)
unfolding scripted_write
accepts [] stored bytes n e =
    let all : length bytes ≡ n = count_of e in
    (
      omega (arith, all),
      ap (λ bs. stored ++ bs) (sym (take_all n bytes (omega (arith, all)))),
      omega arith,
    )
accepts (returned m ∷ more) stored bytes n e =
    let some_of : length (take m bytes) ≡ n = count_of e in
    (
      omega (arith, some_of, length-take m bytes),
      ap (λ bs. stored ++ bs) (sym (take-length-take m bytes) ∙ ap (λ k. take k bytes) some_of),
      omega arith,
    )
accepts (interrupted ∷ more) stored bytes n e = absurd cc
accepts (failed ∷ more) stored bytes n e = absurd cc

refuses :
    (answers : List (Outcome ℕ)) (stored bytes : List ℕ)
    → (scripted_write (script answers stored) bytes).0 ≡ failed
    → (scripted_write (script answers stored) bytes).1.stored ≡ stored
unfolding scripted_write
refuses [] stored bytes e = absurd cc
refuses (returned m ∷ more) stored bytes e = absurd cc
refuses (interrupted ∷ more) stored bytes e = refl
refuses (failed ∷ more) stored bytes e = refl

waits :
    (answers : List (Outcome ℕ)) (stored bytes : List ℕ)
    → (scripted_write (script answers stored) bytes).0 ≡ interrupted
    → let s = (scripted_write (script answers stored) bytes).1 in
      (s.stored ≡ stored) × (left s < length answers)
unfolding scripted_write
waits [] stored bytes e = absurd cc
waits (returned m ∷ more) stored bytes e = absurd cc
waits (interrupted ∷ more) stored bytes e = (refl, omega arith)
waits (failed ∷ more) stored bytes e = absurd cc

scripted-Appends : Appends scripted (λ s fd. s.stored) left
scripted-Appends = record {
  accepted = λ w fd bytes n e. accepts w.answers w.stored bytes n e;
  refused = λ w fd bytes e. refuses w.answers w.stored bytes e;
  signalled = λ w fd bytes e. waits w.answers w.stored bytes e;
}

write_file-Written_example :
    Written Script
      (λ s fd. s.stored)
      short_write
      3
      four_bytes
      (write_file scripted 10 (record { fd = some 3 }) short_write four_bytes)
write_file-Written_example =
    write_file-Written scripted (λ s fd. s.stored) left scripted-Appends 3 10 short_write four_bytes
      (omega arith)

close_waits :
    (answers : List (Outcome ℕ)) (stored : List ℕ)
    → (scripted_call (script answers stored)).0 ≡ interrupted
    → left (scripted_call (script answers stored)).1 < length answers
unfolding scripted_call
close_waits [] stored e = absurd cc
close_waits (o ∷ more) stored e = omega arith

-- A signal interrupts the first `close`.
abbrev interrupted_close : Script
interrupted_close = record { answers = interrupted ∷ returned 0 ∷ []; stored = [] }

close_file-Closed_example :
    (f' : PosixFile) × (o : Outcome ℕ) × (w' : Script) × (close_file scripted 3
        (record { fd = some 3 })
        interrupted_close
      ≡ some (f', succeeded o, w'))
    × Reaches (λ u. scripted.sys_close u 3) interrupted_close o w'
    × Closed Script scripted f'
close_file-Closed_example =
    close_file-Closed scripted 3 left 3 interrupted_close (omega arith)
      (record { signalled = λ w e. close_waits w.answers w.stored e })

-- Win32 that writes what it is given.
abbrev generous : Win32 Script
generous = record {
  write_bytes = λ s handle bytes. (some (length bytes), record s { stored = s.stored ++ bytes });
  read_bytes = λ s handle n. (some (take n s.stored), record s { stored = drop n s.stored });
  flush_buffers = λ s handle. (true, s);
  close_handle = λ s handle. (true, s);
  create_always = λ s name. (some 3, record s { stored = [] });
  open_existing = λ s name. (some 3, s);
  wide_length = λ name. length name;
  convert = λ name n. (take n name, n);
}

windows_write-four_bytes :
    windows_write generous 4 (record { handle = some 3 }) short_write four_bytes
    ≡ some (true, record { answers = short_write.answers; stored = four_bytes })
unfolding windows_write windows_loop
windows_write-four_bytes = refl

abbrev begin_record : WalRecord
begin_record = record { txn_id = 1; type = begin_tx; key = []; value = [] }

begin_record-IsRecord : IsRecord begin_record
begin_record-IsRecord = record {
  txn_id_fits = omega arith;
  type_fits = tt;
  key_bytes = tt;
  value_bytes = tt;
  payload_fits = omega arith;
}

abbrev two_begins : List WalRecord
two_begins = begin_record ∷ begin_record ∷ []

length-two_begins : length (write_log two_begins) ≡ 38
unfolding serialize_frame serialize_payload put_fixed32 put_fixed64 put_varint32 to_le
length-two_begins = refl

-- The disk is full in the second frame.
abbrev full_disk : Script
full_disk = record { answers = returned 30 ∷ failed ∷ []; stored = [] }

write_file-replay_example :
    Recovered scripted
      (λ s fd. s.stored)
      left
      scripted-Appends
      3
      []
      two_begins
      (write_file scripted 40 (record { fd = some 3 }) full_disk (write_log two_begins))
write_file-replay_example =
    write_file-replay scripted (λ s fd. s.stored) left scripted-Appends 3 40 full_disk [] two_begins
      tt (begin_record-IsRecord, (begin_record-IsRecord, tt)) refl
      (omega (arith, length-two_begins))
