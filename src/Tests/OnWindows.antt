-- ===== src/Tests/OnWindows.antt =====
-- The same disk behind the calls of Win32, which take narrow names for wide ones.
use vroot_kv.Base.{
  ◌-◌, ◌^◌, ◌≡◌, refl, sym, ap, ◌∙◌, arith, true, false, some, ◌==◌, ==_refl, ltb, if◌then◌else◌,
}
use vroot_kv.Base.{[], ◌∷◌, ◌++◌, length, length-take, take, drop, take-append-drop}
use vroot_kv.FileManager.{FileName}
use vroot_kv.FileManager.Windows.{Win32, string_to_wstring}
use vroot_kv.FileManager.Default.Disk.{Disk}
use vroot_kv.FileManager.Default.AllWin32.{all_win32}
use vroot_kv.Tests.FileManager.{take-length-take}
use vroot_kv.Tests.EndToEnd.{Memory, memory, count_of, bytes_read, nothing_taken}

abbrev win_memory : Win32 Memory
win_memory = record {
  write_bytes = λ m fd bytes. (some (length bytes), record m { saved = m.saved ++ bytes });
  read_bytes = λ m fd n. (some (take n m.rest), record m { rest = drop n m.rest });
  flush_buffers = λ m fd. (true, m);
  close_handle = λ m fd. (true, m);
  create_always = λ m wide. (some 3, record m { name = wide; saved = [] });
  open_existing = λ m wide. (some 4, record m { rest = m.saved });
  wide_length = λ bytes. length bytes;
  convert = λ bytes n. (bytes, length bytes);
}

wide_name : (fname : FileName) → string_to_wstring win_memory fname ≡ fname
unfolding string_to_wstring
wide_name [] = refl
wide_name (c ∷ cs) =
    let some_length : (length (c ∷ cs) == 0) ≡ false = ground arith in
    rw (some_length, ==_refl (length (c ∷ cs))) refl

abbrev win_memory-Disk : Disk (all_win32 win_memory memory)
win_memory-Disk = record {
  files = λ m fname. m.saved;
  persisted = λ m fname. m.saved;
  present = λ m fname. true;
  target = λ m fd. some m.name;
  contents = λ m fd. m.saved;
  unread = λ m fd. m.rest;
  patience = λ m. 0;
  limit = 1;
  few = λ m. omega arith;
  one_file = λ m fd fname e. refl;
  creates = λ m fname fd e. (ap some (wide_name fname), refl);
  appends = record {
    accepted = λ m fd bytes n e.
        let k = if ltb (2 ^ 32 - 1) (length bytes) then 2 ^ 32 - 1 else length bytes in
        let counted : length (take k bytes) ≡ n = count_of e in
        (
          omega (arith, counted, length-take k bytes),
          ap (λ bs. m.saved ++ bs)
              (sym (take-length-take k bytes) ∙ ap (λ j. take j bytes) counted),
          omega arith,
        );
    refused = λ m fd bytes e. absurd cc;
    signalled = λ m fd bytes e. absurd cc;
  };
  write_keeps = λ m fd bytes. refl;
  close_keeps = λ m fd fname. refl;
  close_signalled = λ m fd e. absurd cc;
  fsync_keeps = λ m fd fname to. (to, refl);
  fsync_persists = λ m fd fname to e. refl;
  fsync_signalled = λ m fd e. absurd cc;
  looks = λ m fname b e. cc;
  removes = λ m fname e. absurd cc;
  renames = λ m src target e. absurd cc;
  opens = λ m fname fd e. refl;
  reads = λ m fd n bytes e.
      sym (take-append-drop n m.rest) ∙ ap (λ bs. bs ++ drop n m.rest) (bytes_read e);
  reads_end = λ m fd n h e. nothing_taken n m.rest h (bytes_read e);
  read_fails = λ m fd n e. absurd cc;
  read_signalled = λ m fd n e. absurd cc;
}
