-- ===== src/FileManager/Windows.antt =====
-- src/io/file_manager.cpp: the files on Windows, and the manager there.
use vroot_kv.Base.{
  ℕ, zero, suc, ◌-◌, ◌^◌, ◌%◌, ◌≡◌, refl, ap, ltb, ◌==◌, if◌then◌else◌, Bool, true, false, not,
  Option, none, some,
}
use vroot_kv.Base.{List, [], ◌∷◌, length, take, drop}
use vroot_kv.FileManager.{
  Outcome, returned, interrupted, failed, Posix, FileName, write_loop, write_file, file_exists,
}

-- The calls of Win32, on the state `W` of the system: a write is given the bytes and says how many it wrote,
-- a read how many bytes it wants; `none` is FALSE, or INVALID_HANDLE_VALUE of an open. `wide_length` and
-- `convert` are MultiByteToWideChar without and with a buffer; the second also says how many characters it
-- wrote. A negative length is 0 here.
pub record Win32 (W : Type 0) : Type 0 where
  pub write_bytes : W → ℕ → List ℕ → Option ℕ × W
  pub read_bytes : W → ℕ → ℕ → Option (List ℕ) × W
  pub flush_buffers : W → ℕ → Bool × W
  pub close_handle : W → ℕ → Bool × W
  pub create_always : W → List ℕ → Option ℕ × W
  pub open_existing : W → List ℕ → Option ℕ × W
  pub wide_length : List ℕ → ℕ
  pub convert : List ℕ → ℕ → List ℕ × ℕ

-- `WindowsWritableFile` and `WindowsReadableFile`: `none` is INVALID_HANDLE_VALUE.
pub record WindowsFile : Type 0 where
  pub handle : Option ℕ

-- `std::numeric_limits<DWORD>::max()`
abbrev dword_max : ℕ
dword_max = 2 ^ 32 - 1

module _ {W : Type 0} (win : Win32 W) where
  unfoldable pub string_to_wstring : List ℕ → List ℕ
  string_to_wstring [] = []
  string_to_wstring (c ∷ cs) =
      let wide_len = win.wide_length (c ∷ cs) in
      let r = win.convert (c ∷ cs) wide_len in
      if wide_len == 0 then [] else if r.1 == wide_len then r.0 else []

  -- The loop of `Write`, on the bytes that remain, for at most `fuel` rounds.
  unfoldable pub windows_loop : ℕ → W → ℕ → List ℕ → Option (Bool × W)
  windows_loop fuel w handle [] = some (true, w)
  windows_loop zero w handle (b ∷ bs) = none
  windows_loop (suc fuel) w handle (b ∷ bs) =
      let to_write = if ltb dword_max (length (b ∷ bs)) then dword_max else length (b ∷ bs) in
      let r = win.write_bytes w handle (take to_write (b ∷ bs)) in
      elim r.0 [
        | none ↦ some (false, r.1)
        | some written ↦
            let rest = windows_loop fuel r.1 handle (drop written (b ∷ bs)) in
            if written == 0 then some (false, r.1) else rest
      ]

  unfoldable pub windows_write : ℕ → WindowsFile → W → List ℕ → Option (Bool × W)
  unfolding windows_loop
  windows_write fuel f w bytes = elim f.handle [
    | none ↦ some (false, w)
    | some handle ↦ windows_loop fuel w handle bytes
  ]

  unfoldable pub windows_flush : WindowsFile → Bool
  windows_flush f = elim f.handle [ none ↦ false | some handle ↦ true ]

  unfoldable pub windows_sync : WindowsFile → W → Bool × W
  windows_sync f w = elim f.handle [ none ↦ (false, w) | some handle ↦ win.flush_buffers w handle ]

  unfoldable pub windows_close : WindowsFile → W → WindowsFile × Bool × W
  windows_close f w = elim f.handle [
    | none ↦ (f, true, w)
    | some handle ↦ let r = win.close_handle w handle in (record { handle = none }, r.0, r.1)
  ]

  unfoldable pub windows_destroy : WindowsFile → W → W
  unfolding windows_close
  windows_destroy f w = elim f.handle [ none ↦ w | some handle ↦ (windows_close f w).2 ]

  -- What `*result` is assigned, if anything. A read at the end of the file assigns the empty string.
  unfoldable pub windows_read : WindowsFile → W → ℕ → Bool → Option (List ℕ) × W
  windows_read f w n has_result = elim f.handle [
    | none ↦ (none, w)
    | some handle ↦ if not has_result then (none, w) else win.read_bytes w handle (n % 2 ^ 32)
  ]

  unfoldable pub new_windows_writable : W → FileName → Option WindowsFile × W
  unfolding string_to_wstring
  new_windows_writable w fname =
      let r = win.create_always w (string_to_wstring fname) in
      (elim r.0 [ none ↦ none | some handle ↦ some (record { handle = some handle }) ], r.1)

  unfoldable pub new_windows_readable : Posix W → W → FileName → Option WindowsFile × W
  unfolding string_to_wstring
  new_windows_readable p w fname =
      let r = win.open_existing w (string_to_wstring fname) in
      if not (file_exists p w fname)
      then (none, w)
      else (elim r.0 [ none ↦ none | some handle ↦ some (record { handle = some handle }) ], r.1)

  -- A system whose `write` is WriteFile, which is never interrupted and takes less than 4 GiB.
  abbrev pub write_outcome : Option ℕ × W → Outcome ℕ × W
  write_outcome (none, w) = (failed, w)
  write_outcome (some n, w) = (returned n, w)

  abbrev pub on_win32 : Posix W → Posix W
  on_win32 p = record p {
    sys_write = λ w fd bytes. write_outcome (
        win.write_bytes w fd
          (take (if ltb dword_max (length bytes) then dword_max else length bytes) bytes));
  }

  -- One round of the two loops.
  rounds_agree :
      (r : Option ℕ × W) (f g : ℕ → W → Option (Bool × W)) (again : W → Option (Bool × W))
      → ((n : ℕ) (u : W) → f n u ≡ g n u)
      → (elim r.0 as (λ o. Option (Bool × W)) [
        | none ↦ some (false, r.1)
        | some n ↦ if n == 0 then some (false, r.1) else f n r.1
      ])
        ≡ (elim (write_outcome r).0 as (λ o. Option (Bool × W)) [
          | returned n ↦
              if n == 0 then some (false, (write_outcome r).1) else g n (write_outcome r).1
          | interrupted ↦ again (write_outcome r).1
          | failed ↦ some (false, (write_outcome r).1)
        ])
  rounds_agree (none, u) f g again h = refl
  rounds_agree (some n, u) f g again h = ap (λ x. if n == 0 then some (false, u) else x) (h n u)

  loops_agree :
      (p : Posix W) (fuel : ℕ) (w : W) (handle : ℕ) (bytes : List ℕ)
      → windows_loop fuel w handle bytes ≡ write_loop (on_win32 p) fuel w handle bytes
  unfolding windows_loop write_loop
  loops_agree p fuel w handle [] = refl
  loops_agree p zero w handle (b ∷ bs) = refl
  loops_agree p (suc fuel) w handle (b ∷ bs) =
      rounds_agree
        (win.write_bytes w handle
          (take (if ltb dword_max (length (b ∷ bs)) then dword_max else length (b ∷ bs)) (b ∷ bs)))
        (λ n u. windows_loop fuel u handle (drop n (b ∷ bs)))
        (λ n u. write_loop (on_win32 p) fuel u handle (drop n (b ∷ bs)))
        (λ u. write_loop (on_win32 p) fuel u handle (b ∷ bs))
        (λ n u. loops_agree p fuel u handle (drop n (b ∷ bs)))

  -- The Windows `Write` does what the POSIX `Write` does on a system whose `write` is WriteFile: it ends the same
  -- way, with the same answer, and leaves the same state.
  pub windows_write-write_file :
      (p : Posix W) (fuel : ℕ) (w : W) (handle : Option ℕ) (bytes : List ℕ)
      → windows_write fuel (record { handle = handle }) w bytes
        ≡ write_file (on_win32 p) fuel (record { fd = handle }) w bytes
  unfolding windows_write write_file
  windows_write-write_file p fuel w none bytes = refl
  windows_write-write_file p fuel w (some handle) bytes = loops_agree p fuel w handle bytes
