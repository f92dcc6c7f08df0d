-- ===== src/FileManager/Default/AllWin32.antt =====
-- The calls of Win32 as a system like the one of POSIX, and the files that are opened on it.
use vroot_kv.Base.{ℕ, ◌≡◌, ◌⊎◌, inl, inr, refl, Bool, true, false, Option, none, some}
use vroot_kv.Base.{List, []}
use vroot_kv.FileManager.{Outcome, returned, failed, Posix, FileName, file_exists}
use vroot_kv.FileManager.Windows.{
  Win32, WindowsFile, string_to_wstring, new_windows_readable, on_win32,
}

abbrev pub read_outcome : {W : Type 0} → Option (List ℕ) × W → Outcome (List ℕ) × W
read_outcome (none, w) = (failed, w)
read_outcome (some bytes, w) = (returned bytes, w)

abbrev pub flag_outcome : {W : Type 0} → Bool × W → Outcome ℕ × W
flag_outcome (true, w) = (returned 0, w)
flag_outcome (false, w) = (failed, w)

-- A system whose calls are those of Win32, with `std::filesystem` of `p`.
abbrev pub all_win32 : {W : Type 0} → Win32 W → Posix W → Posix W
all_win32 win p = on_win32 win (record p {
  sys_read = λ w fd n. read_outcome (win.read_bytes w fd n);
  sys_fsync = λ w fd. flag_outcome (win.flush_buffers w fd);
  sys_close = λ w fd. flag_outcome (win.close_handle w fd);
  open_truncated = λ w fname. win.create_always w (string_to_wstring win fname);
  open_existing = λ w fname. win.open_existing w (string_to_wstring win fname);
})

-- What a handle stands for, if there is one.
abbrev pub file_of : {A : Type 0} → (ℕ → Option A) → WindowsFile → Option A
file_of look f = elim f.handle [ none ↦ none | some handle ↦ look handle ]

abbrev pub rest_of : (ℕ → List ℕ) → WindowsFile → List ℕ
rest_of look f = elim f.handle [ none ↦ [] | some handle ↦ look handle ]

pub file-injective : {x y : WindowsFile} → ◌≡◌ {A = Option WindowsFile} (some x) (some y) → x ≡ y
file-injective q = cc

-- A file that exists is opened as the system says, and no other one.
pub opened_file :
    {W : Type 0} (win : Win32 W) (p : Posix W) (w : W) (fname : FileName) (o : Option ℕ)
    → file_exists p w fname ≡ true
    → (win.open_existing w (string_to_wstring win fname)).0 ≡ o
    → new_windows_readable win p w fname ≡ (
      elim o [ none ↦ none | some handle ↦ some (record { handle = some handle }) ],
      (win.open_existing w (string_to_wstring win fname)).1,
    )
unfolding new_windows_readable
opened_file win p w fname o present e = rw (present, e) refl

pub absent_file :
    {W : Type 0} (win : Win32 W) (p : Posix W) (w : W) (fname : FileName)
    → file_exists p w fname ≡ false
    → new_windows_readable win p w fname ≡ (none, w)
unfolding new_windows_readable
absent_file win p w fname absent = rw absent refl

pub flag_outcome-state : {W : Type 0} (r : Bool × W) → (flag_outcome r).1 ≡ r.1
flag_outcome-state (true, w) = refl
flag_outcome-state (false, w) = refl

pub flag_outcome-returned :
    {W : Type 0} (r : Bool × W) → (r.0 ≡ false) ⊎ ((flag_outcome r).0 ≡ returned 0)
flag_outcome-returned (true, w) = inr refl
flag_outcome-returned (false, w) = inl refl
