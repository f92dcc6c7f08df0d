-- ===== src/FileManager/Default/OnWindows.antt =====
-- The manager on Windows keeps the promises of the interfaces, where the calls of Win32 do to files what their
-- manuals say: its methods do what those on POSIX do on a system that is made of these calls.
use vroot_kv.Base.{ℕ, ◌-◌, ◌^◌, ◌≡◌, none, some}
use vroot_kv.FileManager.{Posix}
use vroot_kv.FileManager.Windows.{Win32, WindowsFile}
use vroot_kv.FileManager.Interface.{View}
use vroot_kv.FileManager.Default.{windows_manager}
use vroot_kv.FileManager.Default.Disk.{Disk}
use vroot_kv.FileManager.Default.AllWin32.{all_win32, file_of, rest_of}

module _ {W : Type 0} (fuel room : ℕ) (win : Win32 W) (p : Posix W)
    (d : Disk (all_win32 win p)) where
  -- The call of ReadFile that `Read` makes fails.
  abbrev pub ReadFails : W → WindowsFile → ℕ → Type 0
  ReadFails w f n = (handle : ℕ) × (f.handle ≡ some handle) × ((win.read_bytes w handle n).0 ≡ none)

  -- A `DWORD` counts what is read at once.
  abbrev pub windows_view : View (windows_manager fuel win p)
  windows_view = record {
    files = d.files;
    target = λ w f. file_of (d.target w) f;
    unread = λ w f. rest_of (d.unread w) f;
    persisted = d.persisted;
    present = d.present;
    ReadFailed = ReadFails;
    LookFailed = λ w fname. p.fs_exists w fname ≡ none;
    room = room;
    chunk = 2 ^ 32 - 1;
  }
