-- ===== src/FileManager/Default.antt =====
-- `DefaultFileManager` and the files that it makes, as implementations of the interfaces: on POSIX, where a call
-- is repeated at most `fuel` times, and on Windows.
use vroot_kv.Base.{ℕ, Bool, Option, some, List}
use vroot_kv.FileManager.{
  Posix, PosixFile, write_file, flush_file, sync_file, close_file, destroy_file, read_file,
  new_writable_file, new_readable_file, file_exists, delete_file, rename_file,
}
use vroot_kv.FileManager.Interface.{IWritableFile, IReadableFile, IFileManager}
use vroot_kv.FileManager.Windows.{
  Win32, WindowsFile, windows_write, windows_flush, windows_sync, windows_close, windows_destroy,
  windows_read, new_windows_writable, new_windows_readable,
}
pub mod Disk
pub mod Saves
pub mod Reads
pub mod Lawful
pub mod AllWin32
pub mod OnWindows

module _ {W : Type 0} (fuel : ℕ) (p : Posix W) where
  abbrev pub posix_writable : IWritableFile W PosixFile
  posix_writable = record {
    write = write_file p fuel;
    flush = flush_file p;
    sync = sync_file p fuel;
    close = close_file p fuel;
    destroy = destroy_file p fuel;
  }

  abbrev pub posix_readable : IReadableFile W PosixFile
  posix_readable = record {
    read = read_file p fuel;
    close = close_file p fuel;
    destroy = destroy_file p fuel;
  }

  abbrev pub posix_manager : IFileManager W
  posix_manager = record {
    WritableFile = PosixFile;
    ReadableFile = PosixFile;
    writable = posix_writable;
    readable = posix_readable;
    new_writable_file = new_writable_file p;
    new_readable_file = new_readable_file p;
    file_exists = file_exists p;
    delete_file = delete_file p;
    rename_file = rename_file p;
  }

-- On Windows the calls return, and `p` has `std::filesystem` only.
module _ {W : Type 0} (fuel : ℕ) (win : Win32 W) (p : Posix W) where
  abbrev pub windows_writable : IWritableFile W WindowsFile
  windows_writable = record {
    write = windows_write win fuel;
    flush = windows_flush win;
    sync = λ f w. some (windows_sync win f w);
    close = λ f w. some (windows_close win f w);
    destroy = λ f w. some (windows_destroy win f w);
  }

  abbrev pub windows_readable : IReadableFile W WindowsFile
  windows_readable = record {
    read = λ f w n has_result. some (windows_read win f w n has_result);
    close = λ f w. some (windows_close win f w);
    destroy = λ f w. some (windows_destroy win f w);
  }

  abbrev pub windows_manager : IFileManager W
  windows_manager = record {
    WritableFile = WindowsFile;
    ReadableFile = WindowsFile;
    writable = windows_writable;
    readable = windows_readable;
    new_writable_file = new_windows_writable win;
    new_readable_file = new_windows_readable win p;
    file_exists = file_exists p;
    delete_file = delete_file p;
    rename_file = rename_file p;
  }
