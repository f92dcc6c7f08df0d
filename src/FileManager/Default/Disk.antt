-- ===== src/FileManager/Default/Disk.antt =====
-- What the calls of the system do to files, as their manuals say.
use vroot_kv.Base.{Bool, true, false, ℕ, ◌<◌, ◌≡◌, Option, some, List, [], ◌++◌}
use vroot_kv.FileManager.{returned, interrupted, failed, Posix, FileName}
use vroot_kv.FileManager.Write.{Appends}

-- A disk whose calls do what their manuals say, which no one else writes to. `files` has the bytes of the files,
-- `persisted` those that are on the device, `present` says which files there are, `target` the file that a descriptor writes to, `contents` what is in it, and `unread` what a descriptor has
-- not read. Signals interrupt at most `patience` calls in a row, fewer than `limit`.
pub record Disk {W : Type 0} (p : Posix W) : Type 0 where
  pub files : W → FileName → List ℕ
  pub persisted : W → FileName → List ℕ
  pub present : W → FileName → Bool
  pub target : W → ℕ → Option FileName
  pub contents : W → ℕ → List ℕ
  pub unread : W → ℕ → List ℕ
  pub patience : W → ℕ
  pub limit : ℕ
  pub few : (w : W) → patience w < limit
  pub one_file :
      (w : W) (fd : ℕ) (fname : FileName) → target w fd ≡ some fname → contents w fd ≡ files w fname
  pub creates :
      (w : W) (fname : FileName) (fd : ℕ)
      → (p.open_truncated w fname).0 ≡ some fd
      → let w' = (p.open_truncated w fname).1 in (target w' fd ≡ some fname) × (files w' fname ≡ [])
  pub appends : Appends p contents patience
  pub write_keeps :
      (w : W) (fd : ℕ) (bytes : List ℕ) → target (p.sys_write w fd bytes).1 fd ≡ target w fd
  pub close_keeps :
      (w : W) (fd : ℕ) (fname : FileName) → files (p.sys_close w fd).1 fname ≡ files w fname
  pub close_signalled :
      (w : W) (fd : ℕ)
      → (p.sys_close w fd).0 ≡ interrupted
      → patience (p.sys_close w fd).1 < patience w
  pub fsync_keeps :
      (w : W) (fd : ℕ) (fname : FileName)
      → target w fd ≡ some fname
      → (target (p.sys_fsync w fd).1 fd ≡ some fname)
        × (files (p.sys_fsync w fd).1 fname ≡ files w fname)
  pub fsync_persists :
      (w : W) (fd : ℕ) (fname : FileName)
      → target w fd ≡ some fname
      → (p.sys_fsync w fd).0 ≡ returned 0
      → persisted (p.sys_fsync w fd).1 fname ≡ files (p.sys_fsync w fd).1 fname
  pub fsync_signalled :
      (w : W) (fd : ℕ)
      → (p.sys_fsync w fd).0 ≡ interrupted
      → patience (p.sys_fsync w fd).1 < patience w
  pub looks :
      (w : W) (fname : FileName) (b : Bool) → p.fs_exists w fname ≡ some b → b ≡ present w fname
  pub removes :
      (w : W) (fname : FileName)
      → (p.fs_remove w fname).0 ≡ true
      → present (p.fs_remove w fname).1 fname ≡ false
  pub renames :
      (w : W) (src target : FileName)
      → (p.fs_rename w src target).0 ≡ true
      → let w' = (p.fs_rename w src target).1 in
        (present w' target ≡ true) × (files w' target ≡ files w src)
  pub opens :
      (w : W) (fname : FileName) (fd : ℕ)
      → (p.open_existing w fname).0 ≡ some fd
      → unread (p.open_existing w fname).1 fd ≡ files w fname
  pub reads :
      (w : W) (fd n : ℕ) (bytes : List ℕ)
      → (p.sys_read w fd n).0 ≡ returned bytes
      → unread w fd ≡ bytes ++ unread (p.sys_read w fd n).1 fd
  pub reads_end :
      (w : W) (fd n : ℕ) → 0 < n → (p.sys_read w fd n).0 ≡ returned [] → unread w fd ≡ []
  pub read_fails :
      (w : W) (fd n : ℕ)
      → (p.sys_read w fd n).0 ≡ failed
      → unread (p.sys_read w fd n).1 fd ≡ unread w fd
  pub read_signalled :
      (w : W) (fd n : ℕ)
      → (p.sys_read w fd n).0 ≡ interrupted
      → let w' = (p.sys_read w fd n).1 in (unread w' fd ≡ unread w fd) × (patience w' < patience w)
