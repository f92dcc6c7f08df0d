-- ===== src/FileManager/Interface.antt =====
-- include/VrootKV/io/file_manager.h: the interfaces of files and of the file manager, and what their comments
-- promise to who calls them. A method that may not return gives an option.
use vroot_kv.Base.{
  ℕ, ◌≤◌, ◌<◌, ◌≡◌, ◌⊎◌, Bool, true, false, Option, none, some, List, [], ◌∷◌, ◌++◌, length,
}
use vroot_kv.FileManager.{FileName}

-- On the state `W` of the system, a file that is written to is an `F`. `destroy` is the destructor.
pub record IWritableFile (W F : Type 0) : Type 0 where
  pub write : F → W → List ℕ → Option (Bool × W)
  pub flush : F → Bool
  pub sync : F → W → Option (Bool × W)
  pub close : F → W → Option (F × Bool × W)
  pub destroy : F → W → Option W

-- `read` says what `*result` is assigned, if anything; its last argument, whether `result` is not null.
pub record IReadableFile (W F : Type 0) : Type 0 where
  pub read : F → W → ℕ → Bool → Option (Option (List ℕ) × W)
  pub close : F → W → Option (F × Bool × W)
  pub destroy : F → W → Option W

-- `none` is the answer `false` of the methods that make a file.
pub record IFileManager (W : Type 0) : Type 1 where
  pub WritableFile : Type 0
  pub ReadableFile : Type 0
  pub writable : IWritableFile W WritableFile
  pub readable : IReadableFile W ReadableFile
  pub new_writable_file : W → FileName → Option WritableFile × W
  pub new_readable_file : W → FileName → Option ReadableFile × W
  pub file_exists : W → FileName → Bool
  pub delete_file : W → FileName → Bool × W
  pub rename_file : W → FileName → FileName → Bool × W

-- What the promises are about: the bytes of the files, and those that are on the device; which files there are;
-- the file that is written to, and the bytes that are not read; what it means that the system fails in this `read`,
-- or to look for this file; and how many bytes `write` and `read` take at once.
pub record View {W : Type 0} (m : IFileManager W) : Type 1 where
  pub files : W → FileName → List ℕ
  pub persisted : W → FileName → List ℕ
  pub present : W → FileName → Bool
  pub target : W → m.WritableFile → Option FileName
  pub unread : W → m.ReadableFile → List ℕ
  pub ReadFailed : W → m.ReadableFile → ℕ → Type 0
  pub LookFailed : W → FileName → Type 0
  pub room : ℕ
  pub chunk : ℕ

module _ {W : Type 0} (m : IFileManager W) (v : View m) where
  -- `Write` appends, where it answers `true`.
  abbrev pub Wrote : W → m.WritableFile → FileName → List ℕ → Type 0
  Wrote w f fname bytes =
      (w' : W) × (v.target w' f ≡ some fname)
      × (((m.writable.write f w bytes ≡ some (true, w'))
            × (v.files w' fname ≡ v.files w fname ++ bytes))
          ⊎ (m.writable.write f w bytes ≡ some (false, w')))

  -- `Read` gives the next bytes, and none at the end or where the system fails in this very call.
  abbrev pub DidRead : W → m.ReadableFile → ℕ → Type 0
  DidRead w f n =
      (w' : W) × (((b : ℕ) × (bs : List ℕ) × (m.readable.read f w n true ≡ some (some (b ∷ bs), w'))
          × (v.unread w f ≡ (b ∷ bs) ++ v.unread w' f))
        ⊎ (((m.readable.read f w n true ≡ some (none, w'))
              ⊎ (m.readable.read f w n true ≡ some (some [], w')))
            × ((v.unread w f ≡ []) ⊎ v.ReadFailed w f n)))

  pub record IsFileManager : Type 0 where
    pub creates :
        (w : W) (fname : FileName) (f : m.WritableFile)
        → (m.new_writable_file w fname).0 ≡ some f
        → let w' = (m.new_writable_file w fname).1 in
          (v.target w' f ≡ some fname) × (v.files w' fname ≡ [])
    pub writes :
        (w : W) (f : m.WritableFile) (fname : FileName) (bytes : List ℕ)
        → v.target w f ≡ some fname
        → length bytes ≤ v.room
        → Wrote w f fname bytes
    pub closes :
        (w : W) (f : m.WritableFile) (fname : FileName)
        → v.target w f ≡ some fname
        → (f' : m.WritableFile) × (b : Bool) × (w' : W) × (m.writable.close f w ≡ some (f', b, w'))
          × (v.files w' fname ≡ v.files w fname)
    pub destroys : (w : W) (f : m.WritableFile) → (w' : W) × (m.writable.destroy f w ≡ some w')
    pub opens :
        (w : W) (fname : FileName) (f : m.ReadableFile)
        → (m.new_readable_file w fname).0 ≡ some f
        → v.unread (m.new_readable_file w fname).1 f ≡ v.files w fname
    pub flushes :
        (w : W) (f : m.WritableFile) (fname : FileName)
        → v.target w f ≡ some fname
        → m.writable.flush f ≡ true
    pub syncs :
        (w : W) (f : m.WritableFile) (fname : FileName)
        → v.target w f ≡ some fname
        → (b : Bool) × (w' : W) × (m.writable.sync f w ≡ some (b, w'))
          × (v.files w' fname ≡ v.files w fname)
          × ((b ≡ false) ⊎ (v.persisted w' fname ≡ v.files w' fname))
    pub exists :
        (w : W) (fname : FileName)
        → (m.file_exists w fname ≡ v.present w fname)
          ⊎ ((m.file_exists w fname ≡ false) × v.LookFailed w fname)
    pub deletes :
        (w : W) (fname : FileName)
        → (m.delete_file w fname).0 ≡ true
        → v.present (m.delete_file w fname).1 fname ≡ false
    pub renames :
        (w : W) (src target : FileName)
        → (m.rename_file w src target).0 ≡ true
        → let w' = (m.rename_file w src target).1 in
          (v.present w' target ≡ true) × (v.files w' target ≡ v.files w src)
    pub reads : (w : W) (f : m.ReadableFile) (n : ℕ) → 0 < n → n ≤ v.chunk → DidRead w f n
