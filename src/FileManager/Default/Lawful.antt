-- ===== src/FileManager/Default/Lawful.antt =====
-- The manager on POSIX keeps the promises of the interfaces, on a disk whose calls do what their manuals say.
use vroot_kv.Base.{
  ℕ, ◌+◌, ◌≤◌, ◌<◌, ◌≡◌, ◌⊎◌, inl, inr, refl, sym, ap, ◌∙◌, arith, Bool, true, false, Bool-cases,
  Option, none, some, Option-cases,
}
use vroot_kv.Base.{List, [], ◌++◌, length}
use vroot_kv.FileManager.{
  Posix, PosixFile, FileName, write_file, flush_file, sync_file, delete_file, rename_file,
  close_file, destroy_file, read_file, file_exists, new_writable_file, new_readable_file,
}
use vroot_kv.FileManager.Write.{write_file-Written}
use vroot_kv.FileManager.Interface.{View, IsFileManager, Wrote, DidRead}
use vroot_kv.FileManager.Default.{posix_manager}
use vroot_kv.FileManager.Default.Disk.{Disk}
use vroot_kv.FileManager.Default.Saves.{write_loop-target, sync_lem, close_lem, destroy_lem}
use vroot_kv.FileManager.Default.Reads.{ReadFails, one_read}

-- `FileExists` answers whether the file is there, or false where the system fails to look.
pub file_exists_lem :
    {W : Type 0} (p : Posix W) (d : Disk p) (w : W) (fname : FileName)
    → (file_exists p w fname ≡ d.present w fname)
      ⊎ ((file_exists p w fname ≡ false) × (p.fs_exists w fname ≡ none))
unfolding file_exists
file_exists_lem p d w fname = elim (Option-cases (p.fs_exists w fname)) [
  | inl failing ↦ inr (rw (failing, file_exists) refl, failing)
  | inr (b, e) ↦ inl (rw (e, file_exists) (d.looks w fname b e))
]

-- A file that exists is opened as the system says.
opened_file :
    {W : Type 0} (p : Posix W) (w : W) (fname : FileName) (o : Option ℕ)
    → file_exists p w fname ≡ true
    → (p.open_existing w fname).0 ≡ o
    → new_readable_file p w fname ≡ (
      elim o [ none ↦ none | some fd ↦ some (record { fd = some fd }) ],
      (p.open_existing w fname).1,
    )
unfolding new_readable_file
opened_file p w fname o present e = rw (present, e) refl

absent_file :
    {W : Type 0} (p : Posix W) (w : W) (fname : FileName)
    → file_exists p w fname ≡ false
    → new_readable_file p w fname ≡ (none, w)
unfolding new_readable_file
absent_file p w fname absent = rw absent refl

file-injective : {x y : PosixFile} → ◌≡◌ {A = Option PosixFile} (some x) (some y) → x ≡ y
file-injective q = cc

-- What a descriptor stands for, if there is one.
abbrev pub file_of : {A : Type 0} → (ℕ → Option A) → PosixFile → Option A
file_of look f = elim f.fd [ none ↦ none | some fd ↦ look fd ]

abbrev pub rest_of : (ℕ → List ℕ) → PosixFile → List ℕ
rest_of look f = elim f.fd [ none ↦ [] | some fd ↦ look fd ]

module _ {W : Type 0} (fuel room chunk : ℕ) (p : Posix W) (d : Disk p) where
  abbrev pub posix_view : View (posix_manager fuel p)
  posix_view = record {
    files = d.files;
    target = λ w f. file_of (d.target w) f;
    unread = λ w f. rest_of (d.unread w) f;
    persisted = d.persisted;
    present = d.present;
    ReadFailed = ReadFails p;
    LookFailed = λ w fname. p.fs_exists w fname ≡ none;
    room = room;
    chunk = chunk;
  }

  module _ (enough : d.limit + room ≤ fuel) where
    posix_creates :
        (w : W) (fname : FileName) (f : PosixFile)
        → (new_writable_file p w fname).0 ≡ some f
        → let w' = (new_writable_file p w fname).1 in
          (file_of (d.target w') f ≡ some fname) × (d.files w' fname ≡ [])
    unfolding new_writable_file
    posix_creates w fname f e = elim (Option-cases (p.open_truncated w fname).0) [
      | inl refused ↦ absurd (cc (rw refused at e))
      | inr (fd, opened) ↦
          let same : record { fd = some fd } ≡ f = file-injective (rw opened at e) in
          let (to, empty) = d.creates w fname fd opened in
          (ap (file_of (d.target (p.open_truncated w fname).1)) (sym same) ∙ to, empty)
    ]

    posix_writes :
        (w : W) (o : Option ℕ) (fname : FileName) (bytes : List ℕ)
        → file_of (d.target w) (record { fd = o }) ≡ some fname
        → length bytes ≤ room
        → Wrote (posix_manager fuel p) posix_view w (record { fd = o }) fname bytes
    posix_writes w none fname bytes to small = absurd cc
    posix_writes w (some fd) fname bytes to small =
        let fits : d.patience w + length bytes ≤ fuel = omega (arith, enough, small, d.few w) in
        let (w', c) = write_file-Written p d.contents d.patience d.appends fd fuel w bytes fits in
        elim c [
          | inl (e, same) ↦
              let to' : d.target w' fd ≡ some fname =
                write_loop-target p d fd fuel w bytes true w' (unfold write_file in e) ∙ to in
              (
                w',
                to',
                inl (
                  e,
                  sym (d.one_file w' fd fname to')
                      ∙ same
                      ∙ ap (λ bs. bs ++ bytes) (d.one_file w fd fname to),
                ),
              )
          | inr (k, less, e, same) ↦ (
            w',
            write_loop-target p d fd fuel w bytes false w' (unfold write_file in e) ∙ to,
            inr e,
          )
        ]

    posix_closes :
        (w : W) (o : Option ℕ) (fname : FileName)
        → (f' : PosixFile) × (b : Bool) × (w' : W) × (close_file p fuel (record { fd = o }) w
            ≡ some (f', b, w'))
          × (d.files w' fname ≡ d.files w fname)
    unfolding close_file
    posix_closes w none fname = (record { fd = none }, true, w, refl, refl)
    posix_closes w (some fd) fname =
        let (b, w', e, same) = close_lem p d fd fuel w fname (omega (arith, enough)) in
        (record { fd = none }, b, w', e, same)

    posix_flushes :
        (w : W) (o : Option ℕ) (fname : FileName)
        → file_of (d.target w) (record { fd = o }) ≡ some fname
        → flush_file p (record { fd = o }) ≡ true
    unfolding flush_file
    posix_flushes w none fname to = absurd cc
    posix_flushes w (some fd) fname to = refl

    posix_syncs :
        (w : W) (o : Option ℕ) (fname : FileName)
        → file_of (d.target w) (record { fd = o }) ≡ some fname
        → (b : Bool) × (w' : W) × (sync_file p fuel (record { fd = o }) w ≡ some (b, w'))
          × (d.files w' fname ≡ d.files w fname)
          × ((b ≡ false) ⊎ (d.persisted w' fname ≡ d.files w' fname))
    posix_syncs w none fname to = absurd cc
    posix_syncs w (some fd) fname to = sync_lem p d fd fuel w fname (omega (arith, enough)) to

    posix_destroys :
        (w : W) (o : Option ℕ) → (w' : W) × (destroy_file p fuel (record { fd = o }) w ≡ some w')
    unfolding destroy_file
    posix_destroys w none = (w, refl)
    posix_destroys w (some fd) = destroy_lem p d fd fuel w (omega (arith, enough))

    posix_deletes :
        (w : W) (fname : FileName)
        → (delete_file p w fname).0 ≡ true
        → d.present (delete_file p w fname).1 fname ≡ false
    unfolding delete_file
    posix_deletes w fname e = d.removes w fname e

    posix_renames :
        (w : W) (src target : FileName)
        → (rename_file p w src target).0 ≡ true
        → let w' = (rename_file p w src target).1 in
          (d.present w' target ≡ true) × (d.files w' target ≡ d.files w src)
    unfolding rename_file
    posix_renames w src target e = d.renames w src target e

    posix_opens :
        (w : W) (fname : FileName) (f : PosixFile)
        → (new_readable_file p w fname).0 ≡ some f
        → rest_of (d.unread (new_readable_file p w fname).1) f ≡ d.files w fname
    posix_opens w fname f e = elim (Bool-cases (file_exists p w fname)) [
      | inr absent ↦ absurd (cc (sym (ap (λ r. r.0) (absent_file p w fname absent)) ∙ e))
      | inl present ↦ elim (Option-cases (p.open_existing w fname).0) [
        | inl refused ↦
            absurd (cc (sym (ap (λ r. r.0) (opened_file p w fname none present refused)) ∙ e))
        | inr (fd, opened) ↦
            let q = opened_file p w fname (some fd) present opened in
            let same : record { fd = some fd } ≡ f = file-injective (sym (ap (λ r. r.0) q) ∙ e) in
            ap (λ r. rest_of (d.unread r.1) f) q
            ∙ ap (rest_of (d.unread (p.open_existing w fname).1)) (sym same)
            ∙ d.opens w fname fd opened
      ]
    ]

    posix_reads :
        (w : W) (o : Option ℕ) (n : ℕ)
        → 0 < n
        → DidRead (posix_manager fuel p) posix_view w (record { fd = o }) n
    unfolding read_file
    posix_reads w none n some_room = (w, inr (inl refl, inl refl))
    posix_reads w (some fd) n some_room =
        let (w', c) = one_read p d fd n some_room fuel w (omega (arith, enough)) in
        (w', elim c [ inl more ↦ inl more | inr (e, stop) ↦ inr (inl e, stop) ])

    pub posix_manager-IsFileManager : IsFileManager (posix_manager fuel p) posix_view
    posix_manager-IsFileManager = record {
      creates = posix_creates;
      writes = λ w f fname bytes. posix_writes w f.fd fname bytes;
      closes = λ w f fname to. posix_closes w f.fd fname;
      destroys = λ w f. posix_destroys w f.fd;
      flushes = λ w f fname to. posix_flushes w f.fd fname to;
      syncs = λ w f fname to. posix_syncs w f.fd fname to;
      exists = file_exists_lem p d;
      deletes = posix_deletes;
      renames = posix_renames;
      opens = posix_opens;
      reads = λ w f n some_room fits. posix_reads w f.fd n some_room;
    }
