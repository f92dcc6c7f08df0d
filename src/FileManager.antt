-- ===== src/FileManager.antt =====
-- src/io/file_manager.cpp: the POSIX files, and the manager on POSIX.
pub mod Write
pub mod Close
pub mod Windows
pub mod Log
pub mod Interface
pub mod Default
pub mod Store
use vroot_kv.Base.{ℕ, zero, suc, ◌==◌, if◌then◌else◌, Bool, true, false, not, Option, none, some}
use vroot_kv.Base.{List, [], ◌∷◌, length, drop}

-- A system call returns a number or bytes, or -1 with EINTR or another errno.
pub data Outcome {ℓ} (A : Type ℓ) : Type ℓ where
  returned : A → Outcome A
  interrupted failed : Outcome A

abbrev pub FileName : Type 0
FileName = List ℕ

-- The calls of the system and of std::filesystem, on the state `W` of the system. `none` of `exists` is an
-- error code, and `false` of `remove` and `rename` is one; `none` of an open is a negative result.
pub record Posix (W : Type 0) : Type 0 where
  pub sys_write : W → ℕ → List ℕ → Outcome ℕ × W
  pub sys_read : W → ℕ → ℕ → Outcome (List ℕ) × W
  pub sys_fsync : W → ℕ → Outcome ℕ × W
  pub sys_close : W → ℕ → Outcome ℕ × W
  pub open_truncated : W → FileName → Option ℕ × W
  pub open_existing : W → FileName → Option ℕ × W
  pub fs_exists : W → FileName → Option Bool
  pub fs_remove : W → FileName → Bool × W
  pub fs_rename : W → FileName → FileName → Bool × W

-- `PosixWritableFile` and `PosixReadableFile`: `none` is the descriptor -1.
pub record PosixFile : Type 0 where
  pub fd : Option ℕ

-- `do { rc = call(); } while (rc < 0 && errno == EINTR);` for at most `fuel` rounds; `none` if that was not
-- enough.
unfoldable pub retry : {W A : Type 0} → ℕ → (W → Outcome A × W) → W → Option (Outcome A × W)
retry zero call w = none
retry (suc fuel) call w =
    let r = call w in
    elim r.0 [
      | returned a ↦ some (returned a, r.1)
      | interrupted ↦ retry fuel call r.1
      | failed ↦ some (failed, r.1)
    ]

-- `rc == 0`
unfoldable pub succeeded : Outcome ℕ → Bool
succeeded (returned rc) = rc == 0
succeeded interrupted = false
succeeded failed = false

module _ {W : Type 0} (p : Posix W) where
  -- The loop of `Write`, on the bytes that remain, for at most `fuel` rounds.
  unfoldable pub write_loop : ℕ → W → ℕ → List ℕ → Option (Bool × W)
  write_loop fuel w fd [] = some (true, w)
  write_loop zero w fd (b ∷ bs) = none
  write_loop (suc fuel) w fd (b ∷ bs) =
      let r = p.sys_write w fd (b ∷ bs) in
      elim r.0 [
        | failed ↦ some (false, r.1)
        | interrupted ↦ write_loop fuel r.1 fd (b ∷ bs)
        | returned n ↦
            let rest = write_loop fuel r.1 fd (drop n (b ∷ bs)) in
            if n == 0 then some (false, r.1) else rest
      ]

  -- `Write`, `Flush` and `Sync`
  unfoldable pub write_file : ℕ → PosixFile → W → List ℕ → Option (Bool × W)
  unfolding write_loop
  write_file fuel f w bytes = elim f.fd [
    | none ↦ some (false, w)
    | some fd ↦ write_loop fuel w fd bytes
  ]

  unfoldable pub flush_file : PosixFile → Bool
  flush_file f = elim f.fd [ none ↦ false | some fd ↦ true ]

  unfoldable pub sync_file : ℕ → PosixFile → W → Option (Bool × W)
  unfolding retry succeeded
  sync_file fuel f w = elim f.fd [
    | none ↦ some (false, w)
    | some fd ↦ elim (retry fuel (λ u. p.sys_fsync u fd) w) [
      | none ↦ none
      | some r ↦ some (succeeded r.0, r.1)
    ]
  ]

  -- `Close` of both classes: the file and the system afterwards, and the answer.
  unfoldable pub close_file : ℕ → PosixFile → W → Option (PosixFile × Bool × W)
  unfolding retry succeeded
  close_file fuel f w = elim f.fd [
    | none ↦ some (f, true, w)
    | some fd ↦ elim (retry fuel (λ u. p.sys_close u fd) w) [
      | none ↦ none
      | some r ↦ some (record { fd = none }, succeeded r.0, r.1)
    ]
  ]

  -- The destructors.
  unfoldable pub destroy_file : ℕ → PosixFile → W → Option W
  unfolding close_file
  destroy_file fuel f w = elim f.fd [
    | none ↦ some w
    | some fd ↦ elim (close_file fuel f w) [ none ↦ none | some r ↦ some r.2 ]
  ]

  -- `Read` with a pointer to `result` that is null or not: what `*result` is assigned, if anything. The
  -- number that `Read` returns is its length, or 0.
  unfoldable pub read_file : ℕ → PosixFile → W → ℕ → Bool → Option (Option (List ℕ) × W)
  unfolding retry
  read_file fuel f w n has_result = elim f.fd [
    | none ↦ some (none, w)
    | some fd ↦
        let r = retry fuel (λ u. p.sys_read u fd n) w in
        if not has_result then some (none, w) else elim r [
          | none ↦ none
          | some (returned [], w') ↦ some (none, w')
          | some (returned (b ∷ bs), w') ↦ some (some (b ∷ bs), w')
          | some (interrupted, w') ↦ some (none, w')
          | some (failed, w') ↦ some (none, w')
        ]
  ]

  -- `DefaultFileManager`. `none` is the answer `false` of the methods that make a file.
  unfoldable pub new_writable_file : W → FileName → Option PosixFile × W
  new_writable_file w fname =
      let r = p.open_truncated w fname in
      (elim r.0 [ none ↦ none | some fd ↦ some (record { fd = some fd }) ], r.1)

  unfoldable pub file_exists : W → FileName → Bool
  file_exists w fname = elim (p.fs_exists w fname) [ none ↦ false | some found ↦ found ]

  unfoldable pub new_readable_file : W → FileName → Option PosixFile × W
  unfolding file_exists
  new_readable_file w fname =
      let r = p.open_existing w fname in
      if not (file_exists w fname)
      then (none, w)
      else (elim r.0 [ none ↦ none | some fd ↦ some (record { fd = some fd }) ], r.1)

  unfoldable pub delete_file : W → FileName → Bool × W
  delete_file w fname = p.fs_remove w fname

  unfoldable pub rename_file : W → FileName → FileName → Bool × W
  rename_file w src target = p.fs_rename w src target
