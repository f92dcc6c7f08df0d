-- ===== src/FileManager/Default/Reads.antt =====
-- `Read` on POSIX: the next bytes of the file.
use vroot_kv.Base.{
  ℕ, ◌≤◌, ◌<◌, ◌≡◌, ◌≢◌, ◌⊎◌, inl, inr, refl, sym, ap, ◌∙◌, arith, true, Option, none, some,
}
use vroot_kv.Base.{List, [], ◌∷◌, ◌++◌}
use vroot_kv.FileManager.{
  Outcome, returned, interrupted, failed, Posix, PosixFile, retry, read_file,
}
use vroot_kv.FileManager.Write.{}
use vroot_kv.FileManager.Close.{Reaches, now, again, retry-Reaches}
use vroot_kv.FileManager.Default.Disk.{Disk}

-- The last of the calls of `read` that `Read` makes from `w` on fails.
abbrev pub ReadFails : {W : Type 0} → Posix W → W → PosixFile → ℕ → Type 0
ReadFails {W} p w f n =
    (fd : ℕ) × (f.fd ≡ some fd) × (w' : W) × Reaches (λ u. p.sys_read u fd n) w failed w'

module _ {W : Type 0} (p : Posix W) (d : Disk p) (fd n : ℕ) (some_room : 0 < n) where
  -- The calls that signals interrupt read nothing.
  last_read :
      {w w' : W} {o : Outcome (List ℕ)}
      → Reaches (λ u. p.sys_read u fd n) w o w'
      → (u : W) × ((p.sys_read u fd n).0 ≡ o)
        × ((p.sys_read u fd n).1 ≡ w')
        × (d.unread u fd ≡ d.unread w fd)
        × (o ≢ interrupted)
  last_read {w} (now e ne) = (w, e, refl, refl, ne)
  last_read {w} (again e r) =
      let (u, eo, ew, same, ne) = last_read r in
      (u, eo, ew, same ∙ (d.read_signalled w fd n e).0, ne)

  -- Some bytes, or nothing at the end or where a call fails.
  abbrev pub OneRead : Option (Option (List ℕ) × W) → W → W → Type 0
  OneRead r w w' =
      ((b : ℕ) × (bs : List ℕ) × (r ≡ some (some (b ∷ bs), w'))
        × (d.unread w fd ≡ (b ∷ bs) ++ d.unread w' fd))
      ⊎ ((r ≡ some (none, w')) × ((d.unread w fd ≡ []) ⊎ ReadFails p w (record { fd = some fd }) n))

  pub one_read :
      (fuel : ℕ) (w : W)
      → d.limit ≤ fuel
      → (w' : W) × OneRead (read_file p fuel (record { fd = some fd }) w n true) w w'
  unfolding read_file
  one_read fuel w enough =
      let (o, w', e, r) =
        retry-Reaches (λ u. p.sys_read u fd n) d.patience
          (record { signalled = λ u s. (d.read_signalled u fd n s).1 }) fuel w
          (omega (arith, enough, d.few w)) in
      let (u, eo, ew, same, ne) = last_read r in (w', cases o e r u eo ew same ne)
    where
      cases :
          (o : Outcome (List ℕ)) {w' : W}
          → retry fuel (λ v. p.sys_read v fd n) w ≡ some (o, w')
          → Reaches (λ v. p.sys_read v fd n) w o w'
          → (u : W) → (p.sys_read u fd n).0 ≡ o
          → (p.sys_read u fd n).1 ≡ w'
          → d.unread u fd ≡ d.unread w fd
          → o ≢ interrupted
          → OneRead (read_file p fuel (record { fd = some fd }) w n true) w w'
      cases (returned []) e r u eo ew same ne =
          inr (rw (e, read_file) refl, inl (sym same ∙ d.reads_end u fd n some_room eo))
      cases (returned (b ∷ bs)) e r u eo ew same ne = inl (
        b,
        bs,
        rw (e, read_file) refl,
        sym same ∙ d.reads u fd n (b ∷ bs) eo ∙ ap (λ v. (b ∷ bs) ++ d.unread v fd) ew,
      )
      cases interrupted e r u eo ew same ne = absurd (ne refl)
      cases failed {w'} e r u eo ew same ne = inr (rw (e, read_file) refl, inr (fd, refl, w', r))
