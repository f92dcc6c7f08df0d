-- ===== src/Sstable/DataBlock/Scan.antt =====
-- The scan of a run finds what the run gives to the key.
use vroot_kv.Base.{ℕ, zero, suc, ◌+◌, ◌-◌, ◌^◌, ◌≤◌, ◌<◌, ◌≡◌, refl, sym, ap, ◌∙◌, arith}
use vroot_kv.Base.{List, [], ◌∷◌, ◌++◌, append_assoc, length, take, drop, All, ◌==◌, if◌then◌else◌}
use vroot_kv.Base.{
  length-append, Bool, true, false, not, ◌||◌, ltb, leb, le→ltb, Bool-cases, inl, inr, ==_iff,
}
use vroot_kv.Base.{none, some, ok}
use vroot_kv.Codec.Bytes.{u32, u64}
use vroot_kv.Key.{Key, key_lt, key_eq, key_lt_trans, key_eq_of_lt, key_eq_comm}
use vroot_kv.Sstable.DataBlock.Builder.{shared_prefix}
use vroot_kv.Sstable.DataBlock.Reader.{
  DataBlockReader, Header, need, read_header, bytes_at, at_boundary, rebuild, scan_run,
}
use vroot_kv.Sstable.DataBlock.Layout.{
  Run, entry_bytes, encode_run, Ascending, IsSorted, lookup, IsEntry,
}
use vroot_kv.Sstable.DataBlock.Layout.Parts.{
  length-entry_bytes, shared_prefix-le, shared_prefix_rebuild,
}
use vroot_kv.Sstable.DataBlock.Layout.Parts.{read_entry_header, read_entry_key, read_entry_value}

abbrev pub reader : List ℕ → List ℕ → DataBlockReader
reader entries restarts = record { entries = entries; restarts = restarts }

-- Bytes that are there are read.
pub bytes_at_inside :
    (entries : List ℕ) (p n : ℕ)
    → p + n ≤ length entries
    → bytes_at entries p n ≡ ok (take n (drop p entries))
unfolding bytes_at
bytes_at_inside entries p n inside = rw (le→ltb (length entries) (p + n) inside) refl

-- A key below the first of sorted entries has no value there.
pub lookup_below :
    (key k : Key) (es : Run) → key_lt key k ≡ true → Ascending k es → lookup key es ≡ none
unfolding lookup
lookup_below key k [] h s = refl
lookup_below key k ((k', v) ∷ es) h (s, t) =
    rw (key_eq_comm k' key, key_eq_of_lt key k' before) (lookup_below key k' es before t)
  where
    before : key_lt key k' ≡ true
    before = key_lt_trans key k k' h s

lt→leb : (a b : ℕ) → b < a → leb a b ≡ false
lt→leb a b h = ground arith

Ascending-IsSorted : (k : Key) (es : Run) → Ascending k es → IsSorted es
Ascending-IsSorted k [] h = tt
Ascending-IsSorted k ((k', v) ∷ es) h = h.1

module _ (entries restarts : List ℕ) (key : Key) (lo : ℕ) where
  abbrev pub stops : ℕ → Bool
  stops off = not (ltb off (length entries)) || at_boundary (reader entries restarts) key lo off

  -- One round on an entry that lies within the run.
  one_round :
      (rounds off : ℕ) (prev cur : Key) (h : Header)
      → stops off ≡ false
      → length entries < 2 ^ 32
      → off + need h ≤ length entries
      → read_header entries off ≡ ok h
      → rebuild (reader entries restarts) key prev h off ≡ ok (some cur)
      → scan_run (reader entries restarts) key (suc rounds) lo off prev ≡ (
          if key_eq cur key
          then ok (some (take h.vlen (drop (off + 12 + h.nonshared) entries)))
          else if key_lt key cur
          then ok none
          else scan_run (reader entries restarts) key rounds lo (off + need h) cur)
  unfolding scan_run
  one_round rounds off prev cur h go small inside read key_built =
      rw
        (
          go,
          fits32,
          read,
          fits64,
          key_built,
          next,
          bytes_at_inside entries (off + 12 + h.nonshared) h.vlen (omega (arith, inside)),
        )
        refl
    where
      fits32 : ltb (length entries) (u32 (off + 12)) ≡ false
      fits32 = le→ltb _ _ (omega arith)

      fits64 : ltb (length entries) (u64 (off + need h)) ≡ false
      fits64 = le→ltb _ _ (omega arith)

      next : u32 (off + need h) ≡ off + need h
      next = omega arith

  -- The round on the entry `(k, v)` behind the key `prev`.
  module _ (front rest : List ℕ) (prev k : Key) (v : List ℕ)
      (at : entries ≡ front ++ (entry_bytes (shared_prefix prev k) k v ++ rest))
      (e : IsEntry (k, v)) (small : length entries < 2 ^ 32) where
    abbrev s : ℕ
    s = shared_prefix prev k

    abbrev entry_header : Header
    entry_header = record { shared = s; nonshared = length k - s; vlen = length v }

    s_fits : s < 2 ^ 32
    s_fits = omega (arith, shared_prefix-le prev k)

    header_read : read_header entries (length front) ≡ ok entry_header
    header_read =
        ap (λ bs. read_header bs (length front)) at ∙ read_entry_header front rest s k v s_fits e

    delta_read : take (length k - s) (drop (length front + 12) entries) ≡ drop s k
    delta_read =
        ap (λ bs. take (length k - s) (drop (length front + 12) bs)) at
        ∙ read_entry_key front rest s k v s_fits e

    value_read : take (length v) (drop (length front + 12 + (length k - s)) entries) ≡ v
    value_read =
        ap (λ bs. take (length v) (drop (length front + 12 + (length k - s)) bs)) at
        ∙ read_entry_value front rest s k v s_fits e

    size : length entries ≡ length front + need entry_header + length rest
    size =
        ap (length {A = ℕ}) at
        ∙ omega (
          arith,
          length-append front (entry_bytes s k v ++ rest),
          length-append (entry_bytes s k v) rest,
          length-entry_bytes s k v,
        )

    delta_inside :
        bytes_at entries (length front + 12) (length k - s)
        ≡ ok (take (length k - s) (drop (length front + 12) entries))
    delta_inside = bytes_at_inside entries (length front + 12) (length k - s) (omega (arith, size))

    built : rebuild (reader entries restarts) key prev entry_header (length front) ≡ ok (some k)
    built =
        rw (delta_inside, delta_read)
          (elim (Bool-cases (s == 0)) [
            | inl zero_shared ↦
                rw zero_shared (ap (λ n. ok (some (drop n k))) ((==_iff s 0).0 zero_shared))
            | inr some_shared ↦
                rw (some_shared, le→ltb (length prev) s (shared_prefix-le prev k).0)
                  (ap (λ c. ok (some c)) (shared_prefix_rebuild prev k))
          ])

    entry_round :
        (rounds : ℕ)
        → stops (length front) ≡ false
        → scan_run (reader entries restarts) key (suc rounds) lo (length front) prev ≡ (
            if key_eq k key
            then ok (some v)
            else if key_lt key k
            then ok none
            else scan_run
                (reader entries restarts)
                key
                rounds
                lo
                (length front + need entry_header)
                k)
    entry_round rounds go =
        one_round rounds (length front) prev k entry_header go small (omega (arith, size))
          header_read built
        ∙ rw value_read refl

  -- The scan from the offset behind `front`, over the entries `es` of the run, which ends at `bound`.
  pub scan_run-lookup :
      (rounds bound : ℕ) (front post : List ℕ) (prev : Key) (es : Run)
      → entries ≡ front ++ (encode_run prev es ++ post)
      → bound ≡ length front + length (encode_run prev es)
      → ((off : ℕ) → stops off ≡ leb bound off)
      → length entries < 2 ^ 32
      → length es ≤ rounds
      → All IsEntry es
      → IsSorted es
      → scan_run (reader entries restarts) key rounds lo (length front) prev ≡ ok (lookup key es)
  unfolding encode_run lookup
  scan_run-lookup zero bound front post prev [] at eb stop small enough fits sorted =
      unfold scan_run in rw stopped refl
    where
      stopped : stops (length front) ≡ true
      stopped = stop (length front) ∙ ap (λ n. leb n (length front)) eb ∙ ground arith
  scan_run-lookup (suc rounds) bound front post prev [] at eb stop small enough fits sorted =
      unfold scan_run in rw stopped refl
    where
      stopped : stops (length front) ≡ true
      stopped = stop (length front) ∙ ap (λ n. leb n (length front)) eb ∙ ground arith
  scan_run-lookup zero bound front post prev ((k, v) ∷ es) at eb stop small enough fits sorted =
      absurd (omega arith)
  scan_run-lookup (suc rounds) bound front post prev ((k, v) ∷ es) at eb stop small enough fits
        sorted =
      entry_round front rest prev k v at' fits.0 small rounds inside
      ∙ outcome (
          ap (λ n. scan_run (reader entries restarts) key rounds lo n k) (sym next)
          ∙ scan_run-lookup rounds bound (front ++ entry_bytes (shared_prefix prev k) k v) post k es
              at_next bound_next stop small (omega arith) fits.1 (Ascending-IsSorted k es sorted))
    where
      s : ℕ
      s = shared_prefix prev k

      rest : List ℕ
      rest = encode_run k es ++ post

      at' : entries ≡ front ++ (entry_bytes s k v ++ rest)
      at' = at ∙ ap (λ bs. front ++ bs) (append_assoc (entry_bytes s k v) (encode_run k es) post)

      run_size :
          length (encode_run prev ((k, v) ∷ es))
          ≡ 12 + (length k - s) + length v + length (encode_run k es)
      run_size =
          omega
            (arith, length-append (entry_bytes s k v) (encode_run k es), length-entry_bytes s k v)

      inside : stops (length front) ≡ false
      inside = stop (length front) ∙ lt→leb _ _ (omega (arith, eb, run_size))

      next : length (front ++ entry_bytes s k v) ≡ length front + (12 + (length k - s) + length v)
      next = omega (arith, length-append front (entry_bytes s k v), length-entry_bytes s k v)

      at_next : entries ≡ (front ++ entry_bytes s k v) ++ (encode_run k es ++ post)
      at_next = at' ∙ sym (append_assoc front (entry_bytes s k v) rest)

      bound_next : bound ≡ length (front ++ entry_bytes s k v) + length (encode_run k es)
      bound_next = omega (arith, eb, run_size, next)

      outcome :
          scan_run
              (reader entries restarts)
              key
              rounds
              lo
              (length front + (12 + (length k - s) + length v))
              k
            ≡ ok (lookup key es)
          → (if key_eq k key
              then ok (some v)
              else if key_lt key k
              then ok none
              else scan_run
                  (reader entries restarts)
                  key
                  rounds
                  lo
                  (length front + (12 + (length k - s) + length v))
                  k)
            ≡ ok (if key_eq k key then some v else lookup key es)
      outcome others = elim (Bool-cases (key_eq k key)) [
        | inl found ↦ rw found refl
        | inr differ ↦ elim (Bool-cases (key_lt key k)) [
          | inl past ↦ rw (differ, past, lookup_below key k es past sorted) refl
          | inr before ↦ rw (differ, before) others
        ]
      ]
