-- ===== src/Sstable/DataBlock/Search.antt =====
-- The binary search over the restart offsets finds the run that the key belongs to.
use vroot_kv.Base.{
  ℕ, zero, suc, ◌+◌, ◌-◌, ◌*◌, ◌/◌, ◌^◌, ◌≤◌, ◌<◌, ◌≡◌, ◌≢◌, ◌⊎◌, refl, sym, ap, ◌∙◌, arith,
}
use vroot_kv.Base.{
  List, [], ◌∷◌, ◌++◌, length, length-append, take, drop, get_or, All, if◌then◌else◌,
}
use vroot_kv.Base.{true, false, not, ltb, le→ltb, lt→ltb, Bool-cases, inl, inr}
use vroot_kv.Base.{some, ok}
use vroot_kv.Codec.Bytes.{u32, u64}
use vroot_kv.Key.{Key, key_lt}
use vroot_kv.Sstable.DataBlock.Reader.{
  DataBlockReader, read_header, key_at_offset, restart_at, search_run,
}
use vroot_kv.Sstable.DataBlock.Layout.{
  Run, entry_bytes, encode_run, encode_runs, run_offsets, IsEntry,
}
use vroot_kv.Sstable.DataBlock.Layout.Parts.{length-entry_bytes, read_entry_header, read_entry_key}
use vroot_kv.Sstable.DataBlock.Layout.Runs.{encode_run_starts}
use vroot_kv.Sstable.DataBlock.Layout.Runs.{
  length-run_offsets, encode_runs_at, get_elem?-run_offsets,
}
use mathlib.Core.Path.{subst}
use native.Mathlib.Decide.{dec_lt}
use vroot_kv.Sstable.DataBlock.Scan.{reader, bytes_at_inside}

-- The key of a run's first entry; the search reads it of runs that have one.
abbrev pub first_key : Run → Key
first_key [] = []
first_key ((k, v) ∷ es) = k

-- A restart entry holds its whole key.
restart_entry :
    (entries front rest : List ℕ) (k : Key) (v : List ℕ)
    → entries ≡ front ++ (entry_bytes 0 k v ++ rest)
    → IsEntry (k, v)
    → length entries < 2 ^ 32
    → key_at_offset entries (length front) ≡ ok (some k)
unfolding key_at_offset
restart_entry entries front rest k v at e small =
    rw
      (
        fits32,
        header_read,
        fits64,
        bytes_at_inside entries (length front + 12) (length k - 0) (omega (arith, size)),
      )
      (ap (λ bs. ok (some bs)) key_read)
  where
    size : length entries ≡ length front + (12 + length k + length v) + length rest
    size =
        ap (length {A = ℕ}) at
        ∙ omega (
          arith,
          length-append front (entry_bytes 0 k v ++ rest),
          length-append (entry_bytes 0 k v) rest,
          length-entry_bytes 0 k v,
        )

    fits32 : ltb (length entries) (u32 (length front + 12)) ≡ false
    fits32 = le→ltb _ _ (omega (arith, size))

    header_read :
        read_header entries (length front)
        ≡ ok (record { shared = 0; nonshared = length k - 0; vlen = length v })
    header_read =
        ap (λ bs. read_header bs (length front)) at
        ∙ read_entry_header front rest 0 k v (omega arith) e

    fits64 : ltb (length entries) (u64 (length front + (12 + (length k - 0) + length v))) ≡ false
    fits64 = le→ltb _ _ (omega (arith, size))

    key_read : take (length k - 0) (drop (length front + 12) entries) ≡ k
    key_read =
        ap (λ bs. take (length k - 0) (drop (length front + 12) bs)) at
        ∙ read_entry_key front rest 0 k v (omega arith) e

-- Runs as a builder makes them: all but the first have entries, whose lengths fit, and the block is
-- below 4 GiB.
pub record IsLayout (rs : List Run) : Type 0 where
  pub some_run : 0 < length rs
  pub nonempty : (i : ℕ) → 0 < i → i < length rs → get_or rs i [] ≢ []
  pub entries_fit : (i : ℕ) → i < length rs → All IsEntry (get_or rs i [])
  pub block_fits : length (encode_runs rs) + 4 * length rs + 4 < 2 ^ 32

module _ (rs : List Run) (layout : IsLayout rs) (key : Key) where
  abbrev pub block_reader : DataBlockReader
  block_reader = reader (encode_runs rs) (run_offsets 0 rs)

  abbrev key_of : ℕ → Key
  key_of i = first_key (get_or rs i [])

  pub restart_lem :
      (i : ℕ)
      → i < length rs
      → restart_at block_reader key i ≡ ok (length (encode_runs (take i rs)))
  unfolding restart_at
  restart_lem i h = rw (get_elem?-run_offsets 0 rs i h, restart_at) (ap ok (omega arith))

  restart_key :
      (i : ℕ)
      → 0 < i
      → i < length rs
      → key_at_offset (encode_runs rs) (length (encode_runs (take i rs))) ≡ ok (some (key_of i))
  restart_key i pos h =
      go (get_or rs i []) (layout.nonempty i pos h) (layout.entries_fit i h) (encode_runs_at rs i h)
    where
      go :
          (r : Run)
          → r ≢ []
          → All IsEntry r
          → encode_runs rs
            ≡ encode_runs (take i rs) ++ (encode_run [] r ++ encode_runs (drop (suc i) rs))
          → key_at_offset (encode_runs rs) (length (encode_runs (take i rs)))
            ≡ ok (some (first_key r))
      go [] some_entry fits at = absurd (some_entry refl)
      go ((k, v) ∷ es) some_entry fits at =
          restart_entry (encode_runs rs) (encode_runs (take i rs))
            (encode_run k es ++ encode_runs (drop (suc i) rs)) k v
            (at
              ∙ ap (λ bs. encode_runs (take i rs) ++ bs)
                  (encode_run_starts k v es (encode_runs (drop (suc i) rs))))
            fits.0 (omega (arith, layout.block_fits))

  -- The run that the search settles on: the last one whose first key is not above the key, or the first.
  pub record IsFound (j : ℕ) : Type 0 where
    pub inside : j < length rs
    pub low : (j ≡ 0) ⊎ (key_lt key (key_of j) ≡ false)
    pub high : (suc j ≡ length rs) ⊎ (key_lt key (key_of (suc j)) ≡ true)

  search_round :
      (rounds lo hi : ℕ)
      → lo < hi
      → hi < length rs
      → let mid = (lo + hi + 1) / 2 in
        search_run block_reader key (suc rounds) lo hi ≡ (
          if not (key_lt key (key_of mid))
          then search_run block_reader key rounds mid hi
          else search_run block_reader key rounds lo (mid - 1))
  unfolding search_run
  search_round rounds lo hi h q =
      rw
        (
          lt→ltb lo hi h,
          lt→ltb (lo + hi + 1) (2 ^ 31) (omega (arith, h, q, layout.block_fits)),
          restart_lem ((lo + hi + 1) / 2) (omega arith),
          restart_key ((lo + hi + 1) / 2) (omega arith) (omega arith),
        )
        refl

  abbrev Low : ℕ → Type 0
  Low j = (j ≡ 0) ⊎ (key_lt key (key_of j) ≡ false)

  abbrev High : ℕ → Type 0
  High j = (suc j ≡ length rs) ⊎ (key_lt key (key_of (suc j)) ≡ true)

  abbrev Finds : ℕ → ℕ → ℕ → Type 0
  Finds rounds lo hi =
      (j : ℕ) × (search_run block_reader key rounds lo hi ≡ ok (some j)) × IsFound j

  settled : (rounds lo hi : ℕ) → lo ≡ hi → hi < length rs → Low lo → High hi → Finds rounds lo hi
  unfolding search_run
  settled zero lo hi e q low high = (
    lo,
    rw (le→ltb lo hi (omega arith)) refl,
    record { inside = omega arith; low = low; high = subst High (sym e) high },
  )
  settled (suc rounds) lo hi e q low high = (
    lo,
    rw (le→ltb lo hi (omega arith)) refl,
    record { inside = omega arith; low = low; high = subst High (sym e) high },
  )

  search_run-IsFound :
      (rounds lo hi : ℕ)
      → lo ≤ hi
      → hi < length rs
      → hi - lo ≤ rounds
      → Low lo
      → High hi
      → Finds rounds lo hi
  search_run-IsFound zero lo hi p q f low high = settled zero lo hi (omega arith) q low high
  search_run-IsFound (suc rounds) lo hi p q f low high = elim (dec_lt lo hi) [
    | no same ↦ settled (suc rounds) lo hi (omega arith) q low high
    | yes h ↦ elim (Bool-cases (key_lt key (key_of ((lo + hi + 1) / 2)))) [
      | inl above ↦
          let below : suc ((lo + hi + 1) / 2 - 1) ≡ (lo + hi + 1) / 2 = omega arith in
          let (j, e, found) =
            search_run-IsFound rounds lo ((lo + hi + 1) / 2 - 1) (omega arith) (omega arith)
              (omega arith) low (inr (ap (λ n. key_lt key (key_of n)) below ∙ above)) in
          (j, search_round rounds lo hi h q ∙ rw above e, found)
      | inr at_most ↦
          let (j, e, found) =
            search_run-IsFound rounds ((lo + hi + 1) / 2) hi (omega arith) q (omega arith)
              (inr at_most) high in
          (j, search_round rounds lo hi h q ∙ rw at_most e, found)
    ]
  ]

  -- The search of `Get` settles on a run, whatever the key.
  pub search_run_total :
      (j : ℕ) × (search_run block_reader key
          (length (run_offsets 0 rs))
          0
          (length (run_offsets 0 rs) - 1)
        ≡ ok (some j))
      × IsFound j
  search_run_total =
      let n = length rs in
      rw (length-run_offsets 0 rs) (
        search_run-IsFound n 0 (n - 1) (omega arith) (omega (arith, layout.some_run)) (omega arith)
          (inl refl) (inl (omega (arith, layout.some_run))))
