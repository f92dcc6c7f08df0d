-- ===== src/Sstable/DataBlock/Correct.antt =====
-- A data block, built and read: `Get` finds what was added.
use vroot_kv.Base.{ℕ, zero, suc, ◌+◌, ◌*◌, ◌^◌, ◌<◌, ◌≡◌, ◌≢◌, inl, inr, refl, sym, ap, ◌∙◌, arith}
use vroot_kv.Base.{
  List, [], ◌∷◌, ◌++◌, append_assoc, append-nil, length, length-append, All, get_or,
}
use vroot_kv.Base.{get_or-append_left, get_or-append_right, ltb, Bool-cases, ok, ◌>>=◌}
use vroot_kv.Key.{Key}
use vroot_kv.Sstable.DataBlock.Builder.{DataBlockBuilder, new_builder, finish}
use vroot_kv.Sstable.DataBlock.Reader.{new_reader, get}
use vroot_kv.Sstable.DataBlock.Layout.{
  Entry, Run, encode_runs, run_offsets, flatten, IsEntry, IsSorted, lookup,
}
use vroot_kv.Sstable.DataBlock.Layout.Runs.{length-run_offsets}
use vroot_kv.Sstable.DataBlock.Search.{IsLayout}
use vroot_kv.Sstable.DataBlock.Lookup.{get_lem}
use vroot_kv.Sstable.DataBlock.Open.{
  offset_bytes, block_bytes, length-offset_bytes, new_reader-block_bytes,
}
use vroot_kv.Codec.Fixed.{to_le, length-to_le}
use vroot_kv.Sstable.DataBlock.Build.{
  Runs, runs, place, place_all, no_runs, Holds, new_builder-Holds, build,
}
use vroot_kv.Sstable.DataBlock.Build.Add.{weight, used, IsSorted-Chain, add_all-Holds}
use vroot_kv.Sstable.DataBlock.Build.Finish.{finish-Holds}
use native.Mathlib.Decide.{dec_lt}
use mathlib.Core.Path.{subst}

-- All runs but the first have entries.
abbrev Later : List Run → Type 0
Later rs = (i : ℕ) → 0 < i → i < length rs → get_or rs i [] ≢ []

Later-append :
    (rs : List Run) (r : Run)
    → ((i : ℕ) → 0 < i → i < length rs → get_or rs i [] ≢ [])
    → (0 < length rs → r ≢ [])
    → Later (rs ++ (r ∷ []))
Later-append rs r before last i pos h = elim (dec_lt i (length rs)) [
  | yes inner ↦ λ e. before i pos inner (sym (get_or-append_left rs (r ∷ []) i [] inner) ∙ e)
  | no outer ↦ λ e.
      last (omega (arith, length-append rs (r ∷ [])))
        (sym (at_end i (omega (arith, length-append rs (r ∷ [])))) ∙ e)
]
  where
    at_end : (j : ℕ) → j ≡ length rs → get_or (rs ++ (r ∷ [])) j [] ≡ r
    at_end j e =
        ap (λ n. get_or (rs ++ (r ∷ [])) n []) (omega (arith, e))
        ∙ get_or-append_right 0 rs (r ∷ []) []

-- Of runs without the last one.
Later-front : (rs : List Run) (r : Run) → Later (rs ++ (r ∷ [])) → Later rs
Later-front rs r h i pos inner e =
    h i pos (omega (arith, length-append rs (r ∷ [])))
      (get_or-append_left rs (r ∷ []) i [] inner ∙ e)

not-nil : (es : Run) (e : Entry) → es ++ (e ∷ []) ≢ []
not-nil [] e h = cc
not-nil (x ∷ es) e h = cc

place-Later :
    (interval : ℕ) (l : Runs) (e : Entry) → Later (runs l) → Later (runs (place interval l e))
place-Later interval l e h = elim (Bool-cases (ltb (length l.cur) interval)) [
  | inl more ↦
      rw more (
        Later-append l.done (l.cur ++ (e ∷ [])) (Later-front l.done l.cur h) (λ p. not-nil l.cur e))
  | inr full ↦ rw full (Later-append (runs l) (e ∷ []) h (λ p q. cc))
]

place_all-Later :
    (interval : ℕ) (l : Runs) (es : Run) → Later (runs l) → Later (runs (place_all interval l es))
place_all-Later interval l [] h = h
place_all-Later interval l (e ∷ es) h =
    place_all-Later interval (place interval l e) es (place-Later interval l e h)

flatten-append : (rs : List Run) (r : Run) → flatten (rs ++ (r ∷ [])) ≡ flatten rs ++ r
flatten-append [] r = append-nil r
flatten-append (q ∷ rs) r =
    ap (λ es. q ++ es) (flatten-append rs r) ∙ sym (append_assoc q (flatten rs) r)

flatten-place :
    (interval : ℕ) (l : Runs) (e : Entry)
    → flatten (runs (place interval l e)) ≡ flatten (runs l) ++ (e ∷ [])
flatten-place interval l e = elim (Bool-cases (ltb (length l.cur) interval)) [
  | inl more ↦ rw more (
      flatten-append l.done (l.cur ++ (e ∷ []))
      ∙ sym (append_assoc (flatten l.done) l.cur (e ∷ []))
      ∙ ap (λ es. es ++ (e ∷ [])) (sym (flatten-append l.done l.cur)))
  | inr full ↦ rw full (flatten-append (runs l) (e ∷ []))
]

-- The runs hold the entries, in order.
flatten-place_all :
    (interval : ℕ) (l : Runs) (es : Run)
    → flatten (runs (place_all interval l es)) ≡ flatten (runs l) ++ es
flatten-place_all interval l [] = sym (append-nil (flatten (runs l)))
flatten-place_all interval l (e ∷ es) =
    flatten-place_all interval (place interval l e) es
    ∙ ap (λ fs. fs ++ es) (flatten-place interval l e)
    ∙ append_assoc (flatten (runs l)) (e ∷ []) es

All-split : (xs ys : Run) → All IsEntry (xs ++ ys) → All IsEntry xs × All IsEntry ys
All-split [] ys h = (tt, h)
All-split (x ∷ xs) ys h = let r = All-split xs ys h.1 in ((h.0, r.0), r.1)

All-flatten :
    (rs : List Run) (i : ℕ)
    → All IsEntry (flatten rs)
    → i < length rs
    → All IsEntry (get_or rs i [])
All-flatten [] i h p = absurd (omega arith)
All-flatten (r ∷ rs) zero h p = (All-split r (flatten rs) h).0
All-flatten (r ∷ rs) (suc i) h p = All-flatten rs i (All-split r (flatten rs) h).1 (omega arith)

-- Entries that a block takes: sorted, with lengths that fit, below 4 GiB together.
pub record IsBlockInput (es : Run) : Type 0 where
  pub sorted : IsSorted es
  pub entries_fit : All IsEntry es
  pub fits : weight es + 8 < 2 ^ 32

length-block_bytes :
    (rs : List Run) → length (block_bytes rs) ≡ length (encode_runs rs) + 4 * length rs + 4
unfolding block_bytes
length-block_bytes rs = omega (
  arith,
  length-append (encode_runs rs) (offset_bytes (run_offsets 0 rs) ++ to_le 4 (length rs)),
  length-append (offset_bytes (run_offsets 0 rs)) (to_le 4 (length rs)),
  length-offset_bytes (run_offsets 0 rs),
  length-run_offsets 0 rs,
  length-to_le 4 (length rs),
)

module _ (interval : ℕ) (es : Run) (v : IsBlockInput es) where
  abbrev placed : Runs
  placed = place_all interval no_runs es

  same_entries : flatten (runs placed) ≡ es
  same_entries = flatten-place_all interval no_runs es

  placed-IsLayout :
      (b : DataBlockBuilder) → Holds interval b placed → used b < 2 ^ 32 → IsLayout (runs placed)
  placed-IsLayout b h small = record {
    some_run = omega (arith, length-append placed.done (placed.cur ∷ []));
    nonempty = place_all-Later interval no_runs es (λ i p q. absurd (omega arith));
    entries_fit =
        λ i p. All-flatten (runs placed) i (subst (All IsEntry) (sym same_entries) v.entries_fit) p;
    block_fits = omega (
      arith,
      ap (length {A = ℕ}) h.buffer_eq,
      ap (length {A = ℕ}) h.restarts_eq,
      length-run_offsets 0 (runs placed),
    );
  }

  -- The block that the builder makes, which is below 4 GiB, and what the reader finds in it.
  pub build_lem :
      (block : List ℕ) × (build interval es ≡ ok block)
      × ((key : Key) → (new_reader block >>= λ r. get r key) ≡ ok (lookup key es))
      × (length block < 2 ^ 32)
  unfolding build
  build_lem =
      let (b, e, h, small) =
        add_all-Holds interval es (new_builder interval) no_runs (new_builder-Holds interval)
          (unfold new_builder in IsSorted-Chain es v.sorted) v.entries_fit
          (unfold new_builder in omega (arith, v.fits)) in
      let layout = placed-IsLayout b h small in
      let bytes = finish-Holds interval b placed h small in
      (
        (finish b).1,
        rw e refl,
        λ key.
            ap (λ bs. new_reader bs >>= λ r. get r key) bytes
            ∙ ap (λ r. r >>= λ q. get q key) (new_reader-block_bytes (runs placed) layout)
            ∙ get_lem (runs placed) layout (subst IsSorted (sym same_entries) v.sorted) key
            ∙ ap (λ fs. ok (lookup key fs)) same_entries,
        omega
            (arith, ap (length {A = ℕ}) bytes, length-block_bytes (runs placed), layout.block_fits),
      )

  -- The builder accepts sorted entries whose lengths fit and which take less than 4 GiB together, and the
  -- reader opens the block that it finishes and finds for every key the value that the entries give
  -- it, whatever the restart interval.
  pub build-get :
      (block : List ℕ) × (build interval es ≡ ok block)
      × ((key : Key) → (new_reader block >>= λ r. get r key) ≡ ok (lookup key es))
  build-get = let (block, e, found, small) = build_lem in (block, e, found)
