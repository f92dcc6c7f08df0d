-- ===== src/Sstable/DataBlock/Lookup.antt =====
-- `DataBlockReader` on a block of sorted runs: it opens, and `Get` gives what the entries give.
use vroot_kv.Base.{ℕ, suc, ◌+◌, ◌≤◌, ◌<◌, ◌≡◌, ◌≢◌, refl, sym, ap, ◌∙◌, arith}
use vroot_kv.Base.{List, [], ◌∷◌, ◌++◌, length, length-append, take, drop, get_or, get_elem?, ◌==◌}
use vroot_kv.Base.{Bool, true, false, not, ◌||◌, ltb, leb, inl, inr}
use vroot_kv.Base.{drop_at, drop_all, Option, none, some, ok}
use vroot_kv.Key.{Key, key_lt, key_lt_trans, key_lt-le_trans, key_eq_of_lt, key_eq_comm}
use vroot_kv.Sstable.DataBlock.Reader.{scan_run, past, get}
use vroot_kv.Sstable.DataBlock.Layout.{
  Run, encode_run, encode_runs, run_offsets, flatten, lookup, Ascending, IsSorted,
}
use vroot_kv.Sstable.DataBlock.Layout.Runs.{
  encode_runs_at, flatten_at, get_elem?-run_offsets, get_elem?-run_offsets_end, length-run_offsets,
  length-encode_runs-take-suc, length-le-encode_run,
}
use mathlib.Core.Path.{subst}
use native.Mathlib.Decide.{dec_lt, ℕ_discrete}
use vroot_kv.Sstable.DataBlock.Scan.{lookup_below, scan_run-lookup, stops}
use vroot_kv.Sstable.DataBlock.Search.{
  IsLayout, first_key, block_reader, IsFound, search_run_total, restart_lem,
}

lookup-append :
    (key : Key) (xs ys : Run) → lookup key xs ≡ none → lookup key (xs ++ ys) ≡ lookup key ys
unfolding lookup
lookup-append key [] ys h = refl
lookup-append key ((k, v) ∷ xs) ys h = ground (arith, lookup-append key xs ys)

lookup-append_front :
    (key : Key) (xs ys : Run) → lookup key ys ≡ none → lookup key (xs ++ ys) ≡ lookup key xs
unfolding lookup
lookup-append_front key [] ys h = h
lookup-append_front key ((k, v) ∷ xs) ys h = ground (arith, lookup-append_front key xs ys)

IsSorted-tail : (k : Key) (v : List ℕ) (es : Run) → Ascending k es → IsSorted es
IsSorted-tail k v [] h = tt
IsSorted-tail k v ((k', v') ∷ es) h = h.1

pub IsSorted-back : (xs ys : Run) → IsSorted (xs ++ ys) → IsSorted ys
IsSorted-back [] ys h = h
IsSorted-back ((k, v) ∷ xs) ys h = IsSorted-back xs ys (IsSorted-tail k v (xs ++ ys) h)

Ascending-front : (k : Key) (xs ys : Run) → Ascending k (xs ++ ys) → Ascending k xs
Ascending-front k [] ys h = tt
Ascending-front k ((k', v) ∷ xs) ys h = (h.0, Ascending-front k' xs ys h.1)

pub IsSorted-front : (xs ys : Run) → IsSorted (xs ++ ys) → IsSorted xs
IsSorted-front [] ys h = tt
IsSorted-front ((k, v) ∷ xs) ys h = Ascending-front k xs ys h

-- A key that comes later is greater.
Ascending-later :
    (x : Key) (xs : Run) (k : Key) (v : List ℕ) (ys : Run)
    → Ascending x (xs ++ ((k, v) ∷ ys))
    → key_lt x k ≡ true
Ascending-later x [] k v ys h = h.0
Ascending-later x ((x', v') ∷ xs) k v ys h =
    key_lt_trans x x' k h.0 (Ascending-later x' xs k v ys h.1)

-- A key that is not below an entry has no value before it.
lookup_before :
    (key : Key) (xs : Run) (k : Key) (v : List ℕ) (ys : Run)
    → IsSorted (xs ++ ((k, v) ∷ ys))
    → key_lt key k ≡ false
    → lookup key xs ≡ none
unfolding lookup
lookup_before key [] k v ys h at_least = refl
lookup_before key ((x, w) ∷ xs) k v ys h at_least =
    rw (key_eq_of_lt x key (key_lt-le_trans x k key (Ascending-later x xs k v ys h) at_least))
      (lookup_before key xs k v ys (IsSorted-tail x w _ h) at_least)

-- A key below the first of sorted entries has no value in them.
lookup_first :
    (key : Key) (es : Run) → IsSorted es → key_lt key (first_key es) ≡ true → lookup key es ≡ none
unfolding lookup
lookup_first key [] h below = refl
lookup_first key ((k, v) ∷ es) h below =
    rw (key_eq_comm k key, key_eq_of_lt key k below) (lookup_below key k es below h)

first_key-append : (r es : Run) → r ≢ [] → first_key (r ++ es) ≡ first_key r
first_key-append [] es h = absurd (h refl)
first_key-append ((k, v) ∷ r) es h = refl

lookup_before_run :
    (key : Key) (xs r ys : Run)
    → r ≢ []
    → IsSorted (xs ++ (r ++ ys))
    → key_lt key (first_key r) ≡ false
    → lookup key xs ≡ none
lookup_before_run key xs [] ys h s p = absurd (h refl)
lookup_before_run key xs ((k, v) ∷ r) ys h s p = lookup_before key xs k v (r ++ ys) s p

-- The two tests that stop the scan of a run, as one.
stop_next : (off len bound : ℕ) → bound ≤ len → (not (ltb off len) || leb bound off) ≡ leb bound off
stop_next off len bound h = ground arith

stop_last : (off len bound : ℕ) → bound ≡ len → (not (ltb off len) || false) ≡ leb bound off
stop_last off len bound h = ground arith

module _ (rs : List Run) (layout : IsLayout rs) (sorted : IsSorted (flatten rs)) (key : Key) where
  module _ (j : ℕ) (found : IsFound rs layout key j) where
    abbrev here : Run
    here = get_or rs j []

    abbrev before : List Run
    before = take j rs

    abbrev after : List Run
    after = drop (suc j) rs

    whole : flatten rs ≡ flatten before ++ (here ++ flatten after)
    whole = flatten_at rs j found.inside

    after-IsSorted : IsSorted (flatten after)
    after-IsSorted =
        IsSorted-back here (flatten after)
          (IsSorted-back (flatten before) _ (subst IsSorted whole sorted))

    absent_before : lookup key (flatten before) ≡ none
    absent_before = elim (ℕ_discrete j 0) [
      | yes first ↦ ap (λ n. lookup key (flatten (take n rs))) first ∙ unfold lookup in refl
      | no later ↦
          lookup_before_run key (flatten before) here (flatten after)
            (layout.nonempty j (omega arith) found.inside) (subst IsSorted whole sorted)
            (elim found.low [ inl first ↦ absurd (later first) | inr low ↦ low ])
    ]

    absent_after : lookup key (flatten after) ≡ none
    absent_after = elim (dec_lt (suc j) (length rs)) [
      | no last ↦
          ap (λ qs. lookup key (flatten qs)) (drop_all (suc j) rs (omega arith))
          ∙ unfold lookup in refl
      | yes more ↦
          let next : flatten after ≡ get_or rs (suc j) [] ++ flatten (drop (suc (suc j)) rs) =
            ap flatten (drop_at rs (suc j) [] more) in
          lookup_first key (flatten after) after-IsSorted (
            ap (λ es. key_lt key (first_key es)) next
            ∙ ap (key_lt key) (
                first_key-append (get_or rs (suc j) []) _
                  (layout.nonempty (suc j) (omega arith) more))
            ∙ elim found.high [ inl last ↦ absurd (omega arith) | inr high ↦ high ])
    ]

    found_here : lookup key (flatten rs) ≡ lookup key here
    found_here =
        ap (lookup key) whole
        ∙ lookup-append key (flatten before) (here ++ flatten after) absent_before
        ∙ lookup-append_front key here (flatten after) absent_after

    scan_here :
        scan_run
          (block_reader rs layout key)
          key
          (length (encode_runs rs))
          j
          (length (encode_runs before))
          []
        ≡ ok (lookup key here)
    scan_here =
        scan_run-lookup (encode_runs rs) (run_offsets 0 rs) key j (length (encode_runs rs)) bound
          (encode_runs before) (encode_runs after) [] here (encode_runs_at rs j found.inside) refl
          stops_at (omega (arith, layout.block_fits))
          (omega (arith, sizes, length-le-encode_run [] here)) (layout.entries_fit j found.inside)
          (IsSorted-front here (flatten after)
            (IsSorted-back (flatten before) _ (subst IsSorted whole sorted)))
      where
        bound : ℕ
        bound = length (encode_runs before) + length (encode_run [] here)

        sizes : length (encode_runs rs) ≡ bound + length (encode_runs after)
        sizes =
            ap (length {A = ℕ}) (encode_runs_at rs j found.inside)
            ∙ omega (
              arith,
              length-append (encode_runs before) (encode_run [] here ++ encode_runs after),
              length-append (encode_run [] here) (encode_runs after),
            )

        stops_at : (off : ℕ) → stops (encode_runs rs) (run_offsets 0 rs) key j off ≡ leb bound off
        stops_at off = elim (dec_lt (suc j) (length rs)) [
          | yes more ↦
              ap boundary (next_offset more)
              ∙ stop_next off (length (encode_runs rs)) bound (omega (arith, sizes))
          | no last ↦
              ap boundary (no_offset last)
              ∙ stop_last off (length (encode_runs rs)) bound (at_end last)
        ]
          where
            boundary : Option ℕ → Bool
            boundary o = not (ltb off (length (encode_runs rs))) || past o off

            next_offset : suc j < length rs → get_elem? (run_offsets 0 rs) (j + 1) ≡ some bound
            next_offset more =
                ap (get_elem? (run_offsets 0 rs)) (omega arith)
                ∙ get_elem?-run_offsets 0 rs (suc j) more
                ∙ ap some (omega (arith, length-encode_runs-take-suc rs j found.inside))

            no_offset : ¬ (suc j < length rs) → get_elem? (run_offsets 0 rs) (j + 1) ≡ none
            no_offset last = get_elem?-run_offsets_end 0 rs (j + 1) (omega arith)

            no_runs : length (encode_runs []) ≡ 0
            no_runs = unfold encode_runs in refl

            at_end : ¬ (suc j < length rs) → bound ≡ length (encode_runs rs)
            at_end last = omega (
              arith,
              sizes,
              ap (λ qs. length (encode_runs qs)) (drop_all (suc j) rs (omega arith)),
              no_runs,
            )

  -- `Get` on a block of sorted entries gives each key the value that the entries give it.
  pub get_lem : get (block_reader rs layout key) key ≡ ok (lookup key (flatten rs))
  unfolding get
  get_lem =
      let (j, e, found) = search_run_total rs layout key in
      rw (some_restart, e, restart_lem rs layout key j found.inside)
        (scan_here j found ∙ ap ok (sym (found_here j found)))
    where
      some_restart : (length (run_offsets 0 rs) == 0) ≡ false
      some_restart = ground (arith, length-run_offsets 0 rs, layout.some_run)
