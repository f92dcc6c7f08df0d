-- ===== src/Sstable/Table/Route.antt =====
-- The index of a table leads to the block that may hold a key.
use vroot_kv.Base.{
  ℕ, ◌+◌, ◌≡◌, ◌≢◌, inl, inr, refl, sym, ap, ◌∙◌, arith, Bool, true, false, Bool-cases, le→ltb,
  if◌then◌else◌, Option, none, some, Option-cases, ok,
}
use vroot_kv.Base.{
  List, [], ◌∷◌, ◌++◌, append_assoc, length, length-append, drop-append, take-append, All,
}
use mathlib.Core.Path.{subst}
use vroot_kv.Key.{Key, key_lt, key_eq, key_lt-le_trans, key_eq_of_lt}
use vroot_kv.Entries.{Ascending-IsSorted, Ascending-below, lookup-Ascending}
use vroot_kv.Sstable.Format.{BlockHandle}
use vroot_kv.Sstable.DataBlock.Layout.{Run, flatten, Ascending, IsSorted, lookup}
use vroot_kv.Sstable.IndexBlock.Layout.{IndexEntry}
use vroot_kv.Sstable.IndexBlock.Search.{route}
use vroot_kv.Sstable.Table.{first_key, slice}

-- The entries of a block and its bytes.
abbrev pub Piece : Type 0
Piece = Run × List ℕ

abbrev pub runs_of : List Piece → List Run
runs_of [] = []
runs_of ((es, d) ∷ ps) = es ∷ runs_of ps

abbrev pub bytes_of : List Piece → List ℕ
bytes_of [] = []
bytes_of ((es, d) ∷ ps) = d ++ bytes_of ps

-- Their entries in the index, the first block at `off`.
abbrev pub dividers : ℕ → List Piece → List IndexEntry
dividers off [] = []
dividers off ((es, d) ∷ ps) =
    (first_key es, record { offset = off; size = length d }) ∷ dividers (off + length d) ps

-- A sorted sequence, cut in two.
pub Ascending-cut :
    (k : Key) (es fs : Run) → Ascending k (es ++ fs) → Ascending k es × Ascending k fs
Ascending-cut k [] fs a = (tt, a)
Ascending-cut k ((k', v) ∷ es) fs a =
    let (left, right) = Ascending-cut k' es fs a.1 in
    ((a.0, left), Ascending-below k k' fs a.0 right)

pub IsSorted-cut : (es fs : Run) → IsSorted (es ++ fs) → IsSorted es × IsSorted fs
IsSorted-cut [] fs s = (tt, s)
IsSorted-cut ((k, v) ∷ es) fs s =
    let (left, right) = Ascending-cut k es fs s in (left, Ascending-IsSorted k fs right)

lookup-append :
    (key : Key) (es fs : Run) → lookup key fs ≡ none → lookup key (es ++ fs) ≡ lookup key es
unfolding lookup
lookup-append key [] fs absent = absent
lookup-append key ((k, v) ∷ es) fs absent =
    ap (λ o. if key_eq k key then some v else o) (lookup-append key es fs absent)

-- Of a key that is not below the second part, the first part says nothing.
lookup-append_above :
    (key : Key) (es : Run) (k : Key) (v : List ℕ) (fs : Run)
    → IsSorted (es ++ ((k, v) ∷ fs))
    → key_lt key k ≡ false
    → lookup key (es ++ ((k, v) ∷ fs)) ≡ lookup key ((k, v) ∷ fs)
unfolding lookup
lookup-append_above key [] k v fs s le = refl
lookup-append_above key ((k₁, v₁) ∷ es) k v fs s le =
    rw (key_eq_of_lt k₁ key (key_lt-le_trans k₁ k key (Ascending-cut k₁ es ((k, v) ∷ fs) s).1.0 le))
      (lookup-append_above key es k v fs (Ascending-IsSorted k₁ (es ++ ((k, v) ∷ fs)) s) le)

-- No divider leads to a key below all keys.
route-Ascending :
    (key : Key) (off : ℕ) (ps : List Piece)
    → All (λ p. p.0 ≢ []) ps
    → Ascending key (flatten (runs_of ps))
    → route key (dividers off ps) ≡ none
unfolding route
route-Ascending key off [] filled a = refl
route-Ascending key off (([], d) ∷ ps) filled a = absurd (filled.0 refl)
route-Ascending key off (((k, v) ∷ es, d) ∷ ps) filled a =
    let rest = (Ascending-cut k es (flatten (runs_of ps)) a.1).1 in
    rw (route-Ascending key (off + length d) ps filled.1 (Ascending-below key k _ a.0 rest), a.0)
      refl

-- Where no divider leads to a key, no block has it.
pub route-none-lookup :
    (key : Key) (off : ℕ) (ps : List Piece)
    → All (λ p. p.0 ≢ []) ps
    → IsSorted (flatten (runs_of ps))
    → route key (dividers off ps) ≡ none
    → lookup key (flatten (runs_of ps)) ≡ none
unfolding route lookup
route-none-lookup key off [] filled s e = refl
route-none-lookup key off (([], d) ∷ ps) filled s e = absurd (filled.0 refl)
route-none-lookup key off (((k, v) ∷ es, d) ∷ ps) filled s e =
    elim (Option-cases (route key (dividers (off + length d) ps))) [
      | inr (h, later) ↦ absurd (cc (rw later at e))
      | inl none_later ↦ elim (Bool-cases (key_lt key k)) [
        | inl below ↦ lookup-Ascending key (((k, v) ∷ es) ++ flatten (runs_of ps)) (below, s)
        | inr reached ↦ absurd (cc (rw (none_later, reached) at e))
      ]
    ]

-- A part of a file, by its handle.
pub slice_lem :
    (pre d post : List ℕ)
    → slice (pre ++ (d ++ post)) (record { offset = length pre; size = length d }) ≡ ok d
unfolding slice
slice_lem pre d post =
    rw
      (
        le→ltb (length (pre ++ (d ++ post))) (length pre)
            (omega (arith, length-append pre (d ++ post))),
        drop-append (length pre) pre (d ++ post) refl,
        take-append (length d) d post refl,
      )
      refl

-- The block that a handle of the index names: it is in the file there, and has what all blocks have of the
-- key.
pub record Routed (P : Piece → Type 0) (key : Key) (ps : List Piece) (file : List ℕ)
    (h : BlockHandle) : Type 0 where
  pub es : Run
  pub block : List ℕ
  pub held : P (es, block)
  pub found : slice file h ≡ ok block
  pub same : lookup key es ≡ lookup key (flatten (runs_of ps))

module _ (P : Piece → Type 0) (key : Key) where
  -- A block before those that the index led to.
  one_before :
      (es : Run) (d : List ℕ) (off : ℕ) (ps : List Piece) (file : List ℕ) (h : BlockHandle)
      → All (λ p. p.0 ≢ []) ps
      → IsSorted (es ++ flatten (runs_of ps))
      → route key (dividers off ps) ≡ some h
      → Routed P key ps file h
      → Routed P key ((es, d) ∷ ps) file h
  unfolding route
  one_before es d off [] file h filled s e r = absurd cc
  one_before es d off (([], d') ∷ ps) file h filled s e r = absurd (filled.0 refl)
  one_before es d off (((k, v) ∷ es', d') ∷ ps) file h filled s e r =
      let later = ((k, v) ∷ es') ++ flatten (runs_of ps) in
      elim (Bool-cases (key_lt key k)) [
        | inl below ↦
            let nowhere : route key (dividers off (((k, v) ∷ es', d') ∷ ps)) ≡ none =
              route-Ascending key off (((k, v) ∷ es', d') ∷ ps) filled
                (below, (IsSorted-cut es later s).1) in
            absurd (cc (rw nowhere at e))
        | inr reached ↦ record {
          es = r.es;
          block = r.block;
          held = r.held;
          found = r.found;
          same =
              r.same ∙ sym (lookup-append_above key es k v (es' ++ flatten (runs_of ps)) s reached);
        }
      ]

  -- The block that the index leads to.
  pub route-some-Routed :
      (pre : List ℕ) (ps : List Piece) (post : List ℕ) (h : BlockHandle)
      → All P ps
      → All (λ p. p.0 ≢ []) ps
      → IsSorted (flatten (runs_of ps))
      → route key (dividers (length pre) ps) ≡ some h
      → Routed P key ps (pre ++ (bytes_of ps ++ post)) h
  unfolding route
  route-some-Routed pre [] post h a filled s e = absurd cc
  route-some-Routed pre ((es, d) ∷ ps) post h a filled s e =
      let off = length pre + length d in
      let file = pre ++ ((d ++ bytes_of ps) ++ post) in
      elim (Option-cases (route key (dividers off ps))) [
        | inr (h', later) ↦
            let there : h' ≡ h = some-injective (rw later at e) in
            let at_h : route key (dividers off ps) ≡ some h = later ∙ ap some there in
            one_before es d off ps file h filled.1 s at_h (
              subst (λ f. Routed P key ps f h) regroup
                (route-some-Routed (pre ++ d) ps post h a.1 filled.1 (IsSorted-cut es _ s).1
                  (ap (λ n. route key (dividers n ps)) (length-append pre d) ∙ at_h)))
        | inl none_later ↦
            let nothing : lookup key (flatten (runs_of ps)) ≡ none =
              route-none-lookup key off ps filled.1 (IsSorted-cut es _ s).1 none_later in
            let here : record { offset = length pre; size = length d } ≡ h =
              last_one (key_lt key (first_key es)) (rw none_later at e) in
            record {
              es = es;
              block = d;
              held = a.0;
              found =
                  ap (slice file) (sym here)
                  ∙ ap (λ f. slice f (record { offset = length pre; size = length d }))
                      (ap (λ bs. pre ++ bs) (append_assoc d (bytes_of ps) post))
                  ∙ slice_lem pre d (bytes_of ps ++ post);
              same = sym (lookup-append key es (flatten (runs_of ps)) nothing);
            }
      ]
    where
      some-injective : {x y : BlockHandle} → ◌≡◌ {A = Option BlockHandle} (some x) (some y) → x ≡ y
      some-injective p = cc

      last_one :
          (below : Bool) {x : BlockHandle}
          → ◌≡◌ {A = Option BlockHandle} (if below then none else some x) (some h)
          → x ≡ h
      last_one true p = absurd cc
      last_one false p = some-injective p

      regroup : (pre ++ d) ++ (bytes_of ps ++ post) ≡ pre ++ ((d ++ bytes_of ps) ++ post)
      regroup =
          append_assoc pre d (bytes_of ps ++ post)
          ∙ ap (λ bs. pre ++ bs) (sym (append_assoc d (bytes_of ps) post))
