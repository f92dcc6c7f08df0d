-- ===== src/Memtable/Iterate.antt =====
-- `SkipList::Iterator` of src/memtable/skip_list.h, and its use as its documentation says.
use vroot_kv.Base.{
  ℕ, zero, suc, ◌≤◌, ◌≡◌, refl, sym, ap, ◌∙◌, arith, if◌then◌else◌, none, some, Result, ok, err,
  ◌>>=◌,
}
use vroot_kv.Base.{List, [], ◌∷◌, ◌++◌, length, length-append}
use vroot_kv.Base.{Bool, true, false, Option, fault}
use vroot_kv.Key.{Key, key_lt}
use vroot_kv.Entries.{Entry}
use vroot_kv.Memtable.{
  Value, Ptr, SkipList, Stuck, out_of_fuel, load, next_at, find_greater_or_equal,
}
use vroot_kv.Memtable.Chain.{Tower, node_of, Chain, load_lem, next_at-Chain}
use vroot_kv.Memtable.Search.{null, Before, NotBefore}
use vroot_kv.Memtable.Holds.{
  entries, head_of, Tall, Holds, front, first_at-front, place, chains, tall,
  find_greater_or_equal_lem,
}
use vroot_kv.Memtable.Lookup.{entries-append}

-- An `Iterator` is the pointer `node_`. Its methods, and those that make one.
abbrev pub Iterator : Type 0
Iterator = Option Ptr

unfoldable pub begin : SkipList → Result Stuck Iterator
begin s = next_at s.cells s.head 0

unfoldable pub seek : SkipList → Key → Result Stuck Iterator
seek s target = find_greater_or_equal s target

abbrev pub valid : Iterator → Bool
valid none = false
valid (some x) = true

unfoldable pub next : SkipList → Iterator → Result Stuck Iterator
next s none = ok none
next s (some x) = next_at s.cells x 0

-- `key()` and `value()`, whose precondition is `Valid()`
unfoldable pub current : SkipList → Iterator → Result Stuck (Key × Value)
current s none = fault
current s (some x) = load s.cells x >>= λ n. ok (n.key, n.value)

-- `for (it = ...; it.Valid(); it.Next())`, with the pairs that the body sees
unfoldable pub scan : ℕ → SkipList → Iterator → Result Stuck (List Entry)
scan zero s none = ok []
scan zero s (some x) = err out_of_fuel
scan (suc fuel) s none = ok []
scan (suc fuel) s (some x) =
    current s (some x) >>= λ e. next s (some x) >>= λ it. scan fuel s it >>= λ es. ok (e ∷ es)

-- The entries whose key is not below `target`.
unfoldable pub at_least : Key → List Entry → List Entry
at_least target [] = []
at_least target ((k, v) ∷ es) =
    if key_lt k target then at_least target es else (k, v) ∷ at_least target es

scan_lem :
    (fuel : ℕ) (s : SkipList) (ts : List Tower)
    → length ts ≤ fuel
    → Chain s.cells ts null
    → Tall s.level ts
    → scan fuel s (front ts) ≡ ok (entries ts)
unfolding scan
scan_lem zero s [] h c t = refl
scan_lem zero s (x ∷ xs) h c t = absurd (omega arith)
scan_lem (suc fuel) s [] h c t = refl
scan_lem (suc fuel) s (x ∷ xs) h c t =
    rw (here, after, scan_lem fuel s xs (omega arith) c.1 t.1) refl
  where
    here : current s (some x.ptr) ≡ ok (x.key, x.value)
    here = unfold current node_of in rw (load_lem s.cells x.ptr _ c.0) refl

    after : next s (some x.ptr) ≡ ok (front xs)
    after =
        unfold next in
        next_at-Chain s.cells x xs null 0 c t.0.0 ∙ ap ok (first_at-front s.level xs t.1)

at_least-Before :
    (target : Key) (lo : List Tower) (es : List Entry)
    → Before target lo
    → at_least target (entries lo ++ es) ≡ at_least target es
unfolding at_least
at_least-Before target [] es b = refl
at_least-Before target (t ∷ lo) es b = rw b.0 (at_least-Before target lo es b.1)

at_least-NotBefore :
    (target : Key) (hi : List Tower)
    → NotBefore target hi
    → at_least target (entries hi) ≡ entries hi
unfolding at_least
at_least-NotBefore target [] n = refl
at_least-NotBefore target (t ∷ ts) n =
    rw n.0 (ap (λ es. (t.key, t.value) ∷ es) (at_least-NotBefore target ts n.1))

module _ (s : SkipList) (ts : List Tower) (h : Holds s ts) where
  -- Iteration from `Begin` over a list that holds entries ends after as many steps as its size says at most,
  -- and gives the entries in order.
  pub begin_lem : (begin s >>= λ it. scan s.size s it) ≡ ok (entries ts)
  unfolding begin
  begin_lem =
      rw
        (
          next_at-Chain s.cells (head_of s) ts null 0 h.chain
              (omega (arith, h.some_level, h.level_fits)),
          first_at-front s.level ts h.heights,
        )
        (scan_lem s.size s ts (omega (arith, h.size_eq)) h.chain.1 h.heights)

  -- Iteration from `Seek` over a list that holds entries ends after as many steps as its size says at most,
  -- and gives the entries whose keys are not below the target, in order.
  pub seek_lem :
      (target : Key)
      → (seek s target >>= λ it. scan s.size s it) ≡ ok (at_least target (entries ts))
  unfolding seek
  seek_lem target =
      let p = place s ts h target in
      rw (find_greater_or_equal_lem s ts h target) (
        scan_lem s.size s p.hi
          (omega (arith, h.size_eq, ap (length {A = Tower}) p.split, length-append p.lo p.hi))
          (chains s ts h target).1 (tall s ts h target).1
        ∙ ap ok (sym kept))
    where
      kept : at_least target (entries ts) ≡ entries (place s ts h target).hi
      kept =
          let p = place s ts h target in
          ap (λ us. at_least target (entries us)) p.split
          ∙ ap (at_least target) (entries-append p.lo p.hi)
          ∙ at_least-Before target p.lo (entries p.hi) p.before
          ∙ at_least-NotBefore target p.hi p.not_before
