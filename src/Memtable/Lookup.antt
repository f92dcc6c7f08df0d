-- ===== src/Memtable/Lookup.antt =====
-- `Contains` and `Get`, and the entries around the place of a key.
use vroot_kv.Base.{
  ℕ, ◌≡◌, refl, sym, ap, ◌∙◌, false, Bool-cases, inl, inr, if◌then◌else◌, Option, none, some,
  Result, ok,
}
use vroot_kv.Base.{List, [], ◌∷◌, ◌++◌}
use vroot_kv.Key.{Key, key_eq, key_eq_of_lt}
use vroot_kv.Entries.{
  Entry, Ascending, IsSorted, lookup, put_entry, erase_entry, lookup-Ascending, Ascending-below,
  Ascending-IsSorted, above,
}
use vroot_kv.Memtable.{Ptr, Node, Cells, Stuck, SkipList, match_key, get}
use vroot_kv.Memtable.Chain.{Tower, node_of, Chain, load_lem}
use vroot_kv.Memtable.Search.{null, Before, NotBefore}
use vroot_kv.Memtable.Holds.{entries, Holds, front, place, chains, find_greater_or_equal_lem}
use mathlib.Core.Path.{subst}

-- The first tower at or behind the place, if it has the key.
abbrev pub hit : Key → List Tower → Option (Ptr × Node)
hit key [] = none
hit key (t ∷ ts) = if key_eq t.key key then some (t.ptr, node_of t ts null) else none

pub match_key_lem :
    (cells : Cells) (key : Key) (ts : List Tower)
    → Chain cells ts null
    → match_key cells (front ts) key ≡ ok (hit key ts)
unfolding match_key
match_key_lem cells key [] c = refl
match_key_lem cells key (t ∷ ts) c = rw (load_lem cells t.ptr _ c.0) (unfold node_of in refl)

pub entries-append : (xs ys : List Tower) → entries (xs ++ ys) ≡ entries xs ++ entries ys
entries-append [] ys = refl
entries-append (x ∷ xs) ys = ap (λ es. (x.key, x.value) ∷ es) (entries-append xs ys)

-- The towers before a key have no part in what the map operations do to it.
pub lookup-Before :
    (key : Key) (lo : List Tower) (es : List Entry)
    → Before key lo
    → lookup key (entries lo ++ es) ≡ lookup key es
unfolding lookup
lookup-Before key [] es b = refl
lookup-Before key (t ∷ lo) es b = rw (key_eq_of_lt t.key key b.0) (lookup-Before key lo es b.1)

pub put_entry-Before :
    (key : Key) (w : List ℕ) (lo : List Tower) (es : List Entry)
    → Before key lo
    → put_entry key w (entries lo ++ es) ≡ entries lo ++ put_entry key w es
unfolding put_entry
put_entry-Before key w [] es b = refl
put_entry-Before key w (t ∷ lo) es b =
    rw b.0 (ap (λ fs. (t.key, t.value) ∷ fs) (put_entry-Before key w lo es b.1))

pub erase_entry-Before :
    (key : Key) (lo : List Tower) (es : List Entry)
    → Before key lo
    → erase_entry key (entries lo ++ es) ≡ entries lo ++ erase_entry key es
unfolding erase_entry
erase_entry-Before key [] es b = refl
erase_entry-Before key (t ∷ lo) es b =
    rw (key_eq_of_lt t.key key b.0)
      (ap (λ fs. (t.key, t.value) ∷ fs) (erase_entry-Before key lo es b.1))

-- Sorted entries from the place of a key on, the first of which does not have the key, do not have it.
pub lookup-miss :
    (key : Key) (t : Tower) (ts : List Tower)
    → NotBefore key (t ∷ ts)
    → key_eq t.key key ≡ false
    → Ascending t.key (entries ts)
    → lookup key (entries (t ∷ ts)) ≡ none
unfolding lookup
lookup-miss key t ts n other a = rw other (
    lookup-Ascending key (entries ts)
      (Ascending-below key t.key (entries ts) (above t.key key n.0 other) a))

pub IsSorted-end : (xs ys : List Entry) → IsSorted (xs ++ ys) → IsSorted ys
IsSorted-end [] ys h = h
IsSorted-end ((k, v) ∷ xs) ys h = IsSorted-end xs ys (Ascending-IsSorted k (xs ++ ys) h)

-- What the first tower behind the place says.
lookup-hit :
    (key : Key) (hi : List Tower)
    → NotBefore key hi
    → IsSorted (entries hi)
    → (elim (hit key hi) as (λ m. Option (List ℕ)) [ none ↦ none | some y ↦ some y.1.value ])
      ≡ lookup key (entries hi)
unfolding lookup node_of
lookup-hit key [] n h = refl
lookup-hit key (t ∷ ts) n h = elim (Bool-cases (key_eq t.key key)) [
  | inl same ↦ rw same refl
  | inr other ↦ rw other (
      sym (
        lookup-Ascending key (entries ts)
          (Ascending-below key t.key (entries ts) (above t.key key n.0 other) h)))
]

module _ (s : SkipList) (ts : List Tower) (h : Holds s ts) (key : Key) where
  pub entries_cut : entries ts ≡ entries (place s ts h key).lo ++ entries (place s ts h key).hi
  entries_cut =
      ap entries (place s ts h key).split
      ∙ entries-append (place s ts h key).lo (place s ts h key).hi

  pub hi-IsSorted : IsSorted (entries (place s ts h key).hi)
  hi-IsSorted =
      IsSorted-end (entries (place s ts h key).lo) (entries (place s ts h key).hi)
        (subst IsSorted entries_cut h.sorted)

  -- `Get` gives the value of the key in the entries that the list holds, and finds none if they have
  -- none.
  pub get_lem : get s key ≡ ok (lookup key (entries ts))
  unfolding get
  get_lem =
      rw
        (
          find_greater_or_equal_lem s ts h key,
          match_key_lem s.cells key (place s ts h key).hi (chains s ts h key).1,
          ap (lookup key) entries_cut,
          lookup-Before key (place s ts h key).lo (entries (place s ts h key).hi)
              (place s ts h key).before,
          ← lookup-hit key (place s ts h key).hi (place s ts h key).not_before hi-IsSorted,
        )
        (same (hit key (place s ts h key).hi))
    where
      same :
          (m : Option (Ptr × Node))
          → (elim m as (λ q. Result Stuck (Option (List ℕ))) [
            | none ↦ ok none
            | some y ↦ ok (some y.1.value)
          ])
            ≡ ok (elim m as (λ q. Option (List ℕ)) [ none ↦ none | some y ↦ some y.1.value ])
      same none = refl
      same (some y) = refl
