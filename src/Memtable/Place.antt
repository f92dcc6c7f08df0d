-- ===== src/Memtable/Place.antt =====
-- What the search for a key to change finds: a tower that has the key, or none.
use vroot_kv.Base.{◌+◌, ◌≡◌, ◌⊎◌, inl, inr, refl, ap, ◌∙◌, true, Bool-cases, Option, none, some, ok}
use vroot_kv.Base.{List, [], ◌∷◌, ◌++◌, replicate}
use vroot_kv.Key.{Key, key_eq}
use vroot_kv.Entries.{lookup, IsSorted}
use vroot_kv.Memtable.{Ptr, SkipList, erase_search, find_greater_or_equal_mut, match_key}
use vroot_kv.Memtable.Chain.{Tower, node_of}
use vroot_kv.Memtable.Search.{null, NotBefore}
use vroot_kv.Memtable.Descend.{Searched, erase_descend-descend_mut}
use vroot_kv.Memtable.Holds.{entries, head_of, Holds, front, place, chains, find_mut_lem}
use vroot_kv.Memtable.Lookup.{
  hit, match_key_lem, lookup-Before, lookup-miss, entries_cut, hi-IsSorted,
}
use vroot_kv.Memtable.AddNode.{Miss}
use mathlib.Core.Path.{subst}

-- The search in the text of `Erase` is the search that records pointers, on any heap.
pub erase_search-find_greater_or_equal_mut :
    (s : SkipList) (key : Key) → erase_search s key ≡ find_greater_or_equal_mut s key
unfolding erase_search find_greater_or_equal_mut
erase_search-find_greater_or_equal_mut s key =
    rw
      (erase_descend-descend_mut (s.size + 1) s.cells key s.level s.head
        (replicate s.max_level none))
      refl

-- The place of a key that the list has.
pub record HitAt (key : Key) (lo hi : List Tower) : Type 0 where
  pub tower : Tower
  pub rest : List Tower
  pub split : hi ≡ tower ∷ rest
  pub same : key_eq tower.key key ≡ true

module _ (s : SkipList) (ts : List Tower) (h : Holds s ts) (key : Key) where
  pub find_place :
      Miss key (place s ts h key).hi ⊎ HitAt key (place s ts h key).lo (place s ts h key).hi
  find_place = cases (place s ts h key).hi
    where
      cases : (hi : List Tower) → Miss key hi ⊎ HitAt key (place s ts h key).lo hi
      cases [] = inl tt
      cases (t ∷ ts) = elim (Bool-cases (key_eq t.key key)) [
        | inl same ↦ inr (record { tower = t; rest = ts; split = refl; same = same })
        | inr other ↦ inl other
      ]

  pub find_mut_match :
      (p : Tower) × (update : List (Option Ptr)) × (find_greater_or_equal_mut s key
        ≡ ok (front (place s ts h key).hi, update))
      × (match_key s.cells (front (place s ts h key).hi) key ≡ ok (hit key (place s ts h key).hi))
      × Searched s.level (head_of s ∷ (place s ts h key).lo) (replicate s.max_level none) p update
  find_mut_match =
      let (p, update, e, r, q) = find_mut_lem s ts h key in
      (
        p,
        update,
        unfold find_greater_or_equal_mut in rw (e, q) refl,
        match_key_lem s.cells key (place s ts h key).hi (chains s ts h key).1,
        r,
      )

  to_place : lookup key (entries ts) ≡ lookup key (entries (place s ts h key).hi)
  to_place =
      ap (lookup key) (entries_cut s ts h key)
      ∙ lookup-Before key (place s ts h key).lo (entries (place s ts h key).hi)
          (place s ts h key).before

  pub hit-Miss : Miss key (place s ts h key).hi → hit key (place s ts h key).hi ≡ none
  hit-Miss m = go (place s ts h key).hi m
    where
      go : (hi : List Tower) → Miss key hi → hit key hi ≡ none
      go [] m = refl
      go (t ∷ ts) m = rw m refl

  pub lookup-Miss : Miss key (place s ts h key).hi → lookup key (entries ts) ≡ none
  lookup-Miss m =
      to_place ∙ go (place s ts h key).hi m (place s ts h key).not_before (hi-IsSorted s ts h key)
    where
      go :
          (hi : List Tower)
          → Miss key hi
          → NotBefore key hi
          → IsSorted (entries hi)
          → lookup key (entries hi) ≡ none
      go [] m n o = unfold lookup in refl
      go (t ∷ ts) m n o = lookup-miss key t ts n m o

  module _ (f : HitAt key (place s ts h key).lo (place s ts h key).hi) where
    pub hit-HitAt : hit key (place s ts h key).hi ≡ some (f.tower.ptr, node_of f.tower f.rest null)
    hit-HitAt = ap (hit key) f.split ∙ rw f.same refl

    pub lookup-HitAt : lookup key (entries ts) ≡ some f.tower.value
    lookup-HitAt =
        to_place ∙ ap (λ us. lookup key (entries us)) f.split ∙ unfold lookup in rw f.same refl

    pub ts_split : ts ≡ (place s ts h key).lo ++ (f.tower ∷ f.rest)
    ts_split = (place s ts h key).split ∙ ap (λ us. (place s ts h key).lo ++ us) f.split

    pub HitAt-NotBefore : NotBefore key (f.tower ∷ f.rest)
    HitAt-NotBefore = subst (NotBefore key) f.split (place s ts h key).not_before
