-- ===== src/Memtable/Update.antt =====
-- `Insert` and `Put` on a list that holds some entries.
use vroot_kv.Base.{
  ℕ, ◌≡◌, ◌<◌, ◌≤◌, ◌≢◌, inl, inr, refl, sym, ap, ◌∙◌, Bool, true, false, Option, none, some, ok,
  if◌then◌else◌,
}
use vroot_kv.Base.{List, ◌∷◌, ◌++◌, All}
use vroot_kv.Key.{Key, key_eq}
use vroot_kv.Entries.{IsSorted, lookup, put_entry, put_entry-IsSorted}
use vroot_kv.Memtable.{Value, SkipList, write, insert, put}
use vroot_kv.Memtable.Chain.{
  Tower, first_at, node_of, Chain, Apart, Chain-append, Chain-split, Chain-write, write_self,
  write_other,
}
use vroot_kv.Memtable.Relink.{Distinct, All-mid}
use vroot_kv.Memtable.Search.{null, Before, NotBefore}
use vroot_kv.Memtable.Holds.{entries, head_of, Holds, All_split, place}
use vroot_kv.Memtable.Lookup.{entries-append, put_entry-Before}
use vroot_kv.Memtable.Middle.{
  All_insert, All_remove, Distinct_insert, Distinct_remove, length-middle,
}
use vroot_kv.Memtable.AddNode.{add_node_Holds, with_added}
use vroot_kv.Memtable.Place.{
  find_place, find_mut_match, hit-Miss, lookup-Miss, hit-HitAt, lookup-HitAt, ts_split,
  HitAt-NotBefore,
}
use mathlib.Core.Path.{subst}

-- `x->value = value` at a tower in the middle.
module _ (s : SkipList) (lo : List Tower) (t : Tower) (rest : List Tower) (value : Value)
    (h : Holds s (lo ++ (t ∷ rest))) where
  abbrev assigned : Tower
  assigned = record t { value = value }

  abbrev overwritten : SkipList
  overwritten = record s {
    cells = write s.cells t.ptr (some (record (node_of t rest null) { value = value }));
  }

  apart : Distinct (head_of s ∷ (lo ++ rest)) × Apart t.ptr (head_of s ∷ (lo ++ rest))
  apart = Distinct_remove (head_of s ∷ lo) t rest h.distinct

  parts : Apart t.ptr (head_of s ∷ lo) × Apart t.ptr rest
  parts = All_split (λ u. u.ptr ≢ t.ptr) (head_of s ∷ lo) rest apart.1

  swap_All :
      (P : Tower → Type 0) (us : List Tower)
      → All P (us ++ (t ∷ rest))
      → (P t → P assigned)
      → All P (us ++ (assigned ∷ rest))
  swap_All P us a f =
      All_insert P us assigned rest (All_remove P us t rest a) (f (All-mid P us t rest a))

  overwritten-Chain : Chain overwritten.cells ((head_of s ∷ lo) ++ (assigned ∷ rest)) null
  unfolding node_of first_at
  overwritten-Chain =
      let (front, back) = Chain-split s.cells (head_of s ∷ lo) (t ∷ rest) null h.chain in
      Chain-append overwritten.cells (head_of s ∷ lo) (assigned ∷ rest) null
        (Chain-write s.cells t.ptr _ (head_of s ∷ lo) _ parts.0 front)
        (write_self s.cells t.ptr _, Chain-write s.cells t.ptr _ rest null parts.1 back.1)

  entries-assigned :
      (key : Key)
      → Before key lo
      → NotBefore key (t ∷ rest)
      → key_eq t.key key ≡ true
      → entries (lo ++ (assigned ∷ rest)) ≡ put_entry key value (entries (lo ++ (t ∷ rest)))
  entries-assigned key b n e =
      entries-append lo (assigned ∷ rest)
      ∙ ap (λ es. entries lo ++ es) (sym placed)
      ∙ sym (put_entry-Before key value lo (entries (t ∷ rest)) b)
      ∙ ap (put_entry key value) (sym (entries-append lo (t ∷ rest)))
    where
      placed : put_entry key value (entries (t ∷ rest)) ≡ entries (assigned ∷ rest)
      placed = unfold put_entry in rw (n.0, e) refl

  overwritten-Holds :
      IsSorted (entries (lo ++ (assigned ∷ rest))) → Holds overwritten (lo ++ (assigned ∷ rest))
  overwritten-Holds o = record {
    chain = overwritten-Chain;
    distinct = Distinct_insert (head_of s ∷ lo) assigned rest apart.0 apart.1;
    old = swap_All (λ u. u.ptr < s.fresh) (head_of s ∷ lo) h.old (λ p. p);
    sorted = o;
    heights = swap_All (λ u. (1 ≤ u.height) × (u.height ≤ s.level)) lo h.heights (λ p. p);
    some_level = h.some_level;
    level_fits = h.level_fits;
    size_eq = h.size_eq ∙ length-middle lo t rest ∙ sym (length-middle lo assigned rest);
    no_leak = λ q a.
        write_other s.cells t.ptr _ q
          (λ e. All-mid (λ u. u.ptr ≢ q) (head_of s ∷ lo) assigned rest a (sym e))
        ∙ h.no_leak q (
            All_insert (λ u. u.ptr ≢ q) (head_of s ∷ lo) t rest
              (All_remove (λ u. u.ptr ≢ q) (head_of s ∷ lo) assigned rest a)
              (All-mid (λ u. u.ptr ≢ q) (head_of s ∷ lo) assigned rest a));
  }

-- Whether a key is new.
abbrev pub absent : Option Value → Bool
absent none = true
absent (some v) = false

module _ (rng : ℕ → ℕ) (s : SkipList) (ts : List Tower) (h : Holds s ts) (key : Key)
    (value : Value) where
  -- `Put` on a list that holds entries returns, answers whether the key is new, and the list then holds the
  -- entries with the value put in.
  pub put_lem :
      (s' : SkipList) × (ts' : List Tower) × (put rng s key value
        ≡ ok (s', absent (lookup key (entries ts))))
      × Holds s' ts'
      × (entries ts' ≡ put_entry key value (entries ts))
  unfolding put
  put_lem =
      let (p, update, e, m, r) = find_mut_match s ts h key in
      elim (find_place s ts h key) [
        | inl miss ↦
            let (s', added, h', same) = add_node_Holds rng s ts h key value p update r miss in
            (
              s',
              with_added rng s ts h key value,
              rw (e, m, hit-Miss s ts h key miss, added, lookup-Miss s ts h key miss) refl,
              h',
              same,
            )
        | inr f ↦
            let lo = (place s ts h key).lo in
            let split = ts_split s ts h key f in
            let h' = subst (Holds s) split h in
            let same =
              entries-assigned s lo f.tower f.rest value h' key (place s ts h key).before
                (HitAt-NotBefore s ts h key f) f.same in
            (
              overwritten s lo f.tower f.rest value h',
              lo ++ (assigned s lo f.tower f.rest value h' ∷ f.rest),
              rw (e, m, hit-HitAt s ts h key f, lookup-HitAt s ts h key f) refl,
              overwritten-Holds s lo f.tower f.rest value h' (
                  subst IsSorted (sym same)
                    (put_entry-IsSorted key value (entries (lo ++ (f.tower ∷ f.rest))) h'.sorted)),
              same ∙ ap (λ us. put_entry key value (entries us)) (sym split),
            )
      ]

  -- `Insert` on a list that holds entries returns, answers whether the key is new, and only then the list
  -- holds the entries with the value put in; otherwise it holds what it held.
  pub insert_lem :
      (s' : SkipList) × (ts' : List Tower) × (insert rng s key value
        ≡ ok (s', absent (lookup key (entries ts))))
      × Holds s' ts'
      × (entries ts' ≡ (
          if absent (lookup key (entries ts))
          then put_entry key value (entries ts)
          else entries ts))
  unfolding insert
  insert_lem =
      let (p, update, e, m, r) = find_mut_match s ts h key in
      elim (find_place s ts h key) [
        | inl miss ↦
            let (s', added, h', same) = add_node_Holds rng s ts h key value p update r miss in
            (
              s',
              with_added rng s ts h key value,
              rw (e, m, hit-Miss s ts h key miss, added, lookup-Miss s ts h key miss) refl,
              h',
              rw (lookup-Miss s ts h key miss) same,
            )
        | inr f ↦ (
          s,
          ts,
          rw (e, m, hit-HitAt s ts h key f, lookup-HitAt s ts h key f) refl,
          h,
          rw (lookup-HitAt s ts h key f) refl,
        )
      ]
