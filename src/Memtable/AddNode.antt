-- ===== src/Memtable/AddNode.antt =====
-- The part that `Insert` and `Put` share: a new node at the place of its key.
use vroot_kv.Base.{true, ℕ, ◌+◌, ◌-◌, ◌≤◌, ◌<◌, ◌≡◌, ◌≢◌, refl, sym, ap, ◌∙◌, arith}
use vroot_kv.Base.{
  false, ltb, ltb→lt, ltb→le, lt→ltb, Bool-cases, inl, inr, if◌then◌else◌, Option, none, some, ok,
}
use vroot_kv.Base.{List, [], ◌∷◌, ◌++◌, length, replicate, length-replicate, All}
use vroot_kv.Key.{Key, key_eq}
use vroot_kv.Entries.{IsSorted, put_entry, put_entry-IsSorted}
use vroot_kv.Memtable.{
  Value, Ptr, Cells, SkipList, write, random_level, fill_update, splice, add_node,
}
use vroot_kv.Memtable.Chain.{
  Tower, first_at, node_of, Chain, Apart, tabulate_cong, replicate-tabulate, Chain-cong,
  Chain-append, Chain-frame, Chain-write, All-map, write_self, write_other,
}
use vroot_kv.Memtable.Relink.{Found, Distinct, All-mid}
use vroot_kv.Memtable.Search.{null, after, NotBefore}
use vroot_kv.Memtable.Descend.{Recorded, Searched}
use vroot_kv.Memtable.Holds.{entries, head_of, Tall, Holds, All_split, place, chains, tall}
use vroot_kv.Memtable.Lookup.{entries-append, put_entry-Before, entries_cut}
use vroot_kv.Memtable.Splice.{spliced, Splicing, splice_lem}
use vroot_kv.Memtable.Middle.{
  All_insert, All_remove, Distinct_insert, Distinct_split, length-middle,
}
use vroot_kv.Memtable.Levels.{random_level_bounds, filled, filled_lem, fill_update-filled}
use mathlib.Core.Path.{subst}

-- No tower from the place on has the key.
abbrev pub Miss : Key → List Tower → Type 0
Miss key [] = Unit {0}
Miss key (t ∷ ts) = key_eq t.key key ≡ false

put_entry-Miss :
    (key : Key) (w : Value) (hi : List Tower)
    → NotBefore key hi
    → Miss key hi
    → put_entry key w (entries hi) ≡ (key, w) ∷ entries hi
unfolding put_entry
put_entry-Miss key w [] n m = refl
put_entry-Miss key w (t ∷ ts) n m = rw (n.0, m) refl

All-both :
    (P Q R : Tower → Type 0) (ts : List Tower)
    → ((t : Tower) → P t → Q t → R t)
    → All P ts
    → All Q ts
    → All R ts
All-both P Q R [] f a b = tt
All-both P Q R (t ∷ ts) f a b = (f t a.0 b.0, All-both P Q R ts f a.1 b.1)

module _ (rng : ℕ → ℕ) (s : SkipList) (ts : List Tower) (h : Holds s ts) (key : Key)
    (value : Value) where
  abbrev lo : List Tower
  lo = (place s ts h key).lo

  abbrev hi : List Tower
  hi = (place s ts h key).hi

  abbrev us : List Tower
  us = head_of s ∷ lo

  abbrev lvl : ℕ
  lvl = (random_level rng s).0

  abbrev level' : ℕ
  level' = if ltb s.level lvl then lvl else s.level

  -- The new tower.
  abbrev pub added : Tower
  added = record { ptr = s.fresh; key = key; value = value; height = lvl }

  abbrev pub with_added : List Tower
  with_added = lo ++ (added ∷ hi)

  allocated : Cells
  allocated =
      write s.cells s.fresh (some (record { key = key; value = value; next = replicate lvl none }))

  split : head_of s ∷ ts ≡ us ++ hi
  split = ap (λ vs. head_of s ∷ vs) (place s ts h key).split

  old : All (λ t. t.ptr < s.fresh) (us ++ hi)
  old = subst (All (λ t. t.ptr < s.fresh)) split h.old

  apart : Apart s.fresh (us ++ hi)
  apart =
      All-map (λ t. t.ptr < s.fresh) (λ t. t.ptr ≢ s.fresh) (us ++ hi)
        (λ t less e. absurd (omega (arith, less, e))) old

  distinct : Distinct (us ++ hi)
  distinct = subst Distinct split h.distinct

  parts : Distinct us × Distinct hi × All (λ t. Apart t.ptr us) hi
  parts = Distinct_split us hi distinct

  apart_parts : Apart s.fresh us × Apart s.fresh hi
  apart_parts = ends us hi apart
    where
      ends : (xs ys : List Tower) → Apart s.fresh (xs ++ ys) → Apart s.fresh xs × Apart s.fresh ys
      ends [] ys a = (tt, a)
      ends (x ∷ xs) ys a = let r = ends xs ys a.1 in ((a.0, r.0), r.1)

  level_bounds : (1 ≤ lvl) × (lvl ≤ s.max_level)
  level_bounds = random_level_bounds rng s (omega (arith, h.some_level, h.level_fits))

  level'_bounds : (s.level ≤ level') × (lvl ≤ level') × (level' ≤ s.max_level)
  level'_bounds = elim (Bool-cases (ltb s.level lvl)) [
    | inl more ↦ rw more (omega (arith, ltb→lt s.level lvl more), omega arith, level_bounds.1)
    | inr less ↦ rw less (omega arith, ltb→le s.level lvl less, h.level_fits)
  ]

  Found-head : (j : ℕ) → s.level ≤ j → j < s.max_level → Found j us (head_of s)
  Found-head j low high = record {
    pre = [];
    post = lo;
    split = refl;
    tall = high;
    low =
        All-map (λ t. (1 ≤ t.height) × (t.height ≤ s.level)) (λ t. t.height ≤ j) lo
          (λ t b. omega (arith, b.1, low)) (tall s ts h key).0;
  }

  entries_added : Miss key hi → entries with_added ≡ put_entry key value (entries ts)
  entries_added miss =
      entries-append lo (added ∷ hi)
      ∙ ap (λ es. entries lo ++ es)
          (sym (put_entry-Miss key value hi (place s ts h key).not_before miss))
      ∙ sym (put_entry-Before key value lo (entries hi) (place s ts h key).before)
      ∙ ap (put_entry key value) (sym (entries_cut s ts h key))

  -- `update` when the new node is spliced in.
  module _ (p : Tower) (update : List (Option Ptr))
      (r : Searched s.level us (replicate s.max_level none) p update) where
    update' : List (Option Ptr)
    update' = if ltb s.level lvl then filled (lvl - s.level) s.level s.head update else update

    Recorded-update' : Recorded lvl us update'
    unfolding update'
    Recorded-update' = elim (Bool-cases (ltb s.level lvl)) [
      | inl more ↦ rw more (λ j less.
          filled_lem (lvl - s.level) s.level (head_of s) us update
            (omega (
              arith,
              ltb→lt s.level lvl more,
              level_bounds.1,
              r.same_length,
              length-replicate {A = Option Ptr} s.max_level none,
            ))
            (λ k low high.
              Found-head k low (omega (arith, ltb→lt s.level lvl more, level_bounds.1, low, high)))
            r.recorded j (omega (arith, ltb→lt s.level lvl more, less)))
      | inr over ↦ rw over (λ j less. r.recorded j (omega (arith, ltb→le s.level lvl over, less)))
    ]

    start : Splicing allocated us added hi update' parts.0 apart_parts.0 0 allocated
    unfolding allocated
    start = record {
      chain =
          Chain-cong allocated us (after hi)
            (spliced allocated us added hi update' parts.0 apart_parts.0 0) (λ l. ground arith)
            (Chain-write s.cells s.fresh _ us (after hi) apart_parts.0 (chains s ts h key).0);
      own =
          write_self s.cells s.fresh _
          ∙ ap (λ links. some (record { key = key; value = value; next = links }))
              (replicate-tabulate lvl ∙ tabulate_cong lvl (λ l. none) _ (λ l less. ground arith));
      frame = λ q ne a. refl;
    }

    -- The heap afterwards.
    ended :
        (cells' : Cells) × (splice lvl 0 s.fresh update' allocated ≡ ok cells')
        × Splicing allocated us added hi update' parts.0 apart_parts.0 lvl cells'
    ended =
        splice_lem allocated us added hi update' parts.0 apart_parts.0 lvl 0 allocated (omega arith)
          Recorded-update' start

    ended-Chain : Chain ended.0 (us ++ (added ∷ hi)) null
    unfolding node_of first_at allocated write
    ended-Chain =
        Chain-append ended.0 us (added ∷ hi) null
          (Chain-cong ended.0 us _ _ (λ l. refl) ended.2.chain)
          (
            ended.2.own
                ∙ ap (λ links. some (record { key = key; value = value; next = links }))
                    (tabulate_cong lvl _ _ (λ l less. rw (lt→ltb l lvl less) refl)),
            Chain-frame allocated ended.0 hi null
                (All-both (λ t. t.ptr ≢ s.fresh) (λ t. Apart t.ptr us)
                  (λ t. ended.0 t.ptr ≡ allocated t.ptr) hi (λ t ne a. ended.2.frame t.ptr ne a)
                  apart_parts.1 parts.2)
                (Chain-write s.cells s.fresh _ hi null apart_parts.1 (chains s ts h key).1),
          )

    result : SkipList
    result = record s {
      level = level';
      size = s.size + 1;
      draws = (random_level rng s).1;
      cells = ended.0;
      fresh = s.fresh + 1;
    }

    room : ltb s.level lvl ≡ true → s.level + (lvl - s.level) ≤ length update
    room more = omega (
      arith,
      ltb→lt s.level lvl more,
      level_bounds.1,
      r.same_length,
      length-replicate {A = Option Ptr} s.max_level none,
    )

    fills :
        (if ltb s.level lvl then fill_update (lvl - s.level) s.level s.head update else ok update)
        ≡ ok update'
    unfolding update'
    fills = elim (Bool-cases (ltb s.level lvl)) [
      | inl more ↦
          rw (more, fill_update-filled (lvl - s.level) s.level s.head update (room more)) refl
      | inr over ↦ rw over refl
    ]

    add_node_lem : add_node rng s key value update ≡ ok result
    unfolding add_node allocated result
    add_node_lem = rw (fills, ended.1) refl

    result-Holds : Miss key hi → Holds result with_added
    unfolding result
    result-Holds miss = record {
      chain = ended-Chain;
      distinct = Distinct_insert us added hi distinct apart;
      old =
          All_insert (λ t. t.ptr < s.fresh + 1) us added hi
            (All-map (λ t. t.ptr < s.fresh) (λ t. t.ptr < s.fresh + 1) (us ++ hi)
              (λ t less. omega (arith, less)) old)
            (omega arith);
      sorted =
          subst IsSorted (sym (entries_added miss))
            (put_entry-IsSorted key value (entries ts) h.sorted);
      heights =
          All_insert (λ t. (1 ≤ t.height) × (t.height ≤ level')) lo added hi
            (All-map (λ t. (1 ≤ t.height) × (t.height ≤ s.level)) _ (lo ++ hi)
              (λ t b. (b.0, omega (arith, b.1, level'_bounds.0)))
              (subst (Tall s.level) (place s ts h key).split h.heights))
            (level_bounds.0, level'_bounds.1);
      some_level = omega (arith, h.some_level, level'_bounds.0);
      level_fits = level'_bounds.2;
      size_eq = omega (
        arith,
        h.size_eq,
        ap (length {A = Tower}) (place s ts h key).split,
        length-middle lo added hi,
      );
      no_leak = λ q a.
          let ne : q ≢ s.fresh = λ e. All-mid (λ t. t.ptr ≢ q) us added hi a (sym e) in
          let others = All_remove (λ t. t.ptr ≢ q) us added hi a in
          ended.2.frame q ne (All_split (λ t. t.ptr ≢ q) us hi others).0
          ∙ unfold allocated in
            write_other s.cells s.fresh _ q ne ∙ h.no_leak q (subst (Apart q) (sym split) others);
    }

    -- It succeeds, and the list holds the new entry besides those that it held.
    pub add_node_Holds :
        Miss key hi
        → (s' : SkipList) × (add_node rng s key value update ≡ ok s')
          × Holds s' with_added
          × (entries with_added ≡ put_entry key value (entries ts))
    add_node_Holds miss = (result, add_node_lem, result-Holds miss, entries_added miss)
