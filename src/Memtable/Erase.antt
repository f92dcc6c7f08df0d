-- ===== src/Memtable/Erase.antt =====
-- `Erase` on a list that holds some entries.
use vroot_kv.Base.{
  ℕ, zero, suc, ◌-◌, ◌<◌, ◌≤◌, ◌≡◌, ◌≢◌, ◌⊎◌, inl, inr, refl, sym, ap, ◌∙◌, arith, true, not, ltb,
  ltb→le, ltb→lt, Bool-cases,
}
use vroot_kv.Base.{Option, none, some, ok}
use vroot_kv.Base.{List, [], ◌∷◌, ◌++◌}
use vroot_kv.Key.{Key, key_eq}
use vroot_kv.Entries.{Entry, lookup, erase_entry, erase_entry-IsSorted, IsSorted}
use vroot_kv.Memtable.{Ptr, Cells, SkipList, write, next_at, unlink, shrink, erase}
use vroot_kv.Memtable.Chain.{
  Tower, first_at, Chain, Below, Apart, first_at-Below, Chain-cong, Chain-append, Chain-write,
  All-map, next_at-Chain, write_self, write_other,
}
use vroot_kv.Memtable.Relink.{Distinct}
use vroot_kv.Memtable.Search.{null, after, Before}
use vroot_kv.Memtable.Descend.{Recorded}
use vroot_kv.Memtable.Holds.{entries, head_of, Tall, Holds, place, All_split}
use vroot_kv.Memtable.Lookup.{entries-append, erase_entry-Before}
use vroot_kv.Memtable.Middle.{All_insert, All_remove, Distinct_remove, length-middle}
use vroot_kv.Memtable.Unlink.{unlinked, Unlinking, start, behind-Chain, unlink_lem}
use vroot_kv.Memtable.Update.{absent}
use vroot_kv.Memtable.Place.{
  find_place, find_mut_match, hit-Miss, lookup-Miss, hit-HitAt, lookup-HitAt, ts_split,
  erase_search-find_greater_or_equal_mut,
}
use mathlib.Core.Path.{subst}
use native.Mathlib.Decide.{ℕ_discrete}

-- Where the chain of a level is empty, no tower has the level.
first_at-none : (l : ℕ) (ts : List Tower) → first_at l ts null ≡ none → Below l ts
unfolding first_at
first_at-none l [] e = tt
first_at-none l (t ∷ ts) e = elim (Bool-cases (ltb l t.height)) [
  | inl tall ↦ absurd (let bad = rw tall at e in cc)
  | inr short ↦ (ltb→le l t.height short, first_at-none l ts (rw short at e))
]

-- The level is the height of the highest tower, or 1 of an empty list.
abbrev pub Tight : ℕ → List Tower → Type 0
Tight level [] = level ≡ 1
Tight level (t ∷ ts) = (t.height ≡ level) ⊎ Tight level ts

-- Some tower goes through a level whose chain is not empty.
Tight-first_at :
    (l : ℕ) (ts : List Tower) (y : Ptr)
    → Tall (suc l) ts
    → first_at l ts null ≡ some y
    → Tight (suc l) ts
unfolding first_at
Tight-first_at l [] y a e = absurd cc
Tight-first_at l (t ∷ ts) y a e = elim (Bool-cases (ltb l t.height)) [
  | inl tall ↦ inl (omega (arith, ltb→lt l t.height tall, a.0.1))
  | inr short ↦ inr (Tight-first_at l ts y a.1 (rw short at e))
]

Tight-one : (ts : List Tower) → Tall 1 ts → Tight 1 ts
Tight-one [] a = refl
Tight-one (t ∷ ts) a = inl (omega (arith, a.0.0, a.0.1))

-- The level that the loop ends with.
abbrev Lowered : Cells → Ptr → ℕ → List Tower → Type 0
Lowered cells head level ts =
    (level' : ℕ) × (shrink cells head level ≡ ok level')
    × (1 ≤ level')
    × (level' ≤ level)
    × Tall level' ts
    × Tight level' ts

-- The loop that lowers the level stops at a level that all towers fit in.
shrink_lem :
    (cells : Cells) (head : Tower) (ts : List Tower) (level : ℕ)
    → Chain cells (head ∷ ts) null
    → level ≤ head.height
    → 1 ≤ level
    → Tall level ts
    → Lowered cells head.ptr level ts
unfolding shrink
shrink_lem cells head ts zero c fits some_level t = absurd (omega arith)
shrink_lem cells head ts (suc zero) c fits some_level t =
    (1, refl, omega arith, omega arith, t, Tight-one ts t)
shrink_lem cells head ts (suc (suc l)) c fits some_level t =
    go (first_at (suc l) ts null) refl
      (shrink_lem cells head ts (suc l) c (omega arith) (omega arith))
  where
    read : next_at cells head.ptr (suc l) ≡ ok (first_at (suc l) ts null)
    read = next_at-Chain cells head ts null (suc l) c (omega arith)

    both : (us : List Tower) → Tall (suc (suc l)) us → Below (suc l) us → Tall (suc l) us
    both [] a b = tt
    both (u ∷ us) a b = ((a.0.0, b.0), both us a.1 b.1)

    go :
        (q : Option Ptr)
        → first_at (suc l) ts null ≡ q
        → (Tall (suc l) ts → Lowered cells head.ptr (suc l) ts)
        → Lowered cells head.ptr (suc (suc l)) ts
    go none e lower =
        let (level', e', low, high, t', tight) = lower (both ts t (first_at-none (suc l) ts e)) in
        (level', rw (read, e) e', low, omega arith, t', tight)
    go (some y) e lower = (
      suc (suc l),
      rw (read, e) refl,
      omega arith,
      omega arith,
      t,
      Tight-first_at (suc l) ts y t e,
    )

-- A key that has no value is not there to be erased.
erase_entry-none : (key : Key) (es : List Entry) → lookup key es ≡ none → erase_entry key es ≡ es
unfolding lookup erase_entry
erase_entry-none key [] e = refl
erase_entry-none key ((k, v) ∷ es) e = elim (Bool-cases (key_eq k key)) [
  | inl same ↦ absurd (let bad = rw same at e in cc)
  | inr other ↦ rw other (ap (λ fs. (k, v) ∷ fs) (erase_entry-none key es (rw other at e)))
]

entries-erased :
    (key : Key) (lo : List Tower) (x : Tower) (rest : List Tower)
    → Before key lo
    → key_eq x.key key ≡ true
    → entries (lo ++ rest) ≡ erase_entry key (entries (lo ++ (x ∷ rest)))
entries-erased key lo x rest b same =
    entries-append lo rest
    ∙ ap (λ es. entries lo ++ es) (sym erased)
    ∙ sym (erase_entry-Before key lo (entries (x ∷ rest)) b)
    ∙ ap (erase_entry key) (sym (entries-append lo (x ∷ rest)))
  where
    erased : erase_entry key (entries (x ∷ rest)) ≡ entries rest
    erased = unfold erase_entry in rw same refl

-- The node of a tower in the middle is taken out of the chains and deleted.
module _ (s : SkipList) (lo : List Tower) (x : Tower) (rest : List Tower)
    (h : Holds s (lo ++ (x ∷ rest))) (update : List (Option Ptr))
    (recorded : Recorded s.level (head_of s ∷ lo) update)
    (o : IsSorted (entries (lo ++ rest))) where
  abbrev us : List Tower
  us = head_of s ∷ lo

  apart : Distinct (us ++ rest) × Apart x.ptr (us ++ rest)
  apart = Distinct_remove us x rest h.distinct

  -- Above the level there is nothing.
  passed : (l : ℕ) → unlinked s.cells us x rest update h.distinct h.chain s.level l ≡ after rest l
  passed l = elim (Bool-cases (ltb l s.level)) [
    | inl below ↦ ground arith
    | inr over ↦
        let low : Below l (x ∷ rest) =
          All-map (λ t. (1 ≤ t.height) × (t.height ≤ s.level)) (λ t. t.height ≤ l) (x ∷ rest)
            (λ t b. omega (arith, b.1, ltb→le l s.level over))
            (All_split (λ t. (1 ≤ t.height) × (t.height ≤ s.level)) lo (x ∷ rest) h.heights).1 in
        rw over (first_at-Below l (x ∷ rest) null low ∙ sym (first_at-Below l rest null low.1))
  ]

  pub removed_lem :
      (cells₁ : Cells) × (level' : ℕ) × (unlink s.level 0 x.ptr update s.cells ≡ ok cells₁)
      × (shrink (write cells₁ x.ptr none) s.head s.level ≡ ok level')
      × Holds
          (record s { level = level'; size = s.size - 1; cells = write cells₁ x.ptr none })
          (lo ++ rest)
      × Tight level' (lo ++ rest)
  removed_lem =
      let (cells₁, e₁, s₁) =
        unlink_lem s.cells us x rest update h.distinct h.chain s.level 0 s.cells
          (λ j less. recorded j (omega (arith, less)))
          (start s.cells us x rest update h.distinct h.chain) in
      let s₂ =
        subst (λ n. Unlinking s.cells us x rest update h.distinct h.chain n cells₁) (omega arith)
          s₁ in
      let cells₂ = write cells₁ x.ptr none in
      let chain₂ = Chain-write cells₁ x.ptr none (us ++ rest) null apart.1 (
        Chain-append cells₁ us rest null (Chain-cong cells₁ us _ (after rest) passed s₂.chain)
          (behind-Chain s.cells us x rest update h.distinct h.chain s.level cells₁ s₂).1) in
      let (level', e₂, low, high, t, tight) =
        shrink_lem cells₂ (head_of s) (lo ++ rest) s.level chain₂ h.level_fits h.some_level
          (All_remove (λ t. (1 ≤ t.height) × (t.height ≤ s.level)) lo x rest h.heights) in
      (
        cells₁,
        level',
        e₁,
        e₂,
        record {
          chain = chain₂;
          distinct = apart.0;
          old = All_remove (λ t. t.ptr < s.fresh) us x rest h.old;
          sorted = o;
          heights = t;
          some_level = low;
          level_fits = omega (arith, high, h.level_fits);
          size_eq = omega (arith, h.size_eq, length-middle lo x rest);
          no_leak = λ q a. elim (ℕ_discrete q x.ptr) [
            | yes e ↦ ap cells₂ e ∙ write_self cells₁ x.ptr none
            | no ne ↦
                write_other cells₁ x.ptr none q ne
                ∙ s₁.frame q (All_split (λ t. t.ptr ≢ q) us rest a).0
                ∙ h.no_leak q (All_insert (λ t. t.ptr ≢ q) us x rest a (λ e. ne (sym e)))
          ];
        },
        tight,
      )

module _ (s : SkipList) (ts : List Tower) (h : Holds s ts) (key : Key) where
  pub erase_lem :
      (s' : SkipList) × (ts' : List Tower) × (erase s key
        ≡ ok (s', not (absent (lookup key (entries ts)))))
      × Holds s' ts'
      × (entries ts' ≡ erase_entry key (entries ts))
      × (((lookup key (entries ts) ≡ none) × (s' ≡ s)) ⊎ Tight s'.level ts')
  unfolding erase
  erase_lem =
      let agree = erase_search-find_greater_or_equal_mut s key in
      let (p, update, e, m, r) = find_mut_match s ts h key in
      elim (find_place s ts h key) [
        | inl miss ↦ (
          s,
          ts,
          rw (agree, e, m, hit-Miss s ts h key miss, lookup-Miss s ts h key miss) refl,
          h,
          sym (erase_entry-none key (entries ts) (lookup-Miss s ts h key miss)),
          inl (lookup-Miss s ts h key miss, refl),
        )
        | inr f ↦
            let lo = (place s ts h key).lo in
            let split = ts_split s ts h key f in
            let same = entries-erased key lo f.tower f.rest (place s ts h key).before f.same in
            let h' = subst (Holds s) split h in
            let o =
              subst IsSorted (sym same)
                (erase_entry-IsSorted key (entries (lo ++ (f.tower ∷ f.rest))) h'.sorted) in
            let (cells₁, level', e₁, e₂, held, tight) =
              removed_lem s lo f.tower f.rest h' update r.recorded o in
            (
              _,
              lo ++ f.rest,
              rw (agree, e, m, hit-HitAt s ts h key f, e₁, e₂, lookup-HitAt s ts h key f) refl,
              held,
              same ∙ ap (λ us. erase_entry key (entries us)) (sym split),
              inr tight,
            )
      ]
