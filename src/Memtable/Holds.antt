-- ===== src/Memtable/Holds.antt =====
-- What a skip list holds, and where a search for a key cuts it.
use vroot_kv.Base.{ℕ, ◌+◌, ◌≤◌, ◌<◌, ◌≡◌, refl, ap, ◌∙◌, arith}
use vroot_kv.Base.{false, Bool-cases, inl, inr, lt→ltb, Option, none, some, ok}
use vroot_kv.Base.{List, [], ◌∷◌, ◌++◌, length, length-append, replicate, length-replicate, All}
use vroot_kv.Key.{Key, key_lt, key_lt_trans}
use vroot_kv.Entries.{Entry, Ascending, IsSorted, Ascending-IsSorted}
use vroot_kv.Memtable.{Ptr, SkipList, next_at, find_greater_or_equal, descend_mut}
use vroot_kv.Memtable.Chain.{Tower, first_at, Chain, Below, Apart, Chain-split}
use vroot_kv.Memtable.Relink.{Distinct, next_at-Found}
use vroot_kv.Memtable.Search.{null, after, Before, NotBefore}
use vroot_kv.Memtable.Descend.{Searched, descend_mut_lem, descend-descend_mut}
use mathlib.Core.Path.{subst}

abbrev pub entries : List Tower → List Entry
entries [] = []
entries (t ∷ ts) = (t.key, t.value) ∷ entries ts

-- The sentinel as a tower.
abbrev pub head_of : SkipList → Tower
head_of s = record { ptr = s.head; key = []; value = []; height = s.max_level }

abbrev pub Tall : ℕ → List Tower → Type 0
Tall level ts = All (λ t. (1 ≤ t.height) × (t.height ≤ level)) ts

-- The list holds the towers: they are linked in order on the heap, which holds nothing else.
pub record Holds (s : SkipList) (ts : List Tower) : Type 0 where
  pub chain : Chain s.cells (head_of s ∷ ts) null
  pub distinct : Distinct (head_of s ∷ ts)
  pub old : All (λ t. t.ptr < s.fresh) (head_of s ∷ ts)
  pub sorted : IsSorted (entries ts)
  pub heights : Tall s.level ts
  pub some_level : 1 ≤ s.level
  pub level_fits : s.level ≤ s.max_level
  pub size_eq : s.size ≡ length ts
  pub no_leak : (q : Ptr) → Apart q (head_of s ∷ ts) → s.cells q ≡ none

-- The towers below a key and the others.
pub record Cut (target : Key) (ts : List Tower) : Type 0 where
  pub lo : List Tower
  pub hi : List Tower
  pub split : ts ≡ lo ++ hi
  pub before : Before target lo
  pub not_before : NotBefore target hi

later :
    (target k : Key) (ts : List Tower)
    → key_lt k target ≡ false
    → Ascending k (entries ts)
    → NotBefore target ts
later target k [] p h = tt
later target k (t ∷ ts) p h = (still, later target t.key ts still h.1)
  where
    still : key_lt t.key target ≡ false
    still = elim (Bool-cases (key_lt t.key target)) [
      | inl less ↦ absurd (cc (p, key_lt_trans k t.key target h.0 less))
      | inr more ↦ more
    ]

pub cut : (target : Key) (ts : List Tower) → IsSorted (entries ts) → Cut target ts
cut target [] h = record { lo = []; hi = []; split = refl; before = tt; not_before = tt }
cut target (t ∷ ts) h =
    let c = cut target ts (Ascending-IsSorted t.key (entries ts) h) in
    elim (Bool-cases (key_lt t.key target)) [
      | inl less ↦ record {
        lo = t ∷ c.lo;
        hi = c.hi;
        split = ap (λ us. t ∷ us) c.split;
        before = (less, c.before);
        not_before = c.not_before;
      }
      | inr more ↦ record {
        lo = [];
        hi = t ∷ ts;
        split = refl;
        before = tt;
        not_before = (more, later target t.key ts more h);
      }
    ]

abbrev pub front : List Tower → Option Ptr
front [] = none
front (t ∷ ts) = some t.ptr

pub All_split {ℓ} :
    (P : Tower → Type ℓ) (xs ys : List Tower) → All P (xs ++ ys) → All P xs × All P ys
All_split P [] ys a = (tt, a)
All_split P (x ∷ xs) ys a = let r = All_split P xs ys a.1 in ((a.0, r.0), r.1)

pub first_at-front : (level : ℕ) (ts : List Tower) → Tall level ts → first_at 0 ts null ≡ front ts
unfolding first_at
first_at-front level [] t = refl
first_at-front level (x ∷ xs) t = rw (lt→ltb 0 x.height t.0.0) refl

Tall-Below : (level : ℕ) (ts : List Tower) → Tall level ts → Below level ts
Tall-Below level [] t = tt
Tall-Below level (x ∷ xs) t = (t.0.1, Tall-Below level xs t.1)

-- What the searches do in a list that holds `ts`.
module _ (s : SkipList) (ts : List Tower) (h : Holds s ts) (target : Key) where
  abbrev pub place : Cut target ts
  place = cut target ts h.sorted

  pub chains : Chain s.cells (head_of s ∷ place.lo) (after place.hi) × Chain s.cells place.hi null
  chains =
      Chain-split s.cells (head_of s ∷ place.lo) place.hi null
        (subst (λ us. Chain s.cells (head_of s ∷ us) null) place.split h.chain)

  pub tall : Tall s.level place.lo × Tall s.level place.hi
  tall =
      All_split (λ t. (1 ≤ t.height) × (t.height ≤ s.level)) place.lo place.hi
        (subst (Tall s.level) place.split h.heights)

  pub find_mut_lem :
      (p : Tower) × (update : List (Option Ptr)) × (descend_mut
          (s.size + 1)
          s.cells
          target
          s.level
          s.head
          (replicate s.max_level none)
        ≡ ok (p.ptr, update))
      × Searched s.level (head_of s ∷ place.lo) (replicate s.max_level none) p update
      × (next_at s.cells p.ptr 0 ≡ ok (front place.hi))
  find_mut_lem =
      let (p, update, e, r) =
        descend_mut_lem s.cells target place.hi chains.1 place.not_before (s.size + 1) s.level
          (head_of s) place.lo (replicate s.max_level none)
          (omega (
            arith,
            h.size_eq,
            ap (length {A = Tower}) place.split,
            length-append place.lo place.hi,
          ))
          chains.0 h.level_fits (omega (arith, h.some_level, h.level_fits))
          (Tall-Below s.level place.lo tall.0) place.before
          (omega (arith, h.level_fits, length-replicate {A = Option Ptr} s.max_level none)) in
      (
        p,
        update,
        e,
        r,
        next_at-Found s.cells (head_of s ∷ place.lo) p (after place.hi) 0 r.at_key chains.0
            ∙ ap ok (first_at-front s.level place.hi tall.1),
      )

  -- The tower at which a search ends.
  pub find_greater_or_equal_lem : find_greater_or_equal s target ≡ ok (front place.hi)
  unfolding find_greater_or_equal
  find_greater_or_equal_lem =
      let (p, update, e, r, q) = find_mut_lem in
      rw
        (
          descend-descend_mut (s.size + 1) s.cells target s.level s.head
              (replicate s.max_level none)
              (omega (arith, h.level_fits, length-replicate {A = Option Ptr} s.max_level none)),
          e,
        )
        q
