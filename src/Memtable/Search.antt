-- ===== src/Memtable/Search.antt =====
-- The two searches: where they end, and what `update` holds then.
use vroot_kv.Base.{ℕ, zero, suc, ◌<◌, ◌≡◌, ◌≢◌, ◌⊎◌, inl, inr, refl, sym, ap, ◌∙◌, arith}
use vroot_kv.Base.{true, false, ltb, ltb→lt, ltb→le, lt→ltb, Bool-cases, none, some, ok}
use vroot_kv.Base.{List, [], ◌∷◌, ◌++◌, append_assoc, get_elem?, set, length, length-append, All}
use vroot_kv.Key.{Key, key_lt}
use vroot_kv.Memtable.{Ptr, Node, Cells, load, walk}
use vroot_kv.Memtable.Chain.{
  Tower, Links, first_at, node_of, Chain, Below, load_lem, next_at-Chain, first_at-Below,
  first_at-append,
}
use vroot_kv.Memtable.Relink.{Found, Chain-end}
use mathlib.Core.Path.{subst}

abbrev pub null : Links
null l = none

-- Where the chains lead from in front of the towers `behind`.
abbrev pub after : List Tower → Links
after behind l = first_at l behind null

-- Towers below the key that is looked for, and towers that are not.
abbrev pub Before : Key → List Tower → Type 0
Before target ts = All (λ t. key_lt t.key target ≡ true) ts

abbrev pub NotBefore : Key → List Tower → Type 0
NotBefore target ts = All (λ t. key_lt t.key target ≡ false) ts

pub get_elem?-set_self :
    {A : Type 0} (xs : List A) (i : ℕ) (v : A) → i < length xs → get_elem? (set xs i v) i ≡ some v
get_elem?-set_self [] i v h = absurd (omega arith)
get_elem?-set_self (x ∷ xs) zero v h = refl
get_elem?-set_self (x ∷ xs) (suc i) v h = get_elem?-set_self xs i v (omega arith)

pub get_elem?-set_ne :
    {A : Type 0} (xs : List A) (i j : ℕ) (v : A) → j ≢ i → get_elem? (set xs i v) j ≡ get_elem? xs j
get_elem?-set_ne [] i j v h = refl
get_elem?-set_ne (x ∷ xs) zero zero v h = absurd (h refl)
get_elem?-set_ne (x ∷ xs) zero (suc j) v h = refl
get_elem?-set_ne (x ∷ xs) (suc i) zero v h = refl
get_elem?-set_ne (x ∷ xs) (suc i) (suc j) v h = get_elem?-set_ne xs i j v (λ e. h (ap suc e))

pub extend :
    (i : ℕ) (ts pre us : List Tower) (p : Tower) → ts ≡ pre ++ us → Found i us p → Found i ts p
extend i ts pre us p e f = record {
  pre = pre ++ f.pre;
  post = f.post;
  split = e ∙ ap (λ vs. pre ++ vs) f.split ∙ sym (append_assoc pre f.pre (p ∷ f.post));
  tall = f.tall;
  low = f.low;
}

pub All_end : {A : Type 0} (P : A → Type 0) (xs ys : List A) → All P (xs ++ ys) → All P ys
All_end P [] ys a = a
All_end P (x ∷ xs) ys a = All_end P xs ys a.1

-- The next tower that has a level, if there is one.
record NextTall (i : ℕ) (ts : List Tower) : Type 0 where
  mid : List Tower
  tower : Tower
  rest : List Tower
  split : ts ≡ mid ++ (tower ∷ rest)
  passed : Below i mid
  tall : i < tower.height

next_tall : (i : ℕ) (ts : List Tower) → Below i ts ⊎ NextTall i ts
next_tall i [] = inl tt
next_tall i (t ∷ ts) = elim (Bool-cases (ltb i t.height)) [
  | inl tall ↦ inr (record {
    mid = [];
    tower = t;
    rest = ts;
    split = refl;
    passed = tt;
    tall = ltb→lt i t.height tall;
  })
  | inr short ↦ elim (next_tall i ts) [
    | inl all ↦ inl (ltb→le i t.height short, all)
    | inr n ↦ inr (record {
      mid = t ∷ n.mid;
      tower = n.tower;
      rest = n.rest;
      split = ap (λ us. t ∷ us) n.split;
      passed = (ltb→le i t.height short, n.passed);
      tall = n.tall;
    })
  ]
]

first_at-NextTall :
    (i : ℕ) (mid : List Tower) (u : Tower) (rest : List Tower) (b : Links)
    → Below i mid
    → i < u.height
    → first_at i (mid ++ (u ∷ rest)) b ≡ some u.ptr
first_at-NextTall i mid u rest b low tall =
    first_at-append i mid (u ∷ rest) b
    ∙ first_at-Below i mid (λ j. first_at j (u ∷ rest) b) low
    ∙ unfold first_at in rw (lt→ltb i u.height tall) refl

-- What the chain of a level leads to.
leads_to :
    (cells : Cells) (target : Key) (i : ℕ) (ts : List Tower)
    → Chain cells ts null
    → NotBefore target ts
    → (first_at i ts null ≡ none)
      ⊎ ((t : Tower) × (n : Node) × (first_at i ts null ≡ some t.ptr)
          × (load cells t.ptr ≡ ok n)
          × (key_lt n.key target ≡ false))
unfolding first_at
leads_to cells target i [] c a = inl refl
leads_to cells target i (t ∷ ts) c a = elim (Bool-cases (ltb i t.height)) [
  | inl tall ↦
      inr (t, node_of t ts null, rw tall refl, load_lem cells t.ptr _ c.0, unfold node_of in a.0)
  | inr short ↦ rw short (leads_to cells target i ts c.1 a.1)
]

module _ (cells : Cells) (target : Key) (behind : List Tower) (chain : Chain cells behind null)
    (not_before : NotBefore target behind) where
  stop :
      (fuel i : ℕ) (x : Tower) (ts : List Tower)
      → Chain cells (x ∷ ts) (after behind)
      → i < x.height
      → Below i ts
      → walk (suc fuel) cells target i x.ptr ≡ ok x.ptr
  unfolding walk
  stop fuel i x ts c tall low = elim (leads_to cells target i behind chain not_before) [
    | inl end ↦
        rw
          (
            next_at-Chain cells x ts (after behind) i c tall,
            first_at-Below i ts (after behind) low,
            end,
          )
          refl
    | inr (t, n, e, l, less) ↦
        rw
          (
            next_at-Chain cells x ts (after behind) i c tall,
            first_at-Below i ts (after behind) low,
            e,
            l,
            less,
          )
          refl
  ]

  -- A walk ends at the last of the towers before the key that have its level.
  pub walk_lem :
      (fuel i : ℕ) (x : Tower) (ts : List Tower)
      → length ts < fuel
      → Chain cells (x ∷ ts) (after behind)
      → i < x.height
      → Before target ts
      → (p : Tower) × (walk fuel cells target i x.ptr ≡ ok p.ptr) × Found i (x ∷ ts) p
  walk_lem zero i x ts h c tall less = absurd (omega arith)
  walk_lem (suc fuel) i x ts h c tall less = elim (next_tall i ts) [
    | inl low ↦ (
      x,
      stop fuel i x ts c tall low,
      record { pre = []; post = ts; split = refl; tall = tall; low = low },
    )
    | inr n ↦
        let c' =
          Chain-end cells n.mid (n.tower ∷ n.rest) (after behind)
            (subst (λ us. Chain cells us (after behind)) n.split c.1) in
        let less' =
          All_end (λ t. key_lt t.key target ≡ true) n.mid (n.tower ∷ n.rest)
            (subst (Before target) n.split less) in
        let (p, e, f) =
          walk_lem fuel i n.tower n.rest
            (omega (arith, ap (length {A = Tower}) n.split, length-append n.mid (n.tower ∷ n.rest)))
            c' n.tall less'.1 in
        (
          p,
          step n c' less'.0 e,
          extend i (x ∷ ts) (x ∷ n.mid) (n.tower ∷ n.rest) p (ap (λ us. x ∷ us) n.split) f,
        )
  ]
    where
      step :
          (n : NextTall i ts) {p : Ptr}
          → Chain cells (n.tower ∷ n.rest) (after behind)
          → key_lt n.tower.key target ≡ true
          → walk fuel cells target i n.tower.ptr ≡ ok p
          → walk (suc fuel) cells target i x.ptr ≡ ok p
      step n c' first e =
          unfold walk node_of in
          rw
            (
              next_at-Chain cells x ts (after behind) i c tall,
              ap (λ us. first_at i us (after behind)) n.split
                  ∙ first_at-NextTall i n.mid n.tower n.rest (after behind) n.passed n.tall,
              load_lem cells n.tower.ptr _ c'.0,
              first,
            )
            e
