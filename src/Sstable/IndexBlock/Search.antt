-- ===== src/Sstable/IndexBlock/Search.antt =====
-- `Find`: the binary search over the divider keys.
use vroot_kv.Base.{
  ℕ, zero, suc, ◌+◌, ◌-◌, ◌^◌, ◌/◌, ◌≤◌, ◌<◌, ◌≡◌, ◌⊎◌, inl, inr, refl, sym, ap, arith, true, false,
  lt→ltb, le→ltb, ◌==◌, Bool-cases, if◌then◌else◌, Option, none, some, ok,
}
use vroot_kv.Base.{List, [], ◌∷◌, length, get_elem?, All}
use vroot_kv.Key.{Key, key_lt, key_lt_trans}
use vroot_kv.Sstable.Format.{BlockHandle}
use vroot_kv.Sstable.IndexBlock.{search_divider, find}
use vroot_kv.Sstable.IndexBlock.Layout.{
  IndexEntry, IsIndexEntry, index_offsets, length-index_offsets, index_reader, key_at_lem,
  handle_of_lem,
}
use mathlib.Core.Path.{subst}
use native.Mathlib.Decide.{dec_lt}

-- The last entry whose divider key is not above the key.
unfoldable pub route : Key → List IndexEntry → Option BlockHandle
route key [] = none
route key ((k, h) ∷ es) = elim (route key es) [
  | some later ↦ some later
  | none ↦ if key_lt key k then none else some h
]

-- Every divider key is greater than the one before it.
abbrev pub Dividing : Key → List IndexEntry → Type 0
Dividing k [] = Unit {0}
Dividing k ((k', h) ∷ es) = (key_lt k k' ≡ true) × Dividing k' es

abbrev pub IsDivided : List IndexEntry → Type 0
IsDivided [] = Unit {0}
IsDivided ((k, h) ∷ es) = Dividing k es

present :
    (es : List IndexEntry) (i : ℕ) → i < length es → (e : IndexEntry) × (get_elem? es i ≡ some e)
present [] i less = absurd (omega arith)
present (e ∷ es) zero less = (e, refl)
present (e ∷ es) (suc i) less = present es i (omega arith)

All-get_elem? :
    (es : List IndexEntry) (i : ℕ) (e : IndexEntry)
    → All IsIndexEntry es
    → get_elem? es i ≡ some e
    → IsIndexEntry e
All-get_elem? [] i e a p = absurd cc
All-get_elem? (x ∷ es) zero e a p = subst IsIndexEntry (cc) a.0
All-get_elem? (x ∷ es) (suc i) e a p = All-get_elem? es i e a.1 p

Dividing-get_elem? :
    (k : Key) (es : List IndexEntry) (j : ℕ) (k' : Key) (h' : BlockHandle)
    → Dividing k es
    → get_elem? es j ≡ some (k', h')
    → key_lt k k' ≡ true
Dividing-get_elem? k [] j k' h' d p = absurd cc
Dividing-get_elem? k ((k₁, h₁) ∷ es) zero k' h' d p =
    let same : k₁ ≡ k' = cc in subst (λ x. key_lt k x ≡ true) same d.0
Dividing-get_elem? k ((k₁, h₁) ∷ es) (suc j) k' h' d p =
    key_lt_trans k k₁ k' d.0 (Dividing-get_elem? k₁ es j k' h' d.1 p)

IsDivided-get_elem? :
    (es : List IndexEntry) (i j : ℕ) (k k' : Key) (h h' : BlockHandle)
    → IsDivided es
    → i < j
    → get_elem? es i ≡ some (k, h)
    → get_elem? es j ≡ some (k', h')
    → key_lt k k' ≡ true
IsDivided-get_elem? [] i j k k' h h' d less p q = absurd cc
IsDivided-get_elem? ((k₁, h₁) ∷ es) i zero k k' h h' d less p q = absurd (omega arith)
IsDivided-get_elem? ((k₁, h₁) ∷ es) zero (suc j) k k' h h' d less p q =
    let same : k₁ ≡ k = cc in
    subst (λ x. key_lt x k' ≡ true) same (Dividing-get_elem? k₁ es j k' h' d q)
IsDivided-get_elem? ((k₁, h₁) ∷ es) (suc i) (suc j) k k' h h' d less p q =
    IsDivided-get_elem? es i j k k' h h' (tail k₁ es d) (omega arith) p q
  where
    tail : (x : Key) (us : List IndexEntry) → Dividing x us → IsDivided us
    tail x [] a = tt
    tail x ((y, z) ∷ us) a = a.1

get_elem?-inside :
    (es : List IndexEntry) (i : ℕ) (e : IndexEntry) → get_elem? es i ≡ some e → i < length es
get_elem?-inside [] i e p = absurd cc
get_elem?-inside (x ∷ es) zero e p = omega arith
get_elem?-inside (x ∷ es) (suc i) e p = omega (arith, get_elem?-inside es i e p)

-- All entries behind `m` are above the key.
abbrev Above : Key → List IndexEntry → ℕ → Type 0
Above key es m =
    (j : ℕ) (k : Key) (h : BlockHandle) → m < j → get_elem? es j ≡ some (k, h) → key_lt key k ≡ true

route-none :
    (key : Key) (es : List IndexEntry)
    → ((j : ℕ) (k : Key) (h : BlockHandle) → get_elem? es j ≡ some (k, h) → key_lt key k ≡ true)
    → route key es ≡ none
unfolding route
route-none key [] a = refl
route-none key ((k, h) ∷ es) a =
    rw (route-none key es (λ j k₁ h₁ p. a (suc j) k₁ h₁ p), a 0 k h refl) refl

route-some :
    (key : Key) (es : List IndexEntry) (m : ℕ) (k : Key) (h : BlockHandle)
    → get_elem? es m ≡ some (k, h)
    → key_lt key k ≡ false
    → Above key es m
    → route key es ≡ some h
unfolding route
route-some key [] m k h p n a = absurd cc
route-some key ((k₁, h₁) ∷ es) zero k h p n a =
    let same : k₁ ≡ k = cc in
    let same' : h₁ ≡ h = cc in
    rw (route-none key es (λ j x y q. a (suc j) x y (omega arith) q), same, n) (ap some same')
route-some key ((k₁, h₁) ∷ es) (suc m) k h p n a =
    rw (route-some key es m k h p n (λ j x y less q. a (suc j) x y (omega (arith, less)) q)) refl

module _ (es : List IndexEntry) (fit : All IsIndexEntry es) (divided : IsDivided es)
    (few : length es < 2 ^ 30) (key : Key) where
  -- The first entry, or one that is not above the key.
  abbrev AtMost : ℕ → Type 0
  AtMost m =
      (m ≡ 0) ⊎ ((k : Key) (h : BlockHandle) → get_elem? es m ≡ some (k, h) → key_lt key k ≡ false)

  Above-before :
      (mid : ℕ) (k : Key) (h : BlockHandle)
      → 1 ≤ mid
      → get_elem? es mid ≡ some (k, h)
      → key_lt key k ≡ true
      → Above key es (mid - 1)
  Above-before mid k h some_before p below j k' h' less q = elim (dec_lt mid j) [
    | yes later ↦
        key_lt_trans key k k' below (IsDivided-get_elem? es mid j k k' h h' divided later p q)
    | no here ↦
        let there : get_elem? es mid ≡ some (k', h') =
          subst (λ n. get_elem? es n ≡ some (k', h')) (omega (arith, less, here)) q in
        let same : k ≡ k' = cc in subst (λ x. key_lt key x ≡ true) same below
  ]

  AtMost-here :
      (mid : ℕ) (k : Key) (h : BlockHandle)
      → get_elem? es mid ≡ some (k, h)
      → key_lt key k ≡ false
      → AtMost mid
  AtMost-here mid k h p reached =
      inr (λ k' h' q. let same : k ≡ k' = cc in subst (λ x. key_lt key x ≡ false) same reached)

  abbrev Routed : ℕ → ℕ → ℕ → Type 0
  Routed rounds lo hi =
      (m : ℕ) × (search_divider (index_reader es) key rounds lo hi ≡ ok (some m))
      × (m < length es)
      × Above key es m
      × AtMost m

  search_divider_lem :
      (rounds lo hi : ℕ)
      → hi ≤ lo + rounds
      → lo ≤ hi
      → hi < length es
      → Above key es hi
      → AtMost lo
      → Routed rounds lo hi
  unfolding search_divider
  search_divider_lem zero lo hi enough le less above most = (
    lo,
    rw (le→ltb lo hi enough') refl,
    omega arith,
    λ j k h p q. above j k h (omega arith) q,
    most,
  )
    where
      enough' : hi ≤ lo
      enough' = omega (arith, enough)
  search_divider_lem (suc rounds) lo hi enough le less above most = elim (dec_lt lo hi) [
    | no stop ↦ (
      lo,
      rw (le→ltb lo hi (omega arith)) refl,
      omega arith,
      λ j k h p q. above j k h (omega arith) q,
      most,
    )
    | yes more ↦
        let mid = (lo + hi + 1) / 2 in
        let ((k, h), p) = present es mid (omega (arith, more)) in
        let no_overflow = lt→ltb (lo + hi + 1) (2 ^ 31) (omega (arith, more, less, few)) in
        let (_, (behind, e)) = key_at_lem es mid k h p (All-get_elem? es mid (k, h) fit p) in
        elim (Bool-cases (key_lt key k)) [
          | inl below ↦
              let (m, e', r₁, r₂, r₃) =
                search_divider_lem rounds lo (mid - 1) (omega (arith, more)) (omega (arith, more))
                  (omega (arith, more)) (Above-before mid k h (omega (arith, more)) p below) most in
              (m, rw (lt→ltb lo hi more, no_overflow, e, below) e', r₁, r₂, r₃)
          | inr reached ↦
              let (m, e', r₁, r₂, r₃) =
                search_divider_lem rounds mid hi (omega (arith, more)) (omega (arith, more)) less
                  above (AtMost-here mid k h p reached) in
              (m, rw (lt→ltb lo hi more, no_overflow, e, reached) e', r₁, r₂, r₃)
        ]
  ]

  outcome :
      (m : ℕ) (k : Key) (h : BlockHandle)
      → get_elem? es m ≡ some (k, h)
      → Above key es m
      → AtMost m
      → (if key_lt key k then none else some h) ≡ route key es
  outcome m k h p above most = elim (Bool-cases (key_lt key k)) [
    | inr reached ↦ rw reached (sym (route-some key es m k h p reached above))
    | inl below ↦ rw below (
        sym (elim most [
          | inl first ↦ route-none key es (λ j k' h' q. elim (dec_lt m j) [
            | yes later ↦ above j k' h' later q
            | no here ↦
                let there : get_elem? es m ≡ some (k', h') =
                  subst (λ n. get_elem? es n ≡ some (k', h')) (omega (arith, first, here)) q in
                let same : k ≡ k' = cc in subst (λ x. key_lt key x ≡ true) same below
          ])
          | inr reached ↦ absurd (let bad = reached k h p in cc)
        ]))
  ]

  not_zero : (n : ℕ) → 0 < n → (n == 0) ≡ false
  not_zero n less = ground arith

  -- `Find` gives the handle of the last entry whose divider key is not above the key.
  pub find_lem : find (index_reader es) key ≡ ok (route key es)
  unfolding find
  find_lem = elim (dec_lt 0 (length es)) [
    | no none_there ↦
        let none_listed : length (index_offsets 0 es) ≡ 0 =
          omega (arith, length-index_offsets 0 es, none_there) in
        rw
          (
            none_listed,
            route-none key es
                (λ j k h q. absurd (none_there (omega (arith, get_elem?-inside es j (k, h) q)))),
          )
          refl
    | yes some_there ↦
        let (m, e, inside, above, most) =
          search_divider_lem (length es) 0 (length es - 1) (omega arith) (omega arith)
            (omega (arith, some_there))
            (λ j k h less q. absurd (omega (arith, less, get_elem?-inside es j (k, h) q)))
            (inl refl) in
        let ((k, h), p) = present es m inside in
        let (handle_fits, (behind, e')) = key_at_lem es m k h p (All-get_elem? es m (k, h) fit p) in
        rw
          (
            length-index_offsets 0 es,
            not_zero (length es) some_there,
            e,
            e',
            handle_of_lem h behind handle_fits,
            outcome m k h p above most,
          )
          refl
  ]
