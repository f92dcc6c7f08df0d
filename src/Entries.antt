-- ===== src/Entries.antt =====
-- Sorted entries, which the data blocks and the memtable stand for, and the map operations on them.
use vroot_kv.Base.{
  ℕ, ◌≡◌, ◌⊎◌, refl, sym, ap, ◌∙◌, arith, true, false, Bool-cases, inl, inr, if◌then◌else◌, Option,
  none, some,
}
use vroot_kv.Base.{List, [], ◌∷◌}
use vroot_kv.Key.{
  Key, key_lt, key_eq, key_eq_refl, eq_of_key_eq, key_lt_trans, key_eq_of_lt, key_eq_comm,
  key_lt_total,
}

abbrev pub Entry : Type 0
Entry = Key × List ℕ

-- Every key is greater than the one before it.
abbrev pub Ascending : Key → List Entry → Type 0
Ascending k [] = Unit {0}
Ascending k ((k', v) ∷ es) = (key_lt k k' ≡ true) × Ascending k' es

abbrev pub IsSorted : List Entry → Type 0
IsSorted [] = Unit {0}
IsSorted ((k, v) ∷ es) = Ascending k es

-- The value that the entries give to a key.
unfoldable pub lookup : Key → List Entry → Option (List ℕ)
lookup key [] = none
lookup key ((k, v) ∷ es) = if key_eq k key then some v else lookup key es

-- The entries with a key added or its value replaced, and without a key.
unfoldable pub put_entry : Key → List ℕ → List Entry → List Entry
put_entry key w [] = (key, w) ∷ []
put_entry key w ((k, v) ∷ es) =
    if key_lt k key
    then (k, v) ∷ put_entry key w es
    else if key_eq k key
    then (k, w) ∷ es
    else (key, w) ∷ (k, v) ∷ es

unfoldable pub erase_entry : Key → List Entry → List Entry
erase_entry key [] = []
erase_entry key ((k, v) ∷ es) = if key_eq k key then es else (k, v) ∷ erase_entry key es

pub Ascending-IsSorted : (k : Key) (es : List Entry) → Ascending k es → IsSorted es
Ascending-IsSorted k [] h = tt
Ascending-IsSorted k ((k', v) ∷ es) h = h.1

-- A key below the first one is below all, and has no value.
pub Ascending-below :
    (j k : Key) (es : List Entry) → key_lt j k ≡ true → Ascending k es → Ascending j es
Ascending-below j k [] p h = tt
Ascending-below j k ((k', v) ∷ es) p h = (key_lt_trans j k k' p h.0, h.1)

pub lookup-Ascending : (k : Key) (es : List Entry) → Ascending k es → lookup k es ≡ none
unfolding lookup
lookup-Ascending k [] h = refl
lookup-Ascending k ((k', v) ∷ es) h =
    rw (key_eq_comm k' k, key_eq_of_lt k k' h.0)
      (lookup-Ascending k es (Ascending-below k k' es h.0 h.1))

key_eq_trans_false : (k key j : Key) → key_eq k key ≡ true → key_eq k j ≡ key_eq key j
key_eq_trans_false k key j e = ap (λ x. key_eq x j) (eq_of_key_eq k key e)

-- What `put_entry` does to every key, and that it keeps the order.
pub lookup-put_entry :
    (key : Key) (w : List ℕ) (es : List Entry) (j : Key)
    → lookup j (put_entry key w es) ≡ (if key_eq key j then some w else lookup j es)
unfolding lookup put_entry
lookup-put_entry key w [] j = refl
lookup-put_entry key w ((k, v) ∷ es) j = elim (Bool-cases (key_lt k key)) [
  | inl less ↦ rw (less, lookup-put_entry key w es j) (swap (Bool-cases (key_eq k j)) less)
  | inr more ↦ elim (Bool-cases (key_eq k key)) [
    | inl same ↦ rw (more, same, key_eq_trans_false k key j same) (ground arith)
    | inr other ↦ rw (more, other) refl
  ]
]
  where
    swap :
        (key_eq k j ≡ true) ⊎ (key_eq k j ≡ false)
        → key_lt k key ≡ true
        → (if key_eq k j then some v else if key_eq key j then some w else lookup j es)
          ≡ (if key_eq key j then some w else if key_eq k j then some v else lookup j es)
    swap (inl here) less =
        let apart : key_eq key j ≡ false =
          ap (λ x. key_eq key x) (sym (eq_of_key_eq k j here))
          ∙ key_eq_comm key k
          ∙ key_eq_of_lt k key less in
        rw (here, apart) refl
    swap (inr there) less = rw there refl

-- A key that is neither below another nor equal to it is above it.
pub above : (k key : Key) → key_lt k key ≡ false → key_eq k key ≡ false → key_lt key k ≡ true
above k key more other = elim (Bool-cases (key_lt key k)) [
  | inl yes_less ↦ yes_less
  | inr no_less ↦ absurd (cc (rw (key_lt_total k key more no_less, key_eq_refl key) at other))
]

put_entry-Ascending :
    (low key : Key) (w : List ℕ) (es : List Entry)
    → key_lt low key ≡ true
    → Ascending low es
    → Ascending low (put_entry key w es)
unfolding put_entry
put_entry-Ascending low key w [] p h = (p, tt)
put_entry-Ascending low key w ((k, v) ∷ es) p h = elim (Bool-cases (key_lt k key)) [
  | inl less ↦ rw less (h.0, put_entry-Ascending k key w es less h.1)
  | inr more ↦ elim (Bool-cases (key_eq k key)) [
    | inl same ↦ rw (more, same) (h.0, h.1)
    | inr other ↦ rw (more, other) (p, (above k key more other, h.1))
  ]
]

pub put_entry-IsSorted :
    (key : Key) (w : List ℕ) (es : List Entry) → IsSorted es → IsSorted (put_entry key w es)
unfolding put_entry
put_entry-IsSorted key w [] h = tt
put_entry-IsSorted key w ((k, v) ∷ es) h = elim (Bool-cases (key_lt k key)) [
  | inl less ↦ rw less (put_entry-Ascending k key w es less h)
  | inr more ↦ elim (Bool-cases (key_eq k key)) [
    | inl same ↦ rw (more, same) h
    | inr other ↦ rw (more, other) (above k key more other, h)
  ]
]

-- What `erase_entry` does to every key, and that it keeps the order.
pub lookup-erase_entry :
    (key : Key) (es : List Entry) (j : Key)
    → IsSorted es
    → lookup j (erase_entry key es) ≡ (if key_eq key j then none else lookup j es)
unfolding lookup erase_entry
lookup-erase_entry key [] j h = ground arith
lookup-erase_entry key ((k, v) ∷ es) j h = elim (Bool-cases (key_eq k key)) [
  | inl same ↦ rw (same, key_eq_trans_false k key j same) (gone (Bool-cases (key_eq key j)) same)
  | inr other ↦
      rw (other, lookup-erase_entry key es j (Ascending-IsSorted k es h))
        (kept (Bool-cases (key_eq k j)) other)
]
  where
    gone :
        (key_eq key j ≡ true) ⊎ (key_eq key j ≡ false)
        → key_eq k key ≡ true
        → lookup j es
          ≡ (if key_eq key j then none else if key_eq key j then some v else lookup j es)
    gone (inl here) same = rw here (
        ap (λ x. lookup x es) (sym (eq_of_key_eq k key same ∙ eq_of_key_eq key j here))
        ∙ lookup-Ascending k es h)
    gone (inr there) same = rw there refl

    kept :
        (key_eq k j ≡ true) ⊎ (key_eq k j ≡ false)
        → key_eq k key ≡ false
        → (if key_eq k j then some v else if key_eq key j then none else lookup j es)
          ≡ (if key_eq key j then none else if key_eq k j then some v else lookup j es)
    kept (inl here) other =
        let apart : key_eq key j ≡ false =
          ap (λ x. key_eq key x) (sym (eq_of_key_eq k j here)) ∙ key_eq_comm key k ∙ other in
        rw (here, apart) refl
    kept (inr there) other = rw there refl

erase_entry-Ascending :
    (low key : Key) (es : List Entry) → Ascending low es → Ascending low (erase_entry key es)
unfolding erase_entry
erase_entry-Ascending low key [] h = tt
erase_entry-Ascending low key ((k, v) ∷ es) h = elim (Bool-cases (key_eq k key)) [
  | inl same ↦ rw same (Ascending-below low k es h.0 h.1)
  | inr other ↦ rw other (h.0, erase_entry-Ascending k key es h.1)
]

pub erase_entry-IsSorted :
    (key : Key) (es : List Entry) → IsSorted es → IsSorted (erase_entry key es)
unfolding erase_entry
erase_entry-IsSorted key [] h = tt
erase_entry-IsSorted key ((k, v) ∷ es) h = elim (Bool-cases (key_eq k key)) [
  | inl same ↦ rw same (Ascending-IsSorted k es h)
  | inr other ↦ rw other (erase_entry-Ascending k key es h)
]
