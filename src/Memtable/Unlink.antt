-- ===== src/Memtable/Unlink.antt =====
-- The loop that takes a node out of the chains of the levels that it has.
use vroot_kv.Base.{
  ℕ, zero, suc, ◌+◌, ◌<◌, ◌≤◌, ◌≡◌, inl, inr, refl, sym, ap, ◌∙◌, arith, true, false, ltb, ltb→lt,
  ltb→le, lt→ltb, le→ltb, Bool-cases, if◌then◌else◌,
}
use vroot_kv.Base.{Option, some, ok}
use vroot_kv.Base.{List, [], ◌∷◌, ◌++◌, All}
use vroot_kv.Memtable.{Ptr, Cells, set_next, next_at, pred_at, points_to, unlink}
use vroot_kv.Memtable.Chain.{
  Tower, Links, first_at, Chain, Apart, Chain-cong, Chain-split, Chain-frame, All-map,
  next_at-Chain,
}
use vroot_kv.Memtable.Relink.{Found, Distinct, relink, next_at-Found}
use vroot_kv.Memtable.Search.{null, after}
use vroot_kv.Memtable.Descend.{Recorded}
use vroot_kv.Memtable.Middle.{Distinct_split}
use vroot_kv.Memtable.Splice.{Found-mem, pred_at_lem}
use mathlib.Core.Path.{subst}
use native.Mathlib.Decide.{ℕ_discrete}

points_to_self : (x : Ptr) → points_to (some x) x ≡ true
unfolding points_to
points_to_self x = ground arith

-- No chain leads to an address that no tower has.
points_to-Apart :
    (l : ℕ) (ts : List Tower) (x : Ptr) → Apart x ts → points_to (first_at l ts null) x ≡ false
unfolding first_at points_to
points_to-Apart l [] x a = refl
points_to-Apart l (t ∷ ts) x a = elim (Bool-cases (ltb l t.height)) [
  | inl tall ↦ rw tall (let other = a.0 in ground arith)
  | inr short ↦ rw short (points_to-Apart l ts x a.1)
]

-- One round of the loop.
module _ (k i : ℕ) (x p : Ptr) (q : Option Ptr) (update : List (Option Ptr)) (cells : Cells)
    (at_pred : pred_at update i ≡ ok p) (read : next_at cells p i ≡ ok q) where
  unlink-true :
      {after : Option Ptr} {cells₁ : Cells}
      → points_to q x ≡ true
      → next_at cells x i ≡ ok after
      → set_next cells p i after ≡ ok cells₁
      → unlink (suc k) i x update cells ≡ unlink k (i + 1) x update cells₁
  unfolding unlink
  unlink-true here e₁ e₂ = rw (at_pred, read, here, e₁, e₂) refl

  unlink-false :
      points_to q x ≡ false → unlink (suc k) i x update cells ≡ unlink k (i + 1) x update cells
  unfolding unlink
  unlink-false other = rw (at_pred, read, other) refl

module _ (cells₀ : Cells) (us : List Tower) (x : Tower) (rest : List Tower)
    (update : List (Option Ptr)) (distinct : Distinct (us ++ (x ∷ rest)))
    (chain₀ : Chain cells₀ (us ++ (x ∷ rest)) null) where
  -- After `i` levels, the chains of these levels pass the node by.
  abbrev pub unlinked : ℕ → Links
  unlinked i l = if ltb l i then after rest l else after (x ∷ rest) l

  pub record Unlinking (i : ℕ) (cells : Cells) : Type 0 where
    pub chain : Chain cells us (unlinked i)
    pub frame : (q : Ptr) → Apart q us → cells q ≡ cells₀ q

  parts : Distinct us × Distinct (x ∷ rest) × All (λ t. Apart t.ptr us) (x ∷ rest)
  parts = Distinct_split us (x ∷ rest) distinct

  pub behind-Chain : (i : ℕ) (cells : Cells) → Unlinking i cells → Chain cells (x ∷ rest) null
  behind-Chain i cells s =
      Chain-frame cells₀ cells (x ∷ rest) null
        (All-map (λ t. Apart t.ptr us) (λ t. cells t.ptr ≡ cells₀ t.ptr) (x ∷ rest)
          (λ t a. s.frame t.ptr a) parts.2)
        (Chain-split cells₀ us (x ∷ rest) null chain₀).1

  pub start : Unlinking 0 cells₀
  start = record {
    chain =
        Chain-cong cells₀ us (after (x ∷ rest)) (unlinked 0) (λ l. ground arith)
          (Chain-split cells₀ us (x ∷ rest) null chain₀).0;
    frame = λ q a. refl;
  }

  -- A level that the node has.
  tall_step :
      (i : ℕ) (cells : Cells) (p : Tower)
      → i < x.height
      → Found i us p
      → Unlinking i cells
      → (cells' : Cells) × (next_at cells p.ptr i ≡ ok (some x.ptr))
        × (next_at cells x.ptr i ≡ ok (after rest i))
        × (set_next cells p.ptr i (after rest i) ≡ ok cells')
        × Unlinking (i + 1) cells'
  tall_step i cells p less f s =
      let (cells', e, c, same) =
        relink cells us p (unlinked i) (unlinked (i + 1)) i (after rest i) f
          (record { here = ground arith; elsewhere = λ j ne. ground arith }) parts.0 s.chain in
      (
        cells',
        next_at-Found cells us p (unlinked i) i f s.chain ∙ ap ok here,
        next_at-Chain cells x rest null i (behind-Chain i cells s) less,
        e,
        record { chain = c; frame = λ q a. same q (λ eq. Found-mem q f a (sym eq)) ∙ s.frame q a },
      )
    where
      here : unlinked i i ≡ some x.ptr
      here = unfold first_at in rw (lt→ltb i x.height less) (ground arith)

  -- A level that it does not have.
  low_step :
      (i : ℕ) (cells : Cells) (p : Tower)
      → x.height ≤ i
      → Found i us p
      → Unlinking i cells
      → (next_at cells p.ptr i ≡ ok (after rest i)) × Unlinking (i + 1) cells
  low_step i cells p over f s = (
    next_at-Found cells us p (unlinked i) i f s.chain ∙ ap ok here,
    record {
      chain = Chain-cong cells us (unlinked i) (unlinked (i + 1)) same s.chain;
      frame = s.frame;
    },
  )
    where
      passed : after (x ∷ rest) i ≡ after rest i
      passed = unfold first_at in rw (le→ltb i x.height over) refl

      here : unlinked i i ≡ after rest i
      here = let e = passed in ground arith

      same : (l : ℕ) → unlinked i l ≡ unlinked (i + 1) l
      same l = elim (ℕ_discrete l i) [
        | yes e ↦
            subst (λ n. unlinked i n ≡ unlinked (i + 1) n) (sym e) (let p = passed in ground arith)
        | no ne ↦ ground arith
      ]

  pub unlink_lem :
      (k i : ℕ) (cells : Cells)
      → Recorded (i + k) us update
      → Unlinking i cells
      → (cells' : Cells) × (unlink k i x.ptr update cells ≡ ok cells') × Unlinking (i + k) cells'
  unfolding unlink
  unlink_lem zero i cells r s = (cells, refl, subst (λ n. Unlinking n cells) (omega arith) s)
  unlink_lem (suc k) i cells r s =
      let (p, ep, f) = r i (omega arith) in
      let r' : Recorded (i + 1 + k) us update = λ j less. r j (omega (arith, less)) in
      elim (Bool-cases (ltb i x.height)) [
        | inl tall ↦
            let (cells₁, e₀, e₁, e₂, s₁) = tall_step i cells p (ltb→lt i x.height tall) f s in
            let (cells', e', s') = unlink_lem k (i + 1) cells₁ r' s₁ in
            (
              cells',
              unlink-true k i x.ptr p.ptr (some x.ptr) update cells (pred_at_lem update i p.ptr ep)
                    e₀ (points_to_self x.ptr) e₁ e₂
                  ∙ e',
              subst (λ n. Unlinking n cells') (omega arith) s',
            )
        | inr low ↦
            let (e₀, s₁) = low_step i cells p (ltb→le i x.height low) f s in
            let (cells', e', s') = unlink_lem k (i + 1) cells r' s₁ in
            (
              cells',
              unlink-false k i x.ptr p.ptr (after rest i) update cells
                    (pred_at_lem update i p.ptr ep) e₀ (points_to-Apart i rest x.ptr parts.1.0)
                  ∙ e',
              subst (λ n. Unlinking n cells') (omega arith) s',
            )
      ]
