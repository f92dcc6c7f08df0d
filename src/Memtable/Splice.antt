-- ===== src/Memtable/Splice.antt =====
-- The loop that links a new node in, level by level.
use vroot_kv.Base.{ℕ, zero, suc, ◌+◌, ◌<◌, ◌≡◌, ◌≢◌, refl, sym, ap, ◌∙◌, arith}
use vroot_kv.Base.{ltb, if◌then◌else◌, Option, none, some, ok}
use vroot_kv.Base.{List, get_elem?}
use vroot_kv.Memtable.{Ptr, Node, Cells, write, link, next_at, set_next, pred_at, splice}
use vroot_kv.Memtable.Chain.{
  Tower, Links, tabulate, Chain, Apart, set-tabulate, Chain-write, write_other, write_self,
  load_lem, link-tabulate,
}
use vroot_kv.Memtable.Relink.{Found, Distinct, All-mid, relink, next_at-Found}
use vroot_kv.Memtable.Search.{after}
use vroot_kv.Memtable.Descend.{Recorded}
use mathlib.Core.Path.{subst}

pub Found-mem :
    {i : ℕ} {ts : List Tower} {p : Tower} (q : Ptr) → Found i ts p → Apart q ts → p.ptr ≢ q
Found-mem {p} q f a = All-mid (λ t. t.ptr ≢ q) f.pre p f.post (subst (Apart q) f.split a)

pub pred_at_lem :
    (update : List (Option Ptr)) (i : ℕ) (p : Ptr)
    → get_elem? update i ≡ some (some p)
    → pred_at update i ≡ ok p
unfolding pred_at link
pred_at_lem update i p e = rw (e, link) refl

module _ (cells₀ : Cells) (ts : List Tower) (n : Tower) (hi : List Tower)
    (update : List (Option Ptr)) (distinct : Distinct ts) (apart : Apart n.ptr ts) where
  -- After `i` levels, the chains of these levels lead to the new node,
  abbrev pub spliced : ℕ → Links
  spliced i l = if ltb l i then some n.ptr else after hi l

  -- and the new node leads on.
  abbrev pub new_links : ℕ → Links
  new_links i l = if ltb l i then after hi l else none

  pub record Splicing (i : ℕ) (cells : Cells) : Type 0 where
    pub chain : Chain cells ts (spliced i)
    pub own :
        cells n.ptr
        ≡ some (record { key = n.key; value = n.value; next = tabulate n.height (new_links i) })
    pub frame : (q : Ptr) → q ≢ n.ptr → Apart q ts → cells q ≡ cells₀ q

  at_level : (i : ℕ) → spliced i i ≡ after hi i
  at_level i = ground arith

  splice_step :
      (i : ℕ) (cells : Cells) (p : Tower)
      → i < n.height
      → Found i ts p
      → Splicing i cells
      → (cells₁ : Cells) × (cells₂ : Cells) × (next_at cells p.ptr i ≡ ok (after hi i))
        × (set_next cells n.ptr i (after hi i) ≡ ok cells₁)
        × (set_next cells₁ p.ptr i (some n.ptr) ≡ ok cells₂)
        × Splicing (i + 1) cells₂
  splice_step i cells p less f s =
      let (cells₂, e₂, c₂, same₂) =
        relink cells₁ ts p (spliced i) (spliced (i + 1)) i (some n.ptr) f
          (record { here = ground arith; elsewhere = λ j ne. ground arith }) distinct
          (Chain-write cells n.ptr (some new_node) ts (spliced i) apart s.chain) in
      (
        cells₁,
        cells₂,
        next_at-Found cells ts p (spliced i) i f s.chain ∙ ap ok (at_level i),
        own_link,
        e₂,
        record {
          chain = c₂;
          own =
              same₂ n.ptr (λ e. Found-mem n.ptr f apart (sym e))
              ∙ write_self cells n.ptr (some new_node);
          frame = λ q ne a.
              same₂ q (λ e. Found-mem q f a (sym e))
              ∙ write_other cells n.ptr (some new_node) q ne
              ∙ s.frame q ne a;
        },
      )
    where
      new_node : Node
      new_node = record {
        key = n.key;
        value = n.value;
        next = tabulate n.height (new_links (i + 1));
      }

      cells₁ : Cells
      cells₁ = write cells n.ptr (some new_node)

      own_link : set_next cells n.ptr i (after hi i) ≡ ok cells₁
      own_link =
          unfold set_next in
          rw
            (
              load_lem cells n.ptr _ s.own,
              link-tabulate n.height (new_links i) i less,
              set-tabulate n.height (new_links i) (new_links (i + 1)) i (after hi i) (ground arith)
                  (λ j ne. ground arith),
            )
            refl

  -- All levels of the new node.
  pub splice_lem :
      (k i : ℕ) (cells : Cells)
      → i + k ≡ n.height
      → Recorded n.height ts update
      → Splicing i cells
      → (cells' : Cells) × (splice k i n.ptr update cells ≡ ok cells') × Splicing n.height cells'
  unfolding splice
  splice_lem zero i cells e r s = (cells, refl, subst (λ j. Splicing j cells) (omega (arith, e)) s)
  splice_lem (suc k) i cells e r s =
      let (p, ep, f) = r i (omega arith) in
      let (cells₁, cells₂, e₀, e₁, e₂, s₂) = splice_step i cells p (omega arith) f s in
      let (cells', e', s') = splice_lem k (i + 1) cells₂ (omega arith) r s₂ in
      (cells', rw (pred_at_lem update i p.ptr ep, e₀, e₁, e₂) e', s')
