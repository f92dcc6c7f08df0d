-- ===== src/Memtable/Relink.antt =====
-- One assignment to a forward pointer: the last tower that has the level gets a new link.
use vroot_kv.Base.{ℕ, ◌<◌, ◌≡◌, ◌≢◌, refl, sym, ap, ◌∙◌, arith}
use vroot_kv.Base.{Option, some, ok}
use vroot_kv.Base.{List, [], ◌∷◌, ◌++◌, All}
use vroot_kv.Memtable.{Ptr, Cells, write, set_next, next_at}
use vroot_kv.Memtable.Chain.{Tower, Links, first_at, node_of, Chain, Below, Apart}
use vroot_kv.Memtable.Chain.{
  set-tabulate, first_at-Below, first_at_cong, first_at_stops, node_of_cong, Chain-write,
  write_other, write_self, load_lem, link-tabulate, next_at-Chain,
}
use mathlib.Core.Path.{subst}
use native.Mathlib.Decide.{ℕ_discrete}

abbrev pub Distinct : List Tower → Type 0
Distinct [] = Unit {0}
Distinct (t ∷ ts) = Apart t.ptr ts × Distinct ts

-- `p` is the last of the towers `ts` that have level `i`.
pub record Found (i : ℕ) (ts : List Tower) (p : Tower) : Type 0 where
  pub pre : List Tower
  pub post : List Tower
  pub split : ts ≡ pre ++ (p ∷ post)
  pub tall : i < p.height
  pub low : Below i post

-- Links that differ at one level only, to which they lead by `v` now.
pub record Relinked (behind behind' : Links) (i : ℕ) (v : Option Ptr) : Type 0 where
  pub here : behind' i ≡ v
  pub elsewhere : (j : ℕ) → j ≢ i → behind' j ≡ behind j

pub All-mid {ℓ κ} :
    {A : Type ℓ} (P : A → Type κ) (xs : List A) (y : A) (zs : List A) → All P (xs ++ (y ∷ zs)) → P y
All-mid P [] y zs a = a.0
All-mid P (x ∷ xs) y zs a = All-mid P xs y zs a.1

-- Towers that are too low for the level do not notice.
Chain-Below :
    (cells : Cells) (ts : List Tower) (behind behind' : Links) (i : ℕ) (v : Option Ptr)
    → Relinked behind behind' i v
    → Below i ts
    → Chain cells ts behind
    → Chain cells ts behind'
Chain-Below cells [] behind behind' i v r b c = tt
Chain-Below cells (t ∷ ts) behind behind' i v r b c = (
  c.0
      ∙ ap some (
          node_of_cong t ts ts behind behind' (λ l p.
            first_at_cong l ts behind behind'
              (sym (r.elsewhere l (λ e. absurd (omega (arith, e, b.0))))))),
  Chain-Below cells ts behind behind' i v r b.1 c.1,
)

module _ (cells : Cells) (p : Tower) (post : List Tower) (behind behind' : Links) (i : ℕ)
    (v : Option Ptr) (r : Relinked behind behind' i v) (tall : i < p.height)
    (low : Below i post) where
  abbrev relinked : Cells
  relinked = write cells p.ptr (some (node_of p post behind'))

  set_next_lem : Chain cells (p ∷ post) behind → set_next cells p.ptr i v ≡ ok relinked
  unfolding set_next node_of
  set_next_lem c =
      rw
        (
          load_lem cells p.ptr _ c.0,
          link-tabulate p.height (λ l. first_at l post behind) i tall,
          set-tabulate p.height (λ l. first_at l post behind) (λ l. first_at l post behind') i v
              (first_at-Below i post behind' low ∙ r.here)
              (λ j n. first_at_cong j post behind' behind (r.elsewhere j n)),
        )
        refl

  relinked-Chain :
      Apart p.ptr post → Chain cells (p ∷ post) behind → Chain relinked (p ∷ post) behind'
  relinked-Chain apart c = (
    write_self cells p.ptr _,
    Chain-Below relinked post behind behind' i v r low
        (Chain-write cells p.ptr _ post behind apart c.1),
  )

  -- The towers in front only notice the level at which `p` stands in between.
  front-Chain :
      (pre : List Tower)
      → Distinct (pre ++ (p ∷ post))
      → Chain cells (pre ++ (p ∷ post)) behind
      → Chain relinked (pre ++ (p ∷ post)) behind'
  front-Chain [] d c = relinked-Chain d.0 c
  front-Chain (x ∷ pre) d c = (
    write_other cells p.ptr _ x.ptr (λ e. All-mid (λ t. t.ptr ≢ x.ptr) pre p post d.0 (sym e))
        ∙ c.0
        ∙ ap some (
            node_of_cong x (pre ++ (p ∷ post)) (pre ++ (p ∷ post)) behind behind'
              (λ l less. same l)),
    front-Chain pre d.1 c.1,
  )
    where
      same :
          (l : ℕ) → first_at l (pre ++ (p ∷ post)) behind ≡ first_at l (pre ++ (p ∷ post)) behind'
      same l = elim (ℕ_discrete l i) [
        | yes e ↦ first_at_stops l pre p post behind behind' (omega (arith, e))
        | no n ↦ first_at_cong l (pre ++ (p ∷ post)) behind behind' (sym (r.elsewhere l n))
      ]

pub Chain-end :
    (cells : Cells) (xs ys : List Tower) (behind : Links)
    → Chain cells (xs ++ ys) behind
    → Chain cells ys behind
Chain-end cells [] ys behind c = c
Chain-end cells (x ∷ xs) ys behind c = Chain-end cells xs ys behind c.1

-- `p->next_[i] = v` where `p` is the last tower that has level `i`: the chain of the level now leads
-- to `v`, and nothing else changes.
pub relink :
    (cells : Cells) (ts : List Tower) (p : Tower) (behind behind' : Links) (i : ℕ) (v : Option Ptr)
    → Found i ts p
    → Relinked behind behind' i v
    → Distinct ts
    → Chain cells ts behind
    → (cells' : Cells) × (set_next cells p.ptr i v ≡ ok cells')
      × Chain cells' ts behind'
      × ((q : Ptr) → q ≢ p.ptr → cells' q ≡ cells q)
relink cells ts p behind behind' i v f r d c =
    let d' = subst Distinct f.split d in
    let c' = subst (λ us. Chain cells us behind) f.split c in
    (
      relinked cells p f.post behind behind' i v r f.tall f.low,
      set_next_lem cells p f.post behind behind' i v r f.tall f.low
          (Chain-end cells f.pre (p ∷ f.post) behind c'),
      subst (λ us. Chain (relinked cells p f.post behind behind' i v r f.tall f.low) us behind')
          (sym f.split) (front-Chain cells p f.post behind behind' i v r f.tall f.low f.pre d' c'),
      λ q n. write_other cells p.ptr (some (node_of p f.post behind')) q n,
    )

-- What is read there.
pub next_at-Found :
    (cells : Cells) (ts : List Tower) (p : Tower) (behind : Links) (i : ℕ)
    → Found i ts p
    → Chain cells ts behind
    → next_at cells p.ptr i ≡ ok (behind i)
next_at-Found cells ts p behind i f c =
    next_at-Chain cells p f.post behind i
      (Chain-end cells f.pre (p ∷ f.post) behind (subst (λ us. Chain cells us behind) f.split c))
      f.tall
    ∙ ap ok (first_at-Below i f.post behind f.low)
