-- ===== src/Memtable/Descend.antt =====
-- All levels of a search, and the pointers that `update` records.
use vroot_kv.Base.{ℕ, zero, suc, ◌≤◌, ◌<◌, ◌≡◌, inl, inr, refl, sym, ap, ◌∙◌, arith}
use vroot_kv.Base.{true, if◌then◌else◌, Result, Option, none, some, ok, ◌>>=◌, Result-cases}
use vroot_kv.Base.{List, [], ◌∷◌, ◌++◌, get_elem?, set, length, length-append, length-set}
use vroot_kv.Key.{Key, key_lt}
use vroot_kv.Memtable.{
  Ptr, Cells, Stuck, load, link, next_at, walk, walk_mut, record_at, descend, descend_mut,
  erase_walk, erase_descend,
}
use vroot_kv.Memtable.Chain.{Tower, Chain, Below}
use vroot_kv.Memtable.Relink.{Found, Chain-end}
use vroot_kv.Memtable.Search.{
  null, after, Before, NotBefore, extend, walk_lem, All_end, get_elem?-set_self, get_elem?-set_ne,
}
use mathlib.Core.Path.{subst}
use native.Mathlib.Decide.{dec_lt}

-- The three copies of the inner loop agree.
pub walk_mut-walk :
    (fuel : ℕ) (cells : Cells) (target : Key) (i : ℕ) (x : Ptr)
    → walk_mut fuel cells target i x ≡ walk fuel cells target i x
unfolding walk walk_mut
walk_mut-walk zero cells target i x = refl
walk_mut-walk (suc fuel) cells target i x =
    ap
      (λ (next : Ptr → Result Stuck Ptr). next_at cells x i >>= λ q.
        elim q as (λ _. Result Stuck Ptr) [
          | none ↦ ok x
          | some y ↦ load cells y >>= λ n. if key_lt n.key target then next y else ok x
        ])
      (λ j y. walk_mut-walk fuel cells target i y j)

erase_walk-walk_mut :
    (fuel : ℕ) (cells : Cells) (target : Key) (i : ℕ) (x : Ptr)
    → erase_walk fuel cells target i x ≡ walk_mut fuel cells target i x
unfolding erase_walk walk_mut
erase_walk-walk_mut zero cells target i x = refl
erase_walk-walk_mut (suc fuel) cells target i x =
    ap
      (λ (next : Ptr → Result Stuck Ptr). next_at cells x i >>= λ q.
        elim q as (λ _. Result Stuck Ptr) [
          | none ↦ ok x
          | some y ↦ load cells y >>= λ n. if key_lt n.key target then next y else ok x
        ])
      (λ j y. erase_walk-walk_mut fuel cells target i y j)

-- So do the two copies of the loop that records pointers.
pub erase_descend-descend_mut :
    (fuel : ℕ) (cells : Cells) (target : Key) (k : ℕ) (x : Ptr) (update : List (Option Ptr))
    → erase_descend fuel cells target k x update ≡ descend_mut fuel cells target k x update
unfolding erase_descend descend_mut
erase_descend-descend_mut fuel cells target zero x update = refl
erase_descend-descend_mut fuel cells target (suc i) x update =
    rw (erase_walk-walk_mut fuel cells target i x) (
      ap
        (λ (next : Ptr → List (Option Ptr) → Result Stuck (Ptr × List (Option Ptr))).
          walk_mut fuel cells target i x >>= λ y. record_at update i y >>= λ u. next y u)
        (λ j y u. erase_descend-descend_mut fuel cells target i y u j))

link_inside :
    (links : List (Option Ptr)) (i : ℕ)
    → i < length links
    → (q : Option Ptr) × (link links i ≡ ok q)
unfolding link
link_inside [] i less = absurd (omega arith)
link_inside (q ∷ links) zero less = (q, refl)
link_inside (q ∷ links) (suc i) less = link_inside links i (omega arith)

pub record_at_inside :
    (update : List (Option Ptr)) (i : ℕ) (x : Ptr)
    → i < length update
    → record_at update i x ≡ ok (set update i (some x))
unfolding record_at
record_at_inside update i x less = let (q, e) = link_inside update i less in rw e refl

-- `update` holds at each level below `k` the last tower that has it.
abbrev pub Recorded : ℕ → List Tower → List (Option Ptr) → Type 0
Recorded k ts update =
    (j : ℕ) → j < k → (t : Tower) × (get_elem? update j ≡ some (some t.ptr)) × Found j ts t

-- The whole search from the tower `x` on, all levels from `k` on having been searched.
pub record Searched (k : ℕ) (ts : List Tower) (update : List (Option Ptr)) (p : Tower)
    (update' : List (Option Ptr)) : Type 0 where
  pub at_key : Found 0 ts p
  pub recorded : Recorded k ts update'
  pub others : (j : ℕ) → k ≤ j → get_elem? update' j ≡ get_elem? update j
  pub same_length : length update' ≡ length update

-- Behind the tower that was found there are fewer towers, all before the key.
behind-Found :
    (target : Key) (i : ℕ) (x : Tower) (ts : List Tower) (y : Tower) (f : Found i (x ∷ ts) y)
    → Before target ts
    → (length f.post ≤ length ts) × Before target f.post
behind-Found target i x ts y f less = cut f.pre f.split
  where
    cut :
        (pre : List Tower)
        → x ∷ ts ≡ pre ++ (y ∷ f.post)
        → (length f.post ≤ length ts) × Before target f.post
    cut [] e =
        let same : ts ≡ f.post = cc in
        (omega (arith, ap (length {A = Tower}) same), subst (Before target) same less)
    cut (z ∷ pre) e =
        let same : ts ≡ pre ++ (y ∷ f.post) = cc in
        (
          omega (arith, ap (length {A = Tower}) same, length-append pre (y ∷ f.post)),
          (All_end (λ t. key_lt t.key target ≡ true) pre (y ∷ f.post)
              (subst (Before target) same less)).1,
        )

module _ (cells : Cells) (target : Key) (behind : List Tower) (chain : Chain cells behind null)
    (not_before : NotBefore target behind) where
  pub descend_mut_lem :
      (fuel k : ℕ) (x : Tower) (ts : List Tower) (update : List (Option Ptr))
      → length ts < fuel
      → Chain cells (x ∷ ts) (after behind)
      → k ≤ x.height
      → 0 < x.height
      → Below k ts
      → Before target ts
      → k ≤ length update
      → (p : Tower) × (update' : List (Option Ptr)) × (descend_mut fuel cells target k x.ptr update
          ≡ ok (p.ptr, update'))
        × Searched k (x ∷ ts) update p update'
  unfolding descend_mut
  descend_mut_lem fuel zero x ts update h c tall some_level low less room = (
    x,
    update,
    refl,
    record {
      at_key = record { pre = []; post = ts; split = refl; tall = some_level; low = low };
      recorded = λ j p. absurd (omega arith);
      others = λ j p. refl;
      same_length = refl;
    },
  )
  descend_mut_lem fuel (suc i) x ts update h c tall some_level low less room =
      let (y, e, f) =
        walk_lem cells target behind chain not_before fuel i x ts h c (omega arith) less in
      let c' =
        Chain-end cells f.pre (y ∷ f.post) (after behind)
          (subst (λ us. Chain cells us (after behind)) f.split c) in
      let less' = behind-Found target i x ts y f less in
      let (p, update', e', s) =
        descend_mut_lem fuel i y f.post (set update i (some y.ptr)) (omega (arith, less'.0)) c'
          (omega (arith, f.tall)) (omega (arith, f.tall)) f.low less'.1
          (omega (arith, length-set update i (some y.ptr))) in
      (
        p,
        update',
        rw
            (
              walk_mut-walk fuel cells target i x.ptr,
              e,
              record_at_inside update i y.ptr (omega arith),
            )
            e',
        record {
          at_key = extend 0 (x ∷ ts) f.pre (y ∷ f.post) p f.split s.at_key;
          recorded = λ j below. elim (dec_lt j i) [
            | yes inner ↦
                let (t, et, ft) = s.recorded j inner in
                (t, et, extend j (x ∷ ts) f.pre (y ∷ f.post) t f.split ft)
            | no outer ↦
                let same : j ≡ i = omega arith in
                (
                  y,
                  s.others j (omega arith)
                      ∙ ap (λ n. get_elem? (set update i (some y.ptr)) n) same
                      ∙ get_elem?-set_self update i (some y.ptr) (omega arith),
                  subst (λ n. Found n (x ∷ ts) y) (sym same) f,
                )
          ];
          others = λ j over.
              s.others j (omega arith)
              ∙ get_elem?-set_ne update i j (some y.ptr) (λ q. absurd (omega (arith, q)));
          same_length = s.same_length ∙ length-set update i (some y.ptr);
        },
      )

-- The search that records nothing finds the same pointer, on any heap, where `update` has room for the levels.
pub descend-descend_mut :
    (fuel : ℕ) (cells : Cells) (target : Key) (k : ℕ) (x : Ptr) (update : List (Option Ptr))
    → k ≤ length update
    → descend fuel cells target k x ≡ (descend_mut fuel cells target k x update >>= λ r. ok r.0)
unfolding descend descend_mut
descend-descend_mut fuel cells target zero x update room = refl
descend-descend_mut fuel cells target (suc i) x update room =
    rw (walk_mut-walk fuel cells target i x) (elim (Result-cases (walk fuel cells target i x)) [
      | inl (y, e) ↦
          rw (e, record_at_inside update i y (omega arith))
            (descend-descend_mut fuel cells target i y (set update i (some y))
              (omega (arith, length-set update i (some y))))
      | inr (inl (e, p)) ↦ rw p refl
      | inr (inr p) ↦ rw p refl
    ])
