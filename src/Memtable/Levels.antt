-- ===== src/Memtable/Levels.antt =====
-- The level that `randomLevel` draws, and `update` for the levels that the list gets by it.
use vroot_kv.Base.{ℕ, zero, suc, ◌+◌, ◌-◌, ◌≤◌, ◌<◌, ◌≡◌, ap, ◌∙◌, arith}
use vroot_kv.Base.{ltb, Bool-cases, inl, inr, Option, some}
use vroot_kv.Base.{List, get_elem?, set, length, length-set}
use vroot_kv.Memtable.{Ptr, SkipList, level_loop, random_level, fill_update}
use vroot_kv.Memtable.Chain.{Tower}
use vroot_kv.Memtable.Relink.{Found}
use vroot_kv.Memtable.Search.{get_elem?-set_self, get_elem?-set_ne}
use vroot_kv.Memtable.Descend.{Recorded, record_at_inside}
use vroot_kv.Base.{ok, refl}
use native.Mathlib.Decide.{dec_lt}

level_loop_lem :
    (rng : ℕ → ℕ) (p_num left lvl draws : ℕ)
    → let r = level_loop rng p_num left lvl draws in (lvl ≤ r.0) × (r.0 ≤ lvl + left)
unfolding level_loop
level_loop_lem rng p_num zero lvl draws = (omega arith, omega arith)
level_loop_lem rng p_num (suc left) lvl draws =
    let (low, high) = level_loop_lem rng p_num left (lvl + 1) (draws + 1) in
    elim (Bool-cases (ltb (rng draws) p_num)) [
      | inl more ↦ rw more (omega (arith, low), omega (arith, high))
      | inr last ↦ rw last (omega arith, omega arith)
    ]

-- Where `max_level_` is not 0, the level is between 1 and `max_level_`, whatever is drawn.
pub random_level_bounds :
    (rng : ℕ → ℕ) (s : SkipList)
    → 1 ≤ s.max_level
    → (1 ≤ (random_level rng s).0) × ((random_level rng s).0 ≤ s.max_level)
unfolding random_level
random_level_bounds rng s h =
    let (low, high) = level_loop_lem rng s.p_num (s.max_level - 1) 1 s.draws in
    (low, omega (arith, high, h))

-- `update` with the head at the `n` levels from `i` on.
unfoldable pub filled : ℕ → ℕ → Ptr → List (Option Ptr) → List (Option Ptr)
filled zero i head update = update
filled (suc n) i head update = filled n (i + 1) head (set update i (some head))

pub fill_update-filled :
    (n i : ℕ) (head : Ptr) (update : List (Option Ptr))
    → i + n ≤ length update
    → fill_update n i head update ≡ ok (filled n i head update)
unfolding fill_update filled
fill_update-filled zero i head update room = refl
fill_update-filled (suc n) i head update room = rw (record_at_inside update i head (omega arith)) (
    fill_update-filled n (i + 1) head (set update i (some head))
      (omega (arith, length-set update i (some head))))

pub filled_lem :
    (n i : ℕ) (head : Tower) (ts : List Tower) (update : List (Option Ptr))
    → i + n ≤ length update
    → ((j : ℕ) → i ≤ j → j < i + n → Found j ts head)
    → Recorded i ts update
    → Recorded (i + n) ts (filled n i head.ptr update)
unfolding filled
filled_lem zero i head ts update room found r = λ j less. r j (omega (arith, less))
filled_lem (suc n) i head ts update room found r = λ j less.
    filled_lem n (i + 1) head ts (set update i (some head.ptr))
      (omega (arith, length-set update i (some head.ptr)))
      (λ k low high. found k (omega arith) (omega arith)) recorded j (omega arith)
  where
    recorded : Recorded (i + 1) ts (set update i (some head.ptr))
    recorded j less = elim (dec_lt j i) [
      | yes inner ↦
          let (t, e, f) = r j inner in
          (t, get_elem?-set_ne update i j (some head.ptr) (λ q. absurd (omega (arith, q))) ∙ e, f)
      | no outer ↦
          let same : j ≡ i = omega arith in
          (
            head,
            ap (λ k. get_elem? (set update i (some head.ptr)) k) same
                ∙ get_elem?-set_self update i (some head.ptr) (omega arith),
            found j (omega arith) (omega arith),
          )
    ]
