-- ===== src/Memtable.antt =====
-- `SkipList` of src/memtable/skip_list.h: towers on a heap, linked level by level.
pub mod Chain
pub mod Relink
pub mod Search
pub mod Descend
pub mod Holds
pub mod Lookup
pub mod Splice
pub mod Middle
pub mod Levels
pub mod AddNode
pub mod Place
pub mod Update
pub mod Unlink
pub mod Erase
pub mod Clear
pub mod Iterate
pub mod Commands
pub mod Flush
use vroot_kv.Base.{
  ℕ, zero, suc, ◌+◌, ◌-◌, Bool, true, false, not, ltb, leb, ◌==◌, if◌then◌else◌, Option, none, some,
}
use vroot_kv.Base.{List, [], get_elem?, set, replicate, Result, ok, err, fault, ◌>>=◌}
use vroot_kv.Key.{Key, key_lt, key_eq}

abbrev pub Value : Type 0
Value = List ℕ

abbrev pub Ptr : Type 0
Ptr = ℕ

-- A forward pointer is `none` for `nullptr`.
pub record Node : Type 0 where
  pub key : Key
  pub value : Value
  pub next : List (Option Ptr)

abbrev pub Cells : Type 0
Cells = Ptr → Option Node

-- `cells` is the heap, and `fresh` the address that the next `new` gives. `draws` counts the numbers
-- that were drawn from `dist_`.
pub record SkipList : Type 0 where
  pub max_level : ℕ
  pub p_num : ℕ
  pub level : ℕ
  pub size : ℕ
  pub head : Ptr
  pub draws : ℕ
  pub cells : Cells
  pub fresh : Ptr

-- A loop that has no fuel left; the code never throws.
pub data Stuck : Type 0 where
  out_of_fuel : Stuck

unfoldable pub write : Cells → Ptr → Option Node → Cells
write cells p c q = if q == p then c else cells q

-- `*p`
unfoldable pub load : Cells → Ptr → Result Stuck Node
load cells p = elim (cells p) [ none ↦ fault | some n ↦ ok n ]

-- `next_[i]`, and `p->next_[i]`
unfoldable pub link : List (Option Ptr) → ℕ → Result Stuck (Option Ptr)
link links i = elim (get_elem? links i) [ none ↦ fault | some q ↦ ok q ]

unfoldable pub next_at : Cells → Ptr → ℕ → Result Stuck (Option Ptr)
next_at cells p i = load cells p >>= λ n. link n.next i

-- `p->next_[i] = q`
unfoldable pub set_next : Cells → Ptr → ℕ → Option Ptr → Result Stuck Cells
set_next cells p i q = do
  n ← load cells p
  _ ← link n.next i
  ok (write cells p (some (record n { next = set n.next i q })))

-- A pointer of `update`, which is dereferenced.
unfoldable pub pred_at : List (Option Ptr) → ℕ → Result Stuck Ptr
pred_at update i = link update i >>= λ p. elim p [ none ↦ fault | some x ↦ ok x ]

-- `int`s, and their order. What is not negative has a number.
pub data ℤ : Type 0 where
  pos negsuc : ℕ → ℤ

unfoldable pub int_lt : ℤ → ℤ → Bool
int_lt (pos a) (pos b) = ltb a b
int_lt (pos a) (negsuc b) = false
int_lt (negsuc a) (pos b) = true
int_lt (negsuc a) (negsuc b) = ltb b a

unfoldable pub to_nat : ℤ → ℕ
to_nat (pos n) = n
to_nat (negsuc n) = 0

-- The list that the constructor makes of the parameters, as the caller gives them. No other code reads `p_den_`.
unfoldable pub made_list : ℤ → ℤ → ℤ → SkipList
unfolding int_lt to_nat
made_list max_level p_num p_den =
    let levels = if int_lt max_level (pos 1) then 1 else to_nat max_level in
    let num =
      if not (int_lt (pos 1) p_den)
      then 1
      else if int_lt p_num (pos 1)
      then 1
      else if not (int_lt p_num p_den)
      then 1
      else to_nat p_num in
    record {
      max_level = levels;
      p_num = num;
      level = 1;
      size = 0;
      head = 0;
      draws = 0;
      cells =
          write (λ p. none) 0
            (some (record { key = []; value = []; next = replicate levels none }));
      fresh = 1;
    }

-- The constructor. The range of `dist_(0, p_denominator - 1)` is
-- empty where `p_denominator` is below 1, which C++ leaves undefined: a fault.
unfoldable pub new_list : ℤ → ℤ → ℤ → Result Stuck SkipList
unfolding int_lt made_list
new_list max_level p_num p_den =
    if int_lt p_den (pos 1) then fault else ok (made_list max_level p_num p_den)

-- `while (x->next_[i] && x->next_[i]->key < target) x = x->next_[i];`
unfoldable pub walk : ℕ → Cells → Key → ℕ → Ptr → Result Stuck Ptr
walk zero cells target i x = err out_of_fuel
walk (suc fuel) cells target i x = next_at cells x i >>= λ q. elim q [
  | none ↦ ok x
  | some y ↦ load cells y >>= λ n.
      (let more = walk fuel cells target i y in if key_lt n.key target then more else ok x)
]

-- `for (int i = level_ - 1; i >= 0; --i)`, with the levels that are left
unfoldable pub descend : ℕ → Cells → Key → ℕ → Ptr → Result Stuck Ptr
descend fuel cells target zero x = ok x
descend fuel cells target (suc i) x =
    walk fuel cells target i x >>= λ y. descend fuel cells target i y

-- `update[i] = x`
unfoldable pub record_at : List (Option Ptr) → ℕ → Ptr → Result Stuck (List (Option Ptr))
record_at update i x = link update i >>= λ q. ok (set update i (some x))

-- The same loops once more, in the text of `findGreaterOrEqualMut`, with `update[i] = x`.
unfoldable pub walk_mut : ℕ → Cells → Key → ℕ → Ptr → Result Stuck Ptr
walk_mut zero cells target i x = err out_of_fuel
walk_mut (suc fuel) cells target i x = next_at cells x i >>= λ q. elim q [
  | none ↦ ok x
  | some y ↦ load cells y >>= λ n.
      (let more = walk_mut fuel cells target i y in if key_lt n.key target then more else ok x)
]

unfoldable pub descend_mut :
    ℕ → Cells → Key → ℕ → Ptr → List (Option Ptr) → Result Stuck (Ptr × List (Option Ptr))
descend_mut fuel cells target zero x update = ok (x, update)
descend_mut fuel cells target (suc i) x update = walk_mut fuel cells target i x >>= λ y.
    record_at update i y >>= λ update'. descend_mut fuel cells target i y update'

-- A walk passes a node in every round but the last.
unfoldable pub find_greater_or_equal : SkipList → Key → Result Stuck (Option Ptr)
find_greater_or_equal s target =
    descend (s.size + 1) s.cells target s.level s.head >>= λ x. next_at s.cells x 0

unfoldable pub find_greater_or_equal_mut :
    SkipList → Key → Result Stuck (Option Ptr × List (Option Ptr))
find_greater_or_equal_mut s target =
    descend_mut (s.size + 1) s.cells target s.level s.head (replicate s.max_level none) >>= λ r.
    next_at s.cells r.0 0 >>= λ q. ok (q, r.1)

-- `x && x->key == key`: the node, if so
unfoldable pub match_key : Cells → Option Ptr → Key → Result Stuck (Option (Ptr × Node))
match_key cells none key = ok none
match_key cells (some x) key =
    load cells x >>= λ n. ok (if key_eq n.key key then some (x, n) else none)

unfoldable pub contains : SkipList → Key → Result Stuck Bool
contains s key = find_greater_or_equal s key >>= λ x.
    match_key s.cells x key >>= λ m. elim m [ none ↦ ok false | some y ↦ ok true ]

-- `some v` is the answer `true` with `v` for `out_value`.
unfoldable pub get : SkipList → Key → Result Stuck (Option Value)
get s key = find_greater_or_equal s key >>= λ x.
    match_key s.cells x key >>= λ m. elim m [ none ↦ ok none | some y ↦ ok (some y.1.value) ]

-- `while (lvl < max_level_ && dist_(rng_) < p_num_) ++lvl;` with the levels that are left. The result is the
-- level and the number of draws.
unfoldable pub level_loop : (ℕ → ℕ) → ℕ → ℕ → ℕ → ℕ → ℕ × ℕ
level_loop rng p_num zero lvl draws = (lvl, draws)
level_loop rng p_num (suc left) lvl draws =
    let more = level_loop rng p_num left (lvl + 1) (draws + 1) in
    if ltb (rng draws) p_num then more else (lvl, draws + 1)

unfoldable pub random_level : (ℕ → ℕ) → SkipList → ℕ × ℕ
random_level rng s = level_loop rng s.p_num (s.max_level - 1) 1 s.draws

-- `for (int i = level_; i < lvl; ++i) update[i] = head_;` for `n` levels
unfoldable pub fill_update : ℕ → ℕ → Ptr → List (Option Ptr) → Result Stuck (List (Option Ptr))
fill_update zero i head update = ok update
fill_update (suc n) i head update =
    record_at update i head >>= λ update'. fill_update n (i + 1) head update'

-- `n->next_[i] = update[i]->next_[i]; update[i]->next_[i] = n;` for `k` levels
unfoldable pub splice : ℕ → ℕ → Ptr → List (Option Ptr) → Cells → Result Stuck Cells
splice zero i n update cells = ok cells
splice (suc k) i n update cells = pred_at update i >>= λ x. next_at cells x i >>= λ q.
    set_next cells n i q >>= λ cells₁.
    set_next cells₁ x i (some n) >>= λ cells₂. splice k (i + 1) n update cells₂

-- The part that `Insert` and `Put` share.
unfoldable pub add_node :
    (ℕ → ℕ) → SkipList → Key → Value → List (Option Ptr) → Result Stuck SkipList
add_node rng s key value update =
    let r = random_level rng s in
    let lvl = r.0 in
    let level' = if ltb s.level lvl then lvl else s.level in
    let n = s.fresh in
    let allocated =
      write s.cells n (some (record { key = key; value = value; next = replicate lvl none })) in
    (if ltb s.level lvl then fill_update (lvl - s.level) s.level s.head update else ok update)
    >>= λ update'. splice lvl 0 n update' allocated >>= λ cells'.
        ok (record s {
          level = level';
          size = s.size + 1;
          draws = r.1;
          cells = cells';
          fresh = n + 1;
        })

-- The list afterwards, and the answer.
unfoldable pub insert : (ℕ → ℕ) → SkipList → Key → Value → Result Stuck (SkipList × Bool)
insert rng s key value = find_greater_or_equal_mut s key >>= λ r. match_key s.cells r.0 key >>= λ m.
    elim m [ some y ↦ ok (s, false) | none ↦ add_node rng s key value r.1 >>= λ s'. ok (s', true) ]

unfoldable pub put : (ℕ → ℕ) → SkipList → Key → Value → Result Stuck (SkipList × Bool)
put rng s key value = find_greater_or_equal_mut s key >>= λ r. match_key s.cells r.0 key >>= λ m.
    elim m [
      | some y ↦
          ok (record s { cells = write s.cells y.0 (some (record y.1 { value = value })) }, false)
      | none ↦ add_node rng s key value r.1 >>= λ s'. ok (s', true)
    ]

-- `update[i]->next_[i] == x`
unfoldable pub points_to : Option Ptr → Ptr → Bool
points_to none x = false
points_to (some y) x = y == x

-- `if (update[i]->next_[i] == x) update[i]->next_[i] = x->next_[i];` for `k` levels
unfoldable pub unlink : ℕ → ℕ → Ptr → List (Option Ptr) → Cells → Result Stuck Cells
unlink zero i x update cells = ok cells
unlink (suc k) i x update cells = pred_at update i >>= λ p. next_at cells p i >>= λ q.
    (let skip = unlink k (i + 1) x update cells in
      if points_to q x
      then (next_at cells x i >>= λ after.
          set_next cells p i after >>= λ cells'. unlink k (i + 1) x update cells')
      else skip)

-- `while (level_ > 1 && head_->next_[level_ - 1] == nullptr) --level_;`
unfoldable pub shrink : Cells → Ptr → ℕ → Result Stuck ℕ
shrink cells head zero = ok zero
shrink cells head (suc zero) = ok (suc zero)
shrink cells head (suc (suc l)) = next_at cells head (suc l) >>= λ q. elim q [
  | none ↦ shrink cells head (suc l)
  | some y ↦ ok (suc (suc l))
]

-- The loops that record the pointers to change stand in the text of `Erase` once more.
unfoldable pub erase_walk : ℕ → Cells → Key → ℕ → Ptr → Result Stuck Ptr
erase_walk zero cells key i x = err out_of_fuel
erase_walk (suc fuel) cells key i x = next_at cells x i >>= λ q. elim q [
  | none ↦ ok x
  | some y ↦ load cells y >>= λ n.
      (let more = erase_walk fuel cells key i y in if key_lt n.key key then more else ok x)
]

unfoldable pub erase_descend :
    ℕ → Cells → Key → ℕ → Ptr → List (Option Ptr) → Result Stuck (Ptr × List (Option Ptr))
erase_descend fuel cells key zero x update = ok (x, update)
erase_descend fuel cells key (suc i) x update = erase_walk fuel cells key i x >>= λ y.
    record_at update i y >>= λ update'. erase_descend fuel cells key i y update'

unfoldable pub erase_search : SkipList → Key → Result Stuck (Option Ptr × List (Option Ptr))
erase_search s key =
    erase_descend (s.size + 1) s.cells key s.level s.head (replicate s.max_level none) >>= λ r.
    next_at s.cells r.0 0 >>= λ q. ok (q, r.1)

unfoldable pub erase : SkipList → Key → Result Stuck (SkipList × Bool)
erase s key = erase_search s key >>= λ r. match_key s.cells r.0 key >>= λ m. elim m [
  | none ↦ ok (s, false)
  | some y ↦ unlink s.level 0 y.0 r.1 s.cells >>= λ cells₁.
      (let cells₂ = write cells₁ y.0 none in
        shrink cells₂ s.head s.level >>= λ level'.
        ok (record s { level = level'; size = s.size - 1; cells = cells₂ }, true))
]

-- `while (cur) { nxt = cur->next_[0]; delete cur; cur = nxt; }`
unfoldable pub free_all : ℕ → Cells → Option Ptr → Result Stuck Cells
free_all zero cells none = ok cells
free_all zero cells (some x) = err out_of_fuel
free_all (suc fuel) cells none = ok cells
free_all (suc fuel) cells (some x) = next_at cells x 0 >>= λ q. free_all fuel (write cells x none) q

-- `for (int i = 0; i < max_level_; ++i) head_->next_[i] = nullptr;` for `k` levels
unfoldable pub reset_head : ℕ → ℕ → Ptr → Cells → Result Stuck Cells
reset_head zero i head cells = ok cells
reset_head (suc k) i head cells =
    set_next cells head i none >>= λ cells'. reset_head k (i + 1) head cells'

unfoldable pub clear : SkipList → Result Stuck SkipList
clear s = next_at s.cells s.head 0 >>= λ first. free_all s.size s.cells first >>= λ cells₁.
    reset_head s.max_level 0 s.head cells₁ >>= λ cells₂.
    ok (record s { level = 1; size = 0; cells = cells₂ })

-- The destructor.
unfoldable pub destroy : SkipList → Result Stuck SkipList
destroy s = clear s >>= λ s'. ok (record s' { cells = write s'.cells s'.head none })

abbrev pub empty : SkipList → Bool
empty s = s.size == 0
