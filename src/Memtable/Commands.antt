-- ===== src/Memtable/Commands.antt =====
-- Sequences of calls on a skip list, against the same calls on sorted entries.
use vroot_kv.Base.{
  ℕ, suc, ◌+◌, ◌≡◌, ◌≤◌, false, arith, length-replicate, inl, inr, refl, sym, ap, ◌∙◌, Bool, not,
  if◌then◌else◌, Option, none, some,
}
use vroot_kv.Base.{Result, ok, ◌>>=◌, Result-cases, List, [], ◌∷◌, length, replicate}
use vroot_kv.Key.{Key}
use vroot_kv.Entries.{Entry, lookup, put_entry, erase_entry}
use vroot_kv.Memtable.{
  Value, SkipList, Stuck, find_greater_or_equal, find_greater_or_equal_mut, descend_mut, next_at,
  match_key, contains, get, insert, put, erase, erase_search, clear, new_list, ℤ, pos, int_lt, Ptr,
}
use vroot_kv.Memtable.Chain.{Tower}
use vroot_kv.Memtable.Descend.{descend-descend_mut}
use vroot_kv.Memtable.Holds.{entries, Holds}
use vroot_kv.Memtable.Lookup.{get_lem}
use vroot_kv.Memtable.Update.{absent, put_lem, insert_lem}
use vroot_kv.Memtable.Erase.{erase_lem}
use vroot_kv.Memtable.Place.{erase_search-find_greater_or_equal_mut}
use vroot_kv.Memtable.Clear.{clear_lem, new_list-Holds}

pub data Command : Type 0 where
  insert_command : Key → Value → Command
  put_command : Key → Value → Command
  erase_command : Key → Command
  get_command : Key → Command
  contains_command : Key → Command
  size_command : Command
  clear_command : Command

pub data Answer : Type 0 where
  flag : Bool → Answer
  found : Option Value → Answer
  count : ℕ → Answer
  done : Answer

unfoldable pub step : (ℕ → ℕ) → SkipList → Command → Result Stuck (SkipList × Answer)
step rng s (insert_command k v) = insert rng s k v >>= λ r. ok (r.0, flag r.1)
step rng s (put_command k v) = put rng s k v >>= λ r. ok (r.0, flag r.1)
step rng s (erase_command k) = erase s k >>= λ r. ok (r.0, flag r.1)
step rng s (get_command k) = get s k >>= λ v. ok (s, found v)
step rng s (contains_command k) = contains s k >>= λ b. ok (s, flag b)
step rng s size_command = ok (s, count s.size)
step rng s clear_command = clear s >>= λ s'. ok (s', done)

unfoldable pub run : (ℕ → ℕ) → SkipList → List Command → Result Stuck (SkipList × List Answer)
run rng s [] = ok (s, [])
run rng s (c ∷ cs) = step rng s c >>= λ r. run rng r.0 cs >>= λ q. ok (q.0, r.1 ∷ q.1)

-- The same on the entries.
unfoldable pub step_entries : List Entry → Command → List Entry × Answer
step_entries es (insert_command k v) =
    (if absent (lookup k es) then put_entry k v es else es, flag (absent (lookup k es)))
step_entries es (put_command k v) = (put_entry k v es, flag (absent (lookup k es)))
step_entries es (erase_command k) = (erase_entry k es, flag (not (absent (lookup k es))))
step_entries es (get_command k) = (es, found (lookup k es))
step_entries es (contains_command k) = (es, flag (not (absent (lookup k es))))
step_entries es size_command = (es, count (length es))
step_entries es clear_command = ([], done)

unfoldable pub run_entries : List Entry → List Command → List Entry × List Answer
run_entries es [] = (es, [])
run_entries es (c ∷ cs) =
    let r = step_entries es c in let q = run_entries r.0 cs in (q.0, r.1 ∷ q.1)

-- `Contains` answers as `Get` does, on any heap.
pub contains-get :
    (s : SkipList) (key : Key) → contains s key ≡ (get s key >>= λ v. ok (not (absent v)))
unfolding contains get
contains-get s key = elim (Result-cases (find_greater_or_equal s key)) [
  | inl (x, e) ↦ rw e (elim (Result-cases (match_key s.cells x key)) [
    | inl (none, m) ↦ rw m refl
    | inl (some y, m) ↦ rw m refl
    | inr (inl (z, m)) ↦ rw m refl
    | inr (inr m) ↦ rw m refl
  ])
  | inr (inl (z, e)) ↦ rw e refl
  | inr (inr e) ↦ rw e refl
]

find_agree :
    (s : SkipList) (target : Key)
    → s.level ≤ s.max_level
    → find_greater_or_equal s target ≡ (find_greater_or_equal_mut s target >>= λ r. ok r.0)
unfolding find_greater_or_equal find_greater_or_equal_mut
find_agree s target room =
    rw
      (descend-descend_mut (s.size + 1) s.cells target s.level s.head (replicate s.max_level none)
        (omega (arith, room, length-replicate {A = Option Ptr} s.max_level none)))
      (elim (Result-cases
        (descend_mut (s.size + 1) s.cells target s.level s.head (replicate s.max_level none))) [
          | inl ((x, update), e) ↦ rw e (elim (Result-cases (next_at s.cells x 0)) [
            | inl (q, n) ↦ rw n refl
            | inr (inl (z, n)) ↦ rw n refl
            | inr (inr n) ↦ rw n refl
          ])
          | inr (inl (z, e)) ↦ rw e refl
          | inr (inr e) ↦ rw e refl
        ])

-- On any heap, where there are no more levels than `update` has room for, the search that records the pointers to
-- change finds what the other one finds, or ends by the same fault; and the copy of it in the text of `Erase`
-- finds and records the same.
pub find_greater_or_equal-find_greater_or_equal_mut :
    (s : SkipList) (target : Key)
    → s.level ≤ s.max_level
    → (find_greater_or_equal s target ≡ (find_greater_or_equal_mut s target >>= λ r. ok r.0))
      × (erase_search s target ≡ find_greater_or_equal_mut s target)
find_greater_or_equal-find_greater_or_equal_mut s target room =
    (find_agree s target room, erase_search-find_greater_or_equal_mut s target)

length-entries : (ts : List Tower) → length (entries ts) ≡ length ts
length-entries [] = refl
length-entries (t ∷ ts) = ap suc (length-entries ts)

-- What a list that holds entries does and holds next.
abbrev Simulates : Result Stuck (SkipList × Answer) → List Entry × Answer → Type 0
Simulates r q =
    (s' : SkipList) × (ts' : List Tower) × (r ≡ ok (s', q.1)) × Holds s' ts' × (entries ts' ≡ q.0)

step_lem :
    (rng : ℕ → ℕ) (s : SkipList) (ts : List Tower) (c : Command)
    → Holds s ts
    → Simulates (step rng s c) (step_entries (entries ts) c)
unfolding step step_entries
step_lem rng s ts (insert_command k v) h =
    let (s', ts', e, h', same) = insert_lem rng s ts h k v in (s', ts', rw e refl, h', same)
step_lem rng s ts (put_command k v) h =
    let (s', ts', e, h', same) = put_lem rng s ts h k v in (s', ts', rw e refl, h', same)
step_lem rng s ts (erase_command k) h =
    let (s', ts', e, h', same, _) = erase_lem s ts h k in (s', ts', rw e refl, h', same)
step_lem rng s ts (get_command k) h = (s, ts, rw (get_lem s ts h k) refl, h, refl)
step_lem rng s ts (contains_command k) h =
    (s, ts, rw (contains-get s k, get_lem s ts h k) refl, h, refl)
step_lem rng s ts size_command h =
    (s, ts, ap (λ n. ok (s, count n)) (h.size_eq ∙ sym (length-entries ts)), h, refl)
step_lem rng s ts clear_command h =
    let (s', e, h', _) = clear_lem s ts h in (s', [], rw e refl, h', refl)

-- Every sequence of calls on a list that holds entries ends, and has the answers that the same calls
-- have on the entries; the list holds the entries that result, whatever numbers `rng` gives.
pub run_lem :
    (rng : ℕ → ℕ) (cs : List Command) (s : SkipList) (ts : List Tower)
    → Holds s ts
    → let q = run_entries (entries ts) cs in
      (s' : SkipList) × (ts' : List Tower) × (run rng s cs ≡ ok (s', q.1))
      × Holds s' ts'
      × (entries ts' ≡ q.0)
unfolding run run_entries
run_lem rng [] s ts h = (s, ts, refl, h, refl)
run_lem rng (c ∷ cs) s ts h =
    let (s', ts', e, h', same) = step_lem rng s ts c h in
    let (s₂, ts₂, e₂, h₂, same₂) = run_lem rng cs s' ts' h' in
    (
      s₂,
      ts₂,
      rw (e, e₂ ∙ ap (λ es. ok (s₂, (run_entries es cs).1)) same) refl,
      h₂,
      same₂ ∙ ap (λ es. (run_entries es cs).0) same,
    )

-- Every sequence of calls on a new list ends without a fault, and has the answers that the same calls have on
-- sorted entries, from none on; the list holds the entries that result, whatever numbers `rng` gives and
-- whatever the parameters of the constructor are, negative ones included, except that `p_denominator` is not
-- below 1.
pub run-new_list :
    (rng : ℕ → ℕ) (max_level p_num p_den : ℤ) (cs : List Command)
    → int_lt p_den (pos 1) ≡ false
    → let q = run_entries [] cs in
      (s' : SkipList) × (ts' : List Tower) × ((new_list max_level p_num p_den >>= λ s. run rng s cs)
        ≡ ok (s', q.1))
      × Holds s' ts'
      × (entries ts' ≡ q.0)
run-new_list rng max_level p_num p_den cs some_range =
    let (s, made, h) = new_list-Holds max_level p_num p_den some_range in
    let (s', ts', e, h', same) = run_lem rng cs s [] h in (s', ts', rw made e, h', same)
