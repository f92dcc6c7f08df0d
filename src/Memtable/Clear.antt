-- ===== src/Memtable/Clear.antt =====
-- The constructor, `Clear` and the destructor.
use vroot_kv.Base.{
  ℕ, zero, suc, ◌+◌, ◌<◌, ◌≤◌, ◌≡◌, false, ◌≢◌, inl, inr, refl, sym, ap, ◌∙◌, arith, ltb,
  Bool-cases, ltb→le, if◌then◌else◌,
}
use vroot_kv.Base.{none, some, ok}
use vroot_kv.Base.{List, [], ◌∷◌, length}
use vroot_kv.Memtable.{
  Ptr, Node, Cells, SkipList, write, set_next, ℤ, pos, negsuc, int_lt, to_nat, made_list, new_list,
  free_all, reset_head, clear, destroy,
}
use vroot_kv.Memtable.Chain.{
  Tower, Links, first_at, tabulate, node_of, Chain, Apart, set-tabulate, replicate-tabulate,
  tabulate_cong, Chain-write, load_lem, link-tabulate, next_at-Chain, write_self, write_other,
}
use vroot_kv.Memtable.Relink.{Distinct}
use vroot_kv.Memtable.Search.{null}
use vroot_kv.Memtable.Holds.{head_of, Tall, Holds, front, first_at-front}
use native.Mathlib.Decide.{ℕ_discrete}

-- The loop deletes every node of the chain, and leaves the other cells alone.
free_all_lem :
    (level : ℕ) (ts : List Tower) (cells : Cells)
    → Chain cells ts null
    → Distinct ts
    → Tall level ts
    → (cells' : Cells) × (free_all (length ts) cells (front ts) ≡ ok cells')
      × ((q : Ptr) → (Apart q ts → cells q ≡ none) → cells' q ≡ none)
      × ((q : Ptr) → Apart q ts → cells' q ≡ cells q)
unfolding free_all
free_all_lem level [] cells c d t = (cells, refl, λ q f. f tt, λ q a. refl)
free_all_lem level (x ∷ xs) cells c d t =
    let cells₁ = write cells x.ptr none in
    let (cells', e, gone, frame) =
      free_all_lem level xs cells₁ (Chain-write cells x.ptr none xs null d.0 c.1) d.1 t.1 in
    (
      cells',
      rw (next_at-Chain cells x xs null 0 c t.0.0, first_at-front level xs t.1) e,
      λ q f. gone q (λ a. elim (ℕ_discrete q x.ptr) [
        | yes same ↦ ap cells₁ same ∙ write_self cells x.ptr none
        | no ne ↦ write_other cells x.ptr none q ne ∙ f (λ e. ne (sym e), a)
      ]),
      λ q a. frame q a.1 ∙ write_other cells x.ptr none q (λ e. a.0 (sym e)),
    )

module _ (head : Tower) (f : Links) where
  -- The sentinel after `i` levels.
  abbrev reset_node : ℕ → Node
  reset_node i = record {
    key = head.key;
    value = head.value;
    next = tabulate head.height (λ l. if ltb l i then none else f l);
  }

  reset_head_lem :
      (k i : ℕ) (cells : Cells)
      → i + k ≡ head.height
      → cells head.ptr ≡ some (reset_node i)
      → (cells' : Cells) × (reset_head k i head.ptr cells ≡ ok cells')
        × (cells' head.ptr ≡ some (node_of head [] null))
        × ((q : Ptr) → q ≢ head.ptr → cells' q ≡ cells q)
  unfolding reset_head node_of first_at
  reset_head_lem zero i cells e own = (
    cells,
    refl,
    own
        ∙ ap (λ links. some (record { key = head.key; value = head.value; next = links }))
            (tabulate_cong head.height _ null (λ l less. ground arith)),
    λ q ne. refl,
  )
  reset_head_lem (suc k) i cells e own =
      let cells₁ = write cells head.ptr (some (reset_node (i + 1))) in
      let (cells', e', own', frame) =
        reset_head_lem k (i + 1) cells₁ (omega arith) (write_self cells head.ptr _) in
      (
        cells',
        rw (step i cells (omega arith) own) e',
        own',
        λ q ne. frame q ne ∙ write_other cells head.ptr _ q ne,
      )
    where
      step :
          (j : ℕ) (heap : Cells)
          → j < head.height
          → heap head.ptr ≡ some (reset_node j)
          → set_next heap head.ptr j none ≡ ok (write heap head.ptr (some (reset_node (j + 1))))
      step j heap less at_head =
          unfold set_next in
          rw
            (
              load_lem heap head.ptr _ at_head,
              link-tabulate head.height (λ l. if ltb l j then none else f l) j less,
              set-tabulate head.height (λ l. if ltb l j then none else f l)
                  (λ l. if ltb l (j + 1) then none else f l) j none (ground arith)
                  (λ l ne. ground arith),
            )
            refl

-- The heap of a cleared list has the sentinel and nothing else.
module _ (s : SkipList) (ts : List Tower) (h : Holds s ts) where
  pub clear_lem : (s' : SkipList) × (clear s ≡ ok s') × Holds s' [] × (s'.level ≡ 1)
  unfolding clear
  clear_lem =
      let (cells₁, e₁, gone, frame) =
        free_all_lem s.level ts s.cells h.chain.1 h.distinct.1 h.heights in
      let (cells₂, e₂, own, frame₂) =
        reset_head_lem (head_of s) (λ l. first_at l ts null) s.max_level 0 cells₁ (omega arith)
          (frame s.head h.distinct.0 ∙ h.chain.0 ∙ head_node) in
      (
        record s { level = 1; size = 0; cells = cells₂ },
        rw
            (
              next_at-Chain s.cells (head_of s) ts null 0 h.chain
                  (omega (arith, h.some_level, h.level_fits)),
              first_at-front s.level ts h.heights,
              ap (λ n. free_all n s.cells (front ts)) h.size_eq ∙ e₁,
              e₂,
            )
            refl,
        record {
          chain = (own, tt);
          distinct = (tt, tt);
          old = (h.old.0, tt);
          sorted = tt;
          heights = tt;
          some_level = omega arith;
          level_fits = omega (arith, h.some_level, h.level_fits);
          size_eq = refl;
          no_leak = λ q a. frame₂ q (λ e. a.0 (sym e)) ∙ gone q (λ b. h.no_leak q (a.0, b));
        },
        refl,
      )
    where
      head_node :
          some (node_of (head_of s) ts null)
          ≡ some (reset_node (head_of s) (λ l. first_at l ts null) 0)
      head_node =
          unfold node_of in
          ap (λ links. some (record { key = []; value = []; next = links }))
            (tabulate_cong s.max_level _ _ (λ l less. ground arith))

  -- The destructor of a list that holds entries returns, without reading a deleted node, and leaves no node
  -- on the heap.
  pub destroy_lem : (s' : SkipList) × (destroy s ≡ ok s') × ((q : Ptr) → s'.cells q ≡ none)
  unfolding destroy
  destroy_lem =
      let (s', e, h', _) = clear_lem in
      (
        record s' { cells = write s'.cells s'.head none },
        rw e refl,
        λ q. elim (ℕ_discrete q s'.head) [
          | yes same ↦ ap (write s'.cells s'.head none) same ∙ write_self s'.cells s'.head none
          | no ne ↦ write_other s'.cells s'.head none q ne ∙ h'.no_leak q (λ e. ne (sym e), tt)
        ],
      )

at_least_one : (n : ℤ) → 1 ≤ (if int_lt n (pos 1) then 1 else to_nat n)
unfolding int_lt to_nat
at_least_one (negsuc n) = omega arith
at_least_one (pos n) = elim (Bool-cases (ltb n 1)) [
  | inl less ↦ rw less (omega arith)
  | inr more ↦ rw more (ltb→le n 1 more)
]

made_list-Holds : (max_level p_num p_den : ℤ) → Holds (made_list max_level p_num p_den) []
unfolding made_list node_of first_at
made_list-Holds max_level p_num p_den = record {
  chain = (
    write_self (λ p. none) 0 _
        ∙ ap (λ links. some (record { key = []; value = []; next = links }))
            (replicate-tabulate (if int_lt max_level (pos 1) then 1 else to_nat max_level)),
    tt,
  );
  distinct = (tt, tt);
  old = (omega arith, tt);
  sorted = tt;
  heights = tt;
  some_level = omega arith;
  level_fits = at_least_one max_level;
  size_eq = refl;
  no_leak = λ q a. write_other (λ p. none) 0 _ q (λ e. a.0 (sym e));
}

-- The constructor makes a list of no entries, where the range of `dist_` is not empty.
pub new_list-Holds :
    (max_level p_num p_den : ℤ)
    → int_lt p_den (pos 1) ≡ false
    → (s : SkipList) × (new_list max_level p_num p_den ≡ ok s) × Holds s []
unfolding new_list
new_list-Holds max_level p_num p_den some_range =
    (made_list max_level p_num p_den, rw some_range refl, made_list-Holds max_level p_num p_den)
