-- ===== src/Memtable/Chain.antt =====
-- The heap as a list of towers: at each level a tower points to the next tower that is tall enough.
use vroot_kv.Base.{ℕ, zero, suc, ◌≤◌, ◌<◌, ◌≡◌, ◌≢◌, refl, sym, ap, ◌∙◌, arith}
use vroot_kv.Base.{ltb, lt→ltb, le→ltb, if◌then◌else◌, Option, none, some, ok}
use vroot_kv.Base.{List, [], ◌∷◌, ◌++◌, get_elem?, set, replicate, All}
use vroot_kv.Key.{Key}
use vroot_kv.Memtable.{Value, Ptr, Node, Cells, write, load, link, next_at}

-- A node at its address, without its pointers; its height is the length of `next_`.
pub record Tower : Type 0 where
  pub ptr : Ptr
  pub key : Key
  pub value : Value
  pub height : ℕ

-- Where the chains lead behind the towers that are in view, by level.
abbrev pub Links : Type 0
Links = ℕ → Option Ptr

-- Where the chain of a level leads: to the first tower that has the level.
unfoldable pub first_at : ℕ → List Tower → Links → Option Ptr
first_at l [] behind = behind l
first_at l (t ∷ ts) behind = if ltb l t.height then some t.ptr else first_at l ts behind

abbrev pub tabulate : ℕ → Links → List (Option Ptr)
tabulate zero f = []
tabulate (suc k) f = f 0 ∷ tabulate k (λ i. f (suc i))

-- The node of a tower that the towers `ts` follow.
unfoldable pub node_of : Tower → List Tower → Links → Node
node_of t ts behind = record {
  key = t.key;
  value = t.value;
  next = tabulate t.height (λ l. first_at l ts behind);
}

-- The heap holds the towers, linked in this order.
abbrev pub Chain : Cells → List Tower → Links → Type 0
Chain cells [] behind = Unit {0}
Chain cells (t ∷ ts) behind = (cells t.ptr ≡ some (node_of t ts behind)) × Chain cells ts behind

pub get_elem?-tabulate :
    (k : ℕ) (f : Links) (i : ℕ) → i < k → get_elem? (tabulate k f) i ≡ some (f i)
get_elem?-tabulate zero f i h = absurd (omega arith)
get_elem?-tabulate (suc k) f zero h = refl
get_elem?-tabulate (suc k) f (suc i) h = get_elem?-tabulate k (λ j. f (suc j)) i (omega arith)

pub tabulate_cong :
    (k : ℕ) (f g : Links) → ((i : ℕ) → i < k → f i ≡ g i) → tabulate k f ≡ tabulate k g
tabulate_cong zero f g h = refl
tabulate_cong (suc k) f g h =
    let rest = tabulate_cong k (λ i. f (suc i)) (λ i. g (suc i)) (λ i p. h (suc i) (omega arith)) in
    let first = h 0 (omega arith) in cc

pub set-tabulate :
    (k : ℕ) (f g : Links) (i : ℕ) (v : Option Ptr)
    → g i ≡ v
    → ((j : ℕ) → j ≢ i → g j ≡ f j)
    → set (tabulate k f) i v ≡ tabulate k g
set-tabulate zero f g i v e h = refl
set-tabulate (suc k) f g zero v e h =
    let rest =
      tabulate_cong k (λ j. f (suc j)) (λ j. g (suc j))
        (λ j p. sym (h (suc j) (λ q. absurd (omega (arith, q))))) in
    cc
set-tabulate (suc k) f g (suc i) v e h =
    let rest =
      set-tabulate k (λ j. f (suc j)) (λ j. g (suc j)) i v e
        (λ j n. h (suc j) (λ q. n (omega (arith, q)))) in
    let first = h 0 (λ q. absurd (omega (arith, q))) in cc

pub replicate-tabulate : (k : ℕ) → replicate k none ≡ tabulate k (λ l. none)
replicate-tabulate zero = refl
replicate-tabulate (suc k) = ap (λ ps. none ∷ ps) (replicate-tabulate k)

-- A tower that is too low for a level is passed over.
abbrev pub Below : ℕ → List Tower → Type 0
Below i ts = All (λ t. t.height ≤ i) ts

pub first_at-Below :
    (l : ℕ) (ts : List Tower) (behind : Links) → Below l ts → first_at l ts behind ≡ behind l
unfolding first_at
first_at-Below l [] behind b = refl
first_at-Below l (t ∷ ts) behind b = rw (le→ltb l t.height b.0) (first_at-Below l ts behind b.1)

pub first_at-append :
    (l : ℕ) (xs ys : List Tower) (behind : Links)
    → first_at l (xs ++ ys) behind ≡ first_at l xs (λ j. first_at j ys behind)
unfolding first_at
first_at-append l [] ys behind = refl
first_at-append l (x ∷ xs) ys behind =
    ap (λ q. if ltb l x.height then some x.ptr else q) (first_at-append l xs ys behind)

-- Only the link of the level matters.
pub first_at_cong :
    (l : ℕ) (ts : List Tower) (b b' : Links) → b l ≡ b' l → first_at l ts b ≡ first_at l ts b'
unfolding first_at
first_at_cong l [] b b' h = h
first_at_cong l (t ∷ ts) b b' h =
    ap (λ q. if ltb l t.height then some t.ptr else q) (first_at_cong l ts b b' h)

-- Where a tower has the level, nothing behind matters.
pub first_at_stops :
    (l : ℕ) (xs : List Tower) (p : Tower) (ys : List Tower) (b b' : Links)
    → l < p.height
    → first_at l (xs ++ (p ∷ ys)) b ≡ first_at l (xs ++ (p ∷ ys)) b'
unfolding first_at
first_at_stops l [] p ys b b' h = rw (lt→ltb l p.height h) refl
first_at_stops l (x ∷ xs) p ys b b' h =
    ap (λ q. if ltb l x.height then some x.ptr else q) (first_at_stops l xs p ys b b' h)

pub node_of_cong :
    (t : Tower) (ts us : List Tower) (b b' : Links)
    → ((l : ℕ) → l < t.height → first_at l ts b ≡ first_at l us b')
    → node_of t ts b ≡ node_of t us b'
unfolding node_of
node_of_cong t ts us b b' h =
    ap (λ ps. record { key = t.key; value = t.value; next = ps })
      (tabulate_cong t.height (λ l. first_at l ts b) (λ l. first_at l us b') h)

-- Links that agree below the heights of the towers give the same chain.
pub Chain-cong :
    (cells : Cells) (ts : List Tower) (b b' : Links)
    → ((l : ℕ) → b l ≡ b' l)
    → Chain cells ts b
    → Chain cells ts b'
Chain-cong cells [] b b' h c = tt
Chain-cong cells (t ∷ ts) b b' h c = (
  c.0 ∙ ap some (node_of_cong t ts ts b b' (λ l p. first_at_cong l ts b b' (h l))),
  Chain-cong cells ts b b' h c.1,
)

pub Chain-append :
    (cells : Cells) (xs ys : List Tower) (behind : Links)
    → Chain cells xs (λ l. first_at l ys behind)
    → Chain cells ys behind
    → Chain cells (xs ++ ys) behind
Chain-append cells [] ys behind c d = d
Chain-append cells (x ∷ xs) ys behind c d = (
  c.0
      ∙ ap some
          (node_of_cong x xs (xs ++ ys) _ behind (λ l p. sym (first_at-append l xs ys behind))),
  Chain-append cells xs ys behind c.1 d,
)

pub Chain-split :
    (cells : Cells) (xs ys : List Tower) (behind : Links)
    → Chain cells (xs ++ ys) behind
    → Chain cells xs (λ l. first_at l ys behind) × Chain cells ys behind
Chain-split cells [] ys behind c = (tt, c)
Chain-split cells (x ∷ xs) ys behind c =
    let (front, back) = Chain-split cells xs ys behind c.1 in
    (
      (
        c.0
            ∙ ap some
                (node_of_cong x (xs ++ ys) xs behind _ (λ l p. first_at-append l xs ys behind)),
        front,
      ),
      back,
    )

-- Addresses that are not those of some towers.
abbrev pub Apart : Ptr → List Tower → Type 0
Apart p ts = All (λ t. t.ptr ≢ p) ts

-- A chain lives at its own addresses.
pub Chain-frame :
    (cells cells' : Cells) (ts : List Tower) (behind : Links)
    → All (λ t. cells' t.ptr ≡ cells t.ptr) ts
    → Chain cells ts behind
    → Chain cells' ts behind
Chain-frame cells cells' [] behind same c = tt
Chain-frame cells cells' (t ∷ ts) behind same c =
    (same.0 ∙ c.0, Chain-frame cells cells' ts behind same.1 c.1)

pub write_other :
    (cells : Cells) (p : Ptr) (c : Option Node) (q : Ptr) → q ≢ p → write cells p c q ≡ cells q
unfolding write
write_other cells p c q h = ground arith

pub write_self : (cells : Cells) (p : Ptr) (c : Option Node) → write cells p c p ≡ c
unfolding write
write_self cells p c = ground arith

pub All-map {ℓ κ ι} :
    {A : Type ℓ} (P : A → Type κ) (Q : A → Type ι) (xs : List A)
    → ((x : A) → P x → Q x)
    → All P xs
    → All Q xs
All-map P Q [] f a = tt
All-map P Q (x ∷ xs) f a = (f x a.0, All-map P Q xs f a.1)

pub Chain-write :
    (cells : Cells) (p : Ptr) (c : Option Node) (ts : List Tower) (behind : Links)
    → Apart p ts
    → Chain cells ts behind
    → Chain (write cells p c) ts behind
Chain-write cells p c ts behind apart = Chain-frame cells (write cells p c) ts behind (
    All-map (λ t. t.ptr ≢ p) (λ t. write cells p c t.ptr ≡ cells t.ptr) ts
      (λ t n. write_other cells p c t.ptr n) apart)

-- What the code reads in a chain.
pub load_lem : (cells : Cells) (p : Ptr) (n : Node) → cells p ≡ some n → load cells p ≡ ok n
unfolding load
load_lem cells p n e = rw (e, load) refl

pub link-tabulate : (k : ℕ) (f : Links) (i : ℕ) → i < k → link (tabulate k f) i ≡ ok (f i)
unfolding link
link-tabulate k f i h = rw (get_elem?-tabulate k f i h, link) refl

pub next_at-Chain :
    (cells : Cells) (t : Tower) (ts : List Tower) (behind : Links) (i : ℕ)
    → Chain cells (t ∷ ts) behind
    → i < t.height
    → next_at cells t.ptr i ≡ ok (first_at i ts behind)
unfolding next_at node_of
next_at-Chain cells t ts behind i c h =
    rw (load_lem cells t.ptr _ c.0) (link-tabulate t.height (λ l. first_at l ts behind) i h)
