-- ===== src/Sstable/DataBlock/Build/Add.antt =====
-- `DataBlockBuilder::Add` puts each entry into its run.
use vroot_kv.Base.{ℕ, ◌+◌, ◌*◌, ◌^◌, ◌≤◌, ◌<◌, ◌≡◌, ◌⊎◌, inl, inr, refl, sym, ap, ◌∙◌, arith}
use vroot_kv.Base.{List, [], ◌∷◌, ◌++◌, append_assoc, append-nil, length, length-append, All}
use vroot_kv.Base.{Bool, true, false, not, ◌&&◌, ltb, Bool-cases, if◌then◌else◌, ok, err}
use mathlib.Core.Path.{ap₂, subst}
use vroot_kv.Codec.Bytes.{u32}
use vroot_kv.Key.{Key, key_lt}
use vroot_kv.Sstable.DataBlock.Builder.{DataBlockBuilder, already_finished, not_increasing}
use vroot_kv.Sstable.DataBlock.Builder.{shared_prefix, is_empty, add}
use vroot_kv.Sstable.DataBlock.Layout.{
  Run, entry_bytes, encode_run, encode_runs, IsEntry, Ascending, IsSorted,
}
use vroot_kv.Sstable.DataBlock.Layout.Parts.{length-entry_bytes, shared_prefix-empty}
use vroot_kv.Sstable.DataBlock.Layout.Runs.{encode_runs-append}
use vroot_kv.Sstable.DataBlock.Build.{
  add_all, Runs, runs, place, place_all, last_key, encode_run-append, last_key-append,
  run_offsets-append, append_entry_lem, Holds,
}

-- The order that `Add` asks for.
abbrev pub Follows : Key → Key → Type 0
Follows last k = (is_empty last ≡ true) ⊎ (key_lt last k ≡ true)

pub order_ok :
    (last k : Key) → Follows last k → (not (is_empty last) && not (key_lt last k)) ≡ false
order_ok [] k f = refl
order_ok (x ∷ xs) k (inl e) = cc
order_ok (x ∷ xs) k (inr less) = rw less refl

-- `if (c1) x; if (c2) y; if (c3) z; else w;`
pub if_third {ℓ} :
    {A : Type ℓ} (c1 c2 c3 : Bool) (x y z w : A)
    → c1 ≡ false
    → c2 ≡ false
    → c3 ≡ true
    → (if c1 then x else if c2 then y else if c3 then z else w) ≡ z
if_third c1 c2 c3 x y z w p q r = rw (p, q, r) refl

pub if_fourth {ℓ} :
    {A : Type ℓ} (c1 c2 c3 : Bool) (x y z w : A)
    → c1 ≡ false
    → c2 ≡ false
    → c3 ≡ false
    → (if c1 then x else if c2 then y else if c3 then z else w) ≡ w
if_fourth c1 c2 c3 x y z w p q r = rw (p, q, r) refl

module _ (interval : ℕ) (b : DataBlockBuilder) (l : Runs) (k : Key) (v : List ℕ)
    (h : Holds interval b l) (e : IsEntry (k, v)) (f : Follows b.last_key k)
    (small : length b.buffer < 2 ^ 32) where
  -- within the run
  abbrev grown : DataBlockBuilder
  grown = record b {
    buffer = b.buffer ++ entry_bytes (shared_prefix b.last_key k) k v;
    last_key = k;
    counter = b.counter + 1;
  }

  add_within : ltb (length l.cur) interval ≡ true → add b k v ≡ ok grown
  unfolding add
  add_within more =
      if_third b.finished (not (is_empty b.last_key) && not (key_lt b.last_key k))
        (ltb b.counter b.restart_interval) (err already_finished) (err not_increasing) _ _ h.open_eq
        (order_ok b.last_key k f) (ap₂ ltb h.counter_eq h.interval_eq ∙ more)
      ∙ ap ok (append_entry_lem b (shared_prefix b.last_key k) k v e)

  grown-Holds : Holds interval grown (record { done = l.done; cur = l.cur ++ ((k, v) ∷ []) })
  grown-Holds = record {
    buffer_eq = buffer_grown;
    restarts_eq =
        h.restarts_eq
        ∙ run_offsets-append 0 l.done l.cur
        ∙ sym (run_offsets-append 0 l.done (l.cur ++ ((k, v) ∷ [])));
    last_eq = sym (last_key-append [] l.cur k v);
    interval_eq = h.interval_eq;
    counter_eq = omega (arith, h.counter_eq, length-append l.cur ((k, v) ∷ []));
    open_eq = h.open_eq;
  }
    where
      one_run : (r : Run) → encode_runs (r ∷ []) ≡ encode_run [] r
      one_run r = unfold encode_runs in append-nil (encode_run [] r)

      buffer_grown :
          b.buffer ++ entry_bytes (shared_prefix b.last_key k) k v
          ≡ encode_runs (l.done ++ ((l.cur ++ ((k, v) ∷ [])) ∷ []))
      buffer_grown =
          ap₂ (λ bs p. bs ++ entry_bytes (shared_prefix p k) k v)
            (h.buffer_eq ∙ encode_runs-append l.done (l.cur ∷ [])) h.last_eq
          ∙ append_assoc (encode_runs l.done) (encode_runs (l.cur ∷ [])) _
          ∙ ap (λ bs. encode_runs l.done ++ bs)
              (ap (λ bs. bs ++ entry_bytes (shared_prefix (last_key [] l.cur) k) k v)
                  (one_run l.cur)
                ∙ sym (encode_run-append [] l.cur k v)
                ∙ sym (one_run (l.cur ++ ((k, v) ∷ []))))
          ∙ sym (encode_runs-append l.done ((l.cur ++ ((k, v) ∷ [])) ∷ []))

  -- at the start of a run
  abbrev restarted : DataBlockBuilder
  restarted = record b {
    buffer = b.buffer ++ entry_bytes 0 k v;
    restarts = b.restarts ++ (length b.buffer ∷ []);
    last_key = k;
    counter = 1;
  }

  add_restart : ltb (length l.cur) interval ≡ false → add b k v ≡ ok restarted
  unfolding add
  add_restart full =
      if_fourth b.finished (not (is_empty b.last_key) && not (key_lt b.last_key k))
        (ltb b.counter b.restart_interval) (err already_finished) (err not_increasing) _ _ h.open_eq
        (order_ok b.last_key k f) (ap₂ ltb h.counter_eq h.interval_eq ∙ full)
      ∙ ap ok (
          append_entry_lem
            (record b { restarts = b.restarts ++ (u32 (length b.buffer) ∷ []); counter = 0 }) 0 k v
            e)
      ∙ ap (λ n. ok (record restarted { restarts = b.restarts ++ (n ∷ []) })) (omega arith)

  restarted-Holds :
      Holds interval restarted (record { done = l.done ++ (l.cur ∷ []); cur = (k, v) ∷ [] })
  restarted-Holds = record {
    buffer_eq =
        ap₂ (λ bs s. bs ++ entry_bytes s k v) h.buffer_eq (sym (shared_prefix-empty k))
        ∙ ap (λ bs. encode_runs (runs l) ++ bs) (sym new_run)
        ∙ sym (encode_runs-append (runs l) (((k, v) ∷ []) ∷ []));
    restarts_eq =
        ap₂ (λ offs n. offs ++ (n ∷ [])) h.restarts_eq
          (ap (length {A = ℕ}) h.buffer_eq ∙ omega arith)
        ∙ sym (run_offsets-append 0 (runs l) ((k, v) ∷ []));
    last_eq = refl;
    interval_eq = h.interval_eq;
    counter_eq = omega arith;
    open_eq = h.open_eq;
  }
    where
      new_run : encode_runs (((k, v) ∷ []) ∷ []) ≡ entry_bytes (shared_prefix [] k) k v
      new_run = unfold encode_runs encode_run in append-nil _ ∙ append-nil _

-- The bytes that an entry takes at most: its header, its key and value, and a restart offset.
abbrev pub weight : Run → ℕ
weight [] = 0
weight ((k, v) ∷ es) = 16 + length k + length v + weight es

abbrev pub used : DataBlockBuilder → ℕ
used b = length b.buffer + 4 * length b.restarts + 4

-- `Add` puts the entry in its place.
add-Holds :
    (interval : ℕ) (b : DataBlockBuilder) (l : Runs) (k : Key) (v : List ℕ)
    → Holds interval b l
    → IsEntry (k, v)
    → Follows b.last_key k
    → length b.buffer < 2 ^ 32
    → (b' : DataBlockBuilder) × (add b k v ≡ ok b')
      × Holds interval b' (place interval l (k, v))
      × (b'.last_key ≡ k)
      × (used b' ≤ used b + 16 + length k + length v)
add-Holds interval b l k v h e f small = elim (Bool-cases (ltb (length l.cur) interval)) [
  | inl more ↦ (
    grown interval b l k v h e f small,
    add_within interval b l k v h e f small more,
    rw more (grown-Holds interval b l k v h e f small),
    refl,
    omega (
      arith,
      length-append b.buffer (entry_bytes (shared_prefix b.last_key k) k v),
      length-entry_bytes (shared_prefix b.last_key k) k v,
    ),
  )
  | inr full ↦ (
    restarted interval b l k v h e f small,
    add_restart interval b l k v h e f small full,
    rw full (restarted-Holds interval b l k v h e f small),
    refl,
    omega (
      arith,
      length-append b.buffer (entry_bytes 0 k v),
      length-entry_bytes 0 k v,
      length-append b.restarts (length b.buffer ∷ []),
    ),
  )
]

-- Keys in the order that `Add` asks for, from the last key on.
abbrev pub Chain : Key → Run → Type 0
Chain last [] = Unit {0}
Chain last ((k, v) ∷ es) = Follows last k × Chain k es

Ascending-Chain : (last : Key) (es : Run) → Ascending last es → Chain last es
Ascending-Chain last [] h = tt
Ascending-Chain last ((k, v) ∷ es) h = (inr h.0, Ascending-Chain k es h.1)

pub IsSorted-Chain : (es : Run) → IsSorted es → Chain [] es
IsSorted-Chain [] h = tt
IsSorted-Chain ((k, v) ∷ es) h = (inl refl, Ascending-Chain k es h)

pub add_all-Holds :
    (interval : ℕ) (es : Run) (b : DataBlockBuilder) (l : Runs)
    → Holds interval b l
    → Chain b.last_key es
    → All IsEntry es
    → used b + weight es < 2 ^ 32
    → (b' : DataBlockBuilder) × (add_all b es ≡ ok b')
      × Holds interval b' (place_all interval l es)
      × (used b' < 2 ^ 32)
unfolding add_all
add_all-Holds interval [] b l h c e fits = (b, refl, h, omega arith)
add_all-Holds interval ((k, v) ∷ es) b l h c e fits =
    let (b₁, e₁, h₁, last₁, used₁) = add-Holds interval b l k v h e.0 c.0 (omega arith) in
    let (b₂, e₂, h₂, used₂) =
      add_all-Holds interval es b₁ (place interval l (k, v)) h₁
        (subst (λ q. Chain q es) (sym last₁) c.1) e.1 (omega arith) in
    (b₂, rw e₁ e₂, h₂, used₂)
