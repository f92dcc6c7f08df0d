-- ===== src/Sstable/DataBlock/Guards.antt =====
-- What the builder refuses, what a finished builder does, and the reader's constructor on any bytes.
use vroot_kv.Base.{
  ℕ, zero, suc, ◌+◌, ◌-◌, ◌*◌, ◌/◌, ◌%◌, ◌^◌, ◌≤◌, ◌≡◌, ◌⊎◌, inl, inr, refl, sym, ap, ◌∙◌, arith,
}
use vroot_kv.Base.{List, [], ◌∷◌, ◌++◌, length, length-append, length-take, length-drop, take, drop}
use vroot_kv.Base.{
  Bool, true, false, not, ◌&&◌, ltb, ltb→le, Bool-cases, if◌then◌else◌, ok, err, ◌>>=◌,
}
use mathlib.Core.Path.{subst}
use vroot_kv.Codec.Bytes.{u32}
use vroot_kv.Codec.Fixed.{to_le, length-to_le, put_fixed32, decode_fixed32, from_le_inside}
use vroot_kv.Key.{Key, key_lt}
use vroot_kv.Sstable.DataBlock.Builder.{DataBlockBuilder, already_finished, not_increasing}
use vroot_kv.Sstable.DataBlock.Builder.{
  new_builder, shared_prefix, is_empty, append_entry, add, put_all, finish, current_size,
}
use vroot_kv.Sstable.DataBlock.Reader.{
  BlockError, block_too_small, corrupt, DataBlockReader, read_offsets, new_reader,
}
use vroot_kv.Sstable.DataBlock.Layout.{Run, Ascending, IsSorted}
use vroot_kv.Sstable.DataBlock.Build.{add_all, build}
use vroot_kv.Sstable.DataBlock.Build.Add.{Follows, Chain, if_third, if_fourth}
use vroot_kv.Sstable.DataBlock.Build.Finish.{finish_open}

-- The guard of `Add` decides the order that it asks for.
guard_false : (last k : Key) → (not (is_empty last) && not (key_lt last k)) ≡ false → Follows last k
guard_false [] k h = inl refl
guard_false (x ∷ xs) k h = elim (Bool-cases (key_lt (x ∷ xs) k)) [
  | inl less ↦ inr less
  | inr more ↦ absurd (cc (rw more at h))
]

-- `Add` to an open builder throws, or takes the key and stays open.
add_step :
    (b : DataBlockBuilder) (k : Key) (v : List ℕ)
    → b.finished ≡ false
    → (add b k v ≡ err not_increasing)
      ⊎ (Follows b.last_key k
          × ((b' : DataBlockBuilder) × (add b k v ≡ ok b')
              × (b'.last_key ≡ k)
              × (b'.finished ≡ false)))
unfolding add append_entry
add_step b k v unfinished =
    elim (Bool-cases (not (is_empty b.last_key) && not (key_lt b.last_key k))) [
      | inl bad ↦ inl (rw (unfinished, bad) refl)
      | inr good ↦ inr (
        guard_false b.last_key k good,
        elim (Bool-cases (ltb b.counter b.restart_interval)) [
          | inl more ↦ (
            append_entry b (shared_prefix b.last_key k) k v,
            if_third b.finished _ _ (err already_finished) (err not_increasing) _ _ unfinished good
                more,
            refl,
            unfinished,
          )
          | inr full ↦ (
            append_entry
                (record b { restarts = b.restarts ++ (u32 (length b.buffer) ∷ []); counter = 0 }) 0
                k v,
            if_fourth b.finished _ _ (err already_finished) (err not_increasing) _ _ unfinished good
                full,
            refl,
            unfinished,
          )
        ],
      )
    ]

add_all_rejects :
    (es : Run) (b : DataBlockBuilder)
    → b.finished ≡ false
    → (Chain b.last_key es → ⊥)
    → add_all b es ≡ err not_increasing
unfolding add_all
add_all_rejects [] b unfinished bad = absurd (bad tt)
add_all_rejects ((k, v) ∷ es) b unfinished bad = elim (add_step b k v unfinished) [
  | inl refused ↦ rw refused refl
  | inr (f, (b', e, last, still)) ↦
      rw e (add_all_rejects es b' still (λ c. bad (f, subst (λ q. Chain q es) last c)))
]

-- The entries behind the empty keys that come first.
abbrev pub behind_empty : Run → Run
behind_empty [] = []
behind_empty (([], v) ∷ es) = behind_empty es
behind_empty ((x ∷ xs, v) ∷ es) = (x ∷ xs, v) ∷ es

Chain-Ascending : (x : ℕ) (xs : Key) (es : Run) → Chain (x ∷ xs) es → Ascending (x ∷ xs) es
unfolding key_lt
Chain-Ascending x xs [] c = tt
Chain-Ascending x xs ((k, v) ∷ es) (inl e, c) = absurd (cc e)
Chain-Ascending x xs (([], v) ∷ es) (inr less, c) = absurd (cc less)
Chain-Ascending x xs ((y ∷ ys, v) ∷ es) (inr less, c) = (less, Chain-Ascending y ys es c)

-- What `Add` accepts is strictly increasing, and only the empty key may come several times.
Chain-IsSorted : (es : Run) → Chain [] es → IsSorted (behind_empty es)
Chain-IsSorted [] c = tt
Chain-IsSorted (([], v) ∷ es) (f, c) = Chain-IsSorted es c
Chain-IsSorted ((x ∷ xs, v) ∷ es) (f, c) = Chain-Ascending x xs es c

-- Where the keys, from the first that is not empty on, are not strictly increasing, the builder throws, and no
-- block is built. Empty keys that come first are not looked at, however many there are.
pub build_rejects :
    (interval : ℕ) (es : Run)
    → (IsSorted (behind_empty es) → ⊥)
    → build interval es ≡ err not_increasing
unfolding build new_builder
build_rejects interval es bad =
    ap (λ r. r >>= λ b. ok (finish b).1)
      (add_all_rejects es (new_builder interval) refl (λ c. bad (Chain-IsSorted es c)))

length-put_all : (dst offs : List ℕ) → length (put_all dst offs) ≡ length dst + 4 * length offs
unfolding put_all put_fixed32
length-put_all dst [] = omega arith
length-put_all dst (off ∷ offs) = omega (
  arith,
  length-put_all (dst ++ to_le 4 off) offs,
  length-append dst (to_le 4 off),
  length-to_le 4 off,
)

-- `CurrentSize` of an open builder says how many bytes the block has that `Finish` returns.
pub length-finish :
    (b : DataBlockBuilder) → b.finished ≡ false → length (finish b).1 ≡ current_size b
unfolding current_size put_fixed32
length-finish b unfinished =
    ap (length {A = ℕ}) (finish_open b unfinished)
    ∙ omega (
      arith,
      length-append (put_all b.buffer b.restarts) (to_le 4 (length b.restarts % 2 ^ 32)),
      length-to_le 4 (length b.restarts % 2 ^ 32),
      length-put_all b.buffer b.restarts,
    )

if_false {ℓ} : {A : Type ℓ} (c : Bool) (x y : A) → c ≡ false → (if c then x else y) ≡ y
if_false c x y p = rw p refl

closed_finish : (b : DataBlockBuilder) → b.finished ≡ true → finish b ≡ (b, b.buffer)
unfolding finish
closed_finish b closed = rw closed refl

-- `Finish` closes the builder, which then holds the block.
finish_closes :
    (b : DataBlockBuilder) → ((finish b).0.finished ≡ true) × ((finish b).0.buffer ≡ (finish b).1)
finish_closes b = elim (Bool-cases b.finished) [
  | inl closed ↦ (
    ap (λ (p : DataBlockBuilder × List ℕ). p.0.finished) (closed_finish b closed) ∙ closed,
    ap (λ (p : DataBlockBuilder × List ℕ). p.0.buffer) (closed_finish b closed)
        ∙ sym (ap (λ (p : DataBlockBuilder × List ℕ). p.1) (closed_finish b closed)),
  )
  | inr unfinished ↦
      unfold finish in
      (
        ap (λ (p : DataBlockBuilder × List ℕ). p.0.finished) (if_false b.finished _ _ unfinished),
        ap (λ (p : DataBlockBuilder × List ℕ). p.0.buffer) (if_false b.finished _ _ unfinished)
            ∙ sym
                (ap (λ (p : DataBlockBuilder × List ℕ). p.1) (if_false b.finished _ _ unfinished)),
      )
]

closed_add :
    (b : DataBlockBuilder) (k : Key) (v : List ℕ)
    → b.finished ≡ true
    → add b k v ≡ err already_finished
unfolding add
closed_add b k v closed = rw closed refl

-- A builder that was finished does not change: `Finish` again returns the same block, and `Add` throws.
pub finish_is_final :
    (b : DataBlockBuilder) (k : Key) (v : List ℕ)
    → (finish (finish b).0 ≡ finish b) × (add (finish b).0 k v ≡ err already_finished)
finish_is_final b k v =
    let h = finish_closes b in
    (
      closed_finish (finish b).0 h.0 ∙ ap (λ bs. ((finish b).0, bs)) h.1,
      closed_add (finish b).0 k v h.0,
    )

read_offsets_total :
    (num : ℕ) (p : List ℕ)
    → num * 4 ≤ length p
    → (offs : List ℕ) × (read_offsets num p ≡ ok offs) × (length offs ≡ num)
unfolding read_offsets decode_fixed32
read_offsets_total zero p h = ([], refl, refl)
read_offsets_total (suc num) p h =
    let (off, e) = from_le_inside {E = BlockError} 4 p (omega arith) in
    let (offs, es, n) = read_offsets_total num (drop 4 p) (omega (arith, length-drop 4 p)) in
    (off ∷ offs, rw (e, es) refl, omega arith)

-- The constructor of the reader throws, or splits the block into entries and restart offsets that
-- with the trailer make up its whole size: it reads no byte outside the block, whatever the bytes are.
new_reader_total :
    (block : List ℕ)
    → ((e : BlockError) × (new_reader block ≡ err e))
      ⊎ ((r : DataBlockReader) × (new_reader block ≡ ok r)
          × (length r.entries + 4 * length r.restarts + 4 ≡ length block))
unfolding new_reader decode_fixed32
new_reader_total block = elim (Bool-cases (ltb (length block) 4)) [
  | inl short ↦ inl (block_too_small, rw short refl)
  | inr long ↦
      let fits : 4 ≤ length block = ltb→le _ 4 long in
      let (num, en) =
        from_le_inside {E = BlockError} 4 (drop (length block - 4) block)
          (omega (arith, length-drop (length block - 4) block)) in
      elim (Bool-cases (ltb (length block / 4) num)) [
        | inl many ↦ inl (corrupt, rw (long, en, many) refl)
        | inr few ↦ elim (Bool-cases (ltb (length block) (4 + num * 4))) [
          | inl over ↦ inl (corrupt, rw (long, en, few, over) refl)
          | inr under ↦
              let room : 4 + num * 4 ≤ length block = ltb→le _ _ under in
              let (offs, eo, n) =
                read_offsets_total num (drop (length block - 4 - num * 4) block)
                  (omega (arith, length-drop (length block - 4 - num * 4) block)) in
              inr (
                record { entries = take (length block - 4 - num * 4) block; restarts = offs },
                rw (long, en, few, under, eo) refl,
                omega (arith, length-take (length block - 4 - num * 4) block),
              )
        ]
      ]
]
