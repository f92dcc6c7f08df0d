-- ===== src/Sstable/DataBlock/Layout/Parts.antt =====
-- The parts of one entry, as the reader gets them.
use vroot_kv.Base.{ℕ, zero, suc, ◌+◌, ◌-◌, ◌^◌, ◌≤◌, ◌<◌, ◌≡◌, refl, sym, ap, ◌∙◌, arith, min}
use vroot_kv.Base.{List, [], ◌∷◌, ◌++◌, append_assoc, length, take, drop}
use vroot_kv.Base.{
  length-append, length-drop, take-append, drop-append, drop-append_right, take-append-drop,
}
use vroot_kv.Base.{ok}
use vroot_kv.Codec.Bytes.{u32}
use vroot_kv.Codec.Fixed.{to_le, decode_fixed32, length-to_le, from_le-to_le}
use vroot_kv.Key.{Key}
use vroot_kv.Sstable.DataBlock.Builder.{shared_prefix, shared_loop}
use vroot_kv.Sstable.DataBlock.Reader.{BlockError, read_header}
use vroot_kv.Sstable.DataBlock.Layout.{entry_bytes, IsEntry}

pub length-entry_bytes :
    (s : ℕ) (k : Key) (v : List ℕ) → length (entry_bytes s k v) ≡ 12 + (length k - s) + length v
unfolding entry_bytes
length-entry_bytes s k v = omega (
  arith,
  length-append (to_le 4 s) (to_le 4 (length k - s) ++ (to_le 4 (length v) ++ (drop s k ++ v))),
  length-append (to_le 4 (length k - s)) (to_le 4 (length v) ++ (drop s k ++ v)),
  length-append (to_le 4 (length v)) (drop s k ++ v),
  length-append (drop s k) v,
  length-drop s k,
  length-to_le 4 s,
  length-to_le 4 (length k - s),
  length-to_le 4 (length v),
)

-- The shared prefix is a prefix of both keys.
shared_loop_lem :
    (n : ℕ) (a b : Key)
    → (shared_loop n a b ≤ n)
      × (shared_loop n a b ≤ length a)
      × (shared_loop n a b ≤ length b)
      × (take (shared_loop n a b) a ≡ take (shared_loop n a b) b)
unfolding shared_loop
shared_loop_lem zero a b = (omega arith, omega arith, omega arith, refl)
shared_loop_lem (suc n) [] b = (omega arith, omega arith, omega arith, refl)
shared_loop_lem (suc n) (x ∷ a) [] = (omega arith, omega arith, omega arith, refl)
shared_loop_lem (suc n) (x ∷ a) (y ∷ b) = ground (arith, shared_loop_lem n a b)

pub shared_prefix-le : (a b : Key) → (shared_prefix a b ≤ length a) × (shared_prefix a b ≤ length b)
unfolding shared_prefix
shared_prefix-le a b = let h = shared_loop_lem (u32 (min (length a) (length b))) a b in (h.1, h.2)

-- The reader puts a key together from the one before it and the part that is stored.
pub shared_prefix_rebuild :
    (a b : Key) → take (shared_prefix a b) a ++ drop (shared_prefix a b) b ≡ b
unfolding shared_prefix
shared_prefix_rebuild a b =
    let h = shared_loop_lem (u32 (min (length a) (length b))) a b in rw h.3 (take-append-drop _ b)

pub shared_prefix-empty : (b : Key) → shared_prefix [] b ≡ 0
shared_prefix-empty b = omega (arith, shared_prefix-le [] b)

-- What the reader gets at the offset of an entry.
module _ (front rest : List ℕ) (s : ℕ) (k : Key) (v : List ℕ) (s_fits : s < 2 ^ 32)
    (e : IsEntry (k, v)) where
  abbrev whole : List ℕ
  whole = front ++ (entry_bytes s k v ++ rest)

  -- The entry from its second, third, fourth and fifth part on.
  abbrev tail2 : List ℕ
  tail2 = to_le 4 (length k - s) ++ (to_le 4 (length v) ++ (drop s k ++ (v ++ rest)))

  abbrev tail3 : List ℕ
  tail3 = to_le 4 (length v) ++ (drop s k ++ (v ++ rest))

  parts : entry_bytes s k v ++ rest ≡ to_le 4 s ++ tail2
  unfolding entry_bytes
  parts = simp append_assoc

  behind :
      (n : ℕ) (skipped left : List ℕ)
      → to_le 4 s ++ tail2 ≡ skipped ++ left
      → length skipped ≡ n
      → drop (length front + n) whole ≡ left
  behind n skipped left split size =
      drop-append_right n front (entry_bytes s k v ++ rest)
      ∙ ap (drop n) (parts ∙ split)
      ∙ drop-append n skipped left size

  at_entry : drop (length front) whole ≡ to_le 4 s ++ tail2
  at_entry = ap (λ n. drop n whole) (omega arith) ∙ behind 0 [] (to_le 4 s ++ tail2) refl refl

  at_nonshared : drop (length front + 4) whole ≡ tail2
  at_nonshared = behind 4 (to_le 4 s) tail2 refl (length-to_le 4 s)

  at_vlen : drop (length front + 8) whole ≡ tail3
  at_vlen =
      behind 8 (to_le 4 s ++ to_le 4 (length k - s)) tail3
        (sym (append_assoc (to_le 4 s) (to_le 4 (length k - s)) tail3))
        (omega (
          arith,
          length-append (to_le 4 s) (to_le 4 (length k - s)),
          length-to_le 4 s,
          length-to_le 4 (length k - s),
        ))

  abbrev head : List ℕ
  head = to_le 4 s ++ (to_le 4 (length k - s) ++ to_le 4 (length v))

  length-head : length head ≡ 12
  length-head = omega (
    arith,
    length-append (to_le 4 s) (to_le 4 (length k - s) ++ to_le 4 (length v)),
    length-append (to_le 4 (length k - s)) (to_le 4 (length v)),
    length-to_le 4 s,
    length-to_le 4 (length k - s),
    length-to_le 4 (length v),
  )

  at_key : drop (length front + 12) whole ≡ drop s k ++ (v ++ rest)
  at_key = behind 12 head (drop s k ++ (v ++ rest)) (simp append_assoc) length-head

  -- The header of an entry,
  pub read_entry_header :
      read_header whole (length front)
      ≡ ok (record { shared = s; nonshared = length k - s; vlen = length v })
  unfolding read_header decode_fixed32
  read_entry_header =
      rw
        (
          at_entry,
          at_nonshared,
          at_vlen,
          from_le-to_le {E = BlockError} 4 s tail2 (omega (arith, s_fits)),
          from_le-to_le {E = BlockError} 4 (length k - s) tail3 (omega arith),
          from_le-to_le {E = BlockError} 4 (length v) (drop s k ++ (v ++ rest)) (omega arith),
        )
        refl

  -- its part of the key,
  pub read_entry_key : take (length k - s) (drop (length front + 12) whole) ≡ drop s k
  read_entry_key =
      ap (take (length k - s)) at_key
      ∙ take-append (length k - s) (drop s k) (v ++ rest) (length-drop s k)

  -- and its value.
  pub read_entry_value : take (length v) (drop (length front + 12 + (length k - s)) whole) ≡ v
  read_entry_value =
      ap (take (length v)) (
        ap (λ n. drop n whole) (omega arith)
        ∙ behind (12 + (length k - s)) (head ++ drop s k) (v ++ rest) (simp append_assoc)
            (omega (arith, length-append head (drop s k), length-head, length-drop s k)))
      ∙ take-append (length v) v rest refl
