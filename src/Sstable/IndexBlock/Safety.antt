-- ===== src/Sstable/IndexBlock/Safety.antt =====
-- An index block of any bytes: no read outside the block, no overflow, and an end.
use vroot_kv.Base.{
  ℕ, zero, suc, ◌+◌, ◌-◌, ◌*◌, ◌/◌, ◌^◌, ◌≤◌, ◌<◌, ◌≡◌, ◌⊎◌, inl, inr, refl, sym, arith, false, ltb,
  ltb→le, lt→ltb, le→ltb, ◌==◌, Bool-cases, if◌then◌else◌, Option, none, some, Result, ok, err,
}
use vroot_kv.Base.{List, [], ◌∷◌, length, length-drop, length-take, take, drop, get_elem?, All}
use vroot_kv.Key.{Key, key_lt}
use vroot_kv.Codec.Fixed.{from_le_inside, decode_fixed32}
use vroot_kv.Codec.Varint.{get_varint32}
use vroot_kv.Sstable.Format.{BlockHandle}
use vroot_kv.Sstable.Format.RoundTrip.{decode_handle_total}
use vroot_kv.Sstable.IndexBlock.{
  IndexError, IndexBlockReader, index_too_small, index_corrupt, corrupt_offsets, read_checked,
  new_index_reader, split_key, handle_of, key_at, search_divider, find,
}
use mathlib.Core.Path.{subst}
use native.Mathlib.Decide.{dec_lt}

handle_of_total : (sv : List ℕ) → 16 ≤ length sv → (h : BlockHandle) × (handle_of sv ≡ ok h)
unfolding handle_of
handle_of_total sv long = let (h, e) = decode_handle_total sv long in (h, rw (e, handle_of) refl)

-- A key that is read leaves the bytes of a handle.
abbrev Split : Result IndexError (Option (Key × List ℕ)) → Type 0
Split r = (r ≡ ok none) ⊎ ((k : Key) × (sv : List ℕ) × (r ≡ ok (some (k, sv))) × (16 ≤ length sv))

split_key_total : (sv : List ℕ) → Split (split_key sv)
unfolding split_key
split_key_total sv = cases (get_varint32 sv) refl
  where
    cases : (v : Option (ℕ × List ℕ)) → get_varint32 sv ≡ v → Split (split_key sv)
    cases none e = inl (rw (e, split_key) refl)
    cases (some (klen, rest)) e = elim (Bool-cases (ltb (length rest) (klen + 16))) [
      | inl short ↦ inl (rw (e, split_key, short) refl)
      | inr long ↦ inr (
        take klen rest,
        drop klen rest,
        rw (e, split_key, long) refl,
        omega (arith, length-drop klen rest, ltb→le (length rest) (klen + 16) long),
      )
    ]

-- What the constructor makes sure of.
abbrev Inside : IndexBlockReader → Type 0
Inside r = All (λ off. off ≤ length r.entries) r.offsets

module _ (r : IndexBlockReader) (inside : Inside r) where
  key_at_total : (idx : ℕ) → idx < length r.offsets → Split (key_at r idx)
  unfolding key_at
  key_at_total idx less =
      let (off, e, fits) = listed r.offsets idx less inside in
      rw (e, key_at, le→ltb (length r.entries) off fits) (split_key_total (drop off r.entries))
    where
      listed :
          (offs : List ℕ) (i : ℕ)
          → i < length offs
          → All (λ off. off ≤ length r.entries) offs
          → (off : ℕ) × (get_elem? offs i ≡ some off) × (off ≤ length r.entries)
      listed [] i h a = absurd (omega arith)
      listed (o ∷ offs) zero h a = (o, refl, a.0)
      listed (o ∷ offs) (suc i) h a = listed offs i (omega arith) a.1

  module _ (few : length r.offsets < 2 ^ 30) (key : Key) where
    search_divider_total :
        (rounds lo hi : ℕ)
        → lo ≤ hi
        → hi < length r.offsets
        → hi ≤ lo + rounds
        → (search_divider r key rounds lo hi ≡ ok none)
          ⊎ ((m : ℕ) × (search_divider r key rounds lo hi ≡ ok (some m)) × (m < length r.offsets))
    unfolding search_divider
    search_divider_total zero lo hi le less enough =
        inr (lo, rw (le→ltb lo hi (omega (arith, enough))) refl, omega arith)
    search_divider_total (suc rounds) lo hi le less enough = elim (dec_lt lo hi) [
      | no stop ↦ inr (lo, rw (le→ltb lo hi (omega arith)) refl, omega arith)
      | yes more ↦
          let mid = (lo + hi + 1) / 2 in
          let open_range = lt→ltb lo hi more in
          let no_overflow = lt→ltb (lo + hi + 1) (2 ^ 31) (omega (arith, more, less, few)) in
          elim (key_at_total mid (omega (arith, more))) [
            | inl e ↦ inl (rw (open_range, no_overflow, e) refl)
            | inr (k, sv, e, _) ↦ elim (Bool-cases (key_lt key k)) [
              | inl below ↦
                  rw (open_range, no_overflow, e, below)
                    (search_divider_total rounds lo (mid - 1) (omega (arith, more))
                      (omega (arith, more)) (omega (arith, more, enough)))
              | inr reached ↦
                  rw (open_range, no_overflow, e, reached)
                    (search_divider_total rounds mid hi (omega (arith, more)) less
                      (omega (arith, more, enough)))
            ]
          ]
    ]

    find_total : (found : Option BlockHandle) × (find r key ≡ ok found)
    unfolding find
    find_total = elim (dec_lt 0 (length r.offsets)) [
      | no none_there ↦
          let empty : length r.offsets ≡ 0 = omega (arith, none_there) in (none, rw empty refl)
      | yes some_there ↦
          elim (search_divider_total (length r.offsets) 0 (length r.offsets - 1) (omega arith)
            (omega (arith, some_there)) (omega arith)) [
              | inl e ↦ (none, rw (not_zero (length r.offsets) some_there, e) refl)
              | inr (m, e, less) ↦ elim (key_at_total m less) [
                | inl e' ↦ (none, rw (not_zero (length r.offsets) some_there, e, e') refl)
                | inr (k, sv, e', long) ↦
                    let (h, e₂) = handle_of_total sv long in
                    (
                      if key_lt key k then none else some h,
                      rw (not_zero (length r.offsets) some_there, e, e', e₂) refl,
                    )
              ]
            ]
    ]
      where
        not_zero : (n : ℕ) → 0 < n → (n == 0) ≡ false
        not_zero n less = ground arith

read_checked_total :
    (num limit previous : ℕ) (p : List ℕ)
    → num * 4 ≤ length p
    → (read_checked num limit previous p ≡ err corrupt_offsets)
      ⊎ ((offs : List ℕ) × (read_checked num limit previous p ≡ ok offs)
          × All (λ off. off ≤ limit) offs
          × (length offs ≡ num))
unfolding read_checked decode_fixed32
read_checked_total zero limit previous p long = inr ([], refl, tt, refl)
read_checked_total (suc num) limit previous p long =
    let (off, e) = from_le_inside {E = IndexError} 4 p (omega (arith, long)) in
    elim (Bool-cases (ltb off previous)) [
      | inl back ↦ inl (rw (e, back) refl)
      | inr on ↦ elim (Bool-cases (ltb limit off)) [
        | inl outside ↦ inl (rw (e, on, outside) refl)
        | inr within ↦
            elim (read_checked_total num limit off (drop 4 p)
              (omega (arith, long, length-drop 4 p))) [
                | inl e' ↦ inl (rw (e, on, within, e') refl)
                | inr (offs, e', a, count) ↦ inr (
                  off ∷ offs,
                  rw (e, on, within, e') refl,
                  (ltb→le limit off within, a),
                  omega (arith, count),
                )
              ]
      ]
    ]

-- Of any bytes, less than 4 GiB, the constructor of the index reader throws, or makes a reader whose `Find` answers
-- for every key: the search ends, no `int` sum in it overflows, and `Find` reads nothing outside the block and
-- does not throw.
pub new_index_reader-find_total :
    (block : List ℕ)
    → length block < 2 ^ 32
    → ((e : IndexError) × (new_index_reader block ≡ err e))
      ⊎ ((r : IndexBlockReader) × (new_index_reader block ≡ ok r)
          × ((key : Key) → (found : Option BlockHandle) × (find r key ≡ ok found)))
unfolding new_index_reader decode_fixed32
new_index_reader-find_total block block_fits = elim (Bool-cases (ltb (length block) 4)) [
  | inl short ↦ inl (index_too_small, rw short refl)
  | inr long ↦
      let (num, e) =
        from_le_inside {E = IndexError} 4 (drop (length block - 4) block)
          (omega (arith, length-drop (length block - 4) block, ltb→le (length block) 4 long)) in
      elim (Bool-cases (ltb (length block / 4) num)) [
        | inl absurd_count ↦ inl (index_corrupt, rw (long, e, absurd_count) refl)
        | inr count ↦ elim (Bool-cases (ltb (length block) (4 + num * 4))) [
          | inl cut ↦ inl (index_corrupt, rw (long, e, count, cut) refl)
          | inr whole ↦
              let fits = ltb→le (length block) (4 + num * 4) whole in
              let start = length block - 4 - num * 4 in
              elim (read_checked_total num start 0 (drop start block)
                (omega (arith, length-drop start block, fits))) [
                  | inl e' ↦ inl (corrupt_offsets, rw (long, e, count, whole, e') refl)
                  | inr (offs, e', a, listed) ↦
                      let r : IndexBlockReader = record {
                        entries = take start block;
                        offsets = offs;
                      } in
                      let size : length (take start block) ≡ start =
                        omega (arith, length-take start block) in
                      inr (
                        r,
                        rw (long, e, count, whole, e') refl,
                        find_total r (subst (λ n. All (λ off. off ≤ n) offs) (sym size) a)
                            (omega (arith, listed, fits, block_fits)),
                      )
                ]
        ]
      ]
]
