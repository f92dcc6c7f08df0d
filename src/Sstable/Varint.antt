-- ===== src/Sstable/Varint.antt =====
-- The copies of `PutVarint32` in src/io/sstable_builder.cpp and of `GetVarint32` in src/io/sstable_reader.cpp,
-- with the buffer and the index that they use. They do what the functions of src/wal/wal_format.h do, which the
-- models of the blocks call.
use vroot_kv.Base.{
  ℕ, zero, suc, ◌+◌, ◌*◌, ◌/◌, ◌^◌, ◌<◌, ◌≡◌, ◌⊎◌, inl, inr, refl, sym, ap, ◌∙◌, arith, bit_and,
  bit_or, leb, ◌==◌, if◌then◌else◌, Bool-cases, Option, none, some,
}
use vroot_kv.Base.{List, [], ◌∷◌, ◌++◌, drop, get_elem?}
use vroot_kv.Codec.Bytes.{u8, u32}
use vroot_kv.Codec.Varint.{put_varint32, varint_loop, get_varint32, get_varint_loop}

-- The loop that fills `buf`, with so many of its bytes left, and the byte behind it; `none` is a write
-- outside `buf`.
unfoldable pub fill_varint : ℕ → ℕ → Option (List ℕ)
fill_varint zero v = none
fill_varint (suc left) v =
    let rest = fill_varint left (v / 2 ^ 7) in
    if leb 0x80 v
    then elim rest [ none ↦ none | some bytes ↦ some (u8 (bit_or v 0x80) ∷ bytes) ]
    else some (u8 v ∷ [])

unfoldable pub append_varint32 : List ℕ → ℕ → Option (List ℕ)
unfolding fill_varint
append_varint32 dst v = elim (fill_varint 5 v) [ none ↦ none | some buf ↦ some (dst ++ buf) ]

-- The loop that reads at `i`, for at most `rounds` rounds: the value, and where it ends.
unfoldable pub scan_varint : ℕ → List ℕ → ℕ → ℕ → ℕ → Option (ℕ × ℕ)
scan_varint zero input i result shift = none
scan_varint (suc rounds) input i result shift = elim (get_elem? input i) [
  | none ↦ none
  | some b ↦
      let result' = bit_or result (u32 (bit_and b 0x7f * 2 ^ shift)) in
      let more = scan_varint rounds input (i + 1) result' (shift + 7) in
      if leb shift 28 then (if bit_and b 0x80 == 0 then some (result', i + 1) else more) else none
]

-- `in.remove_prefix(i)`
abbrev with_rest : List ℕ → Option (ℕ × ℕ) → Option (ℕ × List ℕ)
with_rest input none = none
with_rest input (some (out, i)) = some (out, drop i input)

-- `none` is the answer `false`. The shift is above 28 after five rounds.
unfoldable pub take_varint32 : List ℕ → Option (ℕ × List ℕ)
unfolding scan_varint
take_varint32 input = with_rest input (scan_varint 5 input 0 0 0)

-- One round, on what the next ones give.
abbrev one_group : ℕ → Option (List ℕ) → Option (List ℕ)
one_group v rest =
    if leb 0x80 v
    then elim rest [ none ↦ none | some bytes ↦ some (u8 (bit_or v 0x80) ∷ bytes) ]
    else some (u8 v ∷ [])

fill_step : (left v : ℕ) → fill_varint (suc left) v ≡ one_group v (fill_varint left (v / 2 ^ 7))
unfolding fill_varint
fill_step left v = refl

varint_step :
    (k v : ℕ) → one_group v (some (varint_loop k (v / 2 ^ 7))) ≡ some (varint_loop (suc k) v)
unfolding varint_loop
varint_step k v = ground arith

fill_varint-varint_loop :
    (k v : ℕ) → v < 128 ^ suc k → fill_varint (suc k) v ≡ some (varint_loop k v)
unfolding fill_varint varint_loop
fill_varint-varint_loop zero v h = ground arith
fill_varint-varint_loop (suc k) v h =
    fill_step (suc k) v
    ∙ ap (one_group v) (fill_varint-varint_loop k (v / 2 ^ 7) (omega arith))
    ∙ varint_step k v

append_varint32_lem :
    (dst : List ℕ) (v : ℕ) → v < 2 ^ 32 → append_varint32 dst v ≡ some (put_varint32 dst v)
unfolding append_varint32 put_varint32
append_varint32_lem dst v h = rw (fill_varint-varint_loop 4 v (omega arith), append_varint32) refl

-- The bytes that are left, from an index.
rest_at :
    (input : List ℕ) (i : ℕ)
    → ((get_elem? input i ≡ none) × (drop i input ≡ []))
      ⊎ ((b : ℕ) × (get_elem? input i ≡ some b) × (drop i input ≡ b ∷ drop (suc i) input))
rest_at [] zero = inl (refl, refl)
rest_at [] (suc i) = inl (refl, refl)
rest_at (b ∷ input) zero = inr (b, refl, refl)
rest_at (b ∷ input) (suc i) = rest_at input i

late : (bs : List ℕ) (result shift : ℕ) → 28 < shift → get_varint_loop bs result shift ≡ none
unfolding get_varint_loop
late [] result shift h = refl
late (b ∷ bs) result shift h = ground arith

scan_varint-get_varint_loop :
    (rounds : ℕ) (input : List ℕ) (i result shift : ℕ)
    → 28 < shift + 7 * rounds
    → with_rest input (scan_varint rounds input i result shift)
      ≡ get_varint_loop (drop i input) result shift
unfolding scan_varint get_varint_loop
scan_varint-get_varint_loop zero input i result shift enough =
    sym (late (drop i input) result shift (omega arith))
scan_varint-get_varint_loop (suc rounds) input i result shift enough = elim (rest_at input i) [
  | inl (outside, ended) ↦ rw (outside, ended, scan_varint, get_varint_loop) refl
  | inr (b, inside, behind) ↦
      let more : drop i input ≡ b ∷ drop (i + 1) input =
        behind ∙ ap (λ m. b ∷ drop m input) {x = suc i} (omega arith) in
      rw (inside, more, scan_varint, get_varint_loop)
        (one_byte b (bit_or result (u32 (bit_and b 0x7f * 2 ^ shift))) _ _ (
          scan_varint-get_varint_loop rounds input (i + 1)
            (bit_or result (u32 (bit_and b 0x7f * 2 ^ shift))) (shift + 7) (omega (arith, enough))))
]
  where
    one_byte :
        (b result' : ℕ) (more : Option (ℕ × ℕ)) (more' : Option (ℕ × List ℕ))
        → with_rest input more ≡ more'
        → with_rest input (
            if leb shift 28
            then (if bit_and b 0x80 == 0 then some (result', i + 1) else more)
            else none)
          ≡ (if leb shift 28
              then (if bit_and b 0x80 == 0 then some (result', drop (i + 1) input) else more')
              else none)
    one_byte b result' more more' e = elim (Bool-cases (leb shift 28)) [
      | inr past ↦ rw past refl
      | inl low ↦ elim (Bool-cases (bit_and b 0x80 == 0)) [
        | inl last ↦ rw (low, last) refl
        | inr next ↦ rw (low, next) e
      ]
    ]

-- The builder's copy of `PutVarint32` appends what the other one does, without a write outside its buffer, and
-- the reader's copy of `GetVarint32` answers what the other one does, on any bytes.
pub varint_copies_agree :
    (dst input : List ℕ) (v : ℕ)
    → v < 2 ^ 32
    → (append_varint32 dst v ≡ some (put_varint32 dst v))
      × (take_varint32 input ≡ get_varint32 input)
unfolding take_varint32 get_varint32
varint_copies_agree dst input v h =
    (append_varint32_lem dst v h, scan_varint-get_varint_loop 5 input 0 0 0 (omega arith))
