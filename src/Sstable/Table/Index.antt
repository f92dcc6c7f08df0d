-- ===== src/Sstable/Table/Index.antt =====
-- The index of a table: its entries fit, and writing the blocks adds them.
use vroot_kv.Base.{
  ℕ, ◌+◌, ◌*◌, ◌^◌, ◌≤◌, ◌<◌, ◌≡◌, ◌≢◌, refl, sym, ap, ◌∙◌, arith, inl, inr, Result, ok, ◌>>=◌,
  Result-cases,
}
use vroot_kv.Base.{List, [], ◌∷◌, ◌++◌, append_assoc, append-nil, length, length-append, All}
use mathlib.Core.Path.{ap₂}
use vroot_kv.Key.{Key}
use vroot_kv.Codec.Varint.{put_varint32}
use vroot_kv.Codec.Varint.RoundTrip.{put_varint32_shape}
use vroot_kv.Sstable.Format.{BlockHandle}
use vroot_kv.Sstable.Format.RoundTrip.{handle_bytes, length-handle_bytes}
use vroot_kv.Sstable.DataBlock.Reader.{new_reader, get}
use vroot_kv.Sstable.DataBlock.Layout.{Run, flatten, IsEntry, Ascending, IsSorted, lookup}
use vroot_kv.Sstable.DataBlock.Build.{build}
use vroot_kv.Sstable.IndexBlock.{IndexError, IndexBlockBuilder, add_divider}
use vroot_kv.Sstable.IndexBlock.Layout.{IsIndexEntry, encode_entry, encode_index}
use vroot_kv.Sstable.IndexBlock.Search.{Dividing, IsDivided}
use vroot_kv.Sstable.IndexBlock.Correct.{IsIndexInput, add_dividers}
use vroot_kv.Sstable.Table.{bad_index, within, TableWriter, first_key, append_block, append_blocks}
use vroot_kv.Sstable.Table.Route.{Piece, runs_of, bytes_of, dividers, Ascending-cut}

-- The bytes that the index takes of each block at most: the length of the divider, the divider, the handle and
-- the offset.
abbrev pub index_weight : List Run → ℕ
index_weight [] = 0
index_weight (es ∷ blocks) = 25 + length (first_key es) + index_weight blocks

-- A block that was built, and what `Get` finds in it.
abbrev pub Good : ℕ → Piece → Type 0
Good interval (es, d) =
    (build interval es ≡ ok d)
    × ((key : Key) → (new_reader d >>= λ r. get r key) ≡ ok (lookup key es))
    × (length d < 2 ^ 32)

-- The divider of a block is a key whose length fits.
abbrev pub Headed : Run → Type 0
Headed es = (es ≢ []) × All IsEntry es

length-encode_entry : (k : Key) (h : BlockHandle) → length (encode_entry (k, h)) ≤ 21 + length k
unfolding encode_entry
length-encode_entry k h = omega (
  arith,
  length-append (put_varint32 [] (length k)) (k ++ handle_bytes h),
  length-append k (handle_bytes h),
  length-handle_bytes h,
  (put_varint32_shape (length k)).2,
)

length-encode_index :
    (off : ℕ) (ps : List Piece)
    → length (encode_index (dividers off ps)) + 4 * length (dividers off ps)
      ≤ index_weight (runs_of ps)
unfolding encode_index
length-encode_index off [] = omega arith
length-encode_index off ((es, d) ∷ ps) =
    let h : BlockHandle = record { offset = off; size = length d } in
    omega (
      arith,
      length-append (encode_entry (first_key es, h)) (encode_index (dividers (off + length d) ps)),
      length-encode_entry (first_key es) h,
      length-encode_index (off + length d) ps,
    )

-- The first keys ascend where all keys do.
dividers-Dividing :
    (k : Key) (off : ℕ) (ps : List Piece)
    → All Headed (runs_of ps)
    → Ascending k (flatten (runs_of ps))
    → Dividing k (dividers off ps)
dividers-Dividing k off [] hs a = tt
dividers-Dividing k off (([], d) ∷ ps) hs a = absurd (hs.0.0 refl)
dividers-Dividing k off (((k', v) ∷ es, d) ∷ ps) hs a = (
  a.0,
  dividers-Dividing k' (off + length d) ps hs.1 (Ascending-cut k' es (flatten (runs_of ps)) a.1).1,
)

dividers-IsDivided :
    (off : ℕ) (ps : List Piece)
    → All Headed (runs_of ps)
    → IsSorted (flatten (runs_of ps))
    → IsDivided (dividers off ps)
dividers-IsDivided off [] hs s = tt
dividers-IsDivided off (([], d) ∷ ps) hs s = absurd (hs.0.0 refl)
dividers-IsDivided off (((k, v) ∷ es, d) ∷ ps) hs s =
    dividers-Dividing k (off + length d) ps hs.1 (Ascending-cut k es (flatten (runs_of ps)) s).1

-- Fewer than 2 ^ 32 blocks below 4 GiB have offsets of 64 bits.
pub length-bytes_of :
    (interval : ℕ) (ps : List Piece)
    → All (Good interval) ps
    → length (bytes_of ps) ≤ length ps * 2 ^ 32
length-bytes_of interval [] g = omega arith
length-bytes_of interval ((es, d) ∷ ps) g =
    omega (arith, length-append d (bytes_of ps), g.0.2, length-bytes_of interval ps g.1)

dividers-fit :
    (interval off : ℕ) (ps : List Piece)
    → All Headed (runs_of ps)
    → All (Good interval) ps
    → off + length ps * 2 ^ 32 ≤ 2 ^ 64
    → All IsIndexEntry (dividers off ps)
dividers-fit interval off [] hs g room = tt
dividers-fit interval off (([], d) ∷ ps) hs g room = absurd (hs.0.0 refl)
dividers-fit interval off (((k, v) ∷ es, d) ∷ ps) hs g room = (
  record {
    key_fits = hs.0.1.0.0;
    handle_fits = record { offset_fits = omega (arith, room); size_fits = omega (arith, g.0.2) };
  },
  dividers-fit interval (off + length d) ps hs.1 g.1 (omega (arith, room, g.0.2)),
)

pub length-runs_of : (ps : List Piece) → length ps * 25 ≤ index_weight (runs_of ps)
length-runs_of [] = omega arith
length-runs_of ((es, d) ∷ ps) = omega (arith, length-runs_of ps)

pub dividers-IsIndexInput :
    (interval : ℕ) (ps : List Piece)
    → All Headed (runs_of ps)
    → All (Good interval) ps
    → IsSorted (flatten (runs_of ps))
    → index_weight (runs_of ps) + 4 < 2 ^ 32
    → IsIndexInput (dividers 0 ps)
dividers-IsIndexInput interval ps hs g s fits = record {
  divided = dividers-IsDivided 0 ps hs s;
  entries_fit = dividers-fit interval 0 ps hs g (omega (arith, fits, length-runs_of ps));
  fits = omega (arith, fits, length-encode_index 0 ps);
}

-- Writing the blocks adds their dividers to the index.
pub append_blocks_lem :
    (interval : ℕ) (t : TableWriter) (ps : List Piece)
    → All (Good interval) ps
    → append_blocks interval t (runs_of ps) ≡ (
        within bad_index (add_dividers t.index (dividers (length t.file) ps)) >>= λ i.
        ok (record { file = t.file ++ bytes_of ps; index = i }))
unfolding append_blocks append_block add_dividers
append_blocks_lem interval t [] g =
    ap (λ bs. ok (record { file = bs; index = t.index })) (sym (append-nil t.file))
append_blocks_lem interval t ((es, d) ∷ ps) g = rw g.0.0 (elim (Result-cases added) [
  | inl (i, e) ↦ rw e (
      append_blocks_lem interval (record { file = t.file ++ d; index = i }) ps g.1
      ∙ ap₂
          (λ n bs. within bad_index (add_dividers i (dividers n ps)) >>= λ j.
            ok (record { file = bs; index = j }))
          (length-append t.file d) (append_assoc t.file d (bytes_of ps)))
  | inr (inl (x, e)) ↦ rw e refl
  | inr (inr e) ↦ rw e refl
])
  where
    added : Result IndexError IndexBlockBuilder
    added = add_divider t.index (first_key es) (record { offset = length t.file; size = length d })
