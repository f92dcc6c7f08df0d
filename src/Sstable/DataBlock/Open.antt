-- ===== src/Sstable/DataBlock/Open.antt =====
-- The bytes of a block, and the reader that its constructor makes of them.
use vroot_kv.Base.{ℕ, ◌+◌, ◌-◌, ◌*◌, ◌/◌, ◌^◌, ◌<◌, ◌≡◌, refl, sym, ap, ◌∙◌, arith}
use vroot_kv.Base.{
  List, [], ◌∷◌, ◌++◌, append_assoc, append-nil, length, length-append, take, drop, All,
}
use vroot_kv.Base.{le→ltb, take-append, drop-append, ok}
use vroot_kv.Codec.Fixed.{to_le, from_le, length-to_le, from_le-to_le, decode_fixed32}
use vroot_kv.Sstable.DataBlock.Reader.{BlockError, read_offsets, new_reader}
use vroot_kv.Sstable.DataBlock.Layout.{Run, encode_run, encode_runs, run_offsets}
use vroot_kv.Sstable.DataBlock.Layout.Runs.{length-run_offsets}
use vroot_kv.Sstable.DataBlock.Scan.{reader}
use vroot_kv.Sstable.DataBlock.Search.{IsLayout}

unfoldable pub offset_bytes : List ℕ → List ℕ
offset_bytes [] = []
offset_bytes (off ∷ offs) = to_le 4 off ++ offset_bytes offs

unfoldable pub block_bytes : List Run → List ℕ
block_bytes rs = encode_runs rs ++ (offset_bytes (run_offsets 0 rs) ++ to_le 4 (length rs))

pub length-offset_bytes : (offs : List ℕ) → length (offset_bytes offs) ≡ 4 * length offs
unfolding offset_bytes
length-offset_bytes [] = omega arith
length-offset_bytes (off ∷ offs) = omega (
  arith,
  length-append (to_le 4 off) (offset_bytes offs),
  length-to_le 4 off,
  length-offset_bytes offs,
)

pub read_offsets-offset_bytes :
    (offs rest : List ℕ)
    → All (λ off. off < 2 ^ 32) offs
    → read_offsets (length offs) (offset_bytes offs ++ rest) ≡ ok offs
unfolding read_offsets offset_bytes decode_fixed32
read_offsets-offset_bytes [] rest h = refl
read_offsets-offset_bytes (off ∷ offs) rest h =
    rw
      (
        append_assoc (to_le 4 off) (offset_bytes offs) rest,
        from_le-to_le {E = BlockError} 4 off (offset_bytes offs ++ rest) (omega (arith, h.0)),
        drop-append 4 (to_le 4 off) (offset_bytes offs ++ rest) (length-to_le 4 off),
        read_offsets-offset_bytes offs rest h.1,
      )
      refl

run_offsets-lt :
    (limit base : ℕ) (rs : List Run)
    → base + length (encode_runs rs) < limit
    → All (λ off. off < limit) (run_offsets base rs)
unfolding run_offsets encode_runs
run_offsets-lt limit base [] h = tt
run_offsets-lt limit base (r ∷ rs) h = (
  omega arith,
  run_offsets-lt limit (base + length (encode_run [] r)) rs
      (omega (arith, length-append (encode_run [] r) (encode_runs rs))),
)

-- The parts of a block, by its length.
module _ (body : List ℕ) (offs : List ℕ) where
  abbrev pub block : List ℕ
  block = body ++ (offset_bytes offs ++ to_le 4 (length offs))

  pub length-block : length block ≡ length body + 4 * length offs + 4
  length-block = omega (
    arith,
    length-append body (offset_bytes offs ++ to_le 4 (length offs)),
    length-append (offset_bytes offs) (to_le 4 (length offs)),
    length-offset_bytes offs,
    length-to_le 4 (length offs),
  )

  pub at_count : drop (length block - 4) block ≡ to_le 4 (length offs)
  at_count =
      ap (drop (length block - 4))
        (sym (append_assoc body (offset_bytes offs) (to_le 4 (length offs))))
      ∙ drop-append (length block - 4) (body ++ offset_bytes offs) (to_le 4 (length offs)) (
          omega
            (arith, length-block, length-append body (offset_bytes offs), length-offset_bytes offs))

  pub at_offsets :
      drop (length block - 4 - length offs * 4) block ≡ offset_bytes offs ++ to_le 4 (length offs)
  at_offsets = drop-append _ body _ (omega (arith, length-block))

  pub entries_part : take (length block - 4 - length offs * 4) block ≡ body
  entries_part = take-append _ body _ (omega (arith, length-block))

  -- The constructor's checks pass, and it cuts the block into its entries and its offsets.
  pub new_reader_lem :
      length body + 4 * length offs + 4 < 2 ^ 32
      → All (λ off. off < 2 ^ 32) offs
      → new_reader block ≡ ok (reader body offs)
  unfolding new_reader decode_fixed32
  new_reader_lem fits small =
      rw
        (
          le→ltb (length block) 4 (omega (arith, length-block)),
          at_count,
          count_read,
          le→ltb (length block / 4) (length offs) (omega (arith, length-block)),
          le→ltb (length block) (4 + length offs * 4) (omega (arith, length-block)),
          at_offsets,
          read_offsets-offset_bytes offs (to_le 4 (length offs)) small,
          entries_part,
        )
        refl
    where
      count_read : from_le {E = BlockError} 4 (to_le 4 (length offs)) ≡ ok (length offs)
      count_read =
          ap (from_le 4) (sym (append-nil (to_le 4 (length offs))))
          ∙ from_le-to_le {E = BlockError} 4 (length offs) [] (omega arith)

-- `DataBlockReader` opens a block of runs.
pub new_reader-block_bytes :
    (rs : List Run)
    → IsLayout rs
    → new_reader (block_bytes rs) ≡ ok (reader (encode_runs rs) (run_offsets 0 rs))
unfolding block_bytes
new_reader-block_bytes rs layout =
    ap (λ n. new_reader (encode_runs rs ++ (offset_bytes (run_offsets 0 rs) ++ to_le 4 n)))
      (sym (length-run_offsets 0 rs))
    ∙ new_reader_lem (encode_runs rs) (run_offsets 0 rs)
        (omega (arith, length-run_offsets 0 rs, layout.block_fits))
        (run_offsets-lt (2 ^ 32) 0 rs (omega (arith, layout.block_fits)))
