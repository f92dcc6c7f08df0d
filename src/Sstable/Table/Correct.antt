-- ===== src/Sstable/Table/Correct.antt =====
-- A table, written and read: every key has the value that the entries of all blocks give it.
use vroot_kv.Base.{
  ℕ, ◌+◌, ◌-◌, ◌^◌, ◌≤◌, ◌<◌, ◌≡◌, ◌≢◌, refl, sym, ap, ◌∙◌, arith, inl, inr, le→ltb, ok, ◌>>=◌,
  Option-cases, Result, Result-cases,
}
use vroot_kv.Base.{List, [], ◌∷◌, ◌++◌, append_assoc, length, length-append, drop, All}
use mathlib.Core.Path.{subst}
use vroot_kv.Key.{Key}
use vroot_kv.Sstable.Format.{SstableFooter, table_magic, encode_footer, decode_footer}
use vroot_kv.Sstable.Format.RoundTrip.{
  length-footer_bytes, encode_footer_lem, decode_footer-encode_footer,
}
use vroot_kv.Sstable.DataBlock.Layout.{Run, flatten, IsSorted, lookup}
use vroot_kv.Sstable.DataBlock.Build.Add.{weight}
use vroot_kv.Sstable.DataBlock.Correct.{build_lem}
use vroot_kv.Sstable.IndexBlock.{IndexError, new_index, finish_index, new_index_reader, find}
use vroot_kv.Sstable.IndexBlock.Search.{route}
use vroot_kv.Sstable.IndexBlock.Correct.{add_dividers, build_index, build_index_lem}
use vroot_kv.Sstable.Table.{
  no_handle, new_table, finish_table, write_table, slice, get_from_block, get_from_table,
}
use vroot_kv.Sstable.Table.Route.{
  Piece, runs_of, bytes_of, dividers, IsSorted-cut, slice_lem, route-none-lookup, route-some-Routed,
}
use vroot_kv.Sstable.Table.Index.{
  index_weight, Good, Headed, length-bytes_of, length-runs_of, dividers-IsIndexInput,
  append_blocks_lem,
}

-- A footer that names an index.
abbrev footer_of : ℕ → ℕ → SstableFooter
footer_of offset size = record {
  filter_handle = no_handle;
  index_handle = record { offset = offset; size = size };
  magic = table_magic;
}

-- A file whose index leads to blocks that are in it.
module _ (ps : List Piece) (interval : ℕ) (g : All (Good interval) ps)
    (hs : All Headed (runs_of ps)) (sorted : IsSorted (flatten (runs_of ps))) (index : List ℕ)
    (small : length index < 2 ^ 32) (room : length (bytes_of ps) < 2 ^ 64)
    (led : (key : Key)
      → (new_index_reader index >>= λ r. find r key) ≡ ok (route key (dividers 0 ps))) where
  abbrev foot : SstableFooter
  foot = footer_of (length (bytes_of ps)) (length index)

  abbrev whole : List ℕ
  whole = (bytes_of ps ++ index) ++ encode_footer foot []

  whole_lem : whole ≡ encode_footer foot (bytes_of ps ++ index)
  whole_lem =
      ap (λ bs. (bytes_of ps ++ index) ++ bs) (encode_footer_lem foot [])
      ∙ sym (encode_footer_lem foot (bytes_of ps ++ index))

  footer_read : decode_footer (drop (length whole - 40) whole) ≡ ok (foot, [])
  footer_read =
      ap (λ bs. decode_footer (drop (length bs - 40) bs)) whole_lem
      ∙ decode_footer-encode_footer foot (bytes_of ps ++ index) (record {
        filter_fits = record { offset_fits = omega arith; size_fits = omega arith };
        index_fits = record { offset_fits = room; size_fits = omega (arith, small) };
        magic_fits = omega arith;
      })

  filled : All (λ p. p.0 ≢ []) ps
  filled = each ps hs
    where
      each : (qs : List Piece) → All Headed (runs_of qs) → All (λ p. p.0 ≢ []) qs
      each [] h = tt
      each ((es, d) ∷ qs) h = (h.0.0, each qs h.1)

  regroup : whole ≡ bytes_of ps ++ (index ++ encode_footer foot [])
  regroup = append_assoc (bytes_of ps) index (encode_footer foot [])

  index_read : slice whole foot.index_handle ≡ ok index
  index_read =
      ap (λ f. slice f foot.index_handle) regroup
      ∙ slice_lem (bytes_of ps) index (encode_footer foot [])

  long : 40 ≤ length whole
  long = omega (
    arith,
    length-append (bytes_of ps ++ index) (encode_footer foot []),
    ap (length {A = ℕ}) (encode_footer_lem foot []),
    length-footer_bytes foot,
  )

  get_from_table_lem :
      (key : Key) → get_from_table whole key ≡ ok (lookup key (flatten (runs_of ps)))
  unfolding get_from_table get_from_block
  get_from_table_lem key =
      rw (le→ltb (length whole) 40 long, footer_read, index_read, led key)
        (elim (Option-cases (route key (dividers 0 ps))) [
          | inl nowhere ↦
              rw nowhere (ap ok (sym (route-none-lookup key 0 ps filled sorted nowhere)))
          | inr (h, there) ↦
              let r =
                route-some-Routed (Good interval) key [] ps (index ++ encode_footer foot []) h g
                  filled sorted there in
              rw (there, regroup, r.found, r.held.1 key) (ap ok r.same)
        ])

-- Blocks of entries that a table takes: none is empty, the keys ascend through all of them, the lengths fit,
-- and each block and the index are below 4 GiB.
pub record IsTableInput (blocks : List Run) : Type 0 where
  pub sorted : IsSorted (flatten blocks)
  pub headed : All Headed blocks
  pub blocks_fit : All (λ es. weight es + 8 < 2 ^ 32) blocks
  pub index_fits : index_weight blocks + 4 < 2 ^ 32

pieces :
    (interval : ℕ) (blocks : List Run)
    → IsSorted (flatten blocks)
    → All Headed blocks
    → All (λ es. weight es + 8 < 2 ^ 32) blocks
    → (ps : List Piece) × (runs_of ps ≡ blocks) × All (Good interval) ps
pieces interval [] s hs f = ([], refl, tt)
pieces interval (es ∷ blocks) s hs f =
    let (left, right) = IsSorted-cut es (flatten blocks) s in
    let (d, e, found, small) =
      build_lem interval es (record { sorted = left; entries_fit = hs.0.1; fits = f.0 }) in
    let (ps, same, g) = pieces interval blocks right hs.1 f.1 in
    ((es, d) ∷ ps, ap (λ bs. es ∷ bs) same, ((e, found, small), g))

-- What is promised of a file.
abbrev Table : ℕ → List Run → Type 0
Table interval blocks =
    (file : List ℕ) × (write_table interval blocks ≡ ok file)
    × ((key : Key) → get_from_table file key ≡ ok (lookup key (flatten blocks)))

write_pieces :
    (interval : ℕ) (ps : List Piece)
    → All (Good interval) ps
    → IsTableInput (runs_of ps)
    → Table interval (runs_of ps)
unfolding write_table build_index finish_table
write_pieces interval ps g v =
    let (bytes, e, led, small) =
      build_index_lem (dividers 0 ps)
        (dividers-IsIndexInput interval ps v.headed g v.sorted v.index_fits) in
    elim (Result-cases (add_dividers new_index (dividers 0 ps))) [
      | inl (i, added) ↦
          let same : bytes ≡ (finish_index i).1 = ok-injective (sym e ∙ rw added refl) in
          (
            (bytes_of ps ++ (finish_index i).1)
                ++ encode_footer (footer_of (length (bytes_of ps)) (length (finish_index i).1)) [],
            rw (append_blocks_lem interval new_table ps g, added) refl,
            get_from_table_lem ps interval g v.headed v.sorted (finish_index i).1
                (subst (λ bs. length bs < 2 ^ 32) same small)
                (omega (arith, length-bytes_of interval ps g, length-runs_of ps, v.index_fits))
                (λ key. ap (λ bs. new_index_reader bs >>= λ r. find r key) (sym same) ∙ led key),
          )
      | inr (inl (x, failed)) ↦ absurd (cc (rw failed at e))
      | inr (inr failed) ↦ absurd (cc (rw failed at e))
    ]
  where
    ok-injective : {x y : List ℕ} → ◌≡◌ {A = Result IndexError (List ℕ)} (ok x) (ok y) → x ≡ y
    ok-injective q = cc

-- Of blocks of entries that a table takes, the table is written, and the lookup through the footer, the index
-- and a data block gives every key the value that the entries of all blocks give it, whatever the restart
-- interval.
pub write_table-get_from_table :
    (interval : ℕ) (blocks : List Run)
    → IsTableInput blocks
    → (file : List ℕ) × (write_table interval blocks ≡ ok file)
      × ((key : Key) → get_from_table file key ≡ ok (lookup key (flatten blocks)))
write_table-get_from_table interval blocks v =
    let (ps, same, g) = pieces interval blocks v.sorted v.headed v.blocks_fit in
    subst (Table interval) same (write_pieces interval ps g (subst IsTableInput (sym same) v))
