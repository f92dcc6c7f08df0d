-- ===== src/Sstable/IndexBlock/Correct.antt =====
-- An index block, built and read.
use vroot_kv.Base.{
  ℕ, ◌+◌, ◌-◌, ◌*◌, ◌/◌, ◌^◌, ◌≤◌, ◌<◌, ◌≡◌, ◌⊎◌, inl, inr, refl, sym, ap, ◌∙◌, arith, true, false,
  not, ◌&&◌, le→ltb, Result, ok, ◌>>=◌,
}
use vroot_kv.Base.{
  List, [], ◌∷◌, ◌++◌, append_assoc, append-nil, length, length-append, All, drop-append,
}
use vroot_kv.Key.{Key, key_lt}
use vroot_kv.Codec.Bytes.{u32}
use vroot_kv.Codec.Fixed.{to_le, from_le, length-to_le, from_le-to_le, put_fixed32, decode_fixed32}
use vroot_kv.Codec.Varint.{put_varint32, varint_loop}
use vroot_kv.Sstable.Format.{BlockHandle}
use vroot_kv.Sstable.Format.RoundTrip.{handle_bytes, encode_handle_lem}
use vroot_kv.Sstable.DataBlock.Builder.{is_empty, put_all}
use vroot_kv.Sstable.DataBlock.Open.{
  offset_bytes, block, length-block, at_count, at_offsets, entries_part,
}
use vroot_kv.Sstable.DataBlock.Build.Finish.{put_all_lem}
use vroot_kv.Sstable.IndexBlock.{
  IndexError, IndexBlockBuilder, new_index, add_divider, finish_index, read_checked,
  new_index_reader, find,
}
use vroot_kv.Sstable.IndexBlock.Layout.{
  IndexEntry, IsIndexEntry, encode_entry, encode_index, index_offsets, length-index_offsets,
  index_reader,
}
use vroot_kv.Sstable.IndexBlock.Search.{Dividing, IsDivided, route, find_lem}
use mathlib.Core.Path.{ap₂}

-- `Add` of every entry, and `Finish`.
unfoldable pub add_dividers :
    IndexBlockBuilder → List IndexEntry → Result IndexError IndexBlockBuilder
add_dividers b [] = ok b
add_dividers b ((k, h) ∷ es) = add_divider b k h >>= λ b'. add_dividers b' es

unfoldable pub build_index : List IndexEntry → Result IndexError (List ℕ)
build_index es = add_dividers new_index es >>= λ b. ok (finish_index b).1

-- One entry, where the builder takes it.
add_divider_lem :
    (b : IndexBlockBuilder) (k : Key) (h : BlockHandle)
    → (is_empty b.last_key ≡ true) ⊎ (key_lt b.last_key k ≡ true)
    → length k < 2 ^ 32
    → length b.buffer < 2 ^ 32
    → add_divider b k h
      ≡ ok (record {
        buffer = b.buffer ++ encode_entry (k, h);
        offsets = b.offsets ++ (length b.buffer ∷ []);
        last_key = k;
      })
unfolding add_divider put_varint32 encode_entry
add_divider_lem b k h follows fits small =
    rw
      (
        allowed follows,
        short (length k) fits,
        short (length b.buffer) small,
        encode_handle_lem h ((b.buffer ++ varint_loop 4 (length k)) ++ k),
        append_assoc (b.buffer ++ varint_loop 4 (length k)) k (handle_bytes h),
        append_assoc b.buffer (varint_loop 4 (length k)) (k ++ handle_bytes h),
      )
      refl
  where
    short : (n : ℕ) → n < 2 ^ 32 → u32 n ≡ n
    short n less = omega (arith, less)

    allowed :
        (is_empty b.last_key ≡ true) ⊎ (key_lt b.last_key k ≡ true)
        → (not (is_empty b.last_key) && not (key_lt b.last_key k)) ≡ false
    allowed (inl first) = rw first refl
    allowed (inr less) = ground arith

-- All entries, one after the other.
abbrev Following : Key → List IndexEntry → Type 0
Following last [] = Unit {0}
Following last ((k, h) ∷ es) = ((is_empty last ≡ true) ⊎ (key_lt last k ≡ true)) × Following k es

Dividing-Following : (k : Key) (es : List IndexEntry) → Dividing k es → Following k es
Dividing-Following k [] d = tt
Dividing-Following k ((k', h) ∷ es) d = (inr d.0, Dividing-Following k' es d.1)

add_dividers_lem :
    (b : IndexBlockBuilder) (es : List IndexEntry)
    → Following b.last_key es
    → All IsIndexEntry es
    → length b.buffer + length (encode_index es) < 2 ^ 32
    → (b' : IndexBlockBuilder) × (add_dividers b es ≡ ok b')
      × (b'.buffer ≡ b.buffer ++ encode_index es)
      × (b'.offsets ≡ b.offsets ++ index_offsets (length b.buffer) es)
unfolding add_dividers encode_index index_offsets
add_dividers_lem b [] f a small = (b, refl, sym (append-nil b.buffer), sym (append-nil b.offsets))
add_dividers_lem b ((k, h) ∷ es) f a small =
    let entry = encode_entry (k, h) in
    let b₁ : IndexBlockBuilder = record {
      buffer = b.buffer ++ entry;
      offsets = b.offsets ++ (length b.buffer ∷ []);
      last_key = k;
    } in
    let (b', e, bytes, offs) =
      add_dividers_lem b₁ es f.1 a.1 (
        omega
          (arith, small, length-append b.buffer entry, length-append entry (encode_index es))) in
    (
      b',
      rw (add_divider_lem b k h f.0 a.0.key_fits (omega (arith, small))) e,
      bytes ∙ append_assoc b.buffer entry (encode_index es),
      offs
          ∙ append_assoc b.offsets (length b.buffer ∷ [])
              (index_offsets (length (b.buffer ++ entry)) es)
          ∙ ap (λ n. b.offsets ++ (length b.buffer ∷ index_offsets n es))
              (length-append b.buffer entry),
    )

-- The offsets are non-decreasing and inside, so the constructor takes them.
read_checked_lem :
    (es : List IndexEntry) (base limit previous : ℕ) (rest : List ℕ)
    → previous ≤ base
    → base + length (encode_index es) ≤ limit
    → limit < 2 ^ 32
    → read_checked
        (length (index_offsets base es))
        limit
        previous
        (offset_bytes (index_offsets base es) ++ rest)
      ≡ ok (index_offsets base es)
unfolding read_checked offset_bytes decode_fixed32 index_offsets encode_index
read_checked_lem [] base limit previous rest low high small = refl
read_checked_lem (e ∷ es) base limit previous rest low high small =
    let next = base + length (encode_entry e) in
    rw
      (
        append_assoc (to_le 4 base) (offset_bytes (index_offsets next es)) rest,
        from_le-to_le {E = IndexError} 4 base (offset_bytes (index_offsets next es) ++ rest)
            (omega arith),
        le→ltb base previous low,
        le→ltb limit base (omega arith),
        drop-append 4 (to_le 4 base) (offset_bytes (index_offsets next es) ++ rest)
            (length-to_le 4 base),
        read_checked_lem es next limit base rest (omega arith)
            (omega (arith, high, length-append (encode_entry e) (encode_index es))) small,
      )
      refl

module _ (es : List IndexEntry) (fits : length (encode_index es) + 4 * length es + 4 < 2 ^ 32) where
  abbrev offs : List ℕ
  offs = index_offsets 0 es

  abbrev whole : List ℕ
  whole = block (encode_index es) offs

  long : length whole ≡ length (encode_index es) + 4 * length es + 4
  long = omega (arith, length-block (encode_index es) offs, length-index_offsets 0 es)

  count_read : from_le {E = IndexError} 4 (to_le 4 (length offs)) ≡ ok (length offs)
  count_read =
      ap (from_le 4) (sym (append-nil (to_le 4 (length offs))))
      ∙ from_le-to_le {E = IndexError} 4 (length offs) []
          (omega (arith, length-index_offsets 0 es, fits))

  new_index_reader_lem : new_index_reader whole ≡ ok (index_reader es)
  unfolding new_index_reader decode_fixed32
  new_index_reader_lem =
      rw
        (
          le→ltb (length whole) 4 (omega (arith, long)),
          at_count (encode_index es) offs,
          count_read,
          le→ltb (length whole / 4) (length offs) (omega (arith, long, length-index_offsets 0 es)),
          le→ltb (length whole) (4 + length offs * 4)
              (omega (arith, long, length-index_offsets 0 es)),
          at_offsets (encode_index es) offs,
          read_checked_lem es 0 (length whole - 4 - length offs * 4) 0 (to_le 4 (length offs))
              (omega arith) (omega (arith, long, length-index_offsets 0 es))
              (omega (arith, long, length-index_offsets 0 es, fits)),
          entries_part (encode_index es) offs,
        )
        refl

  finish_index_lem :
      (b : IndexBlockBuilder)
      → b.buffer ≡ encode_index es
      → b.offsets ≡ offs
      → (finish_index b).1 ≡ whole
  unfolding finish_index put_fixed32
  finish_index_lem b e₁ e₂ =
      ap₂ (λ bytes os. put_fixed32 (put_all bytes os) (u32 (length os))) e₁ e₂
      ∙ ap (λ bytes. bytes ++ to_le 4 (u32 (length offs))) (put_all_lem (encode_index es) offs)
      ∙ append_assoc (encode_index es) (offset_bytes offs) (to_le 4 (u32 (length offs)))
      ∙ ap (λ n. encode_index es ++ (offset_bytes offs ++ to_le 4 n))
          (omega (arith, length-index_offsets 0 es, fits))

-- Entries that fit an index block.
pub record IsIndexInput (es : List IndexEntry) : Type 0 where
  pub divided : IsDivided es
  pub entries_fit : All IsIndexEntry es
  pub fits : length (encode_index es) + 4 * length es + 4 < 2 ^ 32

-- The block that the builder makes, which is below 4 GiB, and what the reader finds in it.
pub build_index_lem :
    (es : List IndexEntry)
    → IsIndexInput es
    → (bytes : List ℕ) × (build_index es ≡ ok bytes)
      × ((key : Key) → (new_index_reader bytes >>= λ r. find r key) ≡ ok (route key es))
      × (length bytes < 2 ^ 32)
unfolding build_index
build_index_lem es v =
    let (b, e, bytes, listed) =
      add_dividers_lem new_index es (first es v.divided) v.entries_fit (omega (arith, v.fits)) in
    (
      (finish_index b).1,
      rw e refl,
      λ key.
          rw (finish_index_lem es v.fits b bytes listed, new_index_reader_lem es v.fits)
            (find_lem es v.entries_fit v.divided (omega (arith, v.fits)) key),
      omega (
        arith,
        ap (length {A = ℕ}) (finish_index_lem es v.fits b bytes listed),
        long es v.fits,
        v.fits,
      ),
    )
  where
    first : (us : List IndexEntry) → IsDivided us → Following [] us
    first [] d = tt
    first ((k, h) ∷ us) d = (inl refl, Dividing-Following k us d)

-- The builder accepts strictly ascending divider keys whose lengths fit, with handles that fit and less than
-- 4 GiB together, and the reader opens the block that it finishes and finds for every key the handle of
-- the last divider key that is not above it, or none where there is no such key.
pub build_index-find :
    (es : List IndexEntry)
    → IsIndexInput es
    → (bytes : List ℕ) × (build_index es ≡ ok bytes)
      × ((key : Key) → (new_index_reader bytes >>= λ r. find r key) ≡ ok (route key es))
build_index-find es v = let (bytes, e, found, small) = build_index_lem es v in (bytes, e, found)
