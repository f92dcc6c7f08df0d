-- ===== src/Sstable/IndexBlock/Layout.antt =====
-- The bytes of an index block, entry by entry.
use vroot_kv.Base.{ℕ, zero, suc, ◌+◌, ◌^◌, ◌≤◌, ◌<◌, ◌≡◌, refl, sym, ap, ◌∙◌, arith, some, ok}
use vroot_kv.Base.{
  List, [], ◌∷◌, ◌++◌, append_assoc, length, length-append, drop, get_elem?, take-append,
  drop-append, drop-append_right, le→ltb,
}
use vroot_kv.Codec.Varint.{put_varint32}
use vroot_kv.Codec.Varint.RoundTrip.{get_varint32-put_varint32}
use vroot_kv.Key.{Key}
use vroot_kv.Sstable.Format.{BlockHandle}
use vroot_kv.Sstable.Format.RoundTrip.{
  IsHandle, handle_bytes, length-handle_bytes, encode_handle_lem, decode_handle-encode_handle,
}
use vroot_kv.Sstable.IndexBlock.{IndexBlockReader, split_key, handle_of, key_at}

abbrev pub IndexEntry : Type 0
IndexEntry = Key × BlockHandle

unfoldable pub encode_entry : IndexEntry → List ℕ
encode_entry (k, h) = put_varint32 [] (length k) ++ (k ++ handle_bytes h)

unfoldable pub encode_index : List IndexEntry → List ℕ
encode_index [] = []
encode_index (e ∷ es) = encode_entry e ++ encode_index es

unfoldable pub index_offsets : ℕ → List IndexEntry → List ℕ
index_offsets base [] = []
index_offsets base (e ∷ es) = base ∷ index_offsets (base + length (encode_entry e)) es

pub length-index_offsets :
    (base : ℕ) (es : List IndexEntry) → length (index_offsets base es) ≡ length es
unfolding index_offsets
length-index_offsets base [] = refl
length-index_offsets base (e ∷ es) =
    ap suc (length-index_offsets (base + length (encode_entry e)) es)

-- The lengths and numbers fit their fields.
pub record IsIndexEntry (e : IndexEntry) : Type 0 where
  pub key_fits : length e.0 < 2 ^ 32
  pub handle_fits : IsHandle e.1

-- Where the entry `i` begins.
pub record At (base : ℕ) (es : List IndexEntry) (i : ℕ) (e : IndexEntry) : Type 0 where
  pub off : ℕ
  pub behind : List ℕ
  pub listed : get_elem? (index_offsets base es) i ≡ some (base + off)
  pub placed : drop off (encode_index es) ≡ encode_entry e ++ behind
  pub inside : off ≤ length (encode_index es)

pub locate :
    (base : ℕ) (es : List IndexEntry) (i : ℕ) (e : IndexEntry)
    → get_elem? es i ≡ some e
    → At base es i e
unfolding encode_index index_offsets
locate base [] i e p = absurd cc
locate base (x ∷ es) zero e p = record {
  off = 0;
  behind = encode_index es;
  listed = ap some (omega arith);
  placed = let same : x ≡ e = cc in ap (λ y. encode_entry y ++ encode_index es) same;
  inside = omega arith;
}
locate base (x ∷ es) (suc i) e p =
    let r = locate (base + length (encode_entry x)) es i e p in
    record {
      off = length (encode_entry x) + r.off;
      behind = r.behind;
      listed = r.listed ∙ ap some (omega arith);
      placed = drop-append_right r.off (encode_entry x) (encode_index es) ∙ r.placed;
      inside = omega (arith, r.inside, length-append (encode_entry x) (encode_index es));
    }

-- `key_at` reads the key there, and stops at the handle.
pub split_key_lem :
    (k : Key) (h : BlockHandle) (behind : List ℕ)
    → length k < 2 ^ 32
    → split_key (encode_entry (k, h) ++ behind) ≡ ok (some (k, handle_bytes h ++ behind))
unfolding split_key encode_entry
split_key_lem k h behind fits =
    rw
      (
        append_assoc (put_varint32 [] (length k)) (k ++ handle_bytes h) behind,
        append_assoc k (handle_bytes h) behind,
        get_varint32-put_varint32 (length k) (k ++ (handle_bytes h ++ behind)) fits,
        le→ltb (length (k ++ (handle_bytes h ++ behind))) (length k + 16) (
            omega (
              arith,
              length-append k (handle_bytes h ++ behind),
              length-append (handle_bytes h) behind,
              length-handle_bytes h,
            )),
        take-append (length k) k (handle_bytes h ++ behind) refl,
        drop-append (length k) k (handle_bytes h ++ behind) refl,
        split_key,
      )
      refl

pub handle_of_lem :
    (h : BlockHandle) (behind : List ℕ) → IsHandle h → handle_of (handle_bytes h ++ behind) ≡ ok h
unfolding handle_of
handle_of_lem h behind v =
    rw
      (
        sym (ap (λ bs. bs ++ behind) (encode_handle_lem h [])),
        decode_handle-encode_handle h behind v,
        handle_of,
      )
      refl

abbrev pub index_reader : List IndexEntry → IndexBlockReader
index_reader es = record { entries = encode_index es; offsets = index_offsets 0 es }

pub key_at_lem :
    (es : List IndexEntry) (i : ℕ) (k : Key) (h : BlockHandle)
    → get_elem? es i ≡ some (k, h)
    → IsIndexEntry (k, h)
    → IsHandle h
      × ((behind : List ℕ) × (key_at (index_reader es) i ≡ ok (some (k, handle_bytes h ++ behind))))
unfolding key_at
key_at_lem es i k h p v =
    let r = locate 0 es i (k, h) p in
    let listed : get_elem? (index_offsets 0 es) i ≡ some r.off = r.listed ∙ ap some (omega arith) in
    (
      v.handle_fits,
      (
        r.behind,
        rw (listed, le→ltb (length (encode_index es)) r.off r.inside, r.placed, key_at)
            (split_key_lem k h r.behind v.key_fits),
      ),
    )
