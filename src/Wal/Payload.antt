-- ===== src/Wal/Payload.antt =====
-- A record's payload parses back to the record.
use vroot_kv.Base.{ℕ, ◌+◌, ◌^◌, ◌≤◌, ◌<◌, ◌≡◌, refl, ap, ◌∙◌, arith}
use vroot_kv.Base.{List, [], ◌∷◌, ◌++◌, append_assoc, length, take, drop, some}
use vroot_kv.Base.{false, ltb, le→ltb}
use vroot_kv.Base.{length-append, take-append, drop-append, take_all, ok, All-append}
use vroot_kv.Codec.Bytes.{IsByte, IsBytes, u32, u64}
use vroot_kv.Codec.Fixed.{
  to_le, put_fixed64, from_le, decode_fixed64, length-to_le, from_le-to_le, to_le-IsBytes,
}
use vroot_kv.Codec.Varint.{put_varint32, get_varint32}
use vroot_kv.Codec.Varint.RoundTrip.{get_varint32-put_varint32, put_varint32_shape}
use vroot_kv.Wal.{
  RecordType, WalRecord, Error, begin_tx, put, delete_, commit_tx, abort_tx, unnamed,
}
use vroot_kv.Wal.{to_byte, of_byte, first_byte, remove_prefix, serialize_payload, parse_payload}

-- A prefix that the view has is removed.
pub remove_prefix_inside :
    (n : ℕ) (view : List ℕ) → n ≤ length view → remove_prefix n view ≡ ok (drop n view)
unfolding remove_prefix
remove_prefix_inside n view inside = rw (le→ltb (length view) n inside) refl

-- A value of the `enum`: the named constants stand for 0 to 4, the unnamed ones for the other bytes.
abbrev pub IsRecordType : RecordType → Type 0
IsRecordType (unnamed b) = (4 < b) × IsByte b
IsRecordType _ = Unit {0}

-- A record whose fields have their C++ types, with sizes that the `uint32_t` lengths hold.
pub record IsRecord (r : WalRecord) : Type 0 where
  pub txn_id_fits : r.txn_id < 2 ^ 64
  pub type_fits : IsRecordType r.type
  pub key_bytes : IsBytes r.key
  pub value_bytes : IsBytes r.value
  pub payload_fits : length r.key + length r.value + 19 < 2 ^ 32

of_byte-to_byte : (t : RecordType) → IsRecordType t → of_byte (to_byte t) ≡ t
unfolding of_byte to_byte
of_byte-to_byte begin_tx h = refl
of_byte-to_byte put h = refl
of_byte-to_byte delete_ h = refl
of_byte-to_byte commit_tx h = refl
of_byte-to_byte abort_tx h = refl
of_byte-to_byte (unnamed b) h = ground arith

to_byte-IsByte : (t : RecordType) → IsRecordType t → IsByte (to_byte t)
unfolding to_byte
to_byte-IsByte begin_tx h = omega arith
to_byte-IsByte put h = omega arith
to_byte-IsByte delete_ h = omega arith
to_byte-IsByte commit_tx h = omega arith
to_byte-IsByte abort_tx h = omega arith
to_byte-IsByte (unnamed b) h = h.1

-- The payload as its fields, one behind the other.
pub fields : WalRecord → List ℕ
fields r =
    put_varint32 [] (length r.key) ++ (put_varint32 [] (length r.value) ++ (r.key ++ r.value))

put_varint32-append : (dst : List ℕ) (v : ℕ) → put_varint32 dst v ≡ dst ++ put_varint32 [] v
unfolding put_varint32
put_varint32-append dst v = refl

pub serialize_payload_lem :
    (r : WalRecord)
    → IsRecord r
    → serialize_payload r ≡ to_le 8 r.txn_id ++ (to_byte r.type ∷ fields r)
unfolding serialize_payload put_fixed64 fields
serialize_payload_lem r v =
    rw
      (
        key_len,
        value_len,
        put_varint32-append
            (put_varint32 (to_le 8 r.txn_id ++ (to_byte r.type ∷ [])) (length r.key))
            (length r.value),
        put_varint32-append (to_le 8 r.txn_id ++ (to_byte r.type ∷ [])) (length r.key),
      )
      (simp append_assoc)
  where
    key_len : u32 (length r.key) ≡ length r.key
    key_len = omega (arith, v.payload_fits)

    value_len : u32 (length r.value) ≡ length r.value
    value_len = omega (arith, v.payload_fits)

-- What `ParsePayload` returns, from what its reads return.
parse_payload_lem :
    (front rest after_klen after_vlen : List ℕ) (txn t klen vlen : ℕ)
    → length front ≡ 8
    → from_le {E = Error} 8 (front ++ (t ∷ rest)) ≡ ok txn
    → get_varint32 rest ≡ some (klen, after_klen)
    → get_varint32 after_klen ≡ some (vlen, after_vlen)
    → klen + vlen < 2 ^ 64
    → klen + vlen ≤ length after_vlen
    → parse_payload (front ++ (t ∷ rest))
      ≡ ok (record {
        txn_id = txn;
        type = of_byte t;
        key = take klen after_vlen;
        value = take vlen (drop klen after_vlen);
      })
unfolding parse_payload decode_fixed64 first_byte
parse_payload_lem front rest after_klen after_vlen txn t klen vlen hf ht hk hv hs hl =
    rw
      (
        long,
        ht,
        remove_prefix_inside 8 (front ++ (t ∷ rest))
            (omega (arith, length-append front (t ∷ rest))),
        drop-append 8 front (t ∷ rest) hf,
        remove_prefix_inside 1 (t ∷ rest) (omega arith),
        hk,
        hv,
        enough,
        remove_prefix_inside klen after_vlen (omega arith),
      )
      refl
  where
    long : ltb (length (front ++ (t ∷ rest))) 9 ≡ false
    long = le→ltb _ 9 (omega (arith, length-append front (t ∷ rest)))

    enough : ltb (length after_vlen) (u64 (klen + vlen)) ≡ false
    enough = le→ltb _ _ (omega arith)

-- `ParsePayload` reads back what `SerializePayload` wrote of a record whose fields fit.
pub parse_payload-serialize_payload :
    (r : WalRecord) → IsRecord r → parse_payload (serialize_payload r) ≡ ok r
parse_payload-serialize_payload r v =
    serialize_payload_at
    ∙ parse_payload_lem (to_le 8 r.txn_id) (fields r) (V (length r.value) ++ kv) kv r.txn_id
        (to_byte r.type) (length r.key) (length r.value) (length-to_le 8 r.txn_id)
        (from_le-to_le 8 r.txn_id _ (omega (arith, v.txn_id_fits)))
        (unfold fields in
          get_varint32-put_varint32 (length r.key) _ (omega (arith, v.payload_fits)))
        (get_varint32-put_varint32 (length r.value) kv (omega (arith, v.payload_fits)))
        (omega (arith, v.payload_fits)) (omega (arith, length-append r.key r.value))
    ∙ rw
        (
          of_byte-to_byte r.type v.type_fits,
          take-append (length r.key) r.key r.value refl,
          drop-append (length r.key) r.key r.value refl,
          take_all (length r.value) r.value (omega arith),
        )
        refl
  where
    V : ℕ → List ℕ
    V n = put_varint32 [] n

    kv : List ℕ
    kv = r.key ++ r.value

    serialize_payload_at :
        parse_payload (serialize_payload r)
        ≡ parse_payload (to_le 8 r.txn_id ++ (to_byte r.type ∷ fields r))
    serialize_payload_at = ap parse_payload (serialize_payload_lem r v)

length-fields : (r : WalRecord) → length (fields r) ≤ length r.key + length r.value + 10
unfolding fields
length-fields r = omega (
  arith,
  length-append (put_varint32 [] (length r.key))
      (put_varint32 [] (length r.value) ++ (r.key ++ r.value)),
  length-append (put_varint32 [] (length r.value)) (r.key ++ r.value),
  length-append r.key r.value,
  put_varint32_shape (length r.key),
  put_varint32_shape (length r.value),
)

fields-IsBytes : (r : WalRecord) → IsRecord r → IsBytes (fields r)
unfolding fields
fields-IsBytes r v = All-append IsByte _ _ (put_varint32_shape (length r.key)).0 (
    All-append IsByte _ _ (put_varint32_shape (length r.value)).0
      (All-append IsByte _ _ v.key_bytes v.value_bytes))

-- The payload consists of bytes, and its size fits the frame's `uint32_t`.
pub serialize_payload_shape :
    (r : WalRecord)
    → IsRecord r
    → IsBytes (serialize_payload r) × (length (serialize_payload r) < 2 ^ 32)
serialize_payload_shape r v = rw (serialize_payload_lem r v) (
  All-append IsByte _ _ (to_le-IsBytes 8 r.txn_id)
      (to_byte-IsByte r.type v.type_fits, fields-IsBytes r v),
  omega (
    arith,
    length-append (to_le 8 r.txn_id) (to_byte r.type ∷ fields r),
    length-to_le 8 r.txn_id,
    length-fields r,
    v.payload_fits,
  ),
)
