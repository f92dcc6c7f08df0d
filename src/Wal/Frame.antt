-- ===== src/Wal/Frame.antt =====
-- A record's frame parses back to the record, and no proper prefix of it does.
use vroot_kv.Base.{ℕ, ◌+◌, ◌^◌, ◌<◌, ◌≡◌, refl, sym, ap, ◌∙◌, arith, ==_refl}
use vroot_kv.Base.{List, ◌++◌, append_assoc, length, take, drop, not}
use vroot_kv.Base.{
  ◌-◌, if◌then◌else◌, Bool-cases, inl, inr, ltb→lt, ltb→le, true, take-append_right,
}
use vroot_kv.Base.{
  false, ltb, le→ltb, lt→ltb, ◌==◌, length-append, length-take, take-append, drop-append,
}
use vroot_kv.Base.{Result, ok, err, ◌>>=◌, ◌>>◌, throw_if}
use vroot_kv.Codec.Fixed.{to_le, put_fixed32, decode_fixed32, length-to_le, from_le-to_le}
use vroot_kv.Codec.Crc.{crc32}
use vroot_kv.Codec.Crc.Detect.{crc32-lt}
use vroot_kv.Wal.{WalRecord, Error, truncated_header, truncated_payload, crc_mismatch}
use vroot_kv.Wal.{remove_prefix, serialize_payload, serialize_frame, parse_payload, parse_frame}
use vroot_kv.Wal.Payload.{
  IsRecord, remove_prefix_inside, parse_payload-serialize_payload, serialize_payload_shape,
}

-- A header that states `len` and `crc`.
unfoldable pub header : ℕ → ℕ → List ℕ
header len crc = to_le 4 len ++ to_le 4 crc

pub length-header : (len crc : ℕ) → length (header len crc) ≡ 8
unfolding header
length-header len crc =
    omega (arith, length-append (to_le 4 len) (to_le 4 crc), length-to_le 4 len, length-to_le 4 crc)

header_len :
    (len crc : ℕ) (body : List ℕ)
    → len < 2 ^ 32
    → decode_fixed32 {E = Error} (header len crc ++ body) ≡ ok len
unfolding header decode_fixed32
header_len len crc body h =
    rw (append_assoc (to_le 4 len) (to_le 4 crc) body) (from_le-to_le 4 len _ (omega arith))

header_crc :
    (len crc : ℕ) (body : List ℕ)
    → crc < 2 ^ 32
    → decode_fixed32 {E = Error} (drop 4 (header len crc ++ body)) ≡ ok crc
unfolding header decode_fixed32
header_crc len crc body h =
    rw
      (
        append_assoc (to_le 4 len) (to_le 4 crc) body,
        drop-append 4 (to_le 4 len) (to_le 4 crc ++ body) (length-to_le 4 len),
      )
      (from_le-to_le 4 crc body (omega arith))

-- `ParseFrame` behind a header: the length check, the checksum, the payload.
abbrev pub after_header : ℕ → ℕ → List ℕ → Result Error (WalRecord × List ℕ)
after_header len crc body =
    throw_if (ltb (length body) len) truncated_payload
    >> (throw_if (not (crc32 (take len body) == crc)) crc_mismatch
        >> (parse_payload (take len body) >>= λ r. remove_prefix len body >>= λ rest. ok (r, rest)))

pub parse_frame_lem :
    (len crc : ℕ) (body : List ℕ)
    → len < 2 ^ 32
    → crc < 2 ^ 32
    → parse_frame (header len crc ++ body) ≡ after_header len crc body
unfolding parse_frame
parse_frame_lem len crc body hl hc =
    rw
      (
        long,
        header_len len crc body hl,
        header_crc len crc body hc,
        drop-append 8 (header len crc) body (length-header len crc),
      )
      refl
  where
    long : ltb (length (header len crc ++ body)) 8 ≡ false
    long = le→ltb _ 8 (omega (arith, length-append (header len crc) body, length-header len crc))

pub serialize_frame_lem :
    (r : WalRecord)
    → IsRecord r
    → serialize_frame r
      ≡ header (length (serialize_payload r)) (crc32 (serialize_payload r)) ++ serialize_payload r
unfolding serialize_frame header put_fixed32
serialize_frame_lem r v =
    ap (λ n. (to_le 4 n ++ to_le 4 (crc32 (serialize_payload r))) ++ serialize_payload r)
      (omega (arith, serialize_payload_shape r v))

-- `ParseFrame` reads back a record whose fields fit from what `SerializeFrame` wrote, and leaves what
-- follows the frame.
pub parse_frame-serialize_frame :
    (r : WalRecord) (rest : List ℕ)
    → IsRecord r
    → parse_frame (serialize_frame r ++ rest) ≡ ok (r, rest)
parse_frame-serialize_frame r rest v =
    rw
      (
        serialize_frame_lem r v,
        append_assoc (header (length payload) (crc32 payload)) payload rest,
        parse_frame_lem (length payload) (crc32 payload) (payload ++ rest)
            (serialize_payload_shape r v).1 (crc32-lt payload),
        enough,
        take-append (length payload) payload rest refl,
        ==_refl (crc32 payload),
        parse_payload-serialize_payload r v,
        remove_prefix_inside (length payload) (payload ++ rest)
            (omega (arith, length-append payload rest)),
        drop-append (length payload) payload rest refl,
      )
      refl
  where
    payload : List ℕ
    payload = serialize_payload r

    enough : ltb (length (payload ++ rest)) (length payload) ≡ false
    enough = le→ltb _ _ (omega (arith, length-append payload rest))

pub length-serialize_frame :
    (r : WalRecord) → IsRecord r → length (serialize_frame r) ≡ 8 + length (serialize_payload r)
length-serialize_frame r v = rw (serialize_frame_lem r v) (
    omega (
      arith,
      length-append (header (length (serialize_payload r)) (crc32 (serialize_payload r)))
          (serialize_payload r),
      length-header (length (serialize_payload r)) (crc32 (serialize_payload r)),
    ))

-- Behind a whole header the payload is cut.
torn_payload :
    (r : WalRecord) (k : ℕ)
    → IsRecord r
    → k < length (serialize_payload r)
    → parse_frame (take (8 + k) (serialize_frame r)) ≡ err truncated_payload
torn_payload r k v h =
    rw
      (
        cut,
        parse_frame_lem (length payload) (crc32 payload) (take k payload)
            (serialize_payload_shape r v).1 (crc32-lt payload),
        short,
      )
      refl
  where
    payload : List ℕ
    payload = serialize_payload r

    head : List ℕ
    head = header (length payload) (crc32 payload)

    cut : take (8 + k) (serialize_frame r) ≡ head ++ take k payload
    cut =
        ap (take (8 + k)) (serialize_frame_lem r v)
        ∙ ap (λ n. take (n + k) (head ++ payload))
            (sym (length-header (length payload) (crc32 payload)))
        ∙ take-append_right k head payload

    short : ltb (length (take k payload)) (length payload) ≡ true
    short = lt→ltb _ _ (omega (arith, length-take k payload))

torn_header : (n : ℕ) (input : List ℕ) → n < 8 → parse_frame (take n input) ≡ err truncated_header
unfolding parse_frame
torn_header n input h = rw (short) refl
  where
    short : ltb (length (take n input)) 8 ≡ true
    short = lt→ltb _ 8 (omega (arith, length-take n input))

-- The frame of a record whose fields fit, cut anywhere, is refused with the error for the part that is
-- cut.
pub parse_frame_torn :
    (r : WalRecord) (n : ℕ)
    → IsRecord r
    → n < length (serialize_frame r)
    → parse_frame (take n (serialize_frame r))
      ≡ err (if ltb n 8 then truncated_header else truncated_payload)
parse_frame_torn r n v h = elim (Bool-cases (ltb n 8)) [
  | inl short ↦ rw short (torn_header n (serialize_frame r) (ltb→lt n 8 short))
  | inr long ↦ rw long (
      ap (λ k. parse_frame (take k (serialize_frame r))) (omega (arith, ltb→le n 8 long))
      ∙ torn_payload r (n - 8) v (omega (arith, length-serialize_frame r v, ltb→le n 8 long)))
]
