-- ===== src/Wal/Safety.antt =====
-- The parser on arbitrary bytes: it reads nothing outside the view, and accepts only what the
-- checksum covers.
use vroot_kv.Base.{ℕ, ◌+◌, ◌≤◌, ◌<◌, ◌≡◌, refl, ◌≢◌, arith}
use vroot_kv.Base.{List, [], ◌∷◌, length, take, drop}
use vroot_kv.Base.{ltb, ltb→le, Bool-cases, inl, inr, length-drop, ok, fault}
use vroot_kv.Codec.Fixed.{decode_fixed32, decode_fixed64, from_le_inside}
use vroot_kv.Codec.Crc.{crc32}
use vroot_kv.Wal.Frame.{after_header}
use vroot_kv.Wal.{
  WalRecord, Error, bad_key_length, bad_value_length, truncated_kv, first_byte, of_byte,
  remove_prefix, parse_payload, parse_frame,
}
use vroot_kv.Wal.Payload.{remove_prefix_inside}
use vroot_kv.Codec.Varint.{get_varint_loop, get_varint32}
use vroot_kv.Codec.Bytes.{u32, u64}
use vroot_kv.Base.{
  Option-cases, Result-cases, some, or_throw, throw_if, ◌>>=◌, ◌>>◌, not, leb, ◌==◌, ◌*◌, ◌^◌,
}
use vroot_kv.Base.Bits.{bit_or-lt}
use vroot_kv.Base.{bit_and, bit_or}

first_byte_inside : (bs : List ℕ) → 0 < length bs → (b : ℕ) × (first_byte bs ≡ ok b)
unfolding first_byte
first_byte_inside [] h = absurd (omega arith)
first_byte_inside (b ∷ bs) h = (b, refl)

-- A varint has 32 bits.
get_varint_loop-lt :
    (bs : List ℕ) (result shift v : ℕ) (rest : List ℕ)
    → result < 2 ^ 32
    → get_varint_loop bs result shift ≡ some (v, rest)
    → v < 2 ^ 32
unfolding get_varint_loop
get_varint_loop-lt [] result shift v rest small e = absurd cc
get_varint_loop-lt (byte ∷ bs) result shift v rest small e = elim (Bool-cases (leb shift 28)) [
  | inr over ↦ absurd (let bad = rw over at e in cc)
  | inl on ↦ elim (Bool-cases (bit_and byte 0x80 == 0)) [
    | inl last ↦
        let same : result' ≡ v = (let found = rw (on, last) at e in cc) in rw (← same) bounded
    | inr more ↦ get_varint_loop-lt bs result' (shift + 7) v rest bounded (rw (on, more) at e)
  ]
]
  where
    result' : ℕ
    result' = bit_or result (u32 (bit_and byte 0x7f * 2 ^ shift))

    bounded : result' < 2 ^ 32
    bounded = bit_or-lt 32 result (u32 (bit_and byte 0x7f * 2 ^ shift)) small (omega arith)

get_varint32-lt :
    (bs : List ℕ) (v : ℕ) (rest : List ℕ) → get_varint32 bs ≡ some (v, rest) → v < 2 ^ 32
unfolding get_varint32
get_varint32-lt bs v rest e = get_varint_loop-lt bs 0 0 v rest (omega arith) e

-- The lengths, and the key that they say is there.
kv_inside :
    (view : List ℕ) (make : ℕ → ℕ → List ℕ → List ℕ → WalRecord)
    → (or_throw (get_varint32 view) bad_key_length >>= λ k.
        or_throw (get_varint32 k.1) bad_value_length >>= λ n.
        throw_if (ltb (length n.1) (u64 (k.0 + n.0))) truncated_kv
        >> (remove_prefix k.0 n.1 >>= λ after_key. ok (make k.0 n.0 n.1 after_key)))
      ≢ fault
kv_inside view make = elim (Option-cases (get_varint32 view)) [
  | inl bad ↦ rw bad (λ e. cc)
  | inr ((klen, after_klen), ek) ↦ elim (Option-cases (get_varint32 after_klen)) [
    | inl bad ↦ rw (ek, bad) (λ e. cc)
    | inr ((vlen, after_vlen), ev) ↦
        elim (Bool-cases (ltb (length after_vlen) (u64 (klen + vlen)))) [
          | inl cut ↦ rw (ek, ev, cut) (λ e. cc)
          | inr whole ↦
              let kl = get_varint32-lt view klen after_klen ek in
              let vl = get_varint32-lt after_klen vlen after_vlen ev in
              let fits = ltb→le (length after_vlen) (u64 (klen + vlen)) whole in
              rw (ek, ev, whole, remove_prefix_inside klen after_vlen (omega (arith, kl, vl, fits)))
                (λ e. cc)
        ]
  ]
]

-- `ParsePayload` reads no byte outside its view, and removes no prefix that the view does not have.
pub parse_payload-ne-fault : (payload : List ℕ) → parse_payload payload ≢ fault
unfolding parse_payload decode_fixed64
parse_payload-ne-fault payload = elim (Bool-cases (ltb (length payload) 9)) [
  | inl short ↦ rw short (λ e. cc)
  | inr long ↦
      let size = ltb→le (length payload) 9 long in
      let (txn, et) = from_le_inside {E = Error} 8 payload (omega (arith, size)) in
      let (t, eb) =
        first_byte_inside (drop 8 payload) (omega (arith, size, length-drop 8 payload)) in
      rw
        (
          long,
          et,
          remove_prefix_inside 8 payload (omega (arith, size)),
          eb,
          remove_prefix_inside 1 (drop 8 payload) (omega (arith, size, length-drop 8 payload)),
        )
        (kv_inside (drop 1 (drop 8 payload)) (λ klen vlen after_vlen after_key. record {
          txn_id = txn;
          type = of_byte t;
          key = take klen after_vlen;
          value = take vlen after_key;
        }))
]

-- `ParseFrame` behind a header faults nowhere.
after_header-ne-fault : (len crc : ℕ) (body : List ℕ) → after_header len crc body ≢ fault
after_header-ne-fault len crc body = elim (Bool-cases (ltb (length body) len)) [
  | inl cut ↦ rw cut (λ e. cc)
  | inr whole ↦ elim (Bool-cases (not (crc32 (take len body) == crc))) [
    | inl other ↦ rw (whole, other) (λ e. cc)
    | inr same ↦ elim (Result-cases (parse_payload (take len body))) [
      | inl (r, e) ↦
          rw (whole, same, e, remove_prefix_inside len body (ltb→le (length body) len whole))
            (λ f. cc)
      | inr (inl (z, e)) ↦ rw (whole, same, e) (λ f. cc)
      | inr (inr e) ↦ absurd (parse_payload-ne-fault (take len body) e)
    ]
  ]
]

-- Whatever the bytes are, `ParseFrame` reads no byte outside its view, and removes no prefix from a view that does
-- not have it, in the payload neither.
pub parse_frame-ne-fault : (input : List ℕ) → parse_frame input ≢ fault
unfolding parse_frame decode_fixed32
parse_frame-ne-fault input = elim (Bool-cases (ltb (length input) 8)) [
  | inl short ↦ rw short (λ e. cc)
  | inr long ↦
      let (len, el) = from_le_inside {E = Error} 4 input (omega (arith, ltb→le _ 8 long)) in
      let (crc, ec) =
        from_le_inside {E = Error} 4 (drop 4 input)
          (omega (arith, ltb→le _ 8 long, length-drop 4 input)) in
      rw (long, el, ec) (after_header-ne-fault len crc (drop 8 input))
]

-- What `ParseFrame` accepted: a length that the view holds, a checksum that agrees with the payload,
-- a payload that parses to the record, and the view behind it.
pub record IsAccepted (input : List ℕ) (r : WalRecord) (rest : List ℕ) : Type 0 where
  pub len : ℕ
  pub crc : ℕ
  pub reads_len : decode_fixed32 {E = Error} input ≡ ok len
  pub reads_crc : decode_fixed32 {E = Error} (drop 4 input) ≡ ok crc
  pub inside : 8 + len ≤ length input
  pub checked : crc32 (take len (drop 8 input)) ≡ crc
  pub parsed : parse_payload (take len (drop 8 input)) ≡ ok r
  pub advanced : rest ≡ drop len (drop 8 input)

behind_header :
    (input : List ℕ) (r : WalRecord) (rest : List ℕ) (len crc : ℕ)
    → 8 ≤ length input
    → decode_fixed32 {E = Error} input ≡ ok len
    → decode_fixed32 {E = Error} (drop 4 input) ≡ ok crc
    → after_header len crc (drop 8 input) ≡ ok (r, rest)
    → IsAccepted input r rest
unfolding remove_prefix
behind_header input r rest len crc long el ec h = record {
  len = len;
  crc = crc;
  reads_len = el;
  reads_crc = ec;
  inside = ground (arith, length-drop 8 input);
  checked = ground arith;
  parsed = ground arith;
  advanced = ground arith;
}

-- Where `ParseFrame` returns a record, the frame is whole, its checksum agrees with the payload, the
-- payload parses to that record, and the view advances by 8 + `len`.
pub parse_frame-IsAccepted :
    (input : List ℕ) (r : WalRecord) (rest : List ℕ)
    → parse_frame input ≡ ok (r, rest)
    → IsAccepted input r rest
parse_frame-IsAccepted input r rest h = elim (Bool-cases (ltb (length input) 8)) [
  | inl short ↦ unfold parse_frame in cc (rw (short) at h)
  | inr long ↦
      let fits : 8 ≤ length input = ltb→le _ 8 long in
      let (len, el) = from_le_inside {E = Error} 4 input (omega arith) in
      let (crc, ec) =
        from_le_inside {E = Error} 4 (drop 4 input) (omega (arith, length-drop 4 input)) in
      behind_header input r rest len crc fits (unfold decode_fixed32 in el)
        (unfold decode_fixed32 in ec) (unfold parse_frame decode_fixed32 in rw (long, el, ec) at h)
]
