-- ===== src/Wal.antt =====
-- `WALRecord` of src/wal/wal_format.h: the records of the write-ahead log, their payloads and frames.
pub mod Payload
pub mod Frame
pub mod Safety
pub mod Corruption
pub mod Replay
use vroot_kv.Base.{ℕ, zero, suc, ◌+◌, List, [], ◌∷◌, ◌++◌, length, take, drop, Option, none, some}
use vroot_kv.Base.{
  ltb, ◌==◌, if◌then◌else◌, not, Result, ok, err, fault, ◌>>=◌, ◌>>◌, throw_if, or_throw,
}
use vroot_kv.Codec.Bytes.{u8, u32, u64}
use vroot_kv.Codec.Fixed.{put_fixed32, put_fixed64, decode_fixed32, decode_fixed64}
use vroot_kv.Codec.Varint.{put_varint32, get_varint32}
use vroot_kv.Codec.Crc.{crc32}

-- `enum class RecordType : uint8_t`. A cast from a byte gives any value of the type, named or not:
-- `unnamed b` is the value `b` above 4.
pub data RecordType : Type 0 where
  begin_tx put delete_ commit_tx abort_tx : RecordType
  unnamed : ℕ → RecordType

unfoldable pub to_byte : RecordType → ℕ
to_byte begin_tx = 0
to_byte put = 1
to_byte delete_ = 2
to_byte commit_tx = 3
to_byte abort_tx = 4
to_byte (unnamed b) = b

unfoldable pub of_byte : ℕ → RecordType
of_byte b =
    if b == 0
    then begin_tx
    else if b == 1
    then put
    else if b == 2
    then delete_
    else if b == 3
    then commit_tx
    else if b == 4
    then abort_tx
    else unnamed b

pub record WalRecord : Type 0 where
  pub txn_id : ℕ
  pub type : RecordType
  pub key : List ℕ
  pub value : List ℕ

-- The messages of the `std::runtime_error`s.
pub data Error : Type 0 where
  truncated_header truncated_payload crc_mismatch payload_too_small : Error
  bad_key_length bad_value_length truncated_kv : Error

-- `payload[0]`, outside the view if that is empty
first_byte : List ℕ → Result Error ℕ
first_byte [] = fault
first_byte (b ∷ bs) = ok b

unfoldable pub serialize_payload : WalRecord → List ℕ
unfolding to_byte
serialize_payload r =
    let with_id = put_fixed64 [] r.txn_id in
    let with_type = with_id ++ (to_byte r.type ∷ []) in
    let with_key_len = put_varint32 with_type (u32 (length r.key)) in
    let with_value_len = put_varint32 with_key_len (u32 (length r.value)) in
    (with_value_len ++ r.key) ++ r.value

unfoldable pub serialize_frame : WalRecord → List ℕ
serialize_frame r =
    let payload = serialize_payload r in
    let with_len = put_fixed32 [] (u32 (length payload)) in
    let with_crc = put_fixed32 with_len (crc32 payload) in with_crc ++ payload

-- `view.remove_prefix(n)`, which C++ leaves undefined where the view is shorter
unfoldable pub remove_prefix : ℕ → List ℕ → Result Error (List ℕ)
remove_prefix n view = if ltb (length view) n then fault else ok (drop n view)

unfoldable pub parse_payload : List ℕ → Result Error WalRecord
unfolding first_byte of_byte remove_prefix
parse_payload payload = do
  throw_if (ltb (length payload) 9) payload_too_small
  txn_id ← decode_fixed64 payload
  after_id ← remove_prefix 8 payload
  type ← first_byte after_id
  after_type ← remove_prefix 1 after_id
  (klen, after_klen) ← or_throw (get_varint32 after_type) bad_key_length
  (vlen, after_vlen) ← or_throw (get_varint32 after_klen) bad_value_length
  throw_if (ltb (length after_vlen) (u64 (klen + vlen))) truncated_kv
  after_key ← remove_prefix klen after_vlen
  ok (record {
    txn_id = txn_id;
    type = of_byte type;
    key = take klen after_vlen;
    value = take vlen after_key;
  })

-- The record, and what is left of the view.
unfoldable pub parse_frame : List ℕ → Result Error (WalRecord × List ℕ)
unfolding remove_prefix
parse_frame input = do
  throw_if (ltb (length input) 8) truncated_header
  len ← decode_fixed32 input
  crc ← decode_fixed32 (drop 4 input)
  body ← remove_prefix 8 input
  throw_if (ltb (length body) len) truncated_payload
  let payload = take len body
  throw_if (not (crc32 payload == crc)) crc_mismatch
  r ← parse_payload payload
  rest ← remove_prefix len body
  ok (r, rest)
