-- ===== src/Tests/Wal.antt =====
-- Frames and logs of two records, as tests/wal/test_wal.cpp has them.
use vroot_kv.Base.{◌≡◌, ◌≢◌, refl, arith, List, [], ◌∷◌, ◌++◌, length, take, set, get_or}
use vroot_kv.Base.{some, ok, err, fault, ltb, if◌then◌else◌}
use vroot_kv.Codec.Fixed.{to_le, put_fixed32, put_fixed64}
use vroot_kv.Codec.Varint.{put_varint32}
use vroot_kv.Wal.{WalRecord, begin_tx, put, crc_mismatch, truncated_header, truncated_payload}
use vroot_kv.Wal.{serialize_payload, serialize_frame, parse_frame}
use vroot_kv.Wal.Payload.{IsRecord}
use vroot_kv.Wal.Frame.{parse_frame-serialize_frame, parse_frame_torn}
use vroot_kv.Wal.Safety.{parse_frame-ne-fault}
use vroot_kv.Wal.Corruption.{parse_frame_corrupt}
use vroot_kv.Wal.Replay.{Replayed, replay, write_log, replay-write_log, replay_torn, replay_total}

abbrev begin : WalRecord
begin = record { txn_id = 1; type = begin_tx; key = []; value = [] }

-- "ap" and "red"
abbrev put_fruit : WalRecord
put_fruit = record { txn_id = 1; type = put; key = 97 ∷ 112 ∷ []; value = 114 ∷ 101 ∷ 100 ∷ [] }

begin-IsRecord : IsRecord begin
begin-IsRecord = record {
  txn_id_fits = omega arith;
  type_fits = tt;
  key_bytes = tt;
  value_bytes = tt;
  payload_fits = omega arith;
}

put_fruit-IsRecord : IsRecord put_fruit
put_fruit-IsRecord = record {
  txn_id_fits = omega arith;
  type_fits = tt;
  key_bytes = (omega arith, (omega arith, tt));
  value_bytes = (omega arith, (omega arith, (omega arith, tt)));
  payload_fits = omega arith;
}

abbrev two_records : List WalRecord
two_records = begin ∷ put_fruit ∷ []

-- The frame of `put_fruit` has 24 bytes.
length-put_fruit : length (serialize_frame put_fruit) ≡ 24
unfolding serialize_frame serialize_payload put_fixed32 put_fixed64 put_varint32 to_le
length-put_fruit = refl

payload_bytes :
    serialize_payload put_fruit
    ≡ 1 ∷ 0 ∷ 0 ∷ 0 ∷ 0 ∷ 0 ∷ 0 ∷ 0 ∷ 1 ∷ 2 ∷ 3 ∷ 97 ∷ 112 ∷ 114 ∷ 101 ∷ 100 ∷ []
unfolding serialize_payload put_fixed64 put_varint32 to_le
payload_bytes = refl

parse_frame-serialize_frame_example :
    parse_frame (serialize_frame put_fruit ++ (7 ∷ [])) ≡ ok (put_fruit, 7 ∷ [])
parse_frame-serialize_frame_example =
    parse_frame-serialize_frame put_fruit (7 ∷ []) put_fruit-IsRecord

parse_frame_torn_example :
    parse_frame (take 9 (serialize_frame put_fruit))
    ≡ err (if ltb 9 8 then truncated_header else truncated_payload)
parse_frame_torn_example =
    parse_frame_torn put_fruit 9 put_fruit-IsRecord (omega (arith, length-put_fruit))

last_byte : get_or (serialize_frame put_fruit) 23 0 ≡ 100
unfolding serialize_frame serialize_payload put_fixed32 put_fixed64 put_varint32 to_le
last_byte = refl

-- The last byte of the value is 100, so 101 is a change.
last_byte_differs : 101 ≢ get_or (serialize_frame put_fruit) 23 0
last_byte_differs e = absurd (omega (arith, e, last_byte))

parse_frame_corrupt_example :
    parse_frame (set (serialize_frame put_fruit) 23 101 ++ []) ≡ err crc_mismatch
parse_frame_corrupt_example =
    parse_frame_corrupt put_fruit 23 101 [] put_fruit-IsRecord (omega arith) (omega arith)
      (omega (arith, length-put_fruit)) last_byte_differs

parse_frame-ne-fault_example : parse_frame (serialize_frame begin) ≢ fault
parse_frame-ne-fault_example = parse_frame-ne-fault (serialize_frame begin)

replay-write_log_example :
    replay (write_log two_records) ≡ some (record { records = two_records; stop = ok tt })
replay-write_log_example = replay-write_log two_records (begin-IsRecord, (put_fruit-IsRecord, tt))

length-begin : length (serialize_frame begin) ≡ 19
unfolding serialize_frame serialize_payload put_fixed32 put_fixed64 put_varint32 to_le
length-begin = refl

replay_torn_example :
    replay (write_log two_records ++ take 3 (serialize_frame begin))
    ≡ some (record {
      records = two_records;
      stop = err (if ltb 3 8 then truncated_header else truncated_payload);
    })
replay_torn_example =
    replay_torn two_records begin 3 (begin-IsRecord, (put_fruit-IsRecord, tt)) begin-IsRecord
      (omega arith) (omega (arith, length-begin))

replay_total_example : (p : Replayed) × (replay (1 ∷ 2 ∷ 3 ∷ []) ≡ some p) × (p.stop ≢ fault)
replay_total_example = replay_total (1 ∷ 2 ∷ 3 ∷ [])
