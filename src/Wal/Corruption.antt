-- ===== src/Wal/Corruption.antt =====
-- A changed byte in a frame's payload or checksum is detected.
use vroot_kv.Base.{ℕ, suc, ◌+◌, ◌-◌, ◌^◌, ◌≤◌, ◌<◌, ◌≡◌, ◌≢◌, refl, sym, ap, ◌∙◌, arith}
use vroot_kv.Base.{List, [], ◌++◌, append_assoc, length, take, drop, set, get_or, not}
use vroot_kv.Base.{
  true, false, ltb, le→ltb, ◌==◌, length-append, length-set, take-append, All-set, All-get_or,
}
use vroot_kv.Base.{set-append_right, set-append_left, get_or-append_right, get_or-append_left}
use vroot_kv.Base.{split_at, set_at, get_or-set_self, All-drop, ok, err}
use vroot_kv.Codec.Bytes.{IsByte, IsBytes}
use vroot_kv.Codec.Fixed.{to_le, length-to_le, to_le-IsBytes, from_le, from_le_total, to_le-from_le}
use vroot_kv.Codec.Crc.{crc32}
use vroot_kv.Codec.Crc.Detect.{crc32-lt, crc32_byte_change}
use vroot_kv.Wal.{WalRecord, Error, crc_mismatch, serialize_payload, serialize_frame, parse_frame}
use vroot_kv.Wal.Payload.{IsRecord, serialize_payload_shape}
use vroot_kv.Wal.Frame.{
  header, length-header, parse_frame_lem, serialize_frame_lem, length-serialize_frame,
}
use native.Mathlib.Decide.{dec_le}
use mathlib.Core.List.{append-nil}
use mathlib.Core.Path.{subst}

ne→not : (a b : ℕ) → a ≢ b → not (a == b) ≡ true
ne→not a b h = ground arith

-- The checksum tells a buffer from the one with another byte at one position.
crc32-set :
    (bs : List ℕ) (k b : ℕ)
    → k < length bs
    → IsBytes bs
    → IsByte b
    → b ≢ get_or bs k 0
    → crc32 (set bs k b) ≢ crc32 bs
crc32-set bs k b inside bytes byte differ e =
    crc32_byte_change (take k bs) (drop (suc k) bs) b (get_or bs k 0) byte old_byte
      (All-drop IsByte (suc k) bs bytes) differ
      (ap crc32 (sym (set_at bs k b inside)) ∙ e ∙ ap crc32 (split_at bs k 0 inside))
  where
    old_byte : IsByte (get_or bs k 0)
    old_byte = All-get_or IsByte bs k 0 inside bytes

-- A frame whose header states another checksum than the payload's is refused.
mismatch :
    (payload rest : List ℕ) (len crc : ℕ)
    → len ≡ length payload
    → len < 2 ^ 32
    → crc < 2 ^ 32
    → crc32 payload ≢ crc
    → parse_frame (header len crc ++ (payload ++ rest)) ≡ err crc_mismatch
mismatch payload rest len crc same hl hc differ =
    rw
      (
        parse_frame_lem len crc (payload ++ rest) hl hc,
        enough,
        take-append len payload rest (sym same),
        ne→not _ _ differ,
      )
      refl
  where
    enough : ltb (length (payload ++ rest)) len ≡ false
    enough = le→ltb _ _ (omega (arith, length-append payload rest))

module _ (r : WalRecord) (v : IsRecord r) (b : ℕ) (byte : IsByte b) (rest : List ℕ) where
  abbrev payload : List ℕ
  payload = serialize_payload r

  shape : IsBytes payload × (length payload < 2 ^ 32)
  shape = serialize_payload_shape r v

  abbrev head : List ℕ
  head = header (length payload) (crc32 payload)

  -- in the payload
  payload_change :
      (k : ℕ)
      → k < length payload
      → b ≢ get_or payload k 0
      → parse_frame ((head ++ set payload k b) ++ rest) ≡ err crc_mismatch
  payload_change k inside differ =
      ap parse_frame (append_assoc head (set payload k b) rest)
      ∙ mismatch (set payload k b) rest (length payload) (crc32 payload)
          (sym (length-set payload k b)) shape.1 (crc32-lt payload)
          (crc32-set payload k b inside shape.0 byte differ)

  -- in the checksum: the four bytes state another number
  checksum_change :
      (k : ℕ)
      → k < 4
      → b ≢ get_or (to_le 4 (crc32 payload)) k 0
      → parse_frame
          ((to_le 4 (length payload) ++ set (to_le 4 (crc32 payload)) k b) ++ (payload ++ rest))
        ≡ err crc_mismatch
  unfolding header
  checksum_change k inside differ =
      rw (← stated) (mismatch payload rest (length payload) read.0 refl shape.1 read.2 other)
    where
      changed : List ℕ
      changed = set (to_le 4 (crc32 payload)) k b

      length-changed : length changed ≡ 4
      length-changed = length-set (to_le 4 (crc32 payload)) k b ∙ length-to_le 4 (crc32 payload)

      changed-IsBytes : IsBytes changed
      changed-IsBytes = All-set IsByte _ k b (to_le-IsBytes 4 (crc32 payload)) byte

      read : (v : ℕ) × (from_le {E = Error} 4 changed ≡ ok v) × (v < 256 ^ 4)
      read = from_le_total 4 changed (omega (arith, length-changed)) changed-IsBytes

      stated : to_le 4 read.0 ≡ changed
      stated =
          to_le-from_le {E = Error} 4 read.0 changed [] length-changed changed-IsBytes
            (rw (append-nil changed) read.1)

      other : crc32 payload ≢ read.0
      other e = differ (
          sym (
            get_or-set_self (to_le 4 (crc32 payload)) k b 0
              (omega (arith, length-to_le 4 (crc32 payload))))
          ∙ ap (λ bs. get_or bs k 0) (sym (ap (to_le 4) e ∙ stated)))

  -- Both, by the position in the frame.
  abbrev Refused : ℕ → Type 0
  Refused n =
      b ≢ get_or (head ++ payload) n 0
      → parse_frame (set (head ++ payload) n b ++ rest) ≡ err crc_mismatch

  payload_position : (k : ℕ) → k < length payload → Refused (8 + k)
  payload_position k inside = subst Refused at_end λ differ.
      ap (λ bs. parse_frame (bs ++ rest)) (set-append_right k head payload b)
      ∙ payload_change k inside (λ e. differ (e ∙ sym (get_or-append_right k head payload 0)))
    where
      at_end : length head + k ≡ 8 + k
      at_end = ap (λ (n : ℕ). n + k) (length-header (length payload) (crc32 payload))

  checksum_position : (k : ℕ) → k < 4 → Refused (4 + k)
  unfolding header
  checksum_position k inside = subst Refused at_end λ differ.
      ap (λ bs. parse_frame (bs ++ rest))
        (set-append_left head payload (length lens + k) b below
          ∙ ap (λ bs. bs ++ payload) (set-append_right k lens crcs b))
      ∙ ap parse_frame (append_assoc (lens ++ set crcs k b) payload rest)
      ∙ checksum_change k inside (λ e. differ (
          e
          ∙ sym (
              get_or-append_left head payload (length lens + k) 0 below
              ∙ get_or-append_right k lens crcs 0)))
    where
      lens : List ℕ
      lens = to_le 4 (length payload)

      crcs : List ℕ
      crcs = to_le 4 (crc32 payload)

      at_end : length lens + k ≡ 4 + k
      at_end = ap (λ (n : ℕ). n + k) (length-to_le 4 (length payload))

      below : length lens + k < length (lens ++ crcs)
      below = omega (
        arith,
        length-append lens crcs,
        length-to_le 4 (length payload),
        length-to_le 4 (crc32 payload),
      )

-- The frame of a record whose fields fit, in which one byte of the checksum or of the payload was
-- changed to another byte, is refused with a CRC mismatch, whatever follows it.
pub parse_frame_corrupt :
    (r : WalRecord) (i b : ℕ) (rest : List ℕ)
    → IsRecord r
    → IsByte b
    → 4 ≤ i
    → i < length (serialize_frame r)
    → b ≢ get_or (serialize_frame r) i 0
    → parse_frame (set (serialize_frame r) i b ++ rest) ≡ err crc_mismatch
parse_frame_corrupt r i b rest v byte lo hi = rw (serialize_frame_lem r v) (elim (dec_le 8 i) [
  | yes upper ↦
      subst (Refused r v b byte rest) (omega arith)
        (payload_position r v b byte rest (i - 8) (omega (arith, length-serialize_frame r v)))
  | no lower ↦
      subst (Refused r v b byte rest) (omega arith)
        (checksum_position r v b byte rest (i - 4) (omega arith))
])
