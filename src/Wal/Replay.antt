-- ===== src/Wal/Replay.antt =====
-- A log is read by parsing frames until the view is empty, as tests/wal/test_wal.cpp does.
use vroot_kv.Base.{ℕ, zero, suc, ◌+◌, ◌≤◌, ◌<◌, ◌≡◌, refl, sym, ap, ◌∙◌, arith}
use vroot_kv.Base.{
  List, [], ◌∷◌, ◌++◌, append_assoc, append-nil, length, length-append, take, length-take, All, ltb,
  if◌then◌else◌,
}
use vroot_kv.Base.{Option, none, some, Result, ok, err, fault}
use vroot_kv.Wal.{
  WalRecord, Error, truncated_header, truncated_payload, serialize_frame, parse_frame,
}
use vroot_kv.Wal.Payload.{IsRecord}
use vroot_kv.Base.{◌≢◌, inl, inr, Result-cases, drop, length-drop}
use vroot_kv.Wal.Safety.{IsAccepted, parse_frame-IsAccepted, parse_frame-ne-fault}
use vroot_kv.Wal.Frame.{parse_frame-serialize_frame, parse_frame_torn, length-serialize_frame}

-- The records of the frames up to the end of the view, or up to an error and that error. `none`
-- means that the fuel ran out.
pub record Replayed : Type 0 where
  pub records : List WalRecord
  pub stop : Result Error (Unit {0})

abbrev prepend : WalRecord → Replayed → Replayed
prepend r p = record { records = r ∷ p.records; stop = p.stop }

abbrev pub replayed : List WalRecord → Result Error (Unit {0}) → Replayed
replayed rs stop = record { records = rs; stop = stop }

-- `while (!sv.empty()) out.push_back(ParseFrame(sv));`
unfoldable pub replay_loop : ℕ → List ℕ → Option Replayed
replay_loop fuel [] = some (replayed [] (ok tt))
replay_loop zero (b ∷ bs) = none
replay_loop (suc fuel) (b ∷ bs) = elim (parse_frame (b ∷ bs)) [
  | ok (r, rest) ↦ elim (replay_loop fuel rest) [ none ↦ none | some p ↦ some (prepend r p) ]
  | err e ↦ some (replayed [] (err e))
  | fault ↦ some (replayed [] fault)
]

-- Every frame takes a byte at least.
unfoldable pub replay : List ℕ → Option Replayed
unfolding replay_loop
replay log = replay_loop (length log) log

-- The log that appends the frame of each record.
abbrev pub write_log : List WalRecord → List ℕ
write_log [] = []
write_log (r ∷ rs) = serialize_frame r ++ write_log rs

first_frame :
    (fuel : ℕ) (r : WalRecord) (bs rest : List ℕ) (p : Replayed)
    → 0 < length bs
    → parse_frame bs ≡ ok (r, rest)
    → replay_loop fuel rest ≡ some p
    → replay_loop (suc fuel) bs ≡ some (prepend r p)
unfolding replay_loop
first_frame fuel r [] rest p h q e = absurd (omega arith)
first_frame fuel r (b ∷ bs) rest p h q e = rw (q, e, replay_loop) refl

replay_loop-append :
    (fuel : ℕ) (rs : List WalRecord) (tail : List ℕ) (p : Replayed)
    → All IsRecord rs
    → ((f : ℕ) → length tail ≤ f → replay_loop f tail ≡ some p)
    → length (write_log rs ++ tail) ≤ fuel
    → replay_loop fuel (write_log rs ++ tail) ≡ some (replayed (rs ++ p.records) p.stop)
replay_loop-append fuel [] tail p v last h = last fuel h
replay_loop-append zero (r ∷ rs) tail p v last h = absurd (
    omega (
      arith,
      length-append (serialize_frame r ++ write_log rs) tail,
      length-append (serialize_frame r) (write_log rs),
      length-serialize_frame r v.0,
    ))
replay_loop-append (suc fuel) (r ∷ rs) tail p v last h =
    ap (replay_loop (suc fuel)) (append_assoc (serialize_frame r) (write_log rs) tail)
    ∙ first_frame fuel r (serialize_frame r ++ more) more (replayed (rs ++ p.records) p.stop)
        (omega (arith, sizes, length-serialize_frame r v.0))
        (parse_frame-serialize_frame r more v.0)
        (replay_loop-append fuel rs tail p v.1 last (
          omega (
            arith,
            sizes,
            length-serialize_frame r v.0,
            ap (length {A = ℕ}) (append_assoc (serialize_frame r) (write_log rs) tail),
          )))
  where
    more : List ℕ
    more = write_log rs ++ tail

    sizes : length (serialize_frame r ++ more) ≡ length (serialize_frame r) + length more
    sizes = length-append (serialize_frame r) more

empty_tail : (f : ℕ) → replay_loop f [] ≡ some (replayed [] (ok tt))
unfolding replay_loop
empty_tail zero = refl
empty_tail (suc f) = refl

-- Reading a log of records whose fields fit gives back the records that were written, in order, and
-- ends without an error.
pub replay-write_log :
    (rs : List WalRecord) → All IsRecord rs → replay (write_log rs) ≡ some (replayed rs (ok tt))
unfolding replay
replay-write_log rs v =
    ap (λ bs. replay_loop (length bs) bs) (sym (append-nil (write_log rs)))
    ∙ replay_loop-append _ rs [] (replayed [] (ok tt)) v (λ f h. empty_tail f) (omega arith)
    ∙ ap (λ qs. some (replayed qs (ok tt))) (append-nil rs)

refused_tail :
    (f : ℕ) (bs : List ℕ) (e : Error)
    → 0 < length bs
    → length bs ≤ f
    → parse_frame bs ≡ err e
    → replay_loop f bs ≡ some (replayed [] (err e))
unfolding replay_loop
refused_tail f [] e h hf q = absurd (omega arith)
refused_tail zero (b ∷ bs) e h hf q = absurd (omega arith)
refused_tail (suc f) (b ∷ bs) e h hf q = rw (q, replay_loop) refl

-- A log of records whose fields fit, the last frame cut to some of its bytes: reading it gives back
-- every record before that frame, and the error for the part that is cut.
pub replay_torn :
    (rs : List WalRecord) (r : WalRecord) (n : ℕ)
    → All IsRecord rs
    → IsRecord r
    → 0 < n
    → n < length (serialize_frame r)
    → replay (write_log rs ++ take n (serialize_frame r))
      ≡ some (replayed rs (err (if ltb n 8 then truncated_header else truncated_payload)))
unfolding replay
replay_torn rs r n vs v some_bytes cut =
    replay_loop-append _ rs torn (replayed [] (err why)) vs
      (λ f h.
        refused_tail f torn why (omega (arith, length-take n (serialize_frame r))) h
          (parse_frame_torn r n v cut))
      (omega arith)
    ∙ ap (λ qs. some (replayed qs (err why))) (append-nil rs)
  where
    torn : List ℕ
    torn = take n (serialize_frame r)

    why : Error
    why = if ltb n 8 then truncated_header else truncated_payload

replay_loop_total :
    (fuel : ℕ) (bs : List ℕ)
    → length bs ≤ fuel
    → (p : Replayed) × (replay_loop fuel bs ≡ some p) × (p.stop ≢ fault)
unfolding replay_loop
replay_loop_total fuel [] h = (replayed [] (ok tt), refl, λ e. cc)
replay_loop_total zero (b ∷ bs) h = absurd (omega arith)
replay_loop_total (suc fuel) (b ∷ bs) h = elim (Result-cases (parse_frame (b ∷ bs))) [
  | inl ((r, rest), q) ↦
      let taken = parse_frame-IsAccepted (b ∷ bs) r rest q in
      let (p, e, safe) = replay_loop_total fuel rest (shorter rest taken) in
      (prepend r p, rw (q, e, replay_loop) refl, safe)
  | inr (inl (e, q)) ↦ (replayed [] (err e), rw (q, replay_loop) refl, λ f. cc)
  | inr (inr q) ↦ absurd (parse_frame-ne-fault (b ∷ bs) q)
]
  where
    shorter : {r : WalRecord} (rest : List ℕ) → IsAccepted (b ∷ bs) r rest → length rest ≤ fuel
    shorter rest taken = omega (
      arith,
      taken.inside,
      ap (length {A = ℕ}) taken.advanced,
      length-drop taken.len (drop 8 (b ∷ bs)),
      length-drop 8 (b ∷ bs),
    )

-- On any bytes the reading of a log ends, and reads nothing outside the view.
pub replay_total : (log : List ℕ) → (p : Replayed) × (replay log ≡ some p) × (p.stop ≢ fault)
unfolding replay
replay_total log = replay_loop_total (length log) log (omega arith)
