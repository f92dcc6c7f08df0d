-- ===== src/FileManager/Log.antt =====
-- A log that is written to a file by `Write`, and read again.
use vroot_kv.Base.{
  ℕ, zero, suc, ◌+◌, ◌-◌, ◌≤◌, ◌<◌, ◌≡◌, ◌⊎◌, inl, inr, refl, sym, ap, ◌∙◌, arith, Bool, true,
  false, Option, some, Result, ok,
}
use vroot_kv.Base.{
  List, [], ◌∷◌, ◌++◌, append_assoc, append-nil, length, length-append, take, take-append_right,
  All, All-append,
}
use vroot_kv.Wal.{WalRecord, Error, serialize_frame}
use vroot_kv.Wal.Payload.{IsRecord}
use vroot_kv.Wal.Replay.{replayed, replay, write_log, replay-write_log, replay_torn}
use vroot_kv.FileManager.{Posix, write_file}
use vroot_kv.FileManager.Write.{Appends, write_file-Written}
use native.Mathlib.Decide.{dec_lt, ℕ_discrete}
use mathlib.Core.Path.{subst}

write_log-append : (rs qs : List WalRecord) → write_log (rs ++ qs) ≡ write_log rs ++ write_log qs
write_log-append [] qs = refl
write_log-append (r ∷ rs) qs =
    ap (λ bs. serialize_frame r ++ bs) (write_log-append rs qs)
    ∙ sym (append_assoc (serialize_frame r) (write_log rs) (write_log qs))

take-append_left : (k : ℕ) (xs ys : List ℕ) → k ≤ length xs → take k (xs ++ ys) ≡ take k xs
take-append_left zero xs ys h = refl
take-append_left (suc k) [] ys h = absurd (omega arith)
take-append_left (suc k) (x ∷ xs) ys h = ap (λ zs. x ∷ zs) (take-append_left k xs ys (omega arith))

-- The first bytes of a log: whole frames, and perhaps some bytes of one more.
record Start (rs : List WalRecord) (bytes : List ℕ) : Type 0 where
  whole : List WalRecord
  next : WalRecord
  others : List WalRecord
  n : ℕ
  split : rs ≡ whole ++ (next ∷ others)
  cut : n < length (serialize_frame next)
  same : bytes ≡ write_log whole ++ take n (serialize_frame next)

cut_frames :
    (rs : List WalRecord) (k : ℕ) → k < length (write_log rs) → Start rs (take k (write_log rs))
cut_frames [] k less = absurd (omega arith)
cut_frames (r ∷ rs) k less = elim (dec_lt k (length (serialize_frame r))) [
  | yes inside ↦ record {
    whole = [];
    next = r;
    others = rs;
    n = k;
    split = refl;
    cut = inside;
    same = take-append_left k (serialize_frame r) (write_log rs) (omega arith);
  }
  | no beyond ↦
      let j = k - length (serialize_frame r) in
      let s =
        cut_frames rs j
          (omega (arith, less, beyond, length-append (serialize_frame r) (write_log rs))) in
      record {
        whole = r ∷ s.whole;
        next = s.next;
        others = s.others;
        n = s.n;
        split = ap (λ qs. r ∷ qs) s.split;
        cut = s.cut;
        same =
            ap (λ m. take m (serialize_frame r ++ write_log rs)) {x = k}
              {y = length (serialize_frame r) + j} (omega (arith, beyond))
            ∙ take-append_right j (serialize_frame r) (write_log rs)
            ∙ ap (λ bs. serialize_frame r ++ bs) s.same
            ∙ sym (
                append_assoc (serialize_frame r) (write_log s.whole)
                  (take s.n (serialize_frame s.next)));
      }
]

-- The records of the frames that are whole are read, and those only.
replay-Start :
    (old rs : List WalRecord) (bytes : List ℕ) (s : Start rs bytes)
    → All IsRecord old
    → All IsRecord rs
    → (stop : Result Error (Unit {0})) × (replay (write_log old ++ bytes)
        ≡ some (replayed (old ++ s.whole) stop))
replay-Start old rs bytes s v₀ v = elim (ℕ_discrete s.n 0) [
  | yes none_of ↦ (
    ok tt,
    ap replay (place (ap (λ m. take m (serialize_frame s.next)) none_of) ∙ append-nil _)
        ∙ replay-write_log (old ++ s.whole) fit,
  )
  | no some_of ↦ (
    _,
    ap replay (place refl)
        ∙ replay_torn (old ++ s.whole) s.next s.n fit parts.1.0 (omega (arith, some_of)) s.cut,
  )
]
  where
    parts_of :
        (qs us : List WalRecord) → All IsRecord (qs ++ us) → All IsRecord qs × All IsRecord us
    parts_of [] us a = (tt, a)
    parts_of (q ∷ qs) us a = let r = parts_of qs us a.1 in ((a.0, r.0), r.1)

    parts : All IsRecord s.whole × All IsRecord (s.next ∷ s.others)
    parts = parts_of s.whole (s.next ∷ s.others) (subst (All IsRecord) s.split v)

    fit : All IsRecord (old ++ s.whole)
    fit = All-append IsRecord old s.whole v₀ parts.0

    place :
        {torn : List ℕ}
        → take s.n (serialize_frame s.next) ≡ torn
        → write_log old ++ bytes ≡ write_log (old ++ s.whole) ++ torn
    place {torn} e =
        ap (λ bs. write_log old ++ bs) (s.same ∙ ap (λ bs. write_log s.whole ++ bs) e)
        ∙ sym (append_assoc (write_log old) (write_log s.whole) torn)
        ∙ ap (λ bs. bs ++ torn) (sym (write_log-append old s.whole))

module _ {W : Type 0} (p : Posix W) (contents : W → ℕ → List ℕ) (patience : W → ℕ)
    (h : Appends p contents patience) where
  -- What reading the file gives: everything, where `Write` answered `true`, and otherwise the records before
  -- some point, with those that the file had before.
  abbrev pub Recovered : ℕ → List WalRecord → List WalRecord → Option (Bool × W) → Type 0
  Recovered fd old rs r =
      (w' : W) × (((r ≡ some (true, w'))
          × (replay (contents w' fd) ≡ some (replayed (old ++ rs) (ok tt))))
        ⊎ ((whole : List WalRecord) × (next : WalRecord) × (others : List WalRecord)
            × (stop : Result Error (Unit {0})) × (r ≡ some (false, w'))
            × (rs ≡ whole ++ (next ∷ others))
            × (replay (contents w' fd) ≡ some (replayed (old ++ whole) stop))))

  -- `Write` of the frames of records to a file that holds a log: it ends, and where it answers `true`, reading
  -- the file gives the records of both, without an error; where it answers `false`, reading the file gives
  -- those that were there and those of the new ones before some record that is lost.
  pub write_file-replay :
      (fd fuel : ℕ) (w : W) (old rs : List WalRecord)
      → All IsRecord old
      → All IsRecord rs
      → contents w fd ≡ write_log old
      → patience w + length (write_log rs) ≤ fuel
      → Recovered fd old rs (write_file p fuel (record { fd = some fd }) w (write_log rs))
  write_file-replay fd fuel w old rs v₀ v before enough =
      let (w', written) =
        write_file-Written p contents patience h fd fuel w (write_log rs) enough in
      (
        w',
        elim written [
          | inl (answer, same) ↦ inl (
            answer,
            ap replay (same ∙ ap (λ bs. bs ++ write_log rs) before ∙ sym (write_log-append old rs))
                ∙ replay-write_log (old ++ rs) (All-append IsRecord old rs v₀ v),
          )
          | inr (k, less, answer, same) ↦
              let s = cut_frames rs k less in
              let (stop, e) = replay-Start old rs (take k (write_log rs)) s v₀ v in
              inr (
                s.whole,
                s.next,
                s.others,
                stop,
                answer,
                s.split,
                ap replay (same ∙ ap (λ bs. bs ++ take k (write_log rs)) before) ∙ e,
              )
        ],
      )
