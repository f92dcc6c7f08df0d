-- ===== src/Sstable/DataBlock/Layout/Runs.antt =====
-- The runs of a block: where they begin, end and what they hold.
use vroot_kv.Base.{ℕ, zero, suc, ◌+◌, ◌≤◌, ◌<◌, ◌≡◌, refl, sym, ap, ◌∙◌, arith}
use vroot_kv.Base.{
  List, [], ◌∷◌, ◌++◌, append_assoc, length, take, drop, get_elem?, get_or, split_at,
}
use vroot_kv.Base.{length-append}
use vroot_kv.Base.{none, some}
use vroot_kv.Key.{Key}
use vroot_kv.Sstable.DataBlock.Builder.{shared_prefix}
use vroot_kv.Sstable.DataBlock.Layout.{
  Run, entry_bytes, encode_run, encode_runs, run_offsets, flatten,
}
use vroot_kv.Sstable.DataBlock.Layout.Parts.{length-entry_bytes, shared_prefix-empty}

-- A run begins with its first entry, which shares nothing.
pub encode_run_starts :
    (k : Key) (v : List ℕ) (es : Run) (rest : List ℕ)
    → encode_run [] ((k, v) ∷ es) ++ rest ≡ entry_bytes 0 k v ++ (encode_run k es ++ rest)
unfolding encode_run
encode_run_starts k v es rest =
    append_assoc (entry_bytes (shared_prefix [] k) k v) (encode_run k es) rest
    ∙ ap (λ s. entry_bytes s k v ++ (encode_run k es ++ rest)) (shared_prefix-empty k)

-- Runs cut at one of them.
pub encode_runs-append :
    (rs qs : List Run) → encode_runs (rs ++ qs) ≡ encode_runs rs ++ encode_runs qs
unfolding encode_runs
encode_runs-append [] qs = refl
encode_runs-append (r ∷ rs) qs =
    ap (λ bs. encode_run [] r ++ bs) (encode_runs-append rs qs)
    ∙ sym (append_assoc (encode_run [] r) (encode_runs rs) (encode_runs qs))

pub encode_runs_at :
    (rs : List Run) (i : ℕ)
    → i < length rs
    → encode_runs rs
      ≡ encode_runs (take i rs) ++ (encode_run [] (get_or rs i []) ++ encode_runs (drop (suc i) rs))
encode_runs_at rs i h =
    ap encode_runs (split_at rs i [] h)
    ∙ encode_runs-append (take i rs) (get_or rs i [] ∷ drop (suc i) rs)
    ∙ ap (λ bs. encode_runs (take i rs) ++ bs) (unfold encode_runs in refl)

pub get_elem?-run_offsets :
    (base : ℕ) (rs : List Run) (i : ℕ)
    → i < length rs
    → get_elem? (run_offsets base rs) i ≡ some (base + length (encode_runs (take i rs)))
unfolding run_offsets encode_runs
get_elem?-run_offsets base [] i h = absurd (omega arith)
get_elem?-run_offsets base (r ∷ rs) zero h = ap some (omega arith)
get_elem?-run_offsets base (r ∷ rs) (suc i) h =
    get_elem?-run_offsets (base + length (encode_run [] r)) rs i (omega arith)
    ∙ ap some (omega (arith, length-append (encode_run [] r) (encode_runs (take i rs))))

pub get_elem?-run_offsets_end :
    (base : ℕ) (rs : List Run) (i : ℕ) → length rs ≤ i → get_elem? (run_offsets base rs) i ≡ none
unfolding run_offsets
get_elem?-run_offsets_end base [] i h = refl
get_elem?-run_offsets_end base (r ∷ rs) zero h = absurd (omega arith)
get_elem?-run_offsets_end base (r ∷ rs) (suc i) h =
    get_elem?-run_offsets_end (base + length (encode_run [] r)) rs i (omega arith)

pub length-run_offsets : (base : ℕ) (rs : List Run) → length (run_offsets base rs) ≡ length rs
unfolding run_offsets
length-run_offsets base [] = refl
length-run_offsets base (r ∷ rs) = ap suc (length-run_offsets (base + length (encode_run [] r)) rs)

pub flatten_at :
    (rs : List Run) (i : ℕ)
    → i < length rs
    → flatten rs ≡ flatten (take i rs) ++ (get_or rs i [] ++ flatten (drop (suc i) rs))
flatten_at [] i h = absurd (omega arith)
flatten_at (r ∷ rs) zero h = refl
flatten_at (r ∷ rs) (suc i) h =
    ap (λ es. r ++ es) (flatten_at rs i (omega arith))
    ∙ sym (append_assoc r (flatten (take i rs)) _)

-- The sizes of runs: a run ends where the next begins, and has no more entries than bytes.
pub length-encode_runs-take-suc :
    (rs : List Run) (i : ℕ)
    → i < length rs
    → length (encode_runs (take (suc i) rs))
      ≡ length (encode_runs (take i rs)) + length (encode_run [] (get_or rs i []))
unfolding encode_runs
length-encode_runs-take-suc [] i h = absurd (omega arith)
length-encode_runs-take-suc (r ∷ rs) zero h = omega (arith, length-append (encode_run [] r) [])
length-encode_runs-take-suc (r ∷ rs) (suc i) h = omega (
  arith,
  length-append (encode_run [] r) (encode_runs (take (suc i) rs)),
  length-append (encode_run [] r) (encode_runs (take i rs)),
  length-encode_runs-take-suc rs i (omega arith),
)

pub length-le-encode_run : (prev : Key) (es : Run) → length es ≤ length (encode_run prev es)
unfolding encode_run
length-le-encode_run prev [] = omega arith
length-le-encode_run prev ((k, v) ∷ es) = omega (
  arith,
  length-append (entry_bytes (shared_prefix prev k) k v) (encode_run k es),
  length-entry_bytes (shared_prefix prev k) k v,
  length-le-encode_run k es,
)
