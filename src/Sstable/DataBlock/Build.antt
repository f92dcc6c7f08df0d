-- ===== src/Sstable/DataBlock/Build.antt =====
-- The runs of `restart_interval` entries that the builder holds, as it stands in the middle of a block.
use vroot_kv.Base.{
  ℕ, zero, suc, ◌+◌, ◌-◌, ◌*◌, ◌/◌, ◌^◌, ◌≤◌, ◌<◌, ◌≡◌, ◌≢◌, ◌⊎◌, inl, inr, refl, sym, ap, ◌∙◌,
  arith,
}
use vroot_kv.Base.{
  List, [], ◌∷◌, ◌++◌, append_assoc, append-nil, length, length-append, take, drop, All, All-append,
  get_or, take_all,
}
use vroot_kv.Base.{
  Bool, true, false, not, ◌&&◌, ltb, le→ltb, lt→ltb, Bool-cases, if◌then◌else◌, Result, ok, err,
  ◌>>=◌, length-drop,
}
use mathlib.Core.Path.{ap₂, subst}
use vroot_kv.Codec.Bytes.{u32}
use vroot_kv.Codec.Fixed.{to_le, put_fixed32}
use vroot_kv.Key.{Key, key_lt}
use vroot_kv.Sstable.DataBlock.Builder.{
  DataBlockBuilder, BuilderError, already_finished, not_increasing,
}
use vroot_kv.Sstable.DataBlock.Builder.{
  new_builder, shared_prefix, is_empty, append_entry, add, put_all, finish,
}
use vroot_kv.Sstable.DataBlock.Layout.{
  Entry, Run, entry_bytes, encode_run, encode_runs, run_offsets, flatten, IsEntry, Ascending,
  IsSorted,
}
use vroot_kv.Sstable.DataBlock.Layout.Parts.{
  length-entry_bytes, shared_prefix-le, shared_prefix-empty,
}
use vroot_kv.Sstable.DataBlock.Layout.Runs.{encode_runs-append, length-run_offsets}
use vroot_kv.Sstable.DataBlock.Search.{IsLayout}
use vroot_kv.Sstable.DataBlock.Open.{offset_bytes, block_bytes}
pub mod Add
pub mod Finish

-- A builder given all entries, then finished.
unfoldable pub add_all : DataBlockBuilder → Run → Result BuilderError DataBlockBuilder
add_all b [] = ok b
add_all b ((k, v) ∷ es) = add b k v >>= λ b'. add_all b' es

unfoldable pub build : ℕ → Run → Result BuilderError (List ℕ)
unfolding add_all
build restart_interval es = add_all (new_builder restart_interval) es >>= λ b. ok (finish b).1

-- The runs that are complete, and the one that grows.
pub record Runs : Type 0 where
  pub done : List Run
  pub cur : Run

abbrev pub runs : Runs → List Run
runs l = l.done ++ (l.cur ∷ [])

-- Where the next entry goes: a run takes `restart_interval` entries, and one at least.
abbrev pub place : ℕ → Runs → Entry → Runs
place interval l e =
    if ltb (length l.cur) interval
    then record { done = l.done; cur = l.cur ++ (e ∷ []) }
    else record { done = l.done ++ (l.cur ∷ []); cur = e ∷ [] }

abbrev pub place_all : ℕ → Runs → Run → Runs
place_all interval l [] = l
place_all interval l (e ∷ es) = place_all interval (place interval l e) es

abbrev pub no_runs : Runs
no_runs = record { done = []; cur = [] }

abbrev pub last_key : Key → Run → Key
last_key prev [] = prev
last_key prev ((k, v) ∷ es) = last_key k es

pub encode_run-append :
    (prev : Key) (es : Run) (k : Key) (v : List ℕ)
    → encode_run prev (es ++ ((k, v) ∷ []))
      ≡ encode_run prev es ++ entry_bytes (shared_prefix (last_key prev es) k) k v
unfolding encode_run
encode_run-append prev [] k v = append-nil _
encode_run-append prev ((k', v') ∷ es) k v =
    ap (λ bs. entry_bytes (shared_prefix prev k') k' v' ++ bs) (encode_run-append k' es k v)
    ∙ sym (append_assoc _ (encode_run k' es) _)

pub last_key-append :
    (prev : Key) (es : Run) (k : Key) (v : List ℕ) → last_key prev (es ++ ((k, v) ∷ [])) ≡ k
last_key-append prev [] k v = refl
last_key-append prev ((k', v') ∷ es) k v = last_key-append k' es k v

pub run_offsets-append :
    (base : ℕ) (rs : List Run) (r : Run)
    → run_offsets base (rs ++ (r ∷ []))
      ≡ run_offsets base rs ++ ((base + length (encode_runs rs)) ∷ [])
unfolding run_offsets encode_runs
run_offsets-append base [] r = ap (λ n. n ∷ []) (omega arith)
run_offsets-append base (q ∷ rs) r =
    ap (λ offs. base ∷ offs)
      (run_offsets-append (base + length (encode_run [] q)) rs r
        ∙ ap (λ n. run_offsets (base + length (encode_run [] q)) rs ++ (n ∷ []))
            (omega (arith, length-append (encode_run [] q) (encode_runs rs))))

-- The entry that `Add` appends, for lengths that fit.
pub append_entry_lem :
    (b : DataBlockBuilder) (s : ℕ) (k : Key) (v : List ℕ)
    → IsEntry (k, v)
    → append_entry b s k v
      ≡ record b { buffer = b.buffer ++ entry_bytes s k v; last_key = k; counter = b.counter + 1 }
unfolding append_entry put_fixed32 entry_bytes
append_entry_lem b s k v e =
    ap (λ bs. record b { buffer = bs; last_key = k; counter = b.counter + 1 })
      (rw
        (
          key_len,
          value_len,
          take_all (length k - s) (drop s k) (omega (arith, length-drop s k)),
          take_all (length v) v (omega arith),
        )
        (simp append_assoc))
  where
    key_len : u32 (length k - s) ≡ length k - s
    key_len = omega (arith, e)

    value_len : u32 (length v) ≡ length v
    value_len = omega (arith, e)

-- The builder holds the runs `l`.
pub record Holds (interval : ℕ) (b : DataBlockBuilder) (l : Runs) : Type 0 where
  pub buffer_eq : b.buffer ≡ encode_runs (runs l)
  pub restarts_eq : b.restarts ≡ run_offsets 0 (runs l)
  pub last_eq : b.last_key ≡ last_key [] l.cur
  pub interval_eq : b.restart_interval ≡ interval
  pub counter_eq : b.counter ≡ length l.cur
  pub open_eq : b.finished ≡ false

pub new_builder-Holds : (interval : ℕ) → Holds interval (new_builder interval) no_runs
unfolding new_builder encode_runs encode_run run_offsets
new_builder-Holds interval = record {
  buffer_eq = refl;
  restarts_eq = refl;
  last_eq = refl;
  interval_eq = refl;
  counter_eq = refl;
  open_eq = refl;
}
