-- ===== src/Sstable/DataBlock/Builder.antt =====
-- `DataBlockBuilder` of src/io/sstable_builder.cpp.
use vroot_kv.Base.{ℕ, zero, suc, ◌+◌, ◌-◌, ◌*◌, min, List, [], ◌∷◌, ◌++◌, length, take, drop}
use vroot_kv.Base.{Bool, true, false, not, ◌&&◌, ltb, ◌==◌, if◌then◌else◌, Result, ok, err}
use vroot_kv.Codec.Bytes.{u32}
use vroot_kv.Codec.Fixed.{put_fixed32}
use vroot_kv.Key.{Key, key_lt}

-- The two `std::runtime_error`s of `Add`.
pub data BuilderError : Type 0 where
  already_finished not_increasing : BuilderError

-- `counter_` starts at 0 and counts up, so of an `int restart_interval_` below 0 the code sees what it
-- sees of 0.
pub record DataBlockBuilder : Type 0 where
  pub buffer : List ℕ
  pub restarts : List ℕ
  pub last_key : Key
  pub restart_interval : ℕ
  pub counter : ℕ
  pub finished : Bool

unfoldable pub new_builder : ℕ → DataBlockBuilder
new_builder restart_interval = record {
  buffer = [];
  restarts = 0 ∷ [];
  last_key = [];
  restart_interval = restart_interval;
  counter = 0;
  finished = false;
}

-- `while (i < n && a[i] == b[i]) ++i;`, with `n - i` rounds left
unfoldable pub shared_loop : ℕ → Key → Key → ℕ
shared_loop zero a b = 0
shared_loop (suc n) [] b = 0
shared_loop (suc n) (x ∷ a) [] = 0
shared_loop (suc n) (x ∷ a) (y ∷ b) = if x == y then suc (shared_loop n a b) else 0

unfoldable pub shared_prefix : Key → Key → ℕ
unfolding shared_loop
shared_prefix a b = shared_loop (u32 (min (length a) (length b))) a b

abbrev pub is_empty : Key → Bool
is_empty [] = true
is_empty (x ∷ xs) = false

-- The tail of `Add`: the entry that shares `shared` bytes with the key before it.
unfoldable pub append_entry : DataBlockBuilder → ℕ → Key → List ℕ → DataBlockBuilder
append_entry b shared key value =
    let non_shared = u32 (length key - shared) in
    let value_len = u32 (length value) in
    let with_shared = put_fixed32 b.buffer shared in
    let with_non_shared = put_fixed32 with_shared non_shared in
    let with_value_len = put_fixed32 with_non_shared value_len in
    let with_key = with_value_len ++ take non_shared (drop shared key) in
    record b { buffer = with_key ++ take value_len value; last_key = key; counter = b.counter + 1 }

unfoldable pub add : DataBlockBuilder → Key → List ℕ → Result BuilderError DataBlockBuilder
add b key value =
    if b.finished
    then err already_finished
    else if not (is_empty b.last_key) && not (key_lt b.last_key key)
    then err not_increasing
    else if ltb b.counter b.restart_interval
    then ok (append_entry b (shared_prefix b.last_key key) key value)
    else ok (
        append_entry
          (record b { restarts = b.restarts ++ (u32 (length b.buffer) ∷ []); counter = 0 }) 0 key
          value)

-- `for (off : restarts_) PutFixed32(buffer_, off);`
unfoldable pub put_all : List ℕ → List ℕ → List ℕ
put_all dst [] = dst
put_all dst (off ∷ offs) = put_all (put_fixed32 dst off) offs

-- The builder afterwards, and the block.
unfoldable pub finish : DataBlockBuilder → DataBlockBuilder × List ℕ
finish b =
    if b.finished
    then (b, b.buffer)
    else (let block = put_fixed32 (put_all b.buffer b.restarts) (u32 (length b.restarts)) in
        (record b { buffer = block; finished = true }, block))

unfoldable pub current_size : DataBlockBuilder → ℕ
current_size b = length b.buffer + (length b.restarts + 1) * 4
