-- ===== src/Sstable/DataBlock/Build/Finish.antt =====
-- `DataBlockBuilder::Finish` writes the runs out.
use vroot_kv.Base.{ℕ, ◌^◌, ◌<◌, ◌≡◌, refl, sym, ap, ◌∙◌, arith}
use vroot_kv.Base.{List, [], ◌∷◌, ◌++◌, append_assoc, append-nil, length}
use vroot_kv.Base.{Bool, false, if◌then◌else◌}
use mathlib.Core.Path.{ap₂}
use vroot_kv.Codec.Bytes.{u32}
use vroot_kv.Codec.Fixed.{to_le, put_fixed32}
use vroot_kv.Sstable.DataBlock.Builder.{DataBlockBuilder}
use vroot_kv.Sstable.DataBlock.Builder.{put_all, finish}
use vroot_kv.Sstable.DataBlock.Layout.{encode_runs, run_offsets}
use vroot_kv.Sstable.DataBlock.Layout.Runs.{length-run_offsets}
use vroot_kv.Sstable.DataBlock.Open.{offset_bytes, block_bytes}
use vroot_kv.Sstable.DataBlock.Build.{Runs, runs, Holds}
use vroot_kv.Sstable.DataBlock.Build.Add.{used}

pub put_all_lem : (dst offs : List ℕ) → put_all dst offs ≡ dst ++ offset_bytes offs
unfolding put_all offset_bytes put_fixed32
put_all_lem dst [] = sym (append-nil dst)
put_all_lem dst (off ∷ offs) =
    put_all_lem (dst ++ to_le 4 off) offs ∙ append_assoc dst (to_le 4 off) (offset_bytes offs)

-- `Finish` of an open builder: the restart offsets and how many they are.
pub finish_open :
    (b : DataBlockBuilder)
    → b.finished ≡ false
    → (finish b).1 ≡ put_fixed32 (put_all b.buffer b.restarts) (u32 (length b.restarts))
unfolding finish
finish_open b unfinished = second_of b.finished _ _ unfinished
  where
    second_of :
        (c : Bool) (x y : DataBlockBuilder × List ℕ) → c ≡ false → (if c then x else y).1 ≡ y.1
    second_of c x y p = rw p refl

-- `Finish` writes the block of the runs.
pub finish-Holds :
    (interval : ℕ) (b : DataBlockBuilder) (l : Runs)
    → Holds interval b l
    → used b < 2 ^ 32
    → (finish b).1 ≡ block_bytes (runs l)
unfolding put_fixed32 block_bytes
finish-Holds interval b l h fits =
    finish_open b h.open_eq
    ∙ ap (λ bs. bs ++ to_le 4 (u32 (length b.restarts))) (put_all_lem b.buffer b.restarts)
    ∙ append_assoc b.buffer (offset_bytes b.restarts) _
    ∙ ap₂ (λ bs offs. bs ++ (offset_bytes offs ++ to_le 4 (u32 (length b.restarts)))) h.buffer_eq
        h.restarts_eq
    ∙ ap (λ n. encode_runs (runs l) ++ (offset_bytes (run_offsets 0 (runs l)) ++ to_le 4 n))
        (omega (arith, ap (length {A = ℕ}) h.restarts_eq, length-run_offsets 0 (runs l)))
