-- ===== src/Stages/Identity.antt =====
-- src/stages/stage_identity.c: the first stage.
use fsdiff.Prelude.{ℕ, zero, suc, ◌+◌, ◌-◌, ◌*◌, Bool, List, ltb, if◌then◌else◌}
use fsdiff.Status.{Result, ok, ◌>>◌, guard, invalid_arg, out_of_memory}
use fsdiff.Crc32.{crc32}
use fsdiff.Simd.{Dispatch}
use fsdiff.Encoder.Emit.{slice}
use fsdiff.Tracker.{identity, all_zero, all_one}
use fsdiff.Tracker.Operations.{Tracker, set_match, set_crc32}
use fsdiff.Stages.{same_block, is_zero_block, is_one_block}

-- `fsd_identity_stage_t`
pub record IdentityStage : Type 0 where
  pub block_size : ℕ

-- `fsd_identity_stage_create`. `calloc` says whether the allocation succeeds.
unfoldable pub identity_create : Bool → ℕ → Result IdentityStage
identity_create calloc block_size = do
  guard (ltb 0 block_size) invalid_arg
  guard calloc out_of_memory
  ok (record { block_size = block_size })

module _ (simd : Dispatch) (block_size : ℕ) (src dest : List ℕ) where
  -- A block that both images have.
  unfoldable pub common_block : ℕ → Tracker → Tracker
  common_block i t =
      let dest_block = slice dest (i * block_size) block_size in
      if is_zero_block simd dest_block
      then set_match t i all_zero 0
      else if is_one_block simd dest_block
      then set_match t i all_one 0
      else if same_block (slice src (i * block_size) block_size) dest_block
      then set_match t i identity i
      else set_crc32 t i (crc32 dest_block)

  -- A block that the destination has only.
  unfoldable pub dest_block_only : ℕ → Tracker → Tracker
  dest_block_only i t =
      let dest_block = slice dest (i * block_size) block_size in
      if is_zero_block simd dest_block
      then set_match t i all_zero 0
      else if is_one_block simd dest_block
      then set_match t i all_one 0
      else set_crc32 t i (crc32 dest_block)

  -- The two loops, with `n` blocks to go from block `i` on.
  unfoldable pub common_loop : ℕ → ℕ → Tracker → Tracker
  unfolding common_block
  common_loop zero i t = t
  common_loop (suc n) i t = common_loop n (i + 1) (common_block i t)

  unfoldable pub dest_loop : ℕ → ℕ → Tracker → Tracker
  unfolding dest_block_only
  dest_loop zero i t = t
  dest_loop (suc n) i t = dest_loop n (i + 1) (dest_block_only i t)

-- `fsd_identity_stage_run`
unfoldable pub identity_run :
    Dispatch → IdentityStage → Tracker → List ℕ → ℕ → List ℕ → ℕ → Result Tracker
unfolding common_loop dest_loop
identity_run simd stage tracker src src_blocks dest dest_blocks =
    let common_blocks = if ltb src_blocks dest_blocks then src_blocks else dest_blocks in
    ok (
      dest_loop simd stage.block_size src dest (dest_blocks - common_blocks) common_blocks
        (common_loop simd stage.block_size src dest common_blocks 0 tracker))
