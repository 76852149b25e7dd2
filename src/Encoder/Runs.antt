-- ===== src/Encoder/Runs.antt =====
-- The runs of blocks that `fsd_op_encoder_encode` coalesces into one operation. The list holds the
-- states of the blocks from an index on, up to `tracker->count`.
use fsdiff.Prelude.{ℕ, zero, suc, ◌+◌, ◌-◌, ◌*◌, ◌/◌, List, [], ◌∷◌, ◌&&◌, ◌==◌, if◌then◌else◌}
use fsdiff.Prelude.Int.{ℤ, ◌-ℤ◌}
use fsdiff.Wire.{u64}
use fsdiff.Signed.{eq_ℤ}
use fsdiff.Tracker.{BlockState, MatchType, relocate, partial, same_type}
use fsdiff.Encoder.Format.{int64, uint32_max}

-- `(int64_t)state->src_index - (int64_t)i`
unfoldable pub block_offset : BlockState → ℕ → ℤ
unfolding ◌-ℤ◌
block_offset state i = int64 state.src_index -ℤ int64 i

-- `(int64_t)(src_index * block_size + byte_offset) - (int64_t)(i * block_size)`
unfoldable pub diff_offset : ℕ → BlockState → ℕ → ℤ
unfolding ◌-ℤ◌
diff_offset block_size state i =
    int64 (u64 (state.src_index * block_size) + state.byte_offset) -ℤ int64 (i * block_size)

-- The blocks after the first that join it, the list starting at index `i`: those of the same type,
-- those relocated by the same offset, and at most `more` of those with the same byte offset.
unfoldable pub same_run : MatchType → List BlockState → ℕ
same_run type [] = 0
same_run type (next ∷ rest) =
    let n = same_run type rest in if same_type next.match_type type then suc n else 0

unfoldable pub relocate_run : ℤ → ℕ → List BlockState → ℕ
relocate_run base i [] = 0
relocate_run base i (next ∷ rest) =
    let n = relocate_run base (i + 1) rest in
    if same_type next.match_type relocate && eq_ℤ (block_offset next i) base then suc n else 0

unfoldable pub partial_run : ℕ → ℤ → ℕ → ℕ → List BlockState → ℕ
partial_run block_size base zero i rest = 0
partial_run block_size base (suc more) i [] = 0
partial_run block_size base (suc more) i (next ∷ rest) =
    let n = partial_run block_size base more (i + 1) rest in
    if same_type next.match_type partial && eq_ℤ (diff_offset block_size next i) base
    then suc n
    else 0

-- `max_run_for_format`: `run_count * block_size * 2` stays below 2^32.
unfoldable pub max_run : ℕ → ℕ
max_run block_size = let fits = uint32_max / u64 (block_size * 2) in if fits == 0 then 1 else fits

-- `run_count` of the operation that starts at block `i` in state `state`.
unfoldable pub run_count : ℕ → ℕ → BlockState → MatchType → List BlockState → ℕ
run_count block_size i state relocate rest = suc (relocate_run (block_offset state i) (i + 1) rest)
run_count block_size i state partial rest =
    suc (
      partial_run block_size (diff_offset block_size state i) (max_run block_size - 1) (i + 1) rest)
run_count block_size i state type rest = suc (same_run type rest)
