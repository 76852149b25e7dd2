-- ===== src/RoundTrip/Loop.antt =====
-- `fsd_op_encoder_encode` over all the blocks, and the loop of `fsd_patch_apply` over what it wrote.
use fsdiff.Prelude.{
  ℕ, zero, suc, ◌+◌, ◌-◌, ◌*◌, ◌≤◌, ◌≡◌, List, [], ◌∷◌, length, arith, refl, Bool, true, take,
  mul_mono,
}
use fsdiff.Prelude.Int.{ℤ}
use fsdiff.Sink.{Sink}
use fsdiff.Tracker.{
  BlockState, MatchType, unmatched, identity, relocate, partial, all_zero, all_one,
}
use fsdiff.Encoder.Format.{uint32_max}
use fsdiff.Encoder.Emit.{Streams, emit_run}
use fsdiff.Encoder.Runs.{
  block_offset, diff_offset, run_count, same_run, relocate_run, partial_run, max_run,
}
use fsdiff.RoundTrip.Blocks.{Matches, Described}
use fsdiff.RoundTrip.Runs.{same_run-Run, relocate_run-Run, partial_run-Run}
use fsdiff.RoundTrip.Setting.{Setting, Ready, Executes}
use fsdiff.RoundTrip.Operations.{identity_run, zero_run, one_run, literal_run}
use fsdiff.RoundTrip.Moved
use fsdiff.RoundTrip.Added
use fsdiff.RoundTrip.Limits.{max_run-fits}

-- A run is no longer than the states that are left.
pub same_run-le : (type : MatchType) (ss : List BlockState) → same_run type ss ≤ length ss
unfolding same_run
same_run-le type [] = omega arith
same_run-le type (s ∷ ss) = ground (arith, same_run-le type ss)

pub relocate_run-le : (base : ℤ) (i : ℕ) (ss : List BlockState) → relocate_run base i ss ≤ length ss
unfolding relocate_run
relocate_run-le base i [] = omega arith
relocate_run-le base i (s ∷ ss) = ground (arith, relocate_run-le base (i + 1) ss)

pub partial_run-le :
    (block_size : ℕ) (base : ℤ) (more i : ℕ) (ss : List BlockState)
    → partial_run block_size base more i ss ≤ length ss
unfolding partial_run
partial_run-le block_size base zero i ss = omega arith
partial_run-le block_size base (suc more) i [] = omega arith
partial_run-le block_size base (suc more) i (s ∷ ss) =
    ground (arith, partial_run-le block_size base more (i + 1) ss)

max_run-positive : (block_size : ℕ) → 1 ≤ max_run block_size
unfolding max_run
max_run-positive block_size = ground arith

-- Every run takes a block.
pub run_count-positive :
    (block_size i : ℕ) (s : BlockState) (type : MatchType) (rest : List BlockState)
    → 1 ≤ run_count block_size i s type rest
unfolding run_count
run_count-positive block_size i s relocate rest = omega arith
run_count-positive block_size i s partial rest = omega arith
run_count-positive block_size i s unmatched rest = omega arith
run_count-positive block_size i s identity rest = omega arith
run_count-positive block_size i s all_zero rest = omega arith
run_count-positive block_size i s all_one rest = omega arith

module _ (sink : Sink) (c : Setting) (malloc : ℕ → Bool)
    (enough : (size : ℕ) → malloc size ≡ true) where
  open c use {source, fwrite, block_size, dest, dest_blocks, some_bytes, block_limit, few, whole}

  -- The operation that starts at block `i`, whatever its type.
  abbrev pub First : ℕ → BlockState → MatchType → List BlockState → Streams sink → Type 0
  First i s type ss st =
      (run_count block_size i s type ss ≤ suc (length ss))
      × Executes sink c st i (run_count block_size i s type ss) (
          emit_run sink malloc dest block_size i (run_count block_size i s type ss) s type
            (take (run_count block_size i s type ss) (s ∷ ss)) st)

  pub First-run :
      (i : ℕ) (s : BlockState) (type : MatchType) (ss : List BlockState) (st : Streams sink)
      → Ready sink st
      → Matches block_size source.image dest i s type
      → Described block_size source.image dest (i + 1) ss
      → i + suc (length ss) ≡ dest_blocks
      → First i s type ss st
  unfolding run_count emit_run
  First-run i s identity ss st ready m d e =
      let run = same_run-Run block_size source.image dest identity (i + 1) ss d in
      let short = same_run-le identity ss in
      (
        omega (arith, short),
        identity_run sink c st ready i _ (omega arith) (omega (arith, short, e)) (s ∷ ss)
            (m, tt, run),
      )
  First-run i s all_zero ss st ready m d e =
      let run = same_run-Run block_size source.image dest all_zero (i + 1) ss d in
      let short = same_run-le all_zero ss in
      (
        omega (arith, short),
        zero_run sink c st ready i _ (omega arith) (omega (arith, short, e)) (s ∷ ss) (m, tt, run),
      )
  First-run i s all_one ss st ready m d e =
      let run = same_run-Run block_size source.image dest all_one (i + 1) ss d in
      let short = same_run-le all_one ss in
      (
        omega (arith, short),
        one_run sink c st ready i _ (omega arith) (omega (arith, short, e)) (s ∷ ss) (m, tt, run),
      )
  First-run i s unmatched ss st ready m d e =
      let run = same_run-Run block_size source.image dest unmatched (i + 1) ss d in
      let short = same_run-le unmatched ss in
      (
        omega (arith, short),
        literal_run sink c st ready i _ (omega arith) (omega (arith, short, e)),
      )
  First-run i s relocate ss st ready m d e =
      let run = relocate_run-Run block_size source.image dest (block_offset s i) (i + 1) ss d in
      let short = relocate_run-le (block_offset s i) (i + 1) ss in
      (
        omega (arith, short),
        Moved.relocate_run sink c st ready i _ (omega arith) (omega (arith, short, e))
            (block_offset s i) (s ∷ ss) (m, refl, run),
      )
  First-run i s partial ss st ready m d e =
      let (run, capped) =
        partial_run-Run block_size source.image dest (diff_offset block_size s i)
          (max_run block_size - 1) (i + 1) ss d in
      let short =
        partial_run-le block_size (diff_offset block_size s i) (max_run block_size - 1) (i + 1)
          ss in
      (
        omega (arith, short),
        Added.partial_run sink c st ready i _ (omega arith) (omega (arith, short, e)) malloc enough
            (limit _ capped) (diff_offset block_size s i) (s ∷ ss) (m, refl, run),
      )
    where
      limit : (n : ℕ) → n ≤ max_run block_size - 1 → suc n * (block_size * 2) ≤ uint32_max
      limit n h = omega (
        arith,
        max_run-fits block_size some_bytes block_limit,
        max_run-positive block_size,
        mul_mono (suc n) (max_run block_size) (block_size * 2)
            (omega (arith, h, max_run-positive block_size)),
      )
