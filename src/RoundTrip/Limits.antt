-- ===== src/RoundTrip/Limits.antt =====
-- The limits of OP_COPY_ADD: `max_run_for_format` keeps the diff data of a run below 2^32 bytes.
use fsdiff.Prelude.{
  ℕ, zero, suc, ◌+◌, ◌*◌, ◌/◌, ◌%◌, ◌≤◌, ◌^◌, ◌≡◌, arith, List, [], ◌∷◌, length, true, false, Bool,
  take, length-append, add_mul,
}
use native.Mathlib.Nat.{le-div_iff_mul-le, div-mul-le_self}
use fsdiff.Prelude.Int.{ℤ}
use fsdiff.Tracker.{BlockState, partial}
use fsdiff.Sparse.{write_block}
use fsdiff.Sparse.Writer.{write_block_size}
use fsdiff.Encoder.Format.{size_max, uint32_max}
use fsdiff.Encoder.Emit.{diff_data}
use fsdiff.Encoder.Runs.{max_run}
use fsdiff.RoundTrip.Runs.{Run, DiffOffset}
use fsdiff.RoundTrip.Patches.{diff_bytes-some, dense_block-some}

-- The run's blocks take at most twice their size in diff data, which has a four-byte length.
pub max_run-fits :
    (block_size : ℕ)
    → 1 ≤ block_size
    → block_size ≤ 2 ^ 24
    → max_run block_size * (block_size * 2) ≤ uint32_max
unfolding max_run
max_run-fits block_size lo hi =
    let e : block_size * 2 % 2 ^ 64 ≡ block_size * 2 = omega arith in
    let below = div-mul-le_self uint32_max (block_size * 2) in
    let some_fit : 1 ≤ uint32_max / (block_size * 2) =
      (le-div_iff_mul-le {k = block_size * 2} (omega arith)).1 (omega arith) in
    rw e (ground (arith, below, some_fit))

-- The guard on the size of `diff_buf` lets such a run pass.
pub size_guard :
    (n block_size : ℕ)
    → 1 ≤ block_size
    → n * (block_size * 2) ≤ uint32_max
    → n ≤ size_max / block_size / 2
size_guard n block_size lo h =
    let inner : n * 2 * block_size ≤ size_max = grind arith in
    (le-div_iff_mul-le {k = 2} (omega arith)).1 ((le-div_iff_mul-le {k = block_size} lo).1 inner)

module _ (block_size : ℕ) (src dest : List ℕ) where
  -- The diff data of a run of blocks that have their delta.
  pub length-diff_data :
      (sparse : Bool) (offset : ℤ) (n i : ℕ) (ss : List BlockState)
      → Run block_size src dest partial (DiffOffset block_size src dest offset) i n ss
      → length (diff_data block_size sparse (take n ss)) ≤ n * (block_size * 2)
  unfolding diff_data
  length-diff_data sparse offset zero i ss r = omega arith
  length-diff_data sparse offset (suc n) i [] r = absurd r
  length-diff_data true offset (suc n) i (s ∷ ss) r =
      let (delta, d, size, same) = r.0.1 in
      let rest = length-diff_data true offset n (i + 1) ss r.2 in
      rw (d, diff_bytes-some delta block_size size)
        (omega (
          arith,
          length-append (write_block delta) (diff_data block_size true (take n ss)),
          write_block_size delta,
          size,
          rest,
          add_mul n 1 (block_size * 2),
        ))
  length-diff_data false offset (suc n) i (s ∷ ss) r =
      let (delta, d, size, same) = r.0.1 in
      let rest = length-diff_data false offset n (i + 1) ss r.2 in
      rw (d, dense_block-some delta block_size size)
        (omega (
          arith,
          length-append delta (diff_data block_size false (take n ss)),
          size,
          rest,
          add_mul n 1 (block_size * 2),
        ))
