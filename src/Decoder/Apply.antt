-- ===== src/Decoder/Apply.antt =====
-- `fsd_patch_apply`: the checks of the header, the three streams, the loop and the clean-up. What the
-- system calls return is a parameter: the two opened inputs, whether `fopen` and `malloc` succeed,
-- what `fwrite` returns and `fclose` leaves, and the type of the output path.
use fsdiff.Prelude.{
  ℕ, ◌-◌, ◌/◌, ◌^◌, Bool, false, List, [], leb, ◌==◌, not, if◌then◌else◌, length, take, drop,
}
use fsdiff.Status.{
  Error, Result, ok, err, ◌>>=◌, ◌>>◌, guard, truncated, corrupt_data, io, out_of_memory,
}
use fsdiff.Header.{header_size, header_read_memory}
use fsdiff.Decoder.Source.{Source}
use fsdiff.Decoder.Steps.{State, run_loop}

-- INT64_MAX
abbrev pub int64_max : ℕ
int64_max = 2 ^ 63 - 1

-- How a call ends: an error before the output file is created; an error after that, with the file
-- removed or left behind; or success, with the bytes that the output file has after `fclose`.
pub data Outcome : Type 0 where
  refused : Error → Outcome
  failed : Error → Bool → Outcome
  applied : List ℕ → Outcome

-- A patch whose header passed the checks: `1 << block_size_log2`, and the loop's first state.
pub record Plan : Type 0 where
  pub block_size : ℕ
  pub dest_blocks : ℕ
  pub start : State

-- The header, the bounds on its fields, and the streams that it delimits.
unfoldable pub locate : List ℕ → Result Plan
locate patch = do
  header ← header_read_memory patch
  let block_size = 2 ^ header.block_size_log2
  guard (leb header.dest_blocks (int64_max / block_size)) corrupt_data
  guard (leb header_size (length patch)) truncated
  guard (leb header.op_stream_len (length patch - header_size)) corrupt_data
  guard (leb header.diff_stream_len (length patch - header_size - header.op_stream_len))
      corrupt_data
  let body = drop header_size patch
  let after_ops = drop header.op_stream_len body
  let start : State = record {
    ops = take header.op_stream_len body;
    diffs = take header.diff_stream_len after_ops;
    lits = drop header.diff_stream_len after_ops;
    out = [];
    dest_block = 0;
  }
  ok (record { block_size = block_size; dest_blocks = header.dest_blocks; start = start })

module _ (fwrite : List ℕ → List ℕ → ℕ) where
  -- The loop, and the check that it wrote every block.
  unfoldable pub run_plan : Source → Plan → Result (List ℕ)
  run_plan source plan = do
    st ←
        run_loop source fwrite plan.block_size plan.dest_blocks (length plan.start.ops)
          plan.start.ops plan.start
    guard (st.dest_block == plan.dest_blocks) truncated
    ok st.out

  -- From `fopen` of the output on. After a failed `malloc` the new file is not removed. `fclose` says
  -- what the file holds, after it was closed, of the bytes that `fwrite` took: the code does not look at its result.
  unfoldable pub write_output : (List ℕ → List ℕ) → Bool → Bool → Bool → Source → Plan → Outcome
  unfolding run_plan
  write_output fclose fopen malloc may_unlink source plan =
      if not fopen
      then refused io
      else if not malloc
      then failed out_of_memory false
      else elim (run_plan source plan) [
        | ok out ↦ applied (fclose out)
        | err e ↦ failed e may_unlink
      ]

  unfoldable pub patch_apply :
      (List ℕ → List ℕ) → Result Source → Result (List ℕ) → Bool → Bool → Bool → Outcome
  unfolding write_output locate
  patch_apply fclose source patch fopen malloc may_unlink = elim source [
    | err e ↦ refused e
    | ok source ↦ elim patch [
      | err e ↦ refused e
      | ok patch ↦ elim (locate patch) [
        | err e ↦ refused e
        | ok plan ↦ write_output fclose fopen malloc may_unlink source plan
      ]
    ]
  ]
