-- ===== src/Decoder/Steps.antt =====
-- The operations that `fsd_patch_apply` executes. `fwrite file bytes` is the count that `fwrite` returns
-- for a buffer when the output file holds `file`.
use fsdiff.Prelude.{
  ℕ, zero, suc, ◌+◌, ◌-◌, ◌*◌, Bool, true, false, List, [], ◌∷◌, ◌++◌, not, ◌||◌, ltb, leb, ◌==◌,
  if◌then◌else◌, length, take, drop, replicate,
}
use fsdiff.Prelude.Int.{ℤ, ◌+ℤ◌, pos_part}
use fsdiff.Status.{Result, ok, err, ◌>>=◌, ◌>>◌, guard, truncated, corrupt_data, io, bad_operation}
use fsdiff.Wire.{u64, read_u32}
use fsdiff.Signed.{is_negative}
use fsdiff.Sparse.{add_diffs, apply_block}
use fsdiff.Encoder.Format.{
  op_copy_identity, op_copy_relocate, op_zero, op_one, op_copy_add, op_literal, int64,
}
use fsdiff.Decoder.Source.{Source}
use fsdiff.Decoder.Reads.{
  op_type, count_field, offset_field, flag_field, read_count, read_add_count, read_block_offset,
  with_sign, read_diff_offset,
}

-- The variables of the loop: `op_ptr`, `diff_ptr` and `lit_ptr` with the ends of their streams, the
-- output file, and `dest_block`.
pub record State : Type 0 where
  pub ops : List ℕ
  pub diffs : List ℕ
  pub lits : List ℕ
  pub out : List ℕ
  pub dest_block : ℕ

module _ (source : Source) (fwrite : List ℕ → List ℕ → ℕ) (block_size : ℕ) where
  open source use {image, read_at}

  -- `fwrite(block_buf, 1, block_size, output) != block_size`
  unfoldable pub write_out : List ℕ → State → Result State
  write_out block st = do
    guard (fwrite st.out block == block_size) io
    ok (record st { out = st.out ++ block })

  -- The bounds check of a source read, and the read.
  unfoldable pub read_source : ℕ → Result (List ℕ)
  read_source offset = do
    guard (leb (u64 (offset + block_size)) (length image)) corrupt_data
    read_at offset block_size

  -- The loop of OP_COPY_IDENTITY from block `i` on, with `n` blocks left.
  unfoldable pub copy_identity : ℕ → ℕ → State → Result State
  copy_identity zero i st = ok st
  copy_identity (suc n) i st = do
    block ← read_source (u64 ((st.dest_block + i) * block_size))
    st' ← write_out block st
    copy_identity n (i + 1) st'

  -- The loop of OP_COPY_RELOCATE.
  unfoldable pub copy_relocate : ℤ → ℕ → ℕ → State → Result State
  copy_relocate offset zero i st = ok st
  copy_relocate offset (suc n) i st = do
    let src_block = int64 (st.dest_block + i) +ℤ offset
    guard (not (is_negative src_block)) corrupt_data
    block ← read_source (u64 (pos_part src_block * block_size))
    st' ← write_out block st
    copy_relocate offset n (i + 1) st'

  -- The loops of OP_ZERO and OP_ONE over a `block_buf` that `memset` filled.
  unfoldable pub fill_blocks : ℕ → ℕ → State → Result State
  fill_blocks byte zero st = ok st
  fill_blocks byte (suc n) st = do
    st' ← write_out (replicate block_size byte) st
    fill_blocks byte n st'

  -- The loop of OP_LITERAL.
  unfoldable pub copy_literal : ℕ → State → Result State
  copy_literal zero st = ok st
  copy_literal (suc n) st = do
    guard (leb block_size (length st.lits)) truncated
    st' ← write_out (take block_size st.lits) st
    copy_literal n (record st' { lits = drop block_size st'.lits })

  -- The dense format: the block's part of the operation's diff data, added to the source block.
  unfoldable pub apply_dense : List ℕ → ℕ → List ℕ → Result (List ℕ)
  apply_dense region blk block = do
    let blk_offset = u64 (blk * block_size)
    guard (not (ltb (length region) blk_offset || ltb (length region - blk_offset) block_size))
        truncated
    ok (add_diffs block (take block_size (drop blk_offset region)))

  -- One block of either format: the block that comes out, and `diff_cursor`.
  unfoldable pub apply_diff : Bool → List ℕ → ℕ → List ℕ → List ℕ → Result (List ℕ × List ℕ)
  apply_diff true region blk cursor block = apply_block cursor block
  apply_diff false region blk cursor block = do out ← apply_dense region blk block; ok (out, cursor)

  -- The loop of OP_COPY_ADD from block `blk` on; `region` is the operation's diff data.
  unfoldable pub copy_add : ℤ → Bool → List ℕ → ℕ → ℕ → List ℕ → State → Result State
  copy_add offset sparse region zero blk cursor st = ok st
  copy_add offset sparse region (suc n) blk cursor st = do
    let src_byte_pos = int64 ((st.dest_block + blk) * block_size) +ℤ offset
    guard (not (is_negative src_byte_pos)) corrupt_data
    block ← read_source (pos_part src_byte_pos)
    (out, cursor') ← apply_diff sparse region blk cursor block
    st' ← write_out out st
    copy_add offset sparse region n (blk + 1) cursor' st'

  module _ (dest_blocks : ℕ) where
    -- `count > header.dest_blocks - dest_block`
    abbrev pub check_count : ℕ → State → Result (Unit {0})
    check_count count st = guard (leb count (dest_blocks - st.dest_block)) corrupt_data

    -- `dest_block += count;` after the operation's loop
    abbrev pub advance : ℕ → State → State
    advance count st = record st { dest_block = st.dest_block + count }

    -- OP_COPY_RELOCATE after its count
    unfoldable pub step_relocate : ℕ → ℕ → State → Result State
    step_relocate first_byte count st = do
      (n, ops) ← read_block_offset (offset_field first_byte) st.ops
      copy_relocate (with_sign (flag_field first_byte) n) count 0 (record st { ops = ops })

    -- The operations other than OP_COPY_ADD, after their count.
    unfoldable pub step_counted : ℕ → ℕ → State → Result State
    step_counted first_byte count st =
        if op_type first_byte == op_copy_identity
        then copy_identity count 0 st
        else if op_type first_byte == op_copy_relocate
        then step_relocate first_byte count st
        else if op_type first_byte == op_zero
        then fill_blocks 0 count st
        else if op_type first_byte == op_one
        then fill_blocks 0xFF count st
        else if op_type first_byte == op_literal
        then copy_literal count st
        else err bad_operation

    -- OP_COPY_ADD after its first byte.
    unfoldable pub step_add : ℕ → State → Result State
    step_add first_byte st = do
      guard (not (count_field first_byte == 3)) corrupt_data
      (offset, ops) ← read_diff_offset (offset_field first_byte) st.ops
      (count, ops) ← read_add_count first_byte ops
      check_count count st
      (diff_len, ops) ← read_u32 ops
      guard (leb diff_len (length st.diffs)) truncated
      let region = take diff_len st.diffs
      let st' = record st { ops = ops; diffs = drop diff_len st.diffs }
      st'' ← copy_add offset (flag_field first_byte == 1) region count 0 region st'
      ok (advance count st'')

    -- One round of the loop, at an operation stream that is not empty.
    unfoldable pub step : ℕ → List ℕ → State → Result State
    step first_byte ops st =
        if op_type first_byte == op_copy_add
        then step_add first_byte (record st { ops = ops })
        else do
          (count, ops') ← read_count first_byte ops
          check_count count st
          st' ← step_counted first_byte count (record st { ops = ops' })
          ok (advance count st')

    -- `while (dest_block < header.dest_blocks && op_ptr < op_end)`. Every round takes a byte of the
    -- operation stream, so its length is enough fuel.
    unfoldable pub run_loop : ℕ → List ℕ → State → Result State
    run_loop fuel [] st = ok st
    run_loop zero (b ∷ ops) st = ok st
    run_loop (suc fuel) (b ∷ ops) st = elim (ltb st.dest_block dest_blocks) [
      | true ↦ step b ops st >>= λ st'. run_loop fuel st'.ops st'
      | false ↦ ok st
    ]
