-- ===== src/Encoder/Emit.antt =====
-- The operations that `fsd_op_encoder_encode` writes, and its loop over the blocks. `block_size` is
-- the encoder's field, `dest` the destination image, and `malloc n` says whether the allocation of
-- `n` bytes succeeds.
use fsdiff.Prelude.{
  ℕ, zero, suc, ◌+◌, ◌-◌, ◌*◌, ◌/◌, ◌^◌, Bool, true, false, List, [], ◌∷◌, ◌++◌, Option, none, some,
  ◌||◌, ltb, leb, ◌==◌, if◌then◌else◌, length, take, drop, replicate, bit_or,
}
use fsdiff.Prelude.Int.{ℤ, pos_part, neg_part}
use fsdiff.Status.{Result, ok, err, ◌>>=◌, ◌>>◌, guard, out_of_memory}
use fsdiff.Wire.{u8, u32, u64, shr, low_byte, u16_le, u32_le, u16}
use fsdiff.Signed.{of_signed, is_negative, abs}
use fsdiff.Sparse.{diff_bytes, write_block}
use fsdiff.Tracker.{
  BlockState, MatchType, unmatched, identity, relocate, partial, all_zero, all_one,
}
use fsdiff.Sink.{Sink}
use fsdiff.Encoder.Format.{
  op_copy_identity, op_copy_relocate, op_zero, op_one, op_copy_add, op_literal, sparse_threshold,
  size_max, uint32_max,
}
use fsdiff.Encoder.Count.{count_enc, encode_count, write_count}
use fsdiff.Encoder.Runs.{block_offset, diff_offset, run_count}

-- A slice of the destination image: `len` bytes at `dest_data + at`.
abbrev pub slice : List ℕ → ℕ → ℕ → List ℕ
slice image at len = take len (drop at image)

-- `nonzero_count`: the nonzero bytes of a block's delta, below the block's size.
unfoldable pub nonzeros : List ℕ → ℕ
nonzeros [] = 0
nonzeros (d ∷ ds) = if d == 0 then nonzeros ds else suc (nonzeros ds)

unfoldable pub nonzero_count : ℕ → List BlockState → ℕ
unfolding nonzeros
nonzero_count block_size [] = 0
nonzero_count block_size (s ∷ ss) = nonzeros (seen s.delta) + nonzero_count block_size ss
  where
    seen : Option (List ℕ) → List ℕ
    seen none = []
    seen (some delta) = take block_size delta

-- The dense format of one block: the delta, cut or filled up with zeros to the block's size.
unfoldable pub dense_block : ℕ → Option (List ℕ) → List ℕ
dense_block block_size none = replicate block_size 0
dense_block block_size (some delta) =
    if leb block_size (length delta)
    then take block_size delta
    else delta ++ replicate (block_size - length delta) 0

-- What `diff_buf` holds for the blocks of a run.
unfoldable pub diff_data : ℕ → Bool → List BlockState → List ℕ
diff_data block_size sparse [] = []
diff_data block_size sparse (s ∷ ss) =
    (if sparse then write_block (diff_bytes s.delta block_size) else dense_block block_size s.delta)
    ++ diff_data block_size sparse ss

-- `offset_enc` of OP_COPY_RELOCATE and of OP_COPY_ADD, from the absolute offset.
unfoldable pub block_offset_enc : ℕ → ℕ
block_offset_enc n = if leb n 0xFF then 0 else if leb n 0xFFFF then 1 else 2

unfoldable pub diff_offset_enc : ℕ → ℕ
diff_offset_enc n = if leb n 0x7FFF then 0 else if leb n 0x7FFFFF then 1 else 2

-- `[op_type:3][count_enc:2][offset_enc:2][flag:1]`
abbrev pub first_byte : ℕ → ℕ → ℕ → ℕ → ℕ
first_byte op count_enc offset_enc flag =
    u8 (bit_or (bit_or (bit_or (op * 2 ^ 5) (count_enc * 2 ^ 3)) (offset_enc * 2 ^ 1)) flag)

abbrev pub bool_bit : Bool → ℕ
bool_bit true = 1
bool_bit false = 0

module _ (sink : Sink) where
  open sink use {W, write_byte, write}

  -- The three writers of the encoder.
  pub record Streams : Type 0 where
    pub op_writer : W
    pub diff_writer : W
    pub lit_writer : W

  -- `emit_literal_run`
  unfoldable pub emit_literal_run : List ℕ → ℕ → ℕ → ℕ → Streams → Result Streams
  emit_literal_run dest block_size first count st = do
    w ← encode_count sink st.op_writer (op_literal * 2 ^ 5) count
    l ← write st.lit_writer (slice dest (u64 (first * block_size)) (u64 (count * block_size)))
    ok (record st { op_writer = w; lit_writer = l })

  -- OP_COPY_IDENTITY, OP_ZERO and OP_ONE: a first byte and a count.
  unfoldable pub emit_simple : ℕ → ℕ → Streams → Result Streams
  emit_simple op count st = do
    w ← encode_count sink st.op_writer (op * 2 ^ 5) count
    ok (record st { op_writer = w })

  -- The absolute block offset of OP_COPY_RELOCATE, on 1, 2 or 4 bytes.
  unfoldable pub write_block_offset : W → ℕ → Result W
  write_block_offset writer n =
      if block_offset_enc n == 0
      then write_byte writer (u8 n)
      else if block_offset_enc n == 1
      then write writer (u16_le (u16 n))
      else write writer (u32_le (u32 n))

  -- The bytes of OP_COPY_RELOCATE: first byte, count, absolute offset.
  unfoldable pub write_relocate : W → ℕ → ℤ → Result W
  write_relocate writer count offset = do
    let n = abs offset
    w ← write_byte writer (
        first_byte op_copy_relocate (count_enc count) (block_offset_enc n)
          (bool_bit (is_negative offset)))
    w' ← write_count sink w count
    write_block_offset w' n

  unfoldable pub emit_relocate : List ℕ → ℕ → ℕ → ℕ → ℤ → Streams → Result Streams
  emit_relocate dest block_size i count offset st =
      if ltb 0xFFFFFFFF (abs offset)
      then emit_literal_run dest block_size i count st
      else do w ← write_relocate st.op_writer count offset; ok (record st { op_writer = w })

  -- The byte offset of OP_COPY_ADD in two's complement, on 2, 3 or 4 bytes.
  unfoldable pub write_diff_offset : W → ℤ → Result W
  write_diff_offset writer offset =
      if diff_offset_enc (abs offset) == 0
      then write writer (u16_le (of_signed (2 ^ 16) offset))
      else if diff_offset_enc (abs offset) == 1
      then (do
        let val = of_signed (2 ^ 32) offset
        w ← write_byte writer (low_byte val)
        w' ← write_byte w (low_byte (shr val 8))
        write_byte w' (low_byte (shr val 16)))
      else write writer (u32_le (of_signed (2 ^ 32) offset))

  -- The bytes of OP_COPY_ADD up to the count.
  unfoldable pub write_copy_add : W → ℕ → ℤ → Bool → Result W
  write_copy_add writer count offset sparse = do
    w ←
        write_byte writer (
          first_byte op_copy_add (count_enc count) (diff_offset_enc (abs offset)) (bool_bit sparse))
    w' ← write_diff_offset w offset
    write_count sink w' count

  unfoldable pub emit_copy_add : (ℕ → Bool) → ℕ → ℕ → ℤ → List BlockState → Streams → Result Streams
  emit_copy_add malloc block_size count offset run st = do
    let sparse = ltb (nonzero_count block_size run) (u64 (count * sparse_threshold))
    guard (leb count (size_max / block_size / 2)) out_of_memory
    guard (malloc (u64 (count * block_size * 2))) out_of_memory
    let diffs = diff_data block_size sparse run
    w ← write_copy_add st.op_writer count offset sparse
    guard (leb (length diffs) uint32_max) out_of_memory
    w' ← write w (u32_le (u32 (length diffs)))
    d ← write st.diff_writer diffs
    ok (record st { op_writer = w'; diff_writer = d })

  -- The run of partial matches: a literal run where the offset has no four-byte form.
  unfoldable pub emit_partial :
      (ℕ → Bool) → List ℕ → ℕ → ℕ → ℕ → ℤ → List BlockState → Streams → Result Streams
  emit_partial malloc dest block_size i count offset run st =
      if ltb (2 ^ 31) (neg_part offset) || ltb (2 ^ 31 - 1) (pos_part offset)
      then emit_literal_run dest block_size i count st
      else emit_copy_add malloc block_size count offset run st

  -- The `switch` over the type of the first block of a run.
  unfoldable pub emit_run :
      (ℕ → Bool)
      → List ℕ
      → ℕ
      → ℕ
      → ℕ
      → BlockState
      → MatchType
      → List BlockState
      → Streams
      → Result Streams
  emit_run malloc dest block_size i count state identity run st =
      emit_simple op_copy_identity count st
  emit_run malloc dest block_size i count state relocate run st =
      emit_relocate dest block_size i count (block_offset state i) st
  emit_run malloc dest block_size i count state all_zero run st = emit_simple op_zero count st
  emit_run malloc dest block_size i count state all_one run st = emit_simple op_one count st
  emit_run malloc dest block_size i count state partial run st =
      emit_partial malloc dest block_size i count (diff_offset block_size state i) run st
  emit_run malloc dest block_size i count state unmatched run st =
      emit_literal_run dest block_size i count st

  -- `while (i < tracker->count)`: every round takes a block at least, so their number is enough fuel.
  unfoldable pub encode_loop :
      (ℕ → Bool) → List ℕ → ℕ → ℕ → ℕ → List BlockState → Streams → Result Streams
  encode_loop malloc dest block_size fuel i [] st = ok st
  encode_loop malloc dest block_size zero i (state ∷ rest) st = err out_of_memory
  encode_loop malloc dest block_size (suc fuel) i (state ∷ rest) st = do
    let count = run_count block_size i state state.match_type rest
    st' ←
        emit_run malloc dest block_size i count state state.match_type (take count (state ∷ rest))
          st
    encode_loop malloc dest block_size fuel (i + count) (drop count (state ∷ rest)) st'

  -- `fsd_op_encoder_encode`, for a tracker whose blocks are `blocks`.
  unfoldable pub encode : (ℕ → Bool) → List ℕ → ℕ → List BlockState → Streams → Result Streams
  unfolding encode_loop
  encode malloc dest block_size blocks st =
      encode_loop malloc dest block_size (length blocks) 0 blocks st
