-- ===== src/RoundTrip/Moved.antt =====
-- The runs of relocated blocks.
use fsdiff.Prelude.{
  ℕ, ◌+◌, ◌≤◌, ◌<◌, ◌^◌, ◌≡◌, List, [], ◌∷◌, ◌++◌, length, ap, ◌∙◌, append_assoc, length-append,
  arith, ltb, Bool-cases, inl, inr, Bool, true, false,
}
use fsdiff.Prelude.Int.{ℤ}
use fsdiff.Status.{Result, ok, ◌>>=◌, err, corrupt_data}
use fsdiff.Wire.{u32}
use fsdiff.Signed.{abs, is_negative}
use fsdiff.Sink.{Sink, Appends, Appends-then}
use fsdiff.Tracker.{BlockState, relocate}
use fsdiff.Encoder.Count.{count_enc, write_count}
use fsdiff.Encoder.Emit.{
  Streams, emit_relocate, write_relocate, write_block_offset, first_byte, bool_bit,
  block_offset_enc,
}
use fsdiff.Decoder.Reads.{
  op_type, count_field, read_count, read_count_as, read_block_offset, with_sign, offset_field,
  flag_field,
}
use fsdiff.Decoder.Steps.{step_counted, step_relocate}
use fsdiff.RoundTrip.Runs.{Run, BlockOffset}
use fsdiff.RoundTrip.FirstByte.{first_byte_fields}
use fsdiff.RoundTrip.Fields.{
  Field, count_enc-lt, block_offset_enc-lt, write_count-Field, write_block_offset-Field,
  with_sign-abs,
}
use fsdiff.RoundTrip.Copies.{copy_relocate_lem}
use fsdiff.RoundTrip.Setting.{Setting, Ready, Executes, Grows-ops}
use fsdiff.RoundTrip.Operations.{counted_step, literal_run}

pub bool_bit-lt : (b : Bool) → bool_bit b < 2
bool_bit-lt true = omega arith
bool_bit-lt false = omega arith

-- Only the fourth encoding reads the inline count.
pub inline_unused :
    (enc : ℕ) (a b : Result (ℕ × List ℕ)) (ops : List ℕ)
    → enc < 3
    → read_count_as enc a ops ≡ read_count_as enc b ops
unfolding read_count_as
inline_unused enc a b ops h = ground arith

-- The bytes of OP_COPY_RELOCATE, and what the reader makes of them.
record Relocation (sink : Sink) (w : sink.W) (n : ℕ) (offset : ℤ) (r : Result sink.W) : Type 0 where
  first : ℕ
  counts : List ℕ
  offsets : List ℕ
  appends : Appends sink.written sink.ready w (first ∷ (counts ++ offsets)) r
  short : length (counts ++ offsets) ≤ 8
  type : op_type first ≡ 1
  reads_count : (rest : List ℕ) → read_count first (counts ++ rest) ≡ ok (u32 n, rest)
  reads_offset :
      (rest : List ℕ)
      → read_block_offset (offset_field first) (offsets ++ rest) ≡ ok (abs offset, rest)
  sign : with_sign (flag_field first) (abs offset) ≡ offset

module _ (sink : Sink) where
  open sink use {written, write_byte_appends}

  write_relocate_lem :
      (w : sink.W) (n : ℕ) (offset : ℤ)
      → sink.ready w
      → 1 ≤ n
      → n < 2 ^ 64
      → abs offset < 2 ^ 32
      → Relocation sink w n offset (write_relocate sink w n offset)
  unfolding write_relocate
  write_relocate_lem w n offset h lo hi fits = record {
    first = first;
    counts = count.bytes;
    offsets = where_to.bytes;
    appends =
        Appends-then written sink.ready w (first ∷ []) (count.bytes ++ where_to.bytes) _ _ byte (
          Appends-then written sink.ready byte.final count.bytes where_to.bytes _ _ count.appends
            where_to.appends);
    short = omega (arith, length-append count.bytes where_to.bytes, count.short, where_to.short);
    type = fields.0;
    reads_count = λ rest.
        unfold read_count in
        rw fields.1 (inline_unused _ _ (err corrupt_data) _ (count_enc-lt n) ∙ count.reads rest);
    reads_offset = λ rest. rw fields.2 (where_to.reads rest);
    sign = rw fields.3 (with_sign-abs offset);
  }
    where
      first : ℕ
      first =
          first_byte 1 (count_enc n) (block_offset_enc (abs offset)) (bool_bit (is_negative offset))

      fields :
          (op_type first ≡ 1)
          × (count_field first ≡ count_enc n)
          × (offset_field first ≡ block_offset_enc (abs offset))
          × (flag_field first ≡ bool_bit (is_negative offset))
      fields =
          first_byte_fields 1 (count_enc n) (block_offset_enc (abs offset))
            (bool_bit (is_negative offset)) (omega arith) (omega (arith, count_enc-lt n))
            (omega (arith, block_offset_enc-lt (abs offset))) (bool_bit-lt (is_negative offset))

      byte : Appends written sink.ready w (first ∷ []) (sink.write_byte w first)
      byte = write_byte_appends w first h

      count :
          Field sink byte.final
            (write_count sink byte.final n)
            (read_count_as (count_enc n) (err corrupt_data))
            (u32 n)
      count = write_count-Field sink byte.final byte.still_ready n (err corrupt_data) lo hi

      where_to :
          Field sink count.appends.final
            (write_block_offset sink count.appends.final (abs offset))
            (read_block_offset (block_offset_enc (abs offset)))
            (abs offset)
      where_to =
          write_block_offset-Field sink count.appends.final count.appends.still_ready (abs offset)
            fits

module _ (sink : Sink) (c : Setting) (st : Streams sink) (ready : Ready sink st) (i n : ℕ)
    (some : 1 ≤ n) (inside : i + n ≤ c.dest_blocks) where
  open c use {
    source, fwrite, block_size, dest, dest_blocks, accepts, small, some_bytes, whole, dest_small,
    few,
  }

  -- The operation of a run whose offset has a four-byte form.
  near_run :
      (offset : ℤ) (ss : List BlockState)
      → abs offset < 2 ^ 32
      → Run block_size source.image dest relocate
          (BlockOffset block_size source.image dest offset)
          i
          n
          ss
      → Executes sink c st i n
          (write_relocate sink st.op_writer n offset >>= λ w. ok (record st { op_writer = w }))
  near_run offset ss fits r =
      let k =
        write_relocate_lem sink st.op_writer n offset ready.op_ready some (omega (arith, few))
          fits in
      record {
        first = k.first;
        tail = k.counts ++ k.offsets;
        diffs = [];
        lits = [];
        ops_short = omega (arith, k.short);
        diffs_short = omega arith;
        grows = Grows-ops sink st (k.first ∷ (k.counts ++ k.offsets)) _ ready k.appends;
        steps = λ ops' diffs' lits' out prev.
            counted_step sink c st ready i n some inside 1 k.first _ (k.offsets ++ ops') diffs'
              lits' diffs' lits' out prev ops' (omega arith) k.type
              (ap (read_count k.first) (append_assoc k.counts k.offsets ops')
                ∙ k.reads_count (k.offsets ++ ops'))
              (unfold step_counted step_relocate in
                rw (k.type, k.reads_offset ops', k.sign)
                  (copy_relocate_lem source fwrite block_size dest accepts small some_bytes offset n
                    0 i _ ss (omega arith) (omega (arith, few)) r));
      }

  pub relocate_run :
      (offset : ℤ) (ss : List BlockState)
      → Run block_size source.image dest relocate
          (BlockOffset block_size source.image dest offset)
          i
          n
          ss
      → Executes sink c st i n (emit_relocate sink dest block_size i n offset st)
  unfolding emit_relocate
  relocate_run offset ss r = elim (Bool-cases (ltb 0xFFFFFFFF (abs offset))) [
    | inl far ↦ rw far (literal_run sink c st ready i n some inside)
    | inr near ↦ rw near (near_run offset ss (ground arith) r)
  ]
