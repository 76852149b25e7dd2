-- ===== src/RoundTrip/Operations.antt =====
-- Each operation that the encoder writes is executed by the reader: the runs of identity, zero, one
-- and unmatched blocks.
use fsdiff.Prelude.{
  ℕ, ◌+◌, ◌*◌, ◌≤◌, ◌<◌, ◌≡◌, ◌≢◌, List, [], ◌∷◌, ◌++◌, length, ap, sym, ◌∙◌, append-nil, arith,
  refl, mul_mono, add_mul,
}
use fsdiff.Status.{ok}
use fsdiff.Wire.{u32, u64}
use fsdiff.Sink.{Sink}
use fsdiff.Tracker.{BlockState, identity, all_zero, all_one}
use fsdiff.Encoder.Emit.{Streams, emit_literal_run, emit_simple, slice}
use fsdiff.Decoder.Reads.{op_type, read_count}
use fsdiff.Decoder.Steps.{State, step, step_counted}
use fsdiff.RoundTrip.Blocks.{blocks, blocks-eq-slice}
use fsdiff.RoundTrip.Counts.{encode_count-Counted}
use fsdiff.RoundTrip.Runs.{Run, Anything}
use fsdiff.RoundTrip.Copies.{
  wrote, copy_identity_lem, fill_blocks_lem, copy_literal_lem, zero_Filled, one_Filled,
}
use fsdiff.RoundTrip.Setting.{Setting, Ready, Executes, Grows-ops}

module _ (sink : Sink) (c : Setting) (st : Streams sink) (ready : Ready sink st) (i n : ℕ)
    (some : 1 ≤ n) (inside : i + n ≤ c.dest_blocks) where
  open c use {
    source, fwrite, block_size, dest, dest_blocks, accepts, small, some_bytes, whole, dest_small,
    few,
  }

  -- An operation behind a count, given what its loop does.
  pub counted_step :
      (op first : ℕ) (input mid d l d' l' out prev ops' : List ℕ)
      → op ≢ 4
      → op_type first ≡ op
      → read_count first input ≡ ok (u32 n, mid)
      → step_counted source fwrite block_size dest_blocks first n
          (record { ops = mid; diffs = d; lits = l; out = out; dest_block = i })
        ≡ ok (record {
          ops = ops';
          diffs = d';
          lits = l';
          out = out ++ blocks block_size dest i n;
          dest_block = i;
        })
      → step source fwrite block_size dest_blocks first input
          (record { ops = prev; diffs = d; lits = l; out = out; dest_block = i })
        ≡ ok (record {
          ops = ops';
          diffs = d';
          lits = l';
          out = out ++ blocks block_size dest i n;
          dest_block = i + n;
        })
  unfolding step
  counted_step op first input mid d l d' l' out prev ops' ne type reads loop = ground (arith, few)

  -- A run of blocks of one simple type.
  simple_run :
      (op : ℕ)
      → op < 8
      → op ≢ 4
      → ((first : ℕ) (st' : State)
          → op_type first ≡ op
          → st'.dest_block ≡ i
          → step_counted source fwrite block_size dest_blocks first n st'
            ≡ ok (wrote block_size dest st' i n))
      → Executes sink c st i n (emit_simple sink op n st)
  unfolding emit_simple
  simple_run op ho ne loop =
      let k =
        encode_count-Counted sink st.op_writer op n ready.op_ready ho some (omega (arith, few)) in
      record {
        first = k.first;
        tail = k.tail;
        diffs = [];
        lits = [];
        ops_short = omega (arith, k.tail_short);
        diffs_short = omega arith;
        grows = Grows-ops sink st (k.first ∷ k.tail) _ ready k.appends;
        steps = λ ops' diffs' lits' out prev.
            counted_step op k.first _ _ diffs' lits' diffs' lits' out prev ops' ne k.type
              (k.reads ops') (loop k.first _ k.type refl);
      }

  pub identity_run :
      (ss : List BlockState)
      → Run block_size source.image dest identity (Anything block_size source.image dest) i n ss
      → Executes sink c st i n (emit_simple sink 0 n st)
  identity_run ss r = simple_run 0 (omega arith) (omega arith) λ first st' type at.
      unfold step_counted in
      rw type (
        copy_identity_lem source fwrite block_size dest accepts small some_bytes n 0 i st' ss
          (omega arith) r)

  pub zero_run :
      (ss : List BlockState)
      → Run block_size source.image dest all_zero (Anything block_size source.image dest) i n ss
      → Executes sink c st i n (emit_simple sink 2 n st)
  zero_run ss r = simple_run 2 (omega arith) (omega arith) λ first st' type at.
      unfold step_counted in
      rw type (
        fill_blocks_lem source fwrite block_size dest accepts small some_bytes 0 n i st'
          (zero_Filled source fwrite block_size dest accepts small some_bytes n i ss r))

  pub one_run :
      (ss : List BlockState)
      → Run block_size source.image dest all_one (Anything block_size source.image dest) i n ss
      → Executes sink c st i n (emit_simple sink 3 n st)
  one_run ss r = simple_run 3 (omega arith) (omega arith) λ first st' type at.
      unfold step_counted in
      rw type (
        fill_blocks_lem source fwrite block_size dest accepts small some_bytes 0xFF n i st'
          (one_Filled source fwrite block_size dest accepts small some_bytes n i ss r))

  -- The run lies in the destination image.
  pub run_inside : (i + n) * block_size ≤ length dest
  run_inside = omega (arith, mul_mono (i + n) dest_blocks block_size inside, whole)

  -- The literal bytes of the run.
  literal_bytes :
      slice dest (u64 (i * block_size)) (u64 (n * block_size)) ≡ blocks block_size dest i n
  literal_bytes =
      let fits : i * block_size + n * block_size ≤ length dest =
        omega (arith, run_inside, add_mul i n block_size) in
      let first : u64 (i * block_size) ≡ i * block_size = omega (arith, dest_small) in
      let len : u64 (n * block_size) ≡ n * block_size = omega (arith, dest_small) in
      rw (first, len) (sym (blocks-eq-slice block_size dest i n))

  pub literal_run : Executes sink c st i n (emit_literal_run sink dest block_size i n st)
  unfolding emit_literal_run
  literal_run =
      let k =
        encode_count-Counted sink st.op_writer 5 n ready.op_ready (omega arith) some
          (omega (arith, few)) in
      let l =
        sink.write_appends st.lit_writer (slice dest (u64 (i * block_size)) (u64 (n * block_size)))
          ready.lit_ready in
      record {
        first = k.first;
        tail = k.tail;
        diffs = [];
        lits = blocks block_size dest i n;
        ops_short = omega (arith, k.tail_short);
        diffs_short = omega arith;
        grows = record {
          final = record st { op_writer = k.appends.final; lit_writer = l.final };
          returns = rw k.appends.returns (rw l.returns refl);
          op_contents = k.appends.contents;
          diff_contents = sym (append-nil _);
          lit_contents = l.contents ∙ ap (λ t. sink.written st.lit_writer ++ t) literal_bytes;
          still_ready = record {
            op_ready = k.appends.still_ready;
            diff_ready = ready.diff_ready;
            lit_ready = l.still_ready;
          };
        };
        steps = λ ops' diffs' lits' out prev.
            counted_step 5 k.first _ _ diffs' (blocks block_size dest i n ++ lits') diffs' lits' out
              prev ops' (omega arith) k.type (k.reads ops')
              (unfold step_counted in
                rw k.type (
                  copy_literal_lem source fwrite block_size dest accepts small some_bytes n i _
                    lits' run_inside refl));
      }
