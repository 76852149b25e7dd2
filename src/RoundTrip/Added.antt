-- ===== src/RoundTrip/Added.antt =====
-- The runs of partial matches.
use fsdiff.Prelude.{
  ℕ, ◌+◌, ◌-◌, ◌*◌, ◌/◌, ◌≤◌, ◌<◌, ◌^◌, ◌≡◌, List, [], ◌∷◌, ◌++◌, length, ap, sym, ◌∙◌,
  append_assoc, append-nil, arith, refl, leb, ltb, le→leb, Bool-cases, inl, inr, Bool, true, false,
  take, take-append, drop-append, length-append, ◌==◌,
}
use fsdiff.Prelude.Int.{ℤ, pos_part, neg_part}
use fsdiff.Status.{Result, ok, ◌>>=◌, ◌>>◌, guard, err, corrupt_data, out_of_memory}
use fsdiff.Wire.{u32, u64, u32_le}
use fsdiff.Wire.RoundTrip.{read_u32-u32_le, length-u32_le}
use fsdiff.Signed.{abs}
use fsdiff.Sink.{Sink, Appends, Appends-then}
use fsdiff.Tracker.{BlockState, partial}
use fsdiff.Encoder.Format.{size_max, uint32_max, sparse_threshold}
use fsdiff.Encoder.Count.{count_enc, write_count}
use fsdiff.Encoder.Emit.{
  Streams, emit_partial, emit_copy_add, write_copy_add, write_diff_offset, first_byte, bool_bit,
  diff_offset_enc, diff_data, nonzero_count,
}
use fsdiff.Decoder.Reads.{
  op_type, count_field, offset_field, flag_field, read_count_as, read_add_count, read_diff_offset,
}
use fsdiff.Decoder.Steps.{step, step_add, copy_add}
use fsdiff.RoundTrip.Blocks.{blocks}
use fsdiff.RoundTrip.Runs.{Run, DiffOffset}
use fsdiff.RoundTrip.FirstByte.{first_byte_fields}
use fsdiff.RoundTrip.Fields.{
  Field, count_enc-lt, diff_offset_enc-lt, write_count-Field, write_diff_offset-Field,
}
use fsdiff.RoundTrip.Patches.{copy_add_lem}
use fsdiff.RoundTrip.Setting.{Setting, Ready, Grows, Executes}
use fsdiff.RoundTrip.Operations.{literal_run, run_inside}
use fsdiff.RoundTrip.Moved.{bool_bit-lt}
use fsdiff.RoundTrip.Limits.{size_guard, length-diff_data}

-- The bytes of OP_COPY_ADD up to its count, and what the reader makes of them.
record Addition (sink : Sink) (w : sink.W) (n : ℕ) (offset : ℤ) (sparse : Bool) (r : Result sink.W)
    : Type 0 where
  first : ℕ
  offsets : List ℕ
  counts : List ℕ
  appends : Appends sink.written sink.ready w (first ∷ (offsets ++ counts)) r
  short : length (offsets ++ counts) ≤ 8
  type : op_type first ≡ 4
  counted : (count_field first == 3) ≡ false
  reads_offset :
      (rest : List ℕ) → read_diff_offset (offset_field first) (offsets ++ rest) ≡ ok (offset, rest)
  reads_count : (rest : List ℕ) → read_add_count first (counts ++ rest) ≡ ok (u32 n, rest)
  format : (flag_field first == 1) ≡ sparse

is_one-bool_bit : (b : Bool) → (bool_bit b == 1) ≡ b
is_one-bool_bit true = refl
is_one-bool_bit false = refl

module _ (sink : Sink) where
  open sink use {written, write_byte_appends}

  write_copy_add_lem :
      (w : sink.W) (n : ℕ) (offset : ℤ) (sparse : Bool)
      → sink.ready w
      → 1 ≤ n
      → n < 2 ^ 64
      → pos_part offset < 2 ^ 31
      → neg_part offset ≤ 2 ^ 31
      → Addition sink w n offset sparse (write_copy_add sink w n offset sparse)
  unfolding write_copy_add
  write_copy_add_lem w n offset sparse h lo hi hp hn = record {
    first = first;
    offsets = where_to.bytes;
    counts = count.bytes;
    appends =
        Appends-then written sink.ready w (first ∷ []) (where_to.bytes ++ count.bytes) _ _ byte (
          Appends-then written sink.ready byte.final where_to.bytes count.bytes _ _ where_to.appends
            count.appends);
    short = omega (arith, length-append where_to.bytes count.bytes, count.short, where_to.short);
    type = fields.0;
    counted = rw fields.1 (ground (arith, count_enc-lt n));
    reads_offset = λ rest. rw fields.2 (where_to.reads rest);
    reads_count = λ rest. unfold read_add_count in rw fields.1 (count.reads rest);
    format = rw fields.3 (is_one-bool_bit sparse);
  }
    where
      first : ℕ
      first = first_byte 4 (count_enc n) (diff_offset_enc (abs offset)) (bool_bit sparse)

      fields :
          (op_type first ≡ 4)
          × (count_field first ≡ count_enc n)
          × (offset_field first ≡ diff_offset_enc (abs offset))
          × (flag_field first ≡ bool_bit sparse)
      fields =
          first_byte_fields 4 (count_enc n) (diff_offset_enc (abs offset)) (bool_bit sparse)
            (omega arith) (omega (arith, count_enc-lt n))
            (omega (arith, diff_offset_enc-lt (abs offset))) (bool_bit-lt sparse)

      byte : Appends written sink.ready w (first ∷ []) (sink.write_byte w first)
      byte = write_byte_appends w first h

      where_to :
          Field sink byte.final
            (write_diff_offset sink byte.final offset)
            (read_diff_offset (diff_offset_enc (abs offset)))
            offset
      where_to = write_diff_offset-Field sink byte.final byte.still_ready offset hp hn

      count :
          Field sink where_to.appends.final
            (write_count sink where_to.appends.final n)
            (read_count_as (count_enc n) (err corrupt_data))
            (u32 n)
      count =
          write_count-Field sink where_to.appends.final where_to.appends.still_ready n
            (err corrupt_data) lo hi

module _ (sink : Sink) (c : Setting) (st : Streams sink) (ready : Ready sink st) (i n : ℕ)
    (some : 1 ≤ n) (inside : i + n ≤ c.dest_blocks) where
  open c use {
    source, fwrite, block_size, dest, dest_blocks, accepts, small, bytes, some_bytes, whole,
    dest_small, few, block_limit,
  }

  module _ (malloc : ℕ → Bool) (enough : (size : ℕ) → malloc size ≡ true)
      (limit : n * (block_size * 2) ≤ uint32_max) (offset : ℤ) (ss : List BlockState)
      (r : Run block_size source.image dest partial
        (DiffOffset block_size source.image dest offset)
        i
        n
        ss) where
    -- The reader's round on the operation's bytes.
    step_add_lem :
        (sparse : Bool) (first : ℕ) (offsets counts ops' diffs' lits' out prev : List ℕ)
        → op_type first ≡ 4
        → (count_field first == 3) ≡ false
        → ((rest : List ℕ)
            → read_diff_offset (offset_field first) (offsets ++ rest) ≡ ok (offset, rest))
        → ((rest : List ℕ) → read_add_count first (counts ++ rest) ≡ ok (u32 n, rest))
        → (flag_field first == 1) ≡ sparse
        → step source fwrite block_size dest_blocks first
            (offsets
              ++ (counts
                  ++ (u32_le (u32 (length (diff_data block_size sparse (take n ss)))) ++ ops')))
            (record {
              ops = prev;
              diffs = diff_data block_size sparse (take n ss) ++ diffs';
              lits = lits';
              out = out;
              dest_block = i;
            })
          ≡ ok (record {
            ops = ops';
            diffs = diffs';
            lits = lits';
            out = out ++ blocks block_size dest i n;
            dest_block = i + n;
          })
    unfolding step step_add
    step_add_lem sparse first offsets counts ops' diffs' lits' out prev type counted reads_offset
          reads_count format =
        rw
          (
            type,
            counted,
            reads_offset (counts ++ (u32_le (u32 (length region)) ++ ops')),
            reads_count (u32_le (u32 (length region)) ++ ops'),
            same_count,
            room,
            read_u32-u32_le (u32 (length region)) ops' (omega arith),
            same_length,
            there,
            take-append (length region) region diffs' refl,
            drop-append (length region) region diffs' refl,
            format,
            loop,
          )
          refl
      where
        region : List ℕ
        region = diff_data block_size sparse (take n ss)

        short : length region ≤ uint32_max
        short =
            omega
              (arith, limit, length-diff_data block_size source.image dest sparse offset n i ss r)

        same_count : u32 n ≡ n
        same_count = omega (arith, few)

        same_length : u32 (length region) ≡ length region
        same_length = omega (arith, short)

        room : leb n (dest_blocks - i) ≡ true
        room = le→leb n (dest_blocks - i) (omega arith)

        there : leb (length region) (length (region ++ diffs')) ≡ true
        there = le→leb _ _ (omega (arith, length-append region diffs'))

        loop :
            copy_add source fwrite block_size offset sparse region n 0 region
              (record { ops = ops'; diffs = diffs'; lits = lits'; out = out; dest_block = i })
            ≡ ok (record {
              ops = ops';
              diffs = diffs';
              lits = lits';
              out = out ++ blocks block_size dest i n;
              dest_block = i;
            })
        loop =
            copy_add_lem source fwrite block_size dest accepts small some_bytes bytes sparse offset
              n _ ss (run_inside sink c st ready i n some inside) dest_small r

    -- The three streams after the operation and its diff data.
    added-Grows :
        (sparse : Bool) (first : ℕ) (tail region : List ℕ) (r0 : Result sink.W)
        → Appends sink.written sink.ready st.op_writer (first ∷ tail) r0
        → length region ≤ uint32_max
        → Grows sink st (first ∷ (tail ++ u32_le (u32 (length region)))) region [] (do
          w ← r0
          guard (leb (length region) uint32_max) out_of_memory
          w' ← sink.write w (u32_le (u32 (length region)))
          d ← sink.write st.diff_writer region
          ok (record st { op_writer = w'; diff_writer = d }))
    added-Grows sparse first tail region r0 a short =
        let len = sink.write_appends a.final (u32_le (u32 (length region))) a.still_ready in
        let d = sink.write_appends st.diff_writer region ready.diff_ready in
        record {
          final = record st { op_writer = len.final; diff_writer = d.final };
          returns =
              rw (a.returns, le→leb (length region) uint32_max short, len.returns, d.returns) refl;
          op_contents =
              len.contents
              ∙ ap (λ t. t ++ u32_le (u32 (length region))) a.contents
              ∙ append_assoc (sink.written st.op_writer) (first ∷ tail)
                  (u32_le (u32 (length region)));
          diff_contents = d.contents;
          lit_contents = sym (append-nil _);
          still_ready = record {
            op_ready = len.still_ready;
            diff_ready = d.still_ready;
            lit_ready = ready.lit_ready;
          };
        }

    -- OP_COPY_ADD, with its diff data.
    added_run :
        pos_part offset < 2 ^ 31
        → neg_part offset ≤ 2 ^ 31
        → Executes sink c st i n (emit_copy_add sink malloc block_size n offset (take n ss) st)
    unfolding emit_copy_add
    added_run hp hn = record {
      first = k.first;
      tail = (k.offsets ++ k.counts) ++ u32_le (u32 (length region));
      diffs = region;
      lits = [];
      ops_short = omega (
        arith,
        k.short,
        length-append (k.offsets ++ k.counts) (u32_le (u32 (length region))),
        length-u32_le (u32 (length region)),
      );
      diffs_short = length-diff_data block_size source.image dest sparse offset n i ss r;
      grows =
          rw (size_ok, enough (u64 (n * block_size * 2)))
            (added-Grows sparse k.first (k.offsets ++ k.counts) region _ k.appends region_short);
      steps = λ ops' diffs' lits' out prev.
          rw
            (
              append_assoc (k.offsets ++ k.counts) (u32_le (u32 (length region))) ops',
              append_assoc k.offsets k.counts (u32_le (u32 (length region)) ++ ops'),
            )
            (step_add_lem sparse k.first k.offsets k.counts ops' diffs' lits' out prev k.type
              k.counted k.reads_offset k.reads_count k.format);
    }
      where
        sparse : Bool
        sparse = ltb (nonzero_count block_size (take n ss)) (u64 (n * sparse_threshold))

        region : List ℕ
        region = diff_data block_size sparse (take n ss)

        k :
            Addition sink st.op_writer n offset sparse
              (write_copy_add sink st.op_writer n offset sparse)
        k =
            write_copy_add_lem sink st.op_writer n offset sparse ready.op_ready some
              (omega (arith, few)) hp hn

        region_short : length region ≤ uint32_max
        region_short =
            omega
              (arith, limit, length-diff_data block_size source.image dest sparse offset n i ss r)

        size_ok : leb n (size_max / block_size / 2) ≡ true
        size_ok = le→leb _ _ (size_guard n block_size some_bytes limit)

    -- A run of partial matches, whichever operation the encoder chooses for its offset.
    pub partial_run :
        Executes sink c st i n (emit_partial sink malloc dest block_size i n offset (take n ss) st)
    unfolding emit_partial
    partial_run = elim (Bool-cases (ltb (2 ^ 31) (neg_part offset))) [
      | inl far ↦ rw far (literal_run sink c st ready i n some inside)
      | inr near ↦ elim (Bool-cases (ltb (2 ^ 31 - 1) (pos_part offset))) [
        | inl far ↦ rw (near, far) (literal_run sink c st ready i n some inside)
        | inr near' ↦ rw (near, near') (added_run (ground (arith, near')) (ground (arith, near)))
      ]
    ]
