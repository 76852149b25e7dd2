-- ===== src/Decoder/Complete.antt =====
-- A patch that applies writes every block that its header announces.
use fsdiff.Prelude.{
  ℕ, zero, suc, ◌+◌, ◌-◌, ◌*◌, ◌/◌, ◌≤◌, ◌≡◌, ◌^◌, Bool, true, false, List, [], ◌∷◌, length, take,
  drop, arith, sym, ap, ap₂, ◌∙◌, leb, ltb, ◌==◌, not, leb→le, add_mul, Bool-cases, inl, inr,
}
use mathlib.Core.Path.{subst}
use fsdiff.Status.{
  ok, ◌>>=◌, ◌>>◌, guard, truncated, corrupt_data, >>=-eq-ok, ok_injective, guard-true,
  Result-cases,
}
use fsdiff.Wire.{read_u32}
use fsdiff.Header.{Header, header_read_memory, header_size}
use fsdiff.Decoder.Source.{Source}
use fsdiff.Decoder.Reads.{
  op_type, count_field, offset_field, flag_field, read_count, read_add_count, read_block_offset,
  with_sign, read_diff_offset,
}
use fsdiff.Decoder.Steps.{
  State, copy_add, step_relocate, step_counted, step_add, step, run_loop, check_count, advance,
}
use fsdiff.Decoder.Apply.{
  Outcome, refused, failed, applied, Plan, int64_max, locate, run_plan, write_output, patch_apply,
}
use fsdiff.Decoder.Loops.{
  Wrote, copy_identity-Wrote, copy_relocate-Wrote, fill_blocks-Wrote, copy_literal-Wrote,
  copy_add-Wrote,
}

module _ (source : Source) (fwrite : List ℕ → List ℕ → ℕ) (block_size dest_blocks : ℕ) where
  -- The output file holds the blocks before `dest_block`, and no more than the header announces.
  pub record Aligned (st : State) : Type 0 where
    pub whole : length st.out ≡ st.dest_block * block_size
    pub within : st.dest_block ≤ dest_blocks

  relocate-Wrote :
      (first count : ℕ) (st st' : State)
      → step_relocate source fwrite block_size dest_blocks first count st ≡ ok st'
      → Wrote block_size count st st'
  unfolding step_relocate
  relocate-Wrote first count st st' h =
      let (p, read, h') = >>=-eq-ok (read_block_offset (offset_field first) st.ops) _ h in
      let w =
        copy_relocate-Wrote source fwrite block_size (with_sign (flag_field first) p.0) count 0 _
          st' h' in
      record { blocks = w.blocks; same = w.same }

  counted-Wrote :
      (first count : ℕ) (st st' : State)
      → step_counted source fwrite block_size dest_blocks first count st ≡ ok st'
      → Wrote block_size count st st'
  unfolding step_counted
  counted-Wrote first count st st' h = ground (
    arith,
    copy_identity-Wrote source fwrite block_size count 0 st st',
    relocate-Wrote first count st st',
    fill_blocks-Wrote source fwrite block_size 0 count st st',
    fill_blocks-Wrote source fwrite block_size 0xFF count st st',
    copy_literal-Wrote source fwrite block_size count st st',
  )

  -- An operation's blocks, written and counted.
  advanced :
      (count : ℕ) (st st' st'' : State)
      → Aligned st
      → leb count (dest_blocks - st.dest_block) ≡ true
      → Wrote block_size count st st'
      → advance source fwrite block_size dest_blocks count st' ≡ st''
      → Aligned st''
  advanced count st st' st'' a fits w e =
      let out = ap (λ (s : State). length s.out) e in
      let at = ap (λ (s : State). s.dest_block) e in
      record {
        whole = omega (
          arith,
          a.whole,
          w.blocks,
          w.same,
          out,
          add_mul st.dest_block count block_size,
          ap (λ (t : ℕ). t * block_size) (sum at),
        );
        within =
            omega (arith, leb→le count (dest_blocks - st.dest_block) fits, a.within, w.same, at);
      }
    where
      sum : st'.dest_block + count ≡ st''.dest_block → st''.dest_block ≡ st.dest_block + count
      sum h = omega (arith, h, w.same)

  step_add-Aligned :
      (first : ℕ) (st st' : State)
      → Aligned st
      → step_add source fwrite block_size dest_blocks first st ≡ ok st'
      → Aligned st'
  unfolding step_add
  step_add-Aligned first st st' a h =
      let (u, pass, h0) = >>=-eq-ok (guard (not (count_field first == 3)) corrupt_data) _ h in
      let (offset, read, h1) = >>=-eq-ok (read_diff_offset (offset_field first) st.ops) _ h0 in
      let (count, counted, h2) = >>=-eq-ok (read_add_count first offset.1) _ h1 in
      let (u', fits, h3) =
        >>=-eq-ok (check_count source fwrite block_size dest_blocks count.0 st) _ h2 in
      let (len, sized, h4) = >>=-eq-ok (read_u32 count.1) _ h3 in
      let (u'', there, h5) = >>=-eq-ok (guard (leb len.0 (length st.diffs)) truncated) _ h4 in
      let region = take len.0 st.diffs in
      let (v, looped, h6) =
        >>=-eq-ok
          (copy_add source fwrite block_size offset.0 (flag_field first == 1) region count.0 0
            region (record st { ops = len.1; diffs = drop len.0 st.diffs }))
          _ h5 in
      let w =
        copy_add-Wrote source fwrite block_size offset.0 (flag_field first == 1) region count.0 0
          region _ v looped in
      advanced count.0 st v st' a (guard-true _ corrupt_data u' fits)
        (record { blocks = w.blocks; same = w.same }) (ok_injective h6)

  step-Aligned :
      (first : ℕ) (ops : List ℕ) (st st' : State)
      → Aligned st
      → step source fwrite block_size dest_blocks first ops st ≡ ok st'
      → Aligned st'
  unfolding step
  step-Aligned first ops st st' a h = elim (Bool-cases (op_type first == 4)) [
    | inl add ↦
        step_add-Aligned first (record st { ops = ops }) st'
          (record { whole = a.whole; within = a.within }) (rw add at h)
    | inr other ↦ counted (rw other at h)
  ]
    where
      counted :
          (read_count first ops >>= λ p.
          check_count source fwrite block_size dest_blocks p.0 st
          >> (step_counted source fwrite block_size dest_blocks first p.0 (record st { ops = p.1 })
              >>= λ v. ok (advance source fwrite block_size dest_blocks p.0 v)))
            ≡ ok st'
          → Aligned st'
      counted h =
          let (count, read, h1) = >>=-eq-ok (read_count first ops) _ h in
          let (u, fits, h2) =
            >>=-eq-ok (check_count source fwrite block_size dest_blocks count.0 st) _ h1 in
          let (v, looped, h3) =
            >>=-eq-ok
              (step_counted source fwrite block_size dest_blocks first count.0
                (record st { ops = count.1 }))
              _ h2 in
          let w = counted-Wrote first count.0 _ v looped in
          advanced count.0 st v st' a (guard-true _ corrupt_data u fits)
            (record { blocks = w.blocks; same = w.same }) (ok_injective h3)

  run_loop-Aligned :
      (fuel : ℕ) (ops : List ℕ) (st st' : State)
      → Aligned st
      → run_loop source fwrite block_size dest_blocks fuel ops st ≡ ok st'
      → Aligned st'
  unfolding run_loop
  run_loop-Aligned fuel [] st st' a h = subst Aligned (ok_injective h) a
  run_loop-Aligned zero (b ∷ ops) st st' a h = subst Aligned (ok_injective h) a
  run_loop-Aligned (suc fuel) (b ∷ ops) st st' a h =
      elim (Bool-cases (ltb st.dest_block dest_blocks)) [
        | inr done ↦ subst Aligned (ok_injective (rw (run_loop, done) at h)) a
        | inl more ↦
            let (v, stepped, rest) =
              >>=-eq-ok (step source fwrite block_size dest_blocks b ops st)
                (λ v. run_loop source fwrite block_size dest_blocks fuel v.ops v)
                (rw (run_loop, more) at h) in
            run_loop-Aligned fuel v.ops v st' (step-Aligned b ops st v a stepped) rest
      ]

-- The plan of a patch comes from its header, and starts at block 0 with an empty output file.
pub record Planned (header : Header) (plan : Plan) : Type 0 where
  pub sized : plan.block_size ≡ 2 ^ header.block_size_log2
  pub counted : plan.dest_blocks ≡ header.dest_blocks
  pub empty : plan.start.out ≡ []
  pub first : plan.start.dest_block ≡ 0

pub locate-Planned :
    (patch : List ℕ) (plan : Plan)
    → locate patch ≡ ok plan
    → (header : Header) × (header_read_memory patch ≡ ok header) × Planned header plan
unfolding locate
locate-Planned patch plan h =
    let (header, read, h1) = >>=-eq-ok (header_read_memory patch) _ h in
    let (u1, p1, h2) =
      >>=-eq-ok
        (guard (leb header.dest_blocks (int64_max / 2 ^ header.block_size_log2)) corrupt_data) _
        h1 in
    let (u2, p2, h3) = >>=-eq-ok (guard (leb header_size (length patch)) truncated) _ h2 in
    let (u3, p3, h4) =
      >>=-eq-ok (guard (leb header.op_stream_len (length patch - header_size)) corrupt_data) _ h3 in
    let (u4, p4, h5) =
      >>=-eq-ok
        (guard (leb header.diff_stream_len (length patch - header_size - header.op_stream_len))
          corrupt_data)
        _ h4 in
    let e = ok_injective h5 in
    (
      header,
      read,
      record {
        sized = sym (ap (λ (p : Plan). p.block_size) e);
        counted = sym (ap (λ (p : Plan). p.dest_blocks) e);
        empty = sym (ap (λ (p : Plan). p.start.out) e);
        first = sym (ap (λ (p : Plan). p.start.dest_block) e);
      },
    )

run_plan-length :
    (fwrite : List ℕ → List ℕ → ℕ) (source : Source) (header : Header) (plan : Plan) (out : List ℕ)
    → Planned header plan
    → run_plan fwrite source plan ≡ ok out
    → length out ≡ header.dest_blocks * 2 ^ header.block_size_log2
unfolding run_plan
run_plan-length fwrite source header plan out k h =
    let (st, looped, h1) =
      >>=-eq-ok
        (run_loop source fwrite plan.block_size plan.dest_blocks (length plan.start.ops)
          plan.start.ops plan.start)
        _ h in
    let (u, done, h2) = >>=-eq-ok (guard (st.dest_block == plan.dest_blocks) truncated) _ h1 in
    let a =
      run_loop-Aligned source fwrite plan.block_size plan.dest_blocks (length plan.start.ops)
        plan.start.ops plan.start st
        (record { whole = rw (k.empty, k.first) (omega arith); within = rw k.first (omega arith) })
        looped in
    let all : st.dest_block ≡ plan.dest_blocks = ground (arith, guard-true _ truncated u done) in
    sym (ap length (ok_injective h2))
    ∙ a.whole
    ∙ ap (λ (t : ℕ). t * plan.block_size) all
    ∙ ap₂ (λ (a b : ℕ). a * b) k.counted k.sized

output_of : List ℕ → Outcome → List ℕ
output_of other (refused e) = other
output_of other (failed e unlinked) = other
output_of other (applied out) = out

-- An applied patch is one whose loop ran to its end.
write_output-applied :
    (fwrite : List ℕ → List ℕ → ℕ) (fclose : List ℕ → List ℕ) (fopen malloc may_unlink : Bool)
    (source : Source) (plan : Plan) (file : List ℕ)
    → write_output fwrite fclose fopen malloc may_unlink source plan ≡ applied file
    → (bytes : List ℕ) × (run_plan fwrite source plan ≡ ok bytes) × (file ≡ fclose bytes)
unfolding write_output output_of
write_output-applied fwrite fclose false malloc may_unlink source plan file h = cc
write_output-applied fwrite fclose true false may_unlink source plan file h = cc
write_output-applied fwrite fclose true true may_unlink source plan file h =
    elim (Result-cases (run_plan fwrite source plan)) [
      | inr (e, failed_by) ↦
          let h' : failed e may_unlink ≡ applied file = rw (write_output, failed_by) at h in cc
      | inl (bytes, ran) ↦
          let h' : applied (fclose bytes) ≡ applied file = rw (write_output, ran) at h in
          (bytes, ran, sym (ap (output_of file) h'))
    ]

-- If `fsd_patch_apply` succeeds on a source and a patch, whatever `fopen`, `malloc`, `fwrite` and `fclose` do,
-- the patch has a header that the reader accepts, and the call handed exactly the header's number of
-- blocks times its block size in bytes to the output file, which holds what `fclose` leaves of them.
pub patch_apply_complete :
    (fwrite : List ℕ → List ℕ → ℕ) (fclose : List ℕ → List ℕ) (source : Source) (patch : List ℕ)
    (fopen malloc may_unlink : Bool) (file : List ℕ)
    → patch_apply fwrite fclose (ok source) (ok patch) fopen malloc may_unlink ≡ applied file
    → (header : Header) × (bytes : List ℕ) × (header_read_memory patch ≡ ok header)
      × (file ≡ fclose bytes)
      × (length bytes ≡ header.dest_blocks * 2 ^ header.block_size_log2)
unfolding patch_apply
patch_apply_complete fwrite fclose source patch fopen malloc may_unlink file h =
    elim (Result-cases (locate patch)) [
      | inr (e, refused_by) ↦
          let h' : refused e ≡ applied file = rw (patch_apply, refused_by) at h in cc
      | inl (plan, located) ↦
          let (header, read, k) = locate-Planned patch plan located in
          let (bytes, ran, kept) =
            write_output-applied fwrite fclose fopen malloc may_unlink source plan file
              (rw (patch_apply, located) at h) in
          (header, bytes, read, kept, run_plan-length fwrite source header plan bytes k ran)
    ]
