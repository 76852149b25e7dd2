-- ===== src/RoundTrip/Patches.antt =====
-- The reader's loop over the blocks of OP_COPY_ADD, on the diff data that the encoder wrote.
use fsdiff.Prelude.{
  ℕ, zero, suc, ◌+◌, ◌-◌, ◌*◌, ◌≤◌, ◌<◌, ◌^◌, ◌≡◌, ap, le→leb, arith, List, [], ◌∷◌, ◌++◌, length,
  true, false, take, append_assoc, length-append, ltb, take-append, drop-append, take-length, Bool,
  All, All-drop, All-take, some, ◌||◌,
}
use mathlib.Core.Path.{subst}
use fsdiff.Prelude.Int.{ℤ, pos, ◌+ℤ◌}
use fsdiff.Status.{Result, ok, ◌>>=◌}
use fsdiff.Wire.{u64, IsByte}
use fsdiff.Tracker.{BlockState, partial}
use fsdiff.Sparse.{diff_bytes, write_block, add_diffs}
use fsdiff.Sparse.RoundTrip.{apply_block-write_block}
use fsdiff.Encoder.Format.{int64}
use fsdiff.Encoder.Emit.{slice, dense_block, diff_data}
use fsdiff.Encoder.Runs.{diff_offset}
use fsdiff.Decoder.Source.{Source}
use fsdiff.Decoder.Steps.{State, write_out, read_source, apply_dense, apply_diff, copy_add}
use fsdiff.RoundTrip.Blocks.{block}
use fsdiff.RoundTrip.Runs.{Run, DiffOffset}
use fsdiff.RoundTrip.Copies.{
  wrote, write_out_lem, read_source_lem, length-slice, nothing_written, length-block, back_to,
}

-- A delta of the block's size is stored as it is.
pub diff_bytes-some :
    (delta : List ℕ) (n : ℕ) → length delta ≡ n → diff_bytes (some delta) n ≡ delta
unfolding diff_bytes
diff_bytes-some delta n h = rw (← h) (take-length delta)

pub dense_block-some :
    (delta : List ℕ) (n : ℕ) → length delta ≡ n → dense_block n (some delta) ≡ delta
unfolding dense_block
dense_block-some delta n h = rw (le→leb n (length delta) (omega arith), ← h) (take-length delta)

module _ (source : Source) (fwrite : List ℕ → List ℕ → ℕ) (block_size : ℕ) (dest : List ℕ)
    (accepts : (file bytes : List ℕ) → fwrite file bytes ≡ length bytes)
    (small : length source.image < 2 ^ 63) (some_bytes : 1 ≤ block_size) where
  open source use {image}

  -- One block of either format.
  patched_block :
      (sparse : Bool) (region cursor cursor' : List ℕ) (at k i n : ℕ) (st : State)
      (more : List ℕ → State → Result State)
      → at + block_size ≤ length image
      → (i + suc n) * block_size ≤ length dest
      → apply_diff source fwrite block_size sparse region k cursor (slice image at block_size)
        ≡ ok (block block_size dest i, cursor')
      → more cursor' (record st { out = st.out ++ block block_size dest i })
        ≡ ok (
            wrote block_size dest (record st { out = st.out ++ block block_size dest i }) (i + 1) n)
      → (read_source source fwrite block_size at >>= λ b.
          apply_diff source fwrite block_size sparse region k cursor b >>= λ p.
          write_out source fwrite block_size p.0 st >>= more p.1)
        ≡ ok (wrote block_size dest st i (suc n))
  patched_block sparse region cursor cursor' at k i n st more fits inside applied rest =
      rw
        (
          read_source_lem source fwrite block_size dest accepts small some_bytes at fits,
          applied,
          write_out_lem source fwrite block_size dest accepts small some_bytes
              (block block_size dest i) st
              (length-block source fwrite block_size dest accepts small some_bytes i n inside),
          rest,
        )
        (ap (λ t. ok (record st { out = t })) (append_assoc st.out _ _))

  -- The position that the reader computes from the offset of the run.
  position :
      (offset : ℤ) (i : ℕ) (s : BlockState)
      → i * block_size < 2 ^ 63
      → s.src_index * block_size + s.byte_offset + block_size ≤ length image
      → diff_offset block_size s i ≡ offset
      → int64 (i * block_size) +ℤ offset ≡ pos (s.src_index * block_size + s.byte_offset)
  unfolding diff_offset
  position offset i s hi fits same =
      let e : u64 (s.src_index * block_size) ≡ s.src_index * block_size = omega arith in
      rw (← same, e)
        (back_to (i * block_size) (s.src_index * block_size + s.byte_offset) hi (omega arith))

  module _ (bytes : All IsByte image) where
    -- The block that the reader makes of a source block and the diffs of one block.
    sparse_block :
        (s : BlockState) (i k at : ℕ) (delta region rest : List ℕ)
        → at + block_size ≤ length image
        → s.delta ≡ some delta
        → length delta ≡ block_size
        → add_diffs (slice image at block_size) delta ≡ block block_size dest i
        → apply_diff source fwrite block_size true region k
            (write_block (diff_bytes s.delta block_size) ++ rest)
            (slice image at block_size)
          ≡ ok (block block_size dest i, rest)
    unfolding apply_diff
    sparse_block s i k at delta region rest fits e size same = rw (
      e,
      diff_bytes-some delta block_size size,
      apply_block-write_block delta (slice image at block_size) rest (omega (arith, size, len))
          (omega (arith, len)) (All-take IsByte block_size _ (All-drop IsByte at image bytes)),
      same,
    )
      where
        len : length (slice image at block_size) ≡ block_size
        len = length-slice source fwrite block_size dest accepts small some_bytes at fits

    dense_part :
        (s : BlockState) (i k at : ℕ) (delta before rest cursor : List ℕ)
        → at + block_size ≤ length image
        → s.delta ≡ some delta
        → length delta ≡ block_size
        → length before ≡ k * block_size
        → k * block_size < 2 ^ 64
        → add_diffs (slice image at block_size) delta ≡ block block_size dest i
        → apply_diff source fwrite block_size false
            (before ++ (dense_block block_size s.delta ++ rest))
            k
            cursor
            (slice image at block_size)
          ≡ ok (block block_size dest i, cursor)
    unfolding apply_diff apply_dense
    dense_part s i k at delta before rest cursor fits e size len hk same = rw (
      e,
      dense_block-some delta block_size size,
      wrap,
      room,
      drop-append (k * block_size) before (delta ++ rest) len,
      take-append block_size delta rest size,
      same,
    )
      where
        wrap : u64 (k * block_size) ≡ k * block_size
        wrap = omega arith

        total : length (before ++ (delta ++ rest)) ≡ k * block_size + block_size + length rest
        total =
            omega (arith, length-append before (delta ++ rest), length-append delta rest, len, size)

        room :
            (ltb (length (before ++ (delta ++ rest))) (k * block_size)
              || ltb (length (before ++ (delta ++ rest)) - k * block_size) block_size)
            ≡ false
        room = ground (arith, total)

    -- The loop over the blocks of a run in the sparse format, and in the dense format.
    sparse_loop :
        (offset : ℤ) (region : List ℕ) (n k i : ℕ) (st : State) (ss : List BlockState)
        → st.dest_block + k ≡ i
        → (i + n) * block_size ≤ length dest
        → length dest < 2 ^ 63
        → Run block_size image dest partial (DiffOffset block_size image dest offset) i n ss
        → copy_add source fwrite block_size offset true region n k
            (diff_data block_size true (take n ss))
            st
          ≡ ok (wrote block_size dest st i n)
    unfolding copy_add diff_data
    sparse_loop offset region zero k i st ss e inside hd r =
        nothing_written source fwrite block_size dest accepts small some_bytes st i
    sparse_loop offset region (suc n) k i st [] e inside hd r = absurd r
    sparse_loop offset region (suc n) k i st (s ∷ ss) e inside hd r =
        let (fits, found) = r.0 in
        let (delta, d, size, same) = found in
        let at = s.src_index * block_size + s.byte_offset in
        rw (e, position offset i s (grind arith) fits r.1)
          (patched_block true region _ _ at k i n st _ fits inside
            (sparse_block s i k at delta region (diff_data block_size true (take n ss)) fits d size
              same)
            (sparse_loop offset region n (k + 1) (i + 1) _ ss (omega arith) (grind arith) hd r.2))

    dense_loop :
        (offset : ℤ) (before cursor : List ℕ) (n k i : ℕ) (st : State) (ss : List BlockState)
        → st.dest_block + k ≡ i
        → (i + n) * block_size ≤ length dest
        → length dest < 2 ^ 63
        → length before ≡ k * block_size
        → Run block_size image dest partial (DiffOffset block_size image dest offset) i n ss
        → copy_add source fwrite block_size offset false
            (before ++ diff_data block_size false (take n ss))
            n
            k
            cursor
            st
          ≡ ok (wrote block_size dest st i n)
    unfolding copy_add diff_data
    dense_loop offset before cursor zero k i st ss e inside hd len r =
        nothing_written source fwrite block_size dest accepts small some_bytes st i
    dense_loop offset before cursor (suc n) k i st [] e inside hd len r = absurd r
    dense_loop offset before cursor (suc n) k i st (s ∷ ss) e inside hd len r =
        let (fits, found) = r.0 in
        let (delta, d, size, same) = found in
        let at = s.src_index * block_size + s.byte_offset in
        let mine = dense_block block_size s.delta in
        let rest = diff_data block_size false (take n ss) in
        let mine_size : length mine ≡ block_size =
          rw (d, dense_block-some delta block_size size) size in
        rw (e, position offset i s (grind arith) fits r.1)
          (patched_block false _ cursor cursor at k i n st _ fits inside
            (dense_part s i k at delta before rest cursor fits d size len
              (omega (arith, mul_mono k (i + suc n) (omega arith))) same)
            (subst
              (λ t.
                copy_add source fwrite block_size offset false t n (k + 1) cursor
                  (record st { out = st.out ++ block block_size dest i })
                ≡ ok (
                    wrote block_size dest (record st { out = st.out ++ block block_size dest i })
                      (i + 1) n))
              (append_assoc before mine rest)
              (dense_loop offset (before ++ mine) cursor n (k + 1) (i + 1) _ ss (omega arith)
                (grind arith) hd
                (omega (arith, length-append before mine, mine_size, len, next_mul k)) r.2)))
      where
        next_mul : (m : ℕ) → (m + 1) * block_size ≡ m * block_size + block_size
        next_mul m = grind arith

        mul_mono : (a b : ℕ) → a ≤ b → a * block_size ≤ b * block_size
        mul_mono a b h = grind arith

    -- OP_COPY_ADD over a run, in either format: the region is what the encoder wrote for it.
    pub copy_add_lem :
        (sparse : Bool) (offset : ℤ) (n : ℕ) (st : State) (ss : List BlockState)
        → (st.dest_block + n) * block_size ≤ length dest
        → length dest < 2 ^ 63
        → Run block_size image dest partial
            (DiffOffset block_size image dest offset)
            st.dest_block
            n
            ss
        → copy_add source fwrite block_size offset sparse
            (diff_data block_size sparse (take n ss))
            n
            0
            (diff_data block_size sparse (take n ss))
            st
          ≡ ok (wrote block_size dest st st.dest_block n)
    copy_add_lem true offset n st ss inside hd r =
        sparse_loop offset _ n 0 st.dest_block st ss (omega arith) inside hd r
    copy_add_lem false offset n st ss inside hd r =
        dense_loop offset [] _ n 0 st.dest_block st ss (omega arith) inside hd (omega arith) r
