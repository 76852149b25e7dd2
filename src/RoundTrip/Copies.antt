-- ===== src/RoundTrip/Copies.antt =====
-- The reader's loops over the blocks of an operation, on runs that the encoder made.
use fsdiff.Prelude.{
  ℕ, zero, suc, ◌+◌, ◌*◌, ◌≤◌, ◌<◌, ◌^◌, ◌≡◌, ap, ap₂, le→leb, ◌∙◌, sym, arith, List, [], ◌∷◌, ◌++◌,
  length, true, take, drop, replicate, append_assoc, append-nil, length-replicate, length-append,
  leb, length-take, length-drop, take-append, drop-append,
}
use fsdiff.Prelude.Int.{ℤ, pos, ◌+ℤ◌, ◌-ℤ◌}
use fsdiff.Status.{Result, ok, ◌>>=◌}
use fsdiff.Wire.{u64}
use fsdiff.Tracker.{BlockState, identity, relocate, all_zero, all_one}
use fsdiff.Encoder.Format.{int64}
use fsdiff.Encoder.Emit.{slice}
use fsdiff.Encoder.Runs.{block_offset}
use fsdiff.Decoder.Source.{Source}
use fsdiff.Decoder.Steps.{
  State, write_out, read_source, copy_identity, copy_relocate, fill_blocks, copy_literal,
}
use fsdiff.RoundTrip.Blocks.{block, blocks}
use fsdiff.RoundTrip.Runs.{Run, Anything, BlockOffset}

-- `int64` of an index in range, and the position that an offset leads back to.
pub int64_small : (x : ℕ) → x < 2 ^ 63 → int64 x ≡ pos x
int64_small x h = ground arith

pub back_to : (i a : ℕ) → i < 2 ^ 63 → a < 2 ^ 63 → int64 i +ℤ (int64 a -ℤ int64 i) ≡ pos a
unfolding ◌+ℤ◌ ◌-ℤ◌
back_to i a hi ha = rw (int64_small i hi, int64_small a ha) (ground arith)

-- The state after `n` more blocks of the destination, from block `i` on.
abbrev pub wrote : ℕ → List ℕ → State → ℕ → ℕ → State
wrote block_size dest st i n = record st { out = st.out ++ blocks block_size dest i n }

module _ (source : Source) (fwrite : List ℕ → List ℕ → ℕ) (block_size : ℕ) (dest : List ℕ)
    (accepts : (file bytes : List ℕ) → fwrite file bytes ≡ length bytes)
    (small : length source.image < 2 ^ 63) (some_bytes : 1 ≤ block_size) where
  open source use {image, read_at, read_at_lem}

  pub write_out_lem :
      (bytes : List ℕ) (st : State)
      → length bytes ≡ block_size
      → write_out source fwrite block_size bytes st ≡ ok (record st { out = st.out ++ bytes })
  unfolding write_out
  write_out_lem bytes st h = ground (arith, accepts st.out bytes)

  pub read_source_lem :
      (at : ℕ)
      → at + block_size ≤ length image
      → read_source source fwrite block_size at ≡ ok (slice image at block_size)
  unfolding read_source
  read_source_lem at h = ground (arith, read_at_lem at block_size h)

  pub length-slice :
      (at : ℕ) → at + block_size ≤ length image → length (slice image at block_size) ≡ block_size
  length-slice at h = length-take block_size (drop at image) (omega (arith, length-drop at image))

  -- One block copied from the source, then the rest of the loop.
  copied_block :
      (at i n : ℕ) (st : State) (more : State → Result State)
      → at + block_size ≤ length image
      → slice image at block_size ≡ block block_size dest i
      → more (record st { out = st.out ++ block block_size dest i })
        ≡ ok (
            wrote block_size dest (record st { out = st.out ++ block block_size dest i }) (i + 1) n)
      → (read_source source fwrite block_size at >>= λ b.
          write_out source fwrite block_size b st >>= more)
        ≡ ok (wrote block_size dest st i (suc n))
  copied_block at i n st more fits same rest =
      rw
        (
          read_source_lem at fits,
          write_out_lem (slice image at block_size) st (length-slice at fits),
          same,
          rest,
        )
        (ap (λ t. ok (record st { out = t })) (append_assoc st.out _ _))

  pub nothing_written : (st : State) (i : ℕ) → ok st ≡ ok (wrote block_size dest st i 0)
  nothing_written st i = ap (λ t. ok (record st { out = t })) (sym (append-nil st.out))

  -- `i` is `dest_block + k` in each of the loops.
  pub copy_identity_lem :
      (n k i : ℕ) (st : State) (ss : List BlockState)
      → st.dest_block + k ≡ i
      → Run block_size image dest identity (Anything block_size image dest) i n ss
      → copy_identity source fwrite block_size n k st ≡ ok (wrote block_size dest st i n)
  unfolding copy_identity
  copy_identity_lem zero k i st ss e r = nothing_written st i
  copy_identity_lem (suc n) k i st [] e r = absurd r
  copy_identity_lem (suc n) k i st (s ∷ ss) e r =
      let at : u64 (i * block_size) ≡ i * block_size = omega arith in
      rw (e, at)
        (copied_block (i * block_size) i n st _ r.0.0 r.0.1
          (copy_identity_lem n (k + 1) (i + 1) _ ss (omega arith) r.2))

  index-lt : (a : ℕ) → a * block_size + block_size ≤ length image → a < 2 ^ 63
  index-lt a h = grind arith

  pub copy_relocate_lem :
      (offset : ℤ) (n k i : ℕ) (st : State) (ss : List BlockState)
      → st.dest_block + k ≡ i
      → i + n < 2 ^ 63
      → Run block_size image dest relocate (BlockOffset block_size image dest offset) i n ss
      → copy_relocate source fwrite block_size offset n k st ≡ ok (wrote block_size dest st i n)
  unfolding copy_relocate
  copy_relocate_lem offset zero k i st ss e hi r = nothing_written st i
  copy_relocate_lem offset (suc n) k i st [] e hi r = absurd r
  copy_relocate_lem offset (suc n) k i st (s ∷ ss) e hi r =
      let back : int64 i +ℤ offset ≡ pos s.src_index =
        rw (← r.1)
          (unfold block_offset in back_to i s.src_index (omega arith) (index-lt _ r.0.0)) in
      let at : u64 (s.src_index * block_size) ≡ s.src_index * block_size = omega (arith, r.0.0) in
      rw (e, back, at)
        (copied_block (s.src_index * block_size) i n st _ r.0.0 r.0.1
          (copy_relocate_lem offset n (k + 1) (i + 1) _ ss (omega arith) (omega arith) r.2))

  -- OP_ZERO and OP_ONE.
  abbrev Filled : ℕ → ℕ → ℕ → Type 0
  Filled byte i zero = Unit
  Filled byte i (suc n) =
      (block block_size dest i ≡ replicate block_size byte) × Filled byte (i + 1) n

  pub zero_Filled :
      (n i : ℕ) (ss : List BlockState)
      → Run block_size image dest all_zero (Anything block_size image dest) i n ss
      → Filled 0 i n
  zero_Filled zero i ss r = tt
  zero_Filled (suc n) i [] r = absurd r
  zero_Filled (suc n) i (s ∷ ss) r = (r.0, zero_Filled n (i + 1) ss r.2)

  pub one_Filled :
      (n i : ℕ) (ss : List BlockState)
      → Run block_size image dest all_one (Anything block_size image dest) i n ss
      → Filled 0xFF i n
  one_Filled zero i ss r = tt
  one_Filled (suc n) i [] r = absurd r
  one_Filled (suc n) i (s ∷ ss) r = (r.0, one_Filled n (i + 1) ss r.2)

  pub fill_blocks_lem :
      (byte n i : ℕ) (st : State)
      → Filled byte i n
      → fill_blocks source fwrite block_size byte n st ≡ ok (wrote block_size dest st i n)
  unfolding fill_blocks
  fill_blocks_lem byte zero i st f = nothing_written st i
  fill_blocks_lem byte (suc n) i st f =
      rw
        (
          write_out_lem (replicate block_size byte) st (length-replicate block_size byte),
          ← f.0,
          fill_blocks_lem byte n (i + 1) _ f.1,
        )
        (ap (λ t. ok (record st { out = t })) (append_assoc st.out _ _))

  pub length-block :
      (i n : ℕ)
      → (i + suc n) * block_size ≤ length dest
      → length (block block_size dest i) ≡ block_size
  length-block i n h =
      let fits : i * block_size + block_size ≤ length dest = grind arith in
      length-take block_size (drop (i * block_size) dest)
        (omega (arith, fits, length-drop (i * block_size) dest))

  -- OP_LITERAL, with the blocks at the front of the literal stream.
  pub copy_literal_lem :
      (n i : ℕ) (st : State) (rest : List ℕ)
      → (i + n) * block_size ≤ length dest
      → st.lits ≡ blocks block_size dest i n ++ rest
      → copy_literal source fwrite block_size n st
        ≡ ok (record (wrote block_size dest st i n) { lits = rest })
  unfolding copy_literal
  copy_literal_lem zero i st rest h e =
      ap₂ (λ l o. ok (record st { lits = l; out = o })) e (sym (append-nil st.out))
  copy_literal_lem (suc n) i st rest h e =
      rw
        (
          there,
          front,
          write_out_lem (block block_size dest i) st size,
          copy_literal_lem n (i + 1)
              (record st {
                out = st.out ++ block block_size dest i;
                lits = drop block_size st.lits;
              })
              rest (grind arith) back,
        )
        (ap (λ t. ok (record st { lits = rest; out = t })) (append_assoc st.out _ _))
    where
      size : length (block block_size dest i) ≡ block_size
      size = length-block i n h

      whole : st.lits ≡ block block_size dest i ++ (blocks block_size dest (i + 1) n ++ rest)
      whole = e ∙ append_assoc (block block_size dest i) _ rest

      front : take block_size st.lits ≡ block block_size dest i
      front = ap (take block_size) whole ∙ take-append block_size (block block_size dest i) _ size

      back : drop block_size st.lits ≡ blocks block_size dest (i + 1) n ++ rest
      back = ap (drop block_size) whole ∙ drop-append block_size (block block_size dest i) _ size

      there : leb block_size (length st.lits) ≡ true
      there = le→leb _ _ (
          omega (
            arith,
            ap length whole,
            size,
            length-append (block block_size dest i) (blocks block_size dest (i + 1) n ++ rest),
          ))
