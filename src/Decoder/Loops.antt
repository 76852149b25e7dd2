-- ===== src/Decoder/Loops.antt =====
-- What the loops of the operations write: whole blocks, and as many as they were asked for.
use fsdiff.Prelude.{
  ℕ, zero, suc, ◌+◌, ◌-◌, ◌*◌, ◌≡◌, Bool, true, false, List, [], ◌∷◌, length, take, drop, replicate,
  arith, refl, sym, ap, ◌∙◌, length-append, length-replicate, length-take, leb, ltb, ◌==◌, ◌||◌,
  not, leb→le, add_mul,
}
use fsdiff.Prelude.Int.{ℤ, ◌+ℤ◌, pos_part}
use fsdiff.Status.{ok, guard, io, truncated, corrupt_data, >>=-eq-ok, ok_injective, guard-true}
use fsdiff.Wire.{u64}
use fsdiff.Signed.{is_negative}
use fsdiff.Encoder.Format.{int64}
use fsdiff.Sparse.{add_diffs}
use fsdiff.Sparse.Reader.{apply_block-length}
use fsdiff.Decoder.Source.{Source}
use fsdiff.Decoder.Steps.{
  State, write_out, read_source, copy_identity, copy_relocate, fill_blocks, copy_literal,
  apply_dense, apply_diff, copy_add,
}

-- `n` more blocks stand in the output file, and `dest_block` is as before.
pub record Wrote (block_size n : ℕ) (st st' : State) : Type 0 where
  pub blocks : length st'.out ≡ length st.out + n * block_size
  pub same : st'.dest_block ≡ st.dest_block

module _ (source : Source) (fwrite : List ℕ → List ℕ → ℕ) (block_size : ℕ) where
  open source use {image, read_at, read_at-length}

  none-Wrote : (st st' : State) → ok st ≡ ok st' → Wrote block_size 0 st st'
  none-Wrote st st' h =
      let e = ok_injective h in
      record {
        blocks = omega (arith, ap (λ (s : State). length s.out) e);
        same = sym (ap (λ (s : State). s.dest_block) e);
      }

  one-Wrote :
      (block : List ℕ) (st st' : State)
      → length block ≡ block_size
      → write_out source fwrite block_size block st ≡ ok st'
      → Wrote block_size 1 st st'
  unfolding write_out
  one-Wrote block st st' len h =
      let (u, ready, rest) = >>=-eq-ok (guard (fwrite st.out block == block_size) io) _ h in
      let e = ok_injective rest in
      record {
        blocks = omega (arith, ap (λ (s : State). length s.out) e, length-append st.out block, len);
        same = sym (ap (λ (s : State). s.dest_block) e);
      }

  then-Wrote :
      (n : ℕ) (a b c : State)
      → Wrote block_size 1 a b
      → Wrote block_size n b c
      → Wrote block_size (suc n) a c
  then-Wrote n a b c h k = record {
    blocks = omega (arith, h.blocks, k.blocks, add_mul n 1 block_size);
    same = k.same ∙ h.same;
  }

  read_source-length :
      (at : ℕ) (block : List ℕ)
      → read_source source fwrite block_size at ≡ ok block
      → length block ≡ block_size
  unfolding read_source
  read_source-length at block h =
      let (u, inside, rest) =
        >>=-eq-ok (guard (leb (u64 (at + block_size)) (length image)) corrupt_data) _ h in
      read_at-length at block_size rest

  pub copy_identity-Wrote :
      (n i : ℕ) (st st' : State)
      → copy_identity source fwrite block_size n i st ≡ ok st'
      → Wrote block_size n st st'
  unfolding copy_identity
  copy_identity-Wrote zero i st st' h = none-Wrote st st' h
  copy_identity-Wrote (suc n) i st st' h =
      let (block, read, h') =
        >>=-eq-ok (read_source source fwrite block_size (u64 ((st.dest_block + i) * block_size))) _
          h in
      let (v, wrote, rest) = >>=-eq-ok (write_out source fwrite block_size block st) _ h' in
      then-Wrote n st v st' (one-Wrote block st v (read_source-length _ block read) wrote)
        (copy_identity-Wrote n (i + 1) v st' rest)

  pub copy_relocate-Wrote :
      (offset : ℤ) (n i : ℕ) (st st' : State)
      → copy_relocate source fwrite block_size offset n i st ≡ ok st'
      → Wrote block_size n st st'
  unfolding copy_relocate
  copy_relocate-Wrote offset zero i st st' h = none-Wrote st st' h
  copy_relocate-Wrote offset (suc n) i st st' h =
      let src_block = int64 (st.dest_block + i) +ℤ offset in
      let (u, pass, h0) = >>=-eq-ok (guard (not (is_negative src_block)) corrupt_data) _ h in
      let (block, read, h') =
        >>=-eq-ok (read_source source fwrite block_size (u64 (pos_part src_block * block_size))) _
          h0 in
      let (v, wrote, rest) = >>=-eq-ok (write_out source fwrite block_size block st) _ h' in
      then-Wrote n st v st' (one-Wrote block st v (read_source-length _ block read) wrote)
        (copy_relocate-Wrote offset n (i + 1) v st' rest)

  pub fill_blocks-Wrote :
      (byte n : ℕ) (st st' : State)
      → fill_blocks source fwrite block_size byte n st ≡ ok st'
      → Wrote block_size n st st'
  unfolding fill_blocks
  fill_blocks-Wrote byte zero st st' h = none-Wrote st st' h
  fill_blocks-Wrote byte (suc n) st st' h =
      let (v, wrote, rest) =
        >>=-eq-ok (write_out source fwrite block_size (replicate block_size byte) st) _ h in
      then-Wrote n st v st' (one-Wrote _ st v (length-replicate block_size byte) wrote)
        (fill_blocks-Wrote byte n v st' rest)

  pub copy_literal-Wrote :
      (n : ℕ) (st st' : State)
      → copy_literal source fwrite block_size n st ≡ ok st'
      → Wrote block_size n st st'
  unfolding copy_literal
  copy_literal-Wrote zero st st' h = none-Wrote st st' h
  copy_literal-Wrote (suc n) st st' h =
      let (u, enough, h') = >>=-eq-ok (guard (leb block_size (length st.lits)) truncated) _ h in
      let (v, wrote, rest) =
        >>=-eq-ok (write_out source fwrite block_size (take block_size st.lits) st) _ h' in
      let fits = leb→le block_size (length st.lits) (guard-true _ truncated u enough) in
      let later = copy_literal-Wrote n (record v { lits = drop block_size v.lits }) st' rest in
      then-Wrote n st v st' (one-Wrote _ st v (length-take block_size st.lits fits) wrote)
        (record { blocks = later.blocks; same = later.same })

  length-add_diffs : (block ds : List ℕ) → length (add_diffs block ds) ≡ length block
  unfolding add_diffs
  length-add_diffs [] ds = refl
  length-add_diffs (b ∷ block) [] = refl
  length-add_diffs (b ∷ block) (d ∷ ds) = omega (arith, length-add_diffs block ds)

  apply_diff-length :
      (sparse : Bool) (region : List ℕ) (blk : ℕ) (cursor block out cursor' : List ℕ)
      → apply_diff source fwrite block_size sparse region blk cursor block ≡ ok (out, cursor')
      → length out ≡ length block
  unfolding apply_diff apply_dense
  apply_diff-length true region blk cursor block out cursor' h =
      apply_block-length cursor block out cursor' h
  apply_diff-length false region blk cursor block out cursor' h =
      let (o, dense, h') = >>=-eq-ok (apply_dense source fwrite block_size region blk block) _ h in
      let (u, pass, h0) =
        >>=-eq-ok
          (guard
            (not (
              ltb (length region) (u64 (blk * block_size))
              || ltb (length region - u64 (blk * block_size)) block_size))
            truncated)
          _ dense in
      omega (
        arith,
        length-add_diffs block (take block_size (drop (u64 (blk * block_size)) region)),
        ap length (ok_injective h0),
        ap (λ (p : List ℕ × List ℕ). length p.0) (ok_injective h'),
      )

  pub copy_add-Wrote :
      (offset : ℤ) (sparse : Bool) (region : List ℕ) (n blk : ℕ) (cursor : List ℕ) (st st' : State)
      → copy_add source fwrite block_size offset sparse region n blk cursor st ≡ ok st'
      → Wrote block_size n st st'
  unfolding copy_add
  copy_add-Wrote offset sparse region zero blk cursor st st' h = none-Wrote st st' h
  copy_add-Wrote offset sparse region (suc n) blk cursor st st' h =
      let src_byte_pos = int64 ((st.dest_block + blk) * block_size) +ℤ offset in
      let (u, pass, h0) = >>=-eq-ok (guard (not (is_negative src_byte_pos)) corrupt_data) _ h in
      let (block, read, h1) =
        >>=-eq-ok (read_source source fwrite block_size (pos_part src_byte_pos)) _ h0 in
      let (p, applied, h2) =
        >>=-eq-ok (apply_diff source fwrite block_size sparse region blk cursor block) _ h1 in
      let (v, wrote, rest) = >>=-eq-ok (write_out source fwrite block_size p.0 st) _ h2 in
      then-Wrote n st v st'
        (one-Wrote p.0 st v
          (apply_diff-length sparse region blk cursor block p.0 p.1 applied
            ∙ read_source-length _ block read)
          wrote)
        (copy_add-Wrote offset sparse region n (blk + 1) p.1 v st' rest)
