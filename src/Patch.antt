-- ===== src/Patch.antt =====
-- src/diff.c: the patch file that `fsd_diff_files` puts together from the three temporary files.
-- `fwrite file bytes` is the count that `fwrite` returns for a buffer when the patch file holds `file`.
use fsdiff.Prelude.{
  ℕ, zero, suc, ◌+◌, ◌≡◌, ◌≤◌, Bool, true, false, List, [], ◌∷◌, ◌++◌, not, ◌||◌, ◌==◌, length,
  take, drop, length-drop, arith, take-append-drop, append_assoc, append-nil, ap, ap₂, refl, sym,
  ◌∙◌, length-append,
}
use fsdiff.Status.{Result, ok, err, ◌>>=◌, ◌>>◌, guard, io}
use fsdiff.Header.{header_write, header_bytes}

-- `sizeof(copy_buf)`
abbrev pub copy_buf_size : ℕ
copy_buf_size = 65536

module _ (fwrite : List ℕ → List ℕ → ℕ) where
  -- The loop of `fsd_copy_stream` with a `copy_buf` of `size` bytes: `src` is what `fread` has still to
  -- deliver. Every round takes a byte at least, so its length is enough fuel.
  unfoldable pub copy_loop : ℕ → ℕ → List ℕ → List ℕ → ℕ → Result (List ℕ × ℕ)
  copy_loop size fuel [] dst copied = ok (dst, copied)
  copy_loop size zero (b ∷ src) dst copied = err io
  copy_loop size (suc fuel) (b ∷ src) dst copied = do
    let n = take size (b ∷ src)
    guard (fwrite dst n == length n) io
    copy_loop size fuel (drop size (b ∷ src)) (dst ++ n) (copied + length n)

  -- `fsd_copy_stream`. `ferror` is what the call of that name returns in the end.
  unfoldable pub copy_stream : Bool → List ℕ → List ℕ → ℕ → Result (List ℕ)
  unfolding copy_loop
  copy_stream ferror src dst expected = do
    (dst', copied) ← copy_loop copy_buf_size (length src) src dst 0
    guard (not (ferror || not (copied == expected))) io
    ok dst'

  -- The part of `fsd_diff_files` that writes the patch: the header, then the three streams, with the
  -- sizes that the writers report. `closes` says whether `fclose` succeeds.
  unfoldable pub write_patch :
      Bool → Bool → ℕ → ℕ → List ℕ → ℕ → List ℕ → ℕ → List ℕ → ℕ → Result (List ℕ)
  write_patch ferror closes dest_blocks block_size_log2 op_file op_size diff_file diff_size lit_file
        lit_size =
      do
        header ← header_write (fwrite []) dest_blocks block_size_log2 op_size diff_size
        with_ops ← copy_stream ferror op_file header op_size
        with_diffs ← copy_stream ferror diff_file with_ops diff_size
        output ← copy_stream ferror lit_file with_diffs lit_size
        guard closes io
        ok output

  module _ (accepts : (file bytes : List ℕ) → fwrite file bytes ≡ length bytes) where
    copy_loop_lem :
        (size fuel : ℕ) (src dst : List ℕ) (copied : ℕ)
        → 1 ≤ size
        → length src ≤ fuel
        → copy_loop size fuel src dst copied ≡ ok (dst ++ src, copied + length src)
    unfolding copy_loop
    copy_loop_lem size fuel [] dst copied lo h =
        ap₂ (λ d (c : ℕ). ok (d, c)) (sym (append-nil dst)) (omega arith)
    copy_loop_lem size zero (b ∷ src) dst copied lo h = absurd (omega arith)
    copy_loop_lem size (suc fuel) (b ∷ src) dst copied lo h =
        let n = take size (b ∷ src) in
        let rest = drop size (b ∷ src) in
        let passes : (fwrite dst n == length n) ≡ true = ground (arith, accepts dst n) in
        let split : n ++ rest ≡ b ∷ src = take-append-drop size (b ∷ src) in
        let len : length n + length rest ≡ suc (length src) =
          omega (arith, length-append n rest, ap length split) in
        rw
          (
            passes,
            copy_loop_lem size fuel rest (dst ++ n) (copied + length n) lo
                (omega (arith, length-drop size (b ∷ src))),
          )
          (ap₂ (λ d (c : ℕ). ok (d, c)) (append_assoc dst n rest ∙ ap (λ t. dst ++ t) split)
            (omega (arith, len)))

    -- To a file that takes everything, `fsd_copy_stream` appends all the bytes of a temporary file of the
    -- expected size, in its order, if `ferror` reports nothing.
    pub copy_stream_lem :
        (src dst : List ℕ) → copy_stream false src dst (length src) ≡ ok (dst ++ src)
    unfolding copy_stream
    copy_stream_lem src dst =
        rw (copy_loop_lem copy_buf_size (length src) src dst 0 (omega arith) (omega arith))
          (ground arith)

    header_write_lem :
        (dest_blocks log2 op_len diff_len : ℕ)
        → header_write (fwrite []) dest_blocks log2 op_len diff_len
          ≡ ok (header_bytes dest_blocks log2 op_len diff_len)
    unfolding header_write header_bytes
    header_write_lem dest_blocks log2 op_len diff_len =
        rw (accepts [] (header_bytes dest_blocks log2 op_len diff_len)) refl

    -- To a file that takes everything, the patch is the header with the two stream lengths, and then
    -- the operations, the diffs and the literals, if no call fails.
    pub write_patch_lem :
        (dest_blocks log2 : ℕ) (ops diffs lits : List ℕ)
        → write_patch false true dest_blocks log2 ops
            (length ops)
            diffs
            (length diffs)
            lits
            (length lits)
          ≡ ok (
              header_bytes dest_blocks log2 (length ops) (length diffs) ++ (ops ++ (diffs ++ lits)))
    unfolding write_patch
    write_patch_lem dest_blocks log2 ops diffs lits =
        let header = header_bytes dest_blocks log2 (length ops) (length diffs) in
        rw
          (
            header_write_lem dest_blocks log2 (length ops) (length diffs),
            copy_stream_lem ops header,
            copy_stream_lem diffs (header ++ ops),
            copy_stream_lem lits ((header ++ ops) ++ diffs),
          )
          (ap ok
            (append_assoc (header ++ ops) diffs lits ∙ append_assoc header ops (diffs ++ lits)))
