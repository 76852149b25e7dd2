-- ===== src/Sparse.antt =====
-- The sparse diff format of one block: the loop of OP_COPY_ADD in
-- src/encoding/operation_encoder.c that writes it, and the loop of src/patch.c that applies it.
-- A position in a block with the block's end is the list of the bytes between them.
pub mod RoundTrip
pub mod Writer
pub mod Reader
use fsdiff.Prelude.{
  ℕ, zero, suc, ◌+◌, ◌-◌, Bool, true, false, List, [], ◌∷◌, ◌++◌, ◌&&◌, not, ltb, leb, ◌==◌,
  if◌then◌else◌, length, take, drop, replicate, Option, none, some,
}
use fsdiff.Status.{Result, ok, err, ◌>>=◌, ◌>>◌, guard, truncated, corrupt_data}
use fsdiff.Wire.{u8}
use fsdiff.Varint.{encode_varint, read_varint}

-- The diff bytes of a block as the writer sees them: a null `delta` reads as zeros.
unfoldable pub diff_bytes : Option (List ℕ) → ℕ → List ℕ
diff_bytes none block_size = replicate block_size 0
diff_bytes (some delta) block_size = take block_size delta

-- `pos + 1 >= block_size || delta[pos + 1] == 0`
abbrev pub next_is_zero : List ℕ → Bool
next_is_zero [] = true
next_is_zero (d ∷ _) = d == 0

-- The copy-add run from `pos` on, which ends at two zeros, and what follows it.
unfoldable pub add_run : List ℕ → List ℕ × List ℕ
add_run [] = ([], [])
add_run (d ∷ ds) =
    let (run, rest) = add_run ds in
    if d == 0 && next_is_zero ds then ([], d ∷ ds) else (d ∷ run, rest)

-- The length of the copy run from `pos` on, and what follows it.
unfoldable pub copy_run : List ℕ → ℕ × List ℕ
copy_run [] = (0, [])
copy_run (d ∷ ds) = let (n, rest) = copy_run ds in if d == 0 then (suc n, rest) else (0, d ∷ ds)

-- A round of the writer after its copy-add run: `if (pos >= block_size) break;`, then the copy run.
-- `continue` is the rest of the loop.
abbrev pub after_adds : (List ℕ → List ℕ) → List ℕ → List ℕ
after_adds continue [] = []
after_adds continue (d ∷ ds) = let (n, rest) = copy_run (d ∷ ds) in encode_varint n ++ continue rest

-- `while (pos < block_size)`. A round takes a byte at least, so the block's length is enough fuel.
unfoldable pub write_loop : ℕ → List ℕ → List ℕ
write_loop fuel [] = []
write_loop zero (d ∷ ds) = []
write_loop (suc fuel) (d ∷ ds) =
    let (run, rest) = add_run (d ∷ ds) in
    encode_varint (length run) ++ (run ++ after_adds (write_loop fuel) rest)

-- The diff data of one block in the sparse format.
unfoldable pub write_block : List ℕ → List ℕ
unfolding write_loop
write_block diffs = write_loop (length diffs) diffs

-- `for (k = 0; k < add_len; k++)`: the bytes written, the diff cursor, and the block from
-- `out_pos` on. Diff bytes past the end of the block are skipped.
unfoldable pub apply_adds : ℕ → List ℕ → List ℕ → List ℕ × List ℕ × List ℕ
apply_adds zero cursor buf = ([], cursor, buf)
apply_adds (suc n) [] buf = ([], [], buf)
apply_adds (suc n) (d ∷ cursor) [] = apply_adds n cursor []
apply_adds (suc n) (d ∷ cursor) (b ∷ buf) =
    let (done, cursor', buf') = apply_adds n cursor buf in (u8 (b + d) ∷ done, cursor', buf')

-- A round of the reader after its copy-add run: `if (out_pos >= block_size) break;`, then the copy
-- run with its two checks. `continue` is the rest of the loop.
abbrev pub after_add_run :
    (List ℕ → List ℕ → Result (List ℕ × List ℕ))
    → ℕ
    → List ℕ
    → List ℕ
    → List ℕ
    → Result (List ℕ × List ℕ)
after_add_run continue add_len done cursor [] = ok (done, cursor)
after_add_run continue add_len done cursor (b ∷ buf) = do
  (copy_len, cursor') ← read_varint cursor
  guard (leb copy_len (length (b ∷ buf))) corrupt_data
  guard (not (add_len == 0 && (copy_len == 0 && ltb 0 (length (drop copy_len (b ∷ buf))))))
      corrupt_data
  (out, cursor'') ← continue cursor' (drop copy_len (b ∷ buf))
  ok (done ++ (take copy_len (b ∷ buf) ++ out), cursor'')

-- `while (out_pos < block_size)` over the source block in `block_buf`; the result is the block
-- written and the diff cursor. The fuel is not reached: a round that writes nothing is an error.
unfoldable pub apply_loop : ℕ → List ℕ → List ℕ → Result (List ℕ × List ℕ)
apply_loop fuel cursor [] = ok ([], cursor)
apply_loop zero cursor (b ∷ buf) = err corrupt_data
apply_loop (suc fuel) cursor (b ∷ buf) = do
  (add_len, cursor') ← read_varint cursor
  guard (leb add_len (length cursor')) truncated
  let (done, cursor'', buf') = apply_adds add_len cursor' (b ∷ buf)
  after_add_run (apply_loop fuel) add_len done cursor'' buf'

-- The block that the loop leaves in `block_buf`, from the source block.
unfoldable pub apply_block : List ℕ → List ℕ → Result (List ℕ × List ℕ)
unfolding apply_loop
apply_block cursor buf = apply_loop (length buf) cursor buf

-- One diff byte per output byte.
unfoldable pub add_diffs : List ℕ → List ℕ → List ℕ
add_diffs [] ds = []
add_diffs (b ∷ bs) [] = b ∷ bs
add_diffs (b ∷ bs) (d ∷ ds) = u8 (b + d) ∷ add_diffs bs ds
