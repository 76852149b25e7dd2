-- ===== src/Sparse/Writer.antt =====
-- The size of the diff data that the writer produces for a block: the buffer `diff_buf` of
-- `run_count * block_size * 2` bytes holds it.
use fsdiff.Prelude.{ℕ, zero, suc, ◌-◌, ◌*◌, ◌≤◌, List, [], ◌∷◌, ◌++◌, length, arith, length-append}
use fsdiff.Varint.{encode_varint}
use fsdiff.Varint.RoundTrip.{length-encode_varint-le}
use fsdiff.Sparse.{add_run, copy_run, after_adds, write_loop, write_block}
use fsdiff.Sparse.RoundTrip.{
  length-add_run, copy_run-length, add_run_stops, copy_run_takes, StartsZero,
}

-- What a round writes after a copy-add run: one byte to spare if a copy run of two bytes or more
-- follows, or none at all at the end of the block.
after_adds_size :
    (writer : List ℕ → List ℕ) (size : ℕ) (rest : List ℕ)
    → ((ds : List ℕ) → length ds ≤ size → length (writer ds) ≤ 2 * length ds)
    → StartsZero rest
    → length rest ≤ suc size
    → length (after_adds writer rest) ≤ 2 * length rest - 1
after_adds_size writer size [] ih z small = omega arith
after_adds_size writer size (d ∷ ds) ih z small = omega (
  arith,
  length-append (encode_varint n) (writer rest),
  length-encode_varint-le n,
  copy_run_takes d ds z,
  copy_run-length (d ∷ ds),
  ih rest (omega (arith, copy_run_takes d ds z, copy_run-length (d ∷ ds))),
)
  where
    n : ℕ
    n = (copy_run (d ∷ ds)).0

    rest : List ℕ
    rest = (copy_run (d ∷ ds)).1

write_loop_size :
    (fuel : ℕ) (ds : List ℕ) → length ds ≤ fuel → length (write_loop fuel ds) ≤ 2 * length ds
unfolding write_loop
write_loop_size fuel [] h = omega arith
write_loop_size zero (d ∷ ds) h = absurd (omega arith)
write_loop_size (suc fuel) (d ∷ ds) h = omega (
  arith,
  length-append (encode_varint (length run)) (run ++ after_adds (write_loop fuel) rest),
  length-append run (after_adds (write_loop fuel) rest),
  length-encode_varint-le (length run),
  length-add_run (d ∷ ds),
  after_adds_size (write_loop fuel) fuel rest (write_loop_size fuel) (add_run_stops (d ∷ ds))
      (omega (arith, length-add_run (d ∷ ds))),
)
  where
    run : List ℕ
    run = (add_run (d ∷ ds)).0

    rest : List ℕ
    rest = (add_run (d ∷ ds)).1

-- The sparse diff data of a block is at most twice as long as the block.
pub write_block_size : (ds : List ℕ) → length (write_block ds) ≤ 2 * length ds
unfolding write_block
write_block_size ds = write_loop_size (length ds) ds (omega arith)
