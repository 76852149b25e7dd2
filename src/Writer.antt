-- ===== src/Writer.antt =====
-- src/io/buffered_writer.c: the buffered writer. `fwrite file bytes` is the count that `fwrite` returns for
-- a buffer when the file holds `file`. Pointers are taken to be non-null; a failed call leaves no state
-- behind, since its callers give the writer up.
pub mod Appends
pub mod Calls
use fsdiff.Prelude.{
  ℕ, zero, suc, ◌+◌, ◌-◌, ◌≤◌, ◌≡◌, Bool, true, false, List, [], ◌∷◌, ◌++◌, not, ltb, leb, ◌==◌,
  if◌then◌else◌, length, take, drop,
}
use fsdiff.Status.{Error, Result, ok, err, ◌>>=◌, ◌>>◌, guard, io, out_of_memory}

-- FSD_WRITER_DEFAULT_BUFFER
abbrev pub default_buffer : ℕ
default_buffer = 65536

-- `fsd_buffered_writer_t`: the bytes of the file, `buffer` up to `buffer_pos`, and the two counters.
pub record Writer : Type 0 where
  pub file : List ℕ
  pub buffer : List ℕ
  pub buffer_size : ℕ
  pub total_written : ℕ
  pub owns_file : Bool

-- `fsd_writer_create_from_file`, for a file that holds `file`: `calloc` and `malloc` say whether the
-- allocations succeed.
unfoldable pub create_from_file : Bool → Bool → List ℕ → ℕ → Result Writer
create_from_file calloc malloc file buffer_size = do
  let size = if buffer_size == 0 then default_buffer else buffer_size
  guard calloc out_of_memory
  guard malloc out_of_memory
  ok (record { file = file; buffer = []; buffer_size = size; total_written = 0; owns_file = false })

-- `fsd_writer_create`, where `fopen` says whether the new file was opened.
unfoldable pub create : Bool → Bool → Bool → ℕ → Result Writer
unfolding create_from_file
create fopen calloc malloc buffer_size = do
  guard fopen io
  w ← create_from_file calloc malloc [] buffer_size
  ok (record w { owns_file = true })

-- `fsd_writer_bytes_written`
unfoldable pub bytes_written : Writer → ℕ
bytes_written w = w.total_written + length w.buffer

module _ (fwrite : List ℕ → List ℕ → ℕ) where
  -- `fsd_writer_flush`
  unfoldable pub flush : Writer → Result Writer
  flush w = if length w.buffer == 0 then ok w else do
    guard (fwrite w.file w.buffer == length w.buffer) io
    ok (record w {
      file = w.file ++ w.buffer;
      buffer = [];
      total_written = w.total_written + length w.buffer;
    })

  -- `while (len > 0)`. Only the first round can find a full buffer, and every other takes a byte.
  unfoldable pub write_loop : ℕ → Writer → List ℕ → Result Writer
  write_loop fuel w [] = ok w
  write_loop zero w (b ∷ src) = err io
  write_loop (suc fuel) w (b ∷ src) =
      elim (leb (length (b ∷ src)) (w.buffer_size - length w.buffer)) [
        | true ↦ ok (record w { buffer = w.buffer ++ (b ∷ src) })
        | false ↦
            flush
              (record w { buffer = w.buffer ++ take (w.buffer_size - length w.buffer) (b ∷ src) })
            >>= λ w'. write_loop fuel w' (drop (w.buffer_size - length w.buffer) (b ∷ src))
      ]

  -- `fsd_writer_write`
  unfoldable pub write : Writer → List ℕ → Result Writer
  unfolding write_loop
  write w src = write_loop (suc (length src)) w src

  -- `fsd_writer_write_byte`
  unfoldable pub write_byte : Writer → ℕ → Result Writer
  unfolding flush
  write_byte w byte = do
    w' ← if leb w.buffer_size (length w.buffer) then flush w else ok w
    ok (record w' { buffer = w'.buffer ++ (byte ∷ []) })

  -- `fsd_writer_close` of a writer with a file: the first of the errors of the flush, of `fflush`
  -- and, for a file that it owns, of `fclose`. The result is what the file holds.
  unfoldable pub close : Bool → Bool → Writer → Result (List ℕ)
  unfolding flush
  close fflush fclose w = do
    w' ← flush w
    guard fflush io
    guard (if w.owns_file then fclose else true) io
    ok w'.file
