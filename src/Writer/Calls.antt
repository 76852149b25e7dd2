-- ===== src/Writer/Calls.antt =====
-- Any sequence of calls on a new writer, as the operation encoder makes them.
use fsdiff.Prelude.{
  ℕ, ◌≡◌, Bool, true, false, List, [], ◌∷◌, ◌++◌, length, arith, refl, sym, ap, append-nil,
  length-append, ◌==◌, if◌then◌else◌,
}
use fsdiff.Status.{Result, ok, ◌>>=◌}
use fsdiff.Sink.{Appends, Appends-bind}
use fsdiff.Writer.{
  Writer, create_from_file, default_buffer, write, write_byte, bytes_written, close,
}
use fsdiff.Writer.Appends.{contents, Sound, flush_lem, write_lem, write_byte_lem}

-- A call of `fsd_writer_write_byte` or of `fsd_writer_write`, and the bytes that it hands over.
pub data Call : Type 0 where
  byte : ℕ → Call
  buffer : List ℕ → Call

abbrev pub given : List Call → List ℕ
given [] = []
given (byte b ∷ calls) = (b ∷ []) ++ given calls
given (buffer bytes ∷ calls) = bytes ++ given calls

unfoldable pub run_calls : (List ℕ → List ℕ → ℕ) → List Call → Writer → Result Writer
run_calls fwrite [] w = ok w
run_calls fwrite (byte b ∷ calls) w = write_byte fwrite w b >>= run_calls fwrite calls
run_calls fwrite (buffer bytes ∷ calls) w = write fwrite w bytes >>= run_calls fwrite calls

run_calls_lem :
    (fwrite : List ℕ → List ℕ → ℕ)
    (accepts : (file bytes : List ℕ) → fwrite file bytes ≡ length bytes) (calls : List Call)
    (w : Writer)
    → Sound w
    → Appends contents Sound w (given calls) (run_calls fwrite calls w)
unfolding run_calls
run_calls_lem fwrite accepts [] w h = record {
  final = w;
  returns = refl;
  contents = sym (append-nil _);
  still_ready = h;
}
run_calls_lem fwrite accepts (byte b ∷ calls) w h =
    Appends-bind contents Sound w _ _ _ _ (write_byte_lem fwrite accepts w b h)
      (run_calls_lem fwrite accepts calls)
run_calls_lem fwrite accepts (buffer bytes ∷ calls) w h =
    Appends-bind contents Sound w _ _ _ _ (write_lem fwrite accepts w bytes h)
      (run_calls_lem fwrite accepts calls)

-- A new writer.
abbrev pub created : ℕ → Writer
created buffer_size = record {
  file = [];
  buffer = [];
  buffer_size = if buffer_size == 0 then default_buffer else buffer_size;
  total_written = 0;
  owns_file = false;
}

pub created-Sound : (buffer_size : ℕ) → Sound (created buffer_size)
created-Sound buffer_size = record {
  some_room = ground arith;
  within = omega arith;
  counted = refl;
}

either : (b : Bool) → (if b then true else true) ≡ true
either true = refl
either false = refl

-- A new writer with any buffer size, to a file that takes everything, executes any sequence of
-- `fsd_writer_write_byte` and `fsd_writer_write`; then `fsd_writer_bytes_written` is the number of bytes
-- handed over, and `fsd_writer_close` leaves exactly these bytes in the file, in their order.
pub close-run_calls :
    (fwrite : List ℕ → List ℕ → ℕ) (calls : List Call) (buffer_size : ℕ)
    → ((file bytes : List ℕ) → fwrite file bytes ≡ length bytes)
    → (w : Writer) × ((create_from_file true true [] buffer_size >>= run_calls fwrite calls) ≡ ok w)
      × (bytes_written w ≡ length (given calls))
      × (close fwrite true true w ≡ ok (given calls))
unfolding create_from_file close bytes_written
close-run_calls fwrite calls buffer_size accepts =
    let k = run_calls_lem fwrite accepts calls (created buffer_size) (created-Sound buffer_size) in
    (
      k.final,
      k.returns,
      omega (
        arith,
        length-append k.final.file k.final.buffer,
        ap length k.contents,
        k.still_ready.counted,
      ),
      rw (flush_lem fwrite accepts k.final, either k.final.owns_file) (ap ok k.contents),
    )
