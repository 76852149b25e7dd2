-- ===== src/Writer/Appends.antt =====
-- A writer to a file that takes everything is a sink: what was written is in the file or the buffer.
use fsdiff.Prelude.{
  ℕ, zero, suc, ◌+◌, ◌-◌, ◌≤◌, ◌<◌, ◌≡◌, List, [], ◌∷◌, ◌++◌, leb, length, take, drop, arith, refl,
  sym, ap, ap₂, ◌∙◌, append_assoc, append-nil, length-append, length-drop, take-append-drop,
  Bool-cases, inl, inr,
}
use fsdiff.Status.{Result, ok, ◌>>=◌}
use fsdiff.Sink.{Sink, Appends}
use fsdiff.Writer.{Writer, flush, write_loop, write, write_byte}

-- What the writer was given so far.
abbrev pub contents : Writer → List ℕ
contents w = w.file ++ w.buffer

-- The buffer is not over-full, and the counter is right.
pub record Sound (w : Writer) : Type 0 where
  pub some_room : 1 ≤ w.buffer_size
  pub within : length w.buffer ≤ w.buffer_size
  pub counted : w.total_written ≡ length w.file

module _ (fwrite : List ℕ → List ℕ → ℕ)
    (accepts : (file bytes : List ℕ) → fwrite file bytes ≡ length bytes) where
  -- `flush` empties the buffer into the file.
  pub flush_lem :
      (w : Writer)
      → flush fwrite w
        ≡ ok (record w {
          file = w.file ++ w.buffer;
          buffer = [];
          total_written = w.total_written + length w.buffer;
        })
  unfolding flush
  flush_lem w = go w.buffer
    where
      go :
          (buffer : List ℕ)
          → flush fwrite (record w { buffer = buffer })
            ≡ ok (record w {
              file = w.file ++ buffer;
              buffer = [];
              total_written = w.total_written + length buffer;
            })
      go [] =
          ap₂ (λ f (n : ℕ). ok (record w { file = f; buffer = []; total_written = n }))
            (sym (append-nil w.file)) (omega arith)
      go (b ∷ buffer) = ground (arith, accepts w.file (b ∷ buffer))

  -- The first bytes fill the buffer up, and a flushed writer takes the others.
  filled :
      (w : Writer) (src : List ℕ) (more : Writer → Result Writer)
      → Sound w
      → w.buffer_size - length w.buffer < length src
      → ((v : Writer)
          → Sound v
          → v.buffer ≡ []
          → v.buffer_size ≡ w.buffer_size
          → Appends contents Sound v (drop (w.buffer_size - length w.buffer) src) (more v))
      → Appends contents Sound w src (
          flush fwrite
            (record w { buffer = w.buffer ++ take (w.buffer_size - length w.buffer) src })
          >>= more)
  filled w src more h big rest =
      let room = w.buffer_size - length w.buffer in
      let full = w.buffer ++ take room src in
      let v : Writer = record w {
        file = w.file ++ full;
        buffer = [];
        total_written = w.total_written + length full;
      } in
      let sound : Sound v = record {
        some_room = h.some_room;
        within = omega arith;
        counted = omega (arith, length-append w.file full, h.counted);
      } in
      let next = rest v sound refl refl in
      record {
        final = next.final;
        returns = rw (flush_lem (record w { buffer = full })) next.returns;
        contents =
            next.contents
            ∙ ap (λ t. t ++ drop room src) (append-nil (w.file ++ full))
            ∙ append_assoc w.file full (drop room src)
            ∙ ap (λ t. w.file ++ t)
                (append_assoc w.buffer (take room src) (drop room src)
                  ∙ ap (λ t. w.buffer ++ t) (take-append-drop room src))
            ∙ sym (append_assoc w.file w.buffer src);
        still_ready = next.still_ready;
      }

  write_loop_lem :
      (fuel : ℕ) (w : Writer) (src : List ℕ)
      → Sound w
      → length src + (length w.buffer - (w.buffer_size - 1)) ≤ fuel
      → Appends contents Sound w src (write_loop fwrite fuel w src)
  unfolding write_loop
  write_loop_lem fuel w [] h e = record {
    final = w;
    returns = refl;
    contents = sym (append-nil _);
    still_ready = h;
  }
  write_loop_lem zero w (b ∷ src) h e = absurd (omega arith)
  write_loop_lem (suc fuel) w (b ∷ src) h e =
      elim (Bool-cases (leb (length (b ∷ src)) (w.buffer_size - length w.buffer))) [
        | inl fits ↦
            rw (write_loop, fits)
              (record {
                final = record w { buffer = w.buffer ++ (b ∷ src) };
                returns = refl;
                contents = sym (append_assoc w.file w.buffer (b ∷ src));
                still_ready = record {
                  some_room = h.some_room;
                  within = ground (arith, length-append w.buffer (b ∷ src), h.within);
                  counted = h.counted;
                };
              })
        | inr big ↦
            rw (write_loop, big)
              (filled w (b ∷ src) _ h (ground (arith, big)) λ v sound empty size.
                write_loop_lem fuel v _ sound (
                  omega (
                    arith,
                    ap length empty,
                    size,
                    length-drop (w.buffer_size - length w.buffer) (b ∷ src),
                    h.within,
                    h.some_room,
                  )))
      ]

  pub write_lem :
      (w : Writer) (src : List ℕ) → Sound w → Appends contents Sound w src (write fwrite w src)
  unfolding write
  write_lem w src h = write_loop_lem (suc (length src)) w src h (omega (arith, h.within))

  pub write_byte_lem :
      (w : Writer) (b : ℕ) → Sound w → Appends contents Sound w (b ∷ []) (write_byte fwrite w b)
  unfolding write_byte
  write_byte_lem w b h = elim (Bool-cases (leb w.buffer_size (length w.buffer))) [
    | inr room ↦ rw room (record {
      final = record w { buffer = w.buffer ++ (b ∷ []) };
      returns = refl;
      contents = sym (append_assoc w.file w.buffer (b ∷ []));
      still_ready = record {
        some_room = h.some_room;
        within = ground (arith, length-append w.buffer (b ∷ []));
        counted = h.counted;
      };
    })
    | inl full ↦
        rw (full, flush_lem w)
          (record {
            final = record w {
              file = w.file ++ w.buffer;
              buffer = b ∷ [];
              total_written = w.total_written + length w.buffer;
            };
            returns = refl;
            contents = refl;
            still_ready = record {
              some_room = h.some_room;
              within = h.some_room;
              counted = omega (arith, length-append w.file w.buffer, h.counted);
            };
          })
  ]

  -- The writer as the operation encoder uses it.
  abbrev pub writer_sink : Sink
  writer_sink = record {
    W = Writer;
    write_byte = write_byte fwrite;
    write = write fwrite;
    written = contents;
    ready = Sound;
    write_byte_appends = write_byte_lem;
    write_appends = λ w bytes. write_lem w bytes;
  }
