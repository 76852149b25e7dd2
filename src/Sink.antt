-- ===== src/Sink.antt =====
-- What the operation encoder uses of a buffered writer (src/io/buffered_writer.h): appending one byte
-- and appending a buffer. `written` is all that the writer was given since it was created; `ready`
-- holds of a writer whose file will take everything.
use fsdiff.Prelude.{ℕ, List, [], ◌∷◌, ◌++◌, ◌≡◌, ap, ◌∙◌, append_assoc}
use fsdiff.Status.{Result, ok, ◌>>=◌}

-- A writing call returned, and appended `bytes`.
pub record Appends {W : Type 0} (written : W → List ℕ) (ready : W → Type 0) (w : W) (bytes : List ℕ)
    (r : Result W) : Type 0 where
  pub final : W
  pub returns : r ≡ ok final
  pub contents : written final ≡ written w ++ bytes
  pub still_ready : ready final

pub record Sink : Type 1 where
  pub W : Type 0
  pub write_byte : W → ℕ → Result W
  pub write : W → List ℕ → Result W
  pub written : W → List ℕ
  pub ready : W → Type 0
  pub write_byte_appends :
      (w : W) (b : ℕ) → ready w → Appends written ready w (b ∷ []) (write_byte w b)
  pub write_appends :
      (w : W) (bytes : List ℕ) → ready w → Appends written ready w bytes (write w bytes)

module _ {W : Type 0} (written : W → List ℕ) (ready : W → Type 0) where
  -- One call after another.
  pub Appends-bind :
      (w : W) (a b : List ℕ) (r : Result W) (f : W → Result W)
      → Appends written ready w a r
      → ((v : W) → ready v → Appends written ready v b (f v))
      → Appends written ready w (a ++ b) (r >>= f)
  Appends-bind w a b r f h k =
      let next = k h.final h.still_ready in
      record {
        final = next.final;
        returns = rw h.returns next.returns;
        contents = next.contents ∙ ap (λ t. t ++ b) h.contents ∙ append_assoc (written w) a b;
        still_ready = next.still_ready;
      }

  -- The same, where what the second call appends depends on the writer that it gets.
  pub Appends-then :
      (w : W) (a b : List ℕ) (r : Result W) (f : W → Result W)
      → (h : Appends written ready w a r) → Appends written ready h.final b (f h.final)
      → Appends written ready w (a ++ b) (r >>= f)
  Appends-then w a b r f h next = record {
    final = next.final;
    returns = rw h.returns next.returns;
    contents = next.contents ∙ ap (λ t. t ++ b) h.contents ∙ append_assoc (written w) a b;
    still_ready = next.still_ready;
  }
