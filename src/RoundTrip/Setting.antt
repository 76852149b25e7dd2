-- ===== src/RoundTrip/Setting.antt =====
-- What the round trip is about: a source and a destination image, and a run of blocks whose operation
-- the encoder writes to its streams and the reader executes.
use fsdiff.Prelude.{
  ℕ, ◌+◌, ◌*◌, ◌≤◌, ◌<◌, ◌^◌, ◌≡◌, List, [], ◌∷◌, ◌++◌, length, All, sym, append-nil, refl,
}
use fsdiff.Status.{Result, ok, ◌>>=◌}
use fsdiff.Wire.{IsByte}
use fsdiff.Sink.{Sink, Appends}
use fsdiff.Encoder.Emit.{Streams}
use fsdiff.Decoder.Source.{Source}
use fsdiff.Decoder.Steps.{step}
use fsdiff.RoundTrip.Blocks.{blocks}

pub record Setting : Type 0 where
  pub source : Source
  pub fwrite : List ℕ → List ℕ → ℕ
  pub block_size : ℕ
  pub dest : List ℕ
  pub dest_blocks : ℕ
  pub accepts : (file bytes : List ℕ) → fwrite file bytes ≡ length bytes
  pub small : length source.image < 2 ^ 63
  pub bytes : All IsByte source.image
  pub some_bytes : 1 ≤ block_size
  pub block_limit : block_size ≤ 2 ^ 24
  pub whole : length dest ≡ dest_blocks * block_size
  pub dest_small : length dest < 2 ^ 63
  pub few : dest_blocks < 2 ^ 32

module _ (sink : Sink) where
  open sink use {written, ready}

  -- All three writers have room.
  pub record Ready (st : Streams sink) : Type 0 where
    pub op_ready : ready st.op_writer
    pub diff_ready : ready st.diff_writer
    pub lit_ready : ready st.lit_writer

  -- A call of the encoder returned, and appended these bytes to the three streams.
  pub record Grows (st : Streams sink) (ops diffs lits : List ℕ) (r : Result (Streams sink))
      : Type 0 where
    pub final : Streams sink
    pub returns : r ≡ ok final
    pub op_contents : written final.op_writer ≡ written st.op_writer ++ ops
    pub diff_contents : written final.diff_writer ≡ written st.diff_writer ++ diffs
    pub lit_contents : written final.lit_writer ≡ written st.lit_writer ++ lits
    pub still_ready : Ready final

  -- The encoder's call `r` wrote one operation, which the reader executes: it takes the operation's
  -- bytes off the front of its streams and writes `n` blocks of the destination from block `i` on.
  pub record Executes (c : Setting) (st : Streams sink) (i n : ℕ) (r : Result (Streams sink))
      : Type 0 where
    pub first : ℕ
    pub tail : List ℕ
    pub diffs : List ℕ
    pub lits : List ℕ
    pub ops_short : length tail ≤ 13
    pub diffs_short : length diffs ≤ n * (c.block_size * 2)
    pub grows : Grows st (first ∷ tail) diffs lits r
    pub steps :
        (ops' diffs' lits' out prev : List ℕ)
        → step c.source c.fwrite c.block_size c.dest_blocks first (tail ++ ops') (record {
          ops = prev;
          diffs = diffs ++ diffs';
          lits = lits ++ lits';
          out = out;
          dest_block = i;
        })
          ≡ ok (record {
            ops = ops';
            diffs = diffs';
            lits = lits';
            out = out ++ blocks c.block_size c.dest i n;
            dest_block = i + n;
          })

  -- A call that wrote to the operation stream alone.
  pub Grows-ops :
      (st : Streams sink) (ops : List ℕ) (r : Result sink.W)
      → Ready st
      → Appends written ready st.op_writer ops r
      → Grows st ops [] [] (r >>= λ w. ok (record st { op_writer = w }))
  Grows-ops st ops r h a = record {
    final = record st { op_writer = a.final };
    returns = rw a.returns refl;
    op_contents = a.contents;
    diff_contents = sym (append-nil _);
    lit_contents = sym (append-nil _);
    still_ready = record {
      op_ready = a.still_ready;
      diff_ready = h.diff_ready;
      lit_ready = h.lit_ready;
    };
  }
