-- ===== src/RoundTrip/Stream.antt =====
-- The streams of all the operations that `fsd_op_encoder_encode` writes, and the loop of
-- `fsd_patch_apply` over them.
use fsdiff.Prelude.{
  ℕ, zero, suc, ◌+◌, ◌*◌, ◌≤◌, ◌<◌, ◌≡◌, List, [], ◌∷◌, ◌++◌, length, ap, ap₂, sym, ◌∙◌,
  append_assoc, append-nil, arith, refl, Bool, true, drop, length-drop, length-append, lt→ltb,
  add_mul,
}
use mathlib.Core.Path.{subst}
use fsdiff.Status.{Result, ok, ◌>>=◌}
use fsdiff.Sink.{Sink}
use fsdiff.Tracker.{BlockState}
use fsdiff.Encoder.Emit.{Streams, encode_loop}
use fsdiff.Encoder.Runs.{run_count}
use fsdiff.Decoder.Steps.{State, step, run_loop}
use fsdiff.RoundTrip.Blocks.{blocks, blocks-add, Described, Described-drop}
use fsdiff.RoundTrip.Setting.{Setting, Ready, Grows, Executes}
use fsdiff.RoundTrip.Loop.{First-run, run_count-positive}

module _ (sink : Sink) where
  -- One call of the encoder after another.
  Grows-then :
      (st : Streams sink) (o d l o' d' l' : List ℕ) (r : Result (Streams sink))
      (f : Streams sink → Result (Streams sink))
      → (g : Grows sink st o d l r) → Grows sink g.final o' d' l' (f g.final)
      → Grows sink st (o ++ o') (d ++ d') (l ++ l') (r >>= f)
  Grows-then st o d l o' d' l' r f g next = record {
    final = next.final;
    returns = rw g.returns next.returns;
    op_contents = next.op_contents ∙ ap (λ t. t ++ o') g.op_contents ∙ append_assoc _ o o';
    diff_contents = next.diff_contents ∙ ap (λ t. t ++ d') g.diff_contents ∙ append_assoc _ d d';
    lit_contents = next.lit_contents ∙ ap (λ t. t ++ l') g.lit_contents ∙ append_assoc _ l l';
    still_ready = next.still_ready;
  }

  -- The encoder's loop `r` wrote the operations of `n` blocks from block `i` on, and the reader's loop
  -- executes them.
  pub record Encodes (c : Setting) (st : Streams sink) (i n : ℕ) (r : Result (Streams sink))
      : Type 0 where
    pub ops : List ℕ
    pub diffs : List ℕ
    pub lits : List ℕ
    pub ops_short : length ops ≤ 14 * n
    pub diffs_short : length diffs ≤ n * (c.block_size * 2)
    pub grows : Grows sink st ops diffs lits r
    pub runs :
        (fuel : ℕ) (diffs' lits' out : List ℕ)
        → length ops ≤ fuel
        → run_loop c.source c.fwrite c.block_size c.dest_blocks fuel ops (record {
          ops = ops;
          diffs = diffs ++ diffs';
          lits = lits ++ lits';
          out = out;
          dest_block = i;
        })
          ≡ ok (record {
            ops = [];
            diffs = diffs';
            lits = lits';
            out = out ++ blocks c.block_size c.dest i n;
            dest_block = i + n;
          })

  nothing_left :
      (c : Setting) (st : Streams sink) (i : ℕ) → Ready sink st → Encodes c st i 0 (ok st)
  unfolding run_loop
  nothing_left c st i ready = record {
    ops = [];
    diffs = [];
    lits = [];
    ops_short = omega arith;
    diffs_short = omega arith;
    grows = record {
      final = st;
      returns = refl;
      op_contents = sym (append-nil _);
      diff_contents = sym (append-nil _);
      lit_contents = sym (append-nil _);
      still_ready = ready;
    };
    runs = λ fuel diffs' lits' out h.
        ap₂
          (λ (o : List ℕ) (b : ℕ).
            ok (record { ops = []; diffs = diffs'; lits = lits'; out = o; dest_block = b }))
          (sym (append-nil out)) (omega arith);
  }

  -- A round of the reader's loop.
  run_loop-step :
      (c : Setting) (fuel b : ℕ) (ops : List ℕ) (st : State)
      → st.dest_block < c.dest_blocks
      → run_loop c.source c.fwrite c.block_size c.dest_blocks (suc fuel) (b ∷ ops) st ≡ (
          step c.source c.fwrite c.block_size c.dest_blocks b ops st >>= λ st'.
          run_loop c.source c.fwrite c.block_size c.dest_blocks fuel st'.ops st')
  unfolding run_loop
  run_loop-step c fuel b ops st h = rw (run_loop, lt→ltb st.dest_block c.dest_blocks h) refl

  -- The first operation, then the others.
  Encodes-then :
      (c : Setting) (st : Streams sink) (i n m : ℕ) (r : Result (Streams sink))
      (f : Streams sink → Result (Streams sink))
      → 1 ≤ n
      → i + n ≤ c.dest_blocks
      → (e : Executes sink c st i n r) → Encodes c e.grows.final (i + n) m (f e.grows.final)
      → Encodes c st i (n + m) (r >>= f)
  Encodes-then c st i n m r f lo hi e k = record {
    ops = (e.first ∷ e.tail) ++ k.ops;
    diffs = e.diffs ++ k.diffs;
    lits = e.lits ++ k.lits;
    ops_short = omega (arith, length-append e.tail k.ops, e.ops_short, k.ops_short);
    diffs_short = omega (
      arith,
      length-append e.diffs k.diffs,
      e.diffs_short,
      k.diffs_short,
      add_mul n m (c.block_size * 2),
    );
    grows = Grows-then st _ _ _ _ _ _ r f e.grows k.grows;
    runs = runs;
  }
    where
      open c use {source, fwrite, block_size, dest, dest_blocks}

      hi' : i < dest_blocks
      hi' = omega arith

      runs :
          (fuel : ℕ) (diffs' lits' out : List ℕ)
          → length ((e.first ∷ e.tail) ++ k.ops) ≤ fuel
          → run_loop source fwrite block_size dest_blocks fuel
              ((e.first ∷ e.tail) ++ k.ops)
              (record {
                ops = (e.first ∷ e.tail) ++ k.ops;
                diffs = (e.diffs ++ k.diffs) ++ diffs';
                lits = (e.lits ++ k.lits) ++ lits';
                out = out;
                dest_block = i;
              })
            ≡ ok (record {
              ops = [];
              diffs = diffs';
              lits = lits';
              out = out ++ blocks block_size dest i (n + m);
              dest_block = i + (n + m);
            })
      runs zero diffs' lits' out h = absurd (omega arith)
      runs (suc fuel) diffs' lits' out h =
          let start : State = record {
            ops = (e.first ∷ e.tail) ++ k.ops;
            diffs = (e.diffs ++ k.diffs) ++ diffs';
            lits = (e.lits ++ k.lits) ++ lits';
            out = out;
            dest_block = i;
          } in
          rw
            (
              run_loop-step c fuel e.first (e.tail ++ k.ops) start hi',
              append_assoc e.diffs k.diffs diffs',
              append_assoc e.lits k.lits lits',
              e.steps k.ops (k.diffs ++ diffs') (k.lits ++ lits') out (e.first ∷ (e.tail ++ k.ops)),
              k.runs fuel diffs' lits' (out ++ blocks block_size dest i n)
                  (omega (arith, length-append e.tail k.ops)),
              blocks-add block_size dest i n m,
            )
            (ap₂
              (λ (o : List ℕ) (b : ℕ).
                ok (record { ops = []; diffs = diffs'; lits = lits'; out = o; dest_block = b }))
              (append_assoc out _ _) (omega arith))

  module _ (c : Setting) (malloc : ℕ → Bool) (enough : (size : ℕ) → malloc size ≡ true) where
    open c use {source, block_size, dest, dest_blocks}

    pub encode_loop_lem :
        (fuel i : ℕ) (ss : List BlockState) (st : Streams sink)
        → length ss ≤ fuel
        → i + length ss ≡ dest_blocks
        → Ready sink st
        → Described block_size source.image dest i ss
        → Encodes c st i (length ss) (encode_loop sink malloc dest block_size fuel i ss st)
    unfolding encode_loop
    encode_loop_lem fuel i [] st h e ready d = nothing_left c st i ready
    encode_loop_lem zero i (s ∷ ss) st h e ready d = absurd (omega arith)
    encode_loop_lem (suc fuel) i (s ∷ ss) st h e ready d =
        let n = run_count block_size i s s.match_type ss in
        let rest = drop n (s ∷ ss) in
        let (short, op) = First-run sink c malloc enough i s s.match_type ss st ready d.0 d.1 e in
        let lo = run_count-positive block_size i s s.match_type ss in
        let len : n + length rest ≡ suc (length ss) =
          omega (arith, length-drop n (s ∷ ss), short) in
        subst
          (λ k. Encodes c st i k (encode_loop sink malloc dest block_size (suc fuel) i (s ∷ ss) st))
          len
          (Encodes-then c st i n (length rest) _ _ lo (omega (arith, short, e)) op (
            encode_loop_lem fuel (i + n) rest op.grows.final (omega (arith, h, len, lo))
              (omega (arith, len, e)) op.grows.still_ready
              (Described-drop block_size source.image dest n i (s ∷ ss) d)))
