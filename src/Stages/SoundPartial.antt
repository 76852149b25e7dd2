-- ===== src/Stages/SoundPartial.antt =====
-- The stages that record deltas: src/stages/stage_partial.c and src/stages/stage_fsmap.c.
use fsdiff.Prelude.{
  ℕ, zero, suc, ◌+◌, ◌*◌, ◌/◌, ◌%◌, ◌≤◌, ◌<◌, ◌≡◌, Bool, true, false, ◌&&◌, List, [], ◌∷◌, length,
  ltb, ◌==◌, if◌then◌else◌, arith, refl, sym, ◌∙◌, inl, inr, Bool-cases, All, get_elem?-some,
}
use native.Mathlib.Nat.{div-add-mod'}
use fsdiff.Prelude.Int.{ℤ, pos, pos_part, ◌+ℤ◌}
use fsdiff.Status.{ok, ok_injective}
use fsdiff.Wire.{IsByte}
use fsdiff.Encoder.Emit.{slice}
use fsdiff.Tracker.Operations.{Tracker, is_unmatched}
use fsdiff.Tracker.Invariant.{unmatched_block}
use fsdiff.RoundTrip.Blocks.{block}
use fsdiff.Stages.Match.{Best, Work, take_match, record_match, store_match, delta_of}
use fsdiff.Stages.Search.{out_of_bounds}
use fsdiff.Stages.Partial.{
  PartialStage, extend_loop, accept, partial_block, partial_loop, partial_run, least_count,
  quick_accept_of,
}
use fsdiff.Stages.Fsmap.{
  Hypothesis, exact_or_sweep, exact_count, sweep_around, refine, test_hypothesis, hypothesis_loop,
}
use fsdiff.Stages.Invariant.{partial_match-Sound}
use fsdiff.Stages.Steps.{slice-length, All-slice, delta_of-length, add_diffs-delta_of, in_bounds}
use fsdiff.Stages.Sound.{Good, dest_length}

module _ (block_size : ℕ) (src dest : List ℕ) (dest_blocks : ℕ) (some_bytes : 0 < block_size)
    (whole : length dest ≡ dest_blocks * block_size) (src_bytes : All IsByte src)
    (dest_bytes : All IsByte dest) where
  abbrev Fine : Tracker → Type 0
  Fine = Good block_size src dest dest_blocks some_bytes whole src_bytes dest_bytes

  -- Whichever way a test goes.
  either-Fine :
      {P : Type 0} (b : Bool) (yes_work no_work : Work P)
      → Fine yes_work.tracker
      → Fine no_work.tracker
      → Fine (if b then yes_work else no_work).tracker
  either-Fine true yes_work no_work hy hn = hy
  either-Fine false yes_work no_work hy hn = hn

  -- A block that is marked is one of the image's.
  marked : (i : ℕ) (t : Tracker) → is_unmatched t i ≡ true → Fine t → i < dest_blocks
  marked i t free good =
      let (b, there, _) = unmatched_block t i free good.agrees in
      omega (arith, get_elem?-some t.blocks i b there, good.count)

  -- A position in bytes is a block's and an offset in it.
  position : (p : ℕ) → p / block_size * block_size + p % block_size ≡ p
  position p = div-add-mod' p block_size

  record_match-Fine :
      (i : ℕ) (p : ℤ) (t : Tracker)
      → is_unmatched t i ≡ true
      → pos_part p + block_size ≤ length src
      → Fine t
      → Fine (record_match block_size src dest i p t)
  unfolding record_match
  record_match-Fine i p t free inside good =
      let at = pos_part p in
      let d = block block_size dest i in
      let s = slice src at block_size in
      let d_len =
        dest_length block_size src dest dest_blocks some_bytes whole src_bytes dest_bytes i
          (marked i t free good) in
      let s_len = slice-length src at block_size inside in
      let same_len : length d ≡ length s = d_len ∙ sym s_len in
      partial_match-Sound block_size src dest dest_blocks t i (at / block_size) (at % block_size)
        (delta_of d s) free
        (λ state. rw (position at) (
          inside,
          (
            delta_of d s,
            refl,
            delta_of-length d s same_len ∙ d_len,
            add_diffs-delta_of s d same_len (All-slice src at block_size src_bytes)
                (All-slice dest (i * block_size) block_size dest_bytes),
          ),
        ))
        good

  module _ {P : Type 0} (pool_alloc : P → Bool × P) where
    pub take_match-Fine :
        (i : ℕ) (p : ℤ) (w : Work P)
        → is_unmatched w.tracker i ≡ true
        → pos_part p + block_size ≤ length src
        → Fine w.tracker
        → Fine (take_match block_size src dest pool_alloc i p w).1.tracker
    unfolding take_match
    take_match-Fine i p w free inside good = stored (pool_alloc w.pool)
      where
        stored : (r : Bool × P) → Fine (store_match block_size src dest i p w r).1.tracker
        stored (false, pool) = good
        stored (true, pool) = record_match-Fine i p w.tracker free inside good

    module _ (count_fn : List ℕ → List ℕ → ℕ) (src_size : ℕ) (in_src : src_size ≤ length src) where
      extend_loop-Fine :
          (threshold_count : ℕ) (best_offset : ℤ) (n i : ℕ) (w : Work P)
          → Fine w.tracker
          → Fine
              (extend_loop pool_alloc count_fn block_size src_size src dest threshold_count
                best_offset n i w).tracker
      unfolding extend_loop
      extend_loop-Fine threshold_count best_offset zero i w good = good
      extend_loop-Fine threshold_count best_offset (suc n) i w good =
          let p = pos (i * block_size) +ℤ best_offset in
          elim (Bool-cases (is_unmatched w.tracker i)) [
            | inr has ↦ rw has good
            | inl free ↦ elim (Bool-cases (out_of_bounds block_size src_size p)) [
              | inl out ↦ rw (free, out) good
              | inr inside ↦
                  let b = in_bounds block_size src_size p inside in
                  let next = take_match-Fine i p w free (omega (arith, b.1, in_src)) good in
                  let stored = (take_match block_size src dest pool_alloc i p w).0 in
                  let w' = (take_match block_size src dest pool_alloc i p w).1 in
                  rw (free, inside)
                    (either-Fine
                      (ltb (count_fn (slice src (pos_part p) block_size) (block block_size dest i))
                        threshold_count)
                      w _ good
                      (either-Fine stored _ w'
                        (extend_loop-Fine threshold_count best_offset n (i + 1) w' next) next))
            ]
          ]

      accept-Fine :
          (threshold_count : ℕ) (best : Best) (n i : ℕ) (w : Work P)
          → is_unmatched w.tracker i ≡ true
          → Fine w.tracker
          → Fine
              (accept pool_alloc count_fn block_size src_size src dest threshold_count best n i
                w).tracker
      unfolding accept
      accept-Fine threshold_count best n i w free good =
          let p = pos (i * block_size) +ℤ best.offset in
          let stored = (take_match block_size src dest pool_alloc i p w).0 in
          let w' = (take_match block_size src dest pool_alloc i p w).1 in
          either-Fine (ltb best.count threshold_count) w _ good
            (elim (Bool-cases (out_of_bounds block_size src_size p)) [
              | inl out ↦ rw out good
              | inr inside ↦
                  let b = in_bounds block_size src_size p inside in
                  let next = take_match-Fine i p w free (omega (arith, b.1, in_src)) good in
                  rw inside (
                    either-Fine stored _ w'
                      (extend_loop-Fine threshold_count best.offset n (i + 1) w' next) next)
            ])

      partial_block-Fine :
          (search_range threshold_count quick_accept n i : ℕ) (w : Work P)
          → Fine w.tracker
          → Fine
              (partial_block pool_alloc count_fn block_size src_size src dest search_range
                threshold_count quick_accept n i w).tracker
      unfolding partial_block
      partial_block-Fine search_range threshold_count quick_accept n i w good =
          elim (Bool-cases (is_unmatched w.tracker i)) [
            | inr has ↦ rw has good
            | inl free ↦ rw free (accept-Fine threshold_count _ n i w free good)
          ]

      pub partial_loop-Fine :
          (search_range threshold_count quick_accept n i : ℕ) (w : Work P)
          → Fine w.tracker
          → Fine
              (partial_loop pool_alloc count_fn block_size src_size src dest search_range
                threshold_count quick_accept n i w).tracker
      unfolding partial_loop
      partial_loop-Fine search_range threshold_count quick_accept zero i w good = good
      partial_loop-Fine search_range threshold_count quick_accept (suc n) i w good =
          partial_loop-Fine search_range threshold_count quick_accept n (i + 1) _
            (partial_block-Fine search_range threshold_count quick_accept n i w good)

    pub partial_run-Fine :
        (count_fn : List ℕ → List ℕ → ℕ) (stage : PartialStage) (threshold_count : ℕ) (t : Tracker)
        (pool : P)
        → stage.block_size ≡ block_size
        → stage.src_size ≤ length src
        → Fine t
        → (w : Work P) × (partial_run pool_alloc count_fn stage threshold_count src dest t pool
            ≡ ok w)
          × Fine w.tracker
    unfolding partial_run
    partial_run-Fine count_fn stage threshold_count t pool size in_src good =
        let least = least_count threshold_count in
        (
          partial_loop pool_alloc count_fn block_size stage.src_size src dest stage.search_range
              least (quick_accept_of block_size least) (length t.blocks) 0
              (record { tracker = t; pool = pool }),
          rw size refl,
          partial_loop-Fine count_fn stage.src_size in_src stage.search_range least
              (quick_accept_of block_size least) (length t.blocks) 0
              (record { tracker = t; pool = pool }) good,
        )

    -- The hypotheses of the filesystem stage, each with a block inside the source.
    module _ (count_fn : List ℕ → List ℕ → ℕ) (src_size : ℕ) (in_src : src_size ≤ length src) where
      exact_or_sweep-inside :
          (hyp_pos exact : ℕ) (swept : Best)
          → hyp_pos + block_size ≤ src_size
          → pos_part (exact_or_sweep block_size src_size hyp_pos exact swept).offset + block_size
            ≤ src_size
      exact_or_sweep-inside hyp_pos exact swept inside = ground arith

      refine-inside :
          (search_range threshold_count : ℕ) (h : Hypothesis)
          → h.src_pos + block_size ≤ src_size
          → pos_part
                (refine count_fn block_size src_size src dest search_range threshold_count h).offset
              + block_size
            ≤ src_size
      unfolding refine
      refine-inside search_range threshold_count h inside =
          exact_or_sweep-inside h.src_pos (exact_count count_fn block_size src_size src dest h)
            (sweep_around count_fn block_size src_size src dest search_range threshold_count h)
            inside

      test_hypothesis-Fine :
          (search_range threshold_count : ℕ) (h : Hypothesis) (w : Work P)
          → h.src_pos + block_size ≤ src_size
          → Fine w.tracker
          → Fine
              (test_hypothesis count_fn block_size src_size src dest pool_alloc search_range
                threshold_count h w).tracker
      unfolding test_hypothesis
      test_hypothesis-Fine search_range threshold_count h w inside good =
          elim (Bool-cases (is_unmatched w.tracker h.dest_block)) [
            | inr has ↦ rw has good
            | inl free ↦
                let p =
                  (refine count_fn block_size src_size src dest search_range threshold_count
                    h).offset in
                let k : pos_part p + block_size ≤ src_size =
                  refine-inside search_range threshold_count h inside in
                rw free (
                  either-Fine _ w _ good
                    (take_match-Fine h.dest_block p w free (omega (arith, k, in_src)) good))
          ]

      pub hypothesis_loop-Fine :
          (is_cancelled : ℕ → Bool) (search_range threshold_count : ℕ) (hyps : List Hypothesis)
          (n : ℕ) (w w' : Work P)
          → All (λ h. h.src_pos + block_size ≤ src_size) hyps
          → hypothesis_loop count_fn block_size src_size src dest pool_alloc is_cancelled
              search_range threshold_count hyps n w
            ≡ ok w'
          → Fine w.tracker
          → Fine w'.tracker
      unfolding hypothesis_loop
      hypothesis_loop-Fine is_cancelled search_range threshold_count [] n w w' inside h good =
          let e = ok_injective h in rw (← e) good
      hypothesis_loop-Fine is_cancelled search_range threshold_count (hyp ∷ hyps) n w w' inside h
            good =
          elim (Bool-cases ((n % 256 == 0) && is_cancelled n)) [
            | inl stop ↦ let no_result = rw stop at h in cc
            | inr on ↦
                hypothesis_loop-Fine is_cancelled search_range threshold_count hyps (n + 1) _ w'
                  inside.1 (rw on at h)
                  (test_hypothesis-Fine search_range threshold_count hyp w inside.0 good)
          ]
