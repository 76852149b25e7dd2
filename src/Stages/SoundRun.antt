-- ===== src/Stages/SoundRun.antt =====
-- `fsd_stage_controller_run` of src/stages/stage_controller.c leaves true matches only.
use fsdiff.Prelude.{
  ℕ, zero, suc, ◌+◌, ◌*◌, ◌/◌, ◌^◌, ◌≤◌, ◌<◌, ◌≡◌, Bool, not, ◌||◌, List, Option, none, some,
  length, ◌==◌, if◌then◌else◌, arith, refl, sym, ap, ◌∙◌, inl, inr, Bool-cases, All,
}
use native.Mathlib.Nat.{div-mul-le_self}
use fsdiff.Status.{ok, guard, invalid_arg, out_of_memory, cancelled, >>=-eq-ok, ok_injective}
use fsdiff.Wire.{IsByte}
use fsdiff.HashTable.{table_create}
use fsdiff.Tracker.Operations.{
  Tracker, create_blocks, tracker_create, finalize, bitmap_test, bitmap_clear,
}
use fsdiff.Tracker.Reachable.{tracker_create-Agrees}
use fsdiff.RoundTrip.Blocks.{Described}
use fsdiff.Stages.{count_fn_of}
use fsdiff.Stages.Match.{Work}
use fsdiff.Stages.Identity.{IdentityStage, identity_run}
use fsdiff.Stages.Relocation.{RelocationStage, relocation_build_index, relocation_run, index_loop}
use fsdiff.Stages.Fsmap.{FsmapStage, fsmap_build_index, fsmap_run}
use fsdiff.Stages.Partial.{PartialStage, partial_build_index, least_count}
use fsdiff.Stages.Controller.{
  Controller, Surroundings, run_identity, run_relocation, run_fsmap, run_partial, run_stages,
  controller_run, before_identity, before_relocation, before_fsmap, before_partial, at_hypothesis,
}
use fsdiff.Stages.Invariant.{Sound}
use fsdiff.Stages.Index.{Lies, fsmap_build_index-Inside}
use fsdiff.Stages.Steps.{Faithful}
use fsdiff.Stages.Sound.{identity_run-Good, relocation_run-Good}
use fsdiff.Stages.SoundPartial.{partial_run-Fine, hypothesis_loop-Fine}

-- The tracker that the controller starts with has no matches.
create_blocks-Described :
    (block_size : ℕ) (src dest : List ℕ) (n i j : ℕ)
    → Described block_size src dest j (create_blocks n i)
unfolding create_blocks
create_blocks-Described block_size src dest zero i j = tt
create_blocks-Described block_size src dest (suc n) i j =
    (tt, create_blocks-Described block_size src dest n (i + 1) (j + 1))

create_blocks-length : (n i : ℕ) → length (create_blocks n i) ≡ n
unfolding create_blocks
create_blocks-length zero i = refl
create_blocks-length (suc n) i = ap suc (create_blocks-length n (i + 1))

pub tracker_create-Sound :
    (a b c : Bool) (n block_size : ℕ) (src dest : List ℕ) (t : Tracker)
    → tracker_create a b c n block_size ≡ ok t
    → Sound block_size src dest n t
unfolding tracker_create
tracker_create-Sound a b c n block_size src dest t h =
    let (_, _, h0) = >>=-eq-ok (guard (not (n == 0 || block_size == 0)) invalid_arg) _ h in
    let (_, _, h1) = >>=-eq-ok (guard a out_of_memory) _ h0 in
    let (_, _, h2) = >>=-eq-ok (guard b out_of_memory) _ h1 in
    let (_, _, h3) = >>=-eq-ok (guard c out_of_memory) _ h2 in
    let same = ok_injective h3 in
    record {
      agrees = tracker_create-Agrees a b c n block_size t h;
      described = rw (← same) (create_blocks-Described block_size src dest n 0 0);
      count = rw (← same) (create_blocks-length n 0);
    }

-- What the stages of a controller of block size `block_size` are.
pub record Fit (block_size : ℕ) (ctrl : Controller) : Type 0 where
  pub size : ctrl.block_size ≡ block_size
  pub identity_size :
      (stage : IdentityStage) → ctrl.identity ≡ some stage → stage.block_size ≡ block_size
  pub relocation_size :
      (stage : RelocationStage) → ctrl.relocation ≡ some stage → stage.block_size ≡ block_size
  pub fsmap_size : (stage : FsmapStage) → ctrl.fsmap ≡ some stage → stage.block_size ≡ block_size
  pub partial_size :
      (stage : PartialStage) → ctrl.partial ≡ some stage → stage.block_size ≡ block_size

-- What `fsd_block_tracker_finalize` does, it does to the bitmap and to the counts.
pub finalize-blocks : (n i : ℕ) (t : Tracker) → (finalize n i t).blocks ≡ t.blocks
unfolding finalize
finalize-blocks zero i t = refl
finalize-blocks (suc n) i t = finalize-blocks n (i + 1) _ ∙ step
  where
    step :
        (if bitmap_test t.unmatched_bitmap i
          then record t {
            literal_count = t.literal_count + 1;
            unmatched_bitmap = bitmap_clear t.unmatched_bitmap i;
          }
          else t).blocks
        ≡ t.blocks
    step = elim (Bool-cases (bitmap_test t.unmatched_bitmap i)) [
      | inl e ↦ rw e refl
      | inr e ↦ rw e refl
    ]

module _ {P : Type 0} (env : Surroundings P) (src dest : List ℕ) (block_size : ℕ)
    (some_bytes : 0 < block_size) (limit : block_size ≤ 2 ^ 24)
    (whole : length dest ≡ length dest / block_size * block_size) (src_bytes : All IsByte src)
    (dest_bytes : All IsByte dest) (faithful : Faithful env.simd) (src_small : length src < 2 ^ 62)
    (dest_small : length dest < 2 ^ 62) (src_lies : Lies (length src) env.src_fs)
    (dest_lies : Lies (length dest) env.dest_fs) where
  abbrev Truthful : Tracker → Type 0
  Truthful = Sound block_size src dest (length dest / block_size)

  run_identity-Truthful :
      (b : ℕ) (stage : Option IdentityStage) (w w' : Work P)
      → b ≡ block_size
      → ((s : IdentityStage) → stage ≡ some s → s.block_size ≡ block_size)
      → run_identity env src dest b stage w ≡ ok w'
      → Truthful w.tracker
      → Truthful w'.tracker
  unfolding run_identity
  run_identity-Truthful b none w w' same_size size h good =
      let same = ok_injective h in rw (← same) good
  run_identity-Truthful b (some stage) w w' same_size size h good =
      let (_, _, h1) =
        >>=-eq-ok (guard (not (env.is_cancelled before_identity)) cancelled) _
          (rw same_size at h) in
      let (t, ran, h2) =
        >>=-eq-ok
          (identity_run env.simd stage w.tracker src (length src / block_size) dest
            (length dest / block_size))
          _ h1 in
      let same = ok_injective h2 in
      let (t', ran', good') =
        identity_run-Good block_size src dest (length dest / block_size) some_bytes whole src_bytes
          dest_bytes env.simd faithful w.tracker (length src / block_size) good in
      let e : record { block_size = block_size } ≡ stage =
        ap (λ n. record { block_size = n }) (sym (size stage refl)) in
      let e' : ok t' ≡ ok t = rw e at (sym ran') ∙ ran in
      let k : t' ≡ t = ok_injective e' in rw (← same, ← k) good'

  run_relocation-Truthful :
      (stage : Option RelocationStage) (w w' : Work P)
      → ((s : RelocationStage) → stage ≡ some s → s.block_size ≡ block_size)
      → run_relocation env src dest stage w ≡ ok w'
      → Truthful w.tracker
      → Truthful w'.tracker
  unfolding run_relocation relocation_build_index
  run_relocation-Truthful none w w' size h good = let same = ok_injective h in rw (← same) good
  run_relocation-Truthful (some stage) w w' size h good =
      let m = env.memory in
      let (_, _, h1) = >>=-eq-ok (guard (not (env.is_cancelled before_relocation)) cancelled) _ h in
      let (indexed, built, h2) =
        >>=-eq-ok (relocation_build_index m.hash_table m.hash_buckets m.hash_entry stage src) _
          h1 in
      let (table, _, b1) =
        >>=-eq-ok (table_create m.hash_table m.hash_buckets stage.src_blocks) _ built in
      let made = ok_injective b1 in
      let (t, ran, h3) = >>=-eq-ok (relocation_run indexed w.tracker src dest) _ h2 in
      let same = ok_injective h3 in
      let (t', ran', good') =
        relocation_run-Good block_size src dest (length dest / block_size) some_bytes whole
          src_bytes dest_bytes indexed
          (index_loop stage.block_size src m.hash_entry stage.src_blocks 0 table) w.tracker
          (rw (← made) (size stage refl)) (rw (← made) refl) good in
      let k : t' ≡ t = ok_injective (sym ran' ∙ ran) in rw (← same, ← k) good'

  run_fsmap-Truthful :
      (stage : Option FsmapStage) (w w' : Work P)
      → ((s : FsmapStage) → stage ≡ some s → s.block_size ≡ block_size)
      → run_fsmap env src dest stage w ≡ ok w'
      → Truthful w.tracker
      → Truthful w'.tracker
  unfolding run_fsmap fsmap_run
  run_fsmap-Truthful none w w' size h good = let same = ok_injective h in rw (← same) good
  run_fsmap-Truthful (some stage) w w' size h good =
      let m = env.memory in
      let (_, _, h1) = >>=-eq-ok (guard (not (env.is_cancelled before_fsmap)) cancelled) _ h in
      let (indexed, built, h2) =
        >>=-eq-ok
          (fsmap_build_index m.fsmap_pool m.path_table m.path_buckets m.path_entry stage env.src_fs
            env.dest_fs (length src) w.tracker)
          _ h1 in
      let s = size stage refl in
      let (same_size, src_size, inside) =
        fsmap_build_index-Inside m.fsmap_pool m.path_table m.path_buckets m.path_entry stage indexed
          env.src_fs env.dest_fs (length src) (length dest) w.tracker (omega (arith, s))
          (omega (arith, s)) src_small dest_small src_lies dest_lies built in
      let e : indexed.block_size ≡ block_size = same_size ∙ s in
      hypothesis_loop-Fine block_size src dest (length dest / block_size) some_bytes whole src_bytes
        dest_bytes env.pool_alloc (count_fn_of env.simd) (length src) (omega arith)
        (λ n. env.is_cancelled (at_hypothesis n)) indexed.search_range
        (least_count env.threshold_count) indexed.hyps 0 w w' (rw e at inside)
        (rw (e, src_size) at h2) good

  run_partial-Truthful :
      (b : ℕ) (stage : Option PartialStage) (w w' : Work P)
      → b ≡ block_size
      → ((s : PartialStage) → stage ≡ some s → s.block_size ≡ block_size)
      → run_partial env src dest b stage w ≡ ok w'
      → Truthful w.tracker
      → Truthful w'.tracker
  unfolding run_partial partial_build_index
  run_partial-Truthful b none w w' same_size size h good =
      let same = ok_injective h in rw (← same) good
  run_partial-Truthful b (some stage) w w' same_size size h good =
      let (_, _, h1) =
        >>=-eq-ok (guard (not (env.is_cancelled before_partial)) cancelled) _ (rw same_size at h) in
      let s = size stage refl in
      let indexed : PartialStage = record stage {
        src_blocks = length src / block_size;
        src_size = length src / block_size * stage.block_size;
      } in
      let (t, ran, good') =
        partial_run-Fine block_size src dest (length dest / block_size) some_bytes whole src_bytes
          dest_bytes env.pool_alloc (count_fn_of env.simd) indexed env.threshold_count w.tracker
          w.pool s (rw s (div-mul-le_self (length src) block_size)) good in
      let k : t ≡ w' = ok_injective (sym ran ∙ h1) in rw (← k) good'

  -- On two images of bytes, with fewer than 2^62 bytes, a destination of whole blocks of 1 to 2^24
  -- bytes, dispatched tests that find only blocks of zeros and of ones, files that lie in their images,
  -- stages for the controller's block size and a tracker that tells the truth, such as a new one: a run
  -- of the stages that returns leaves every block of the destination with a match that is true of the two
  -- images, or as a literal, which is what `fsd_op_encoder_encode` relies on.
  pub controller_run-Sound :
      (ctrl : Controller) (pool : P) (w : Work P)
      → Fit block_size ctrl
      → Truthful ctrl.tracker
      → controller_run env (some src) (some dest) ctrl pool ≡ ok w
      → Described block_size src dest 0 w.tracker.blocks
        × (length w.tracker.blocks ≡ length dest / block_size)
  unfolding controller_run run_stages
  controller_run-Sound ctrl pool w fit good h =
      let (w1, r1, h1) =
        >>=-eq-ok
          (run_identity env src dest ctrl.block_size ctrl.identity
            (record { tracker = ctrl.tracker; pool = pool }))
          _ h in
      let (w2, r2, h2) = >>=-eq-ok (run_relocation env src dest ctrl.relocation w1) _ h1 in
      let (w3, r3, h3) = >>=-eq-ok (run_fsmap env src dest ctrl.fsmap w2) _ h2 in
      let (w4, r4, h4) =
        >>=-eq-ok (run_partial env src dest ctrl.block_size ctrl.partial w3) _ h3 in
      let g1 =
        run_identity-Truthful ctrl.block_size ctrl.identity
          (record { tracker = ctrl.tracker; pool = pool }) w1 fit.size fit.identity_size r1 good in
      let g2 = run_relocation-Truthful ctrl.relocation w1 w2 fit.relocation_size r2 g1 in
      let g3 = run_fsmap-Truthful ctrl.fsmap w2 w3 fit.fsmap_size r3 g2 in
      let g4 =
        run_partial-Truthful ctrl.block_size ctrl.partial w3 w4 fit.size fit.partial_size r4 g3 in
      let same = ok_injective h4 in
      rw (← same, finalize-blocks (length w4.tracker.blocks) 0 w4.tracker) (g4.described, g4.count)
