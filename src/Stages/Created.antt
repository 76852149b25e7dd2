-- ===== src/Stages/Created.antt =====
-- `fsd_stage_controller_create`: the block sizes of the stages, and the tracker that they start with.
use fsdiff.Prelude.{
  ℕ, ◌^◌, ◌≡◌, Bool, true, false, not, ◌&&◌, List, Option, none, some, ltb, refl, ap, ◌∙◌,
}
use fsdiff.Status.{Result, ok, guard, invalid_arg, out_of_memory, >>=-eq-ok, ok_injective}
use fsdiff.Tracker.Operations.{tracker_create}
use fsdiff.Stages.Identity.{IdentityStage, identity_create}
use fsdiff.Stages.Relocation.{RelocationStage, relocation_create}
use fsdiff.Stages.Fsmap.{FsmapStage, fsmap_create}
use fsdiff.Stages.Partial.{PartialStage, partial_create}
use fsdiff.Stages.Controller.{Options, Memory, Controller, create_if, controller_create}
use fsdiff.Stages.Invariant.{Sound}
use fsdiff.Stages.SoundRun.{Fit, tracker_create-Sound}

create_if-ok :
    {A : Type 0} (b : Bool) (r : Result A) (o : Option A) (a : A)
    → create_if b r ≡ ok o
    → o ≡ some a
    → r ≡ ok a
create_if-ok {A} false r o a h e = let k = ok_injective h in absurd_none (k ∙ e)
  where
    absurd_none : {B : Type 0} → none ≡ some a → B
    absurd_none h = cc
create_if-ok {A} true r o a h e =
    let (a', ran, h1) = >>=-eq-ok r _ h in
    let k : some a' ≡ some a = ok_injective h1 ∙ e in ran ∙ ap ok (some_eq k)
  where
    some_eq : {x y : A} → some x ≡ some y → x ≡ y
    some_eq k = cc

identity_size :
    (m : Bool) (b : ℕ) (s : IdentityStage) → identity_create m b ≡ ok s → s.block_size ≡ b
unfolding identity_create
identity_size m b s h =
    let (_, _, h1) = >>=-eq-ok (guard (ltb 0 b) invalid_arg) _ h in
    let (_, _, h2) = >>=-eq-ok (guard m out_of_memory) _ h1 in
    let same = ok_injective h2 in rw (← same) refl

relocation_size :
    (m p : Bool) (b n : ℕ) (s : RelocationStage)
    → relocation_create m p b n ≡ ok s
    → s.block_size ≡ b
unfolding relocation_create
relocation_size m p b n s h =
    let (_, _, h1) = >>=-eq-ok (guard (ltb 0 b) invalid_arg) _ h in
    let (_, _, h2) = >>=-eq-ok (guard m out_of_memory) _ h1 in
    let (_, _, h3) = >>=-eq-ok (guard p out_of_memory) _ h2 in
    let same = ok_injective h3 in rw (← same) refl

fsmap_size : (m : Bool) (b r : ℕ) (s : FsmapStage) → fsmap_create m b r ≡ ok s → s.block_size ≡ b
unfolding fsmap_create
fsmap_size m b r s h =
    let (_, _, h1) = >>=-eq-ok (guard (ltb 0 b) invalid_arg) _ h in
    let (_, _, h2) = >>=-eq-ok (guard m out_of_memory) _ h1 in
    let same = ok_injective h2 in rw (← same) refl

partial_size :
    (m : Bool) (b r : ℕ) (s : PartialStage) → partial_create m b r ≡ ok s → s.block_size ≡ b
unfolding partial_create
partial_size m b r s h =
    let (_, _, h1) = >>=-eq-ok (guard (ltb 0 b) invalid_arg) _ h in
    let (_, _, h2) = >>=-eq-ok (guard m out_of_memory) _ h1 in
    let same = ok_injective h2 in rw (← same) refl

module _ (memory : Memory) (opts : Options) (src_blocks dest_blocks : ℕ) (src dest : List ℕ) where
  pub controller_create-Fit :
      (ctrl : Controller)
      → controller_create memory opts src_blocks dest_blocks ≡ ok ctrl
      → Fit (2 ^ opts.block_size_log2) ctrl
        × Sound (2 ^ opts.block_size_log2) src dest dest_blocks ctrl.tracker
  unfolding controller_create
  controller_create-Fit ctrl h =
      let b = 2 ^ opts.block_size_log2 in
      let m = memory in
      let radius = opts.search_radius in
      let (_, _, h1) =
        >>=-eq-ok (guard (not (opts.enable_relocation && not opts.enable_identity)) invalid_arg) _
          h in
      let (_, _, h2) = >>=-eq-ok (guard m.controller out_of_memory) _ h1 in
      let (t, et, h3) = >>=-eq-ok (tracker_create m.tracker m.blocks m.bitmap dest_blocks b) _ h2 in
      let (_, _, h4) = >>=-eq-ok (guard m.pool out_of_memory) _ h3 in
      let (i, ei, h5) =
        >>=-eq-ok (create_if opts.enable_identity (identity_create m.identity b)) _ h4 in
      let (r, er, h6) =
        >>=-eq-ok
          (create_if opts.enable_relocation
            (relocation_create m.relocation m.relocation_pool b src_blocks))
          _ h5 in
      let (f, ef, h7) =
        >>=-eq-ok (create_if opts.enable_fsmap (fsmap_create m.fsmap b radius)) _ h6 in
      let (p, ep, h8) =
        >>=-eq-ok (create_if opts.enable_partial (partial_create m.partial b radius)) _ h7 in
      let same = ok_injective h8 in
      rw (← same) (
        record {
          size = refl;
          identity_size =
              λ s e. identity_size m.identity b s (create_if-ok opts.enable_identity _ i s ei e);
          relocation_size = λ s e.
              relocation_size m.relocation m.relocation_pool b src_blocks s
                (create_if-ok opts.enable_relocation _ r s er e);
          fsmap_size =
              λ s e. fsmap_size m.fsmap b radius s (create_if-ok opts.enable_fsmap _ f s ef e);
          partial_size = λ s e.
              partial_size m.partial b radius s (create_if-ok opts.enable_partial _ p s ep e);
        },
        tracker_create-Sound m.tracker m.blocks m.bitmap dest_blocks b src dest t et,
      )
