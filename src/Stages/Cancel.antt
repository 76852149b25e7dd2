-- ===== src/Stages/Cancel.antt =====
-- Cancel requests between the stages of src/stages/stage_controller.c.
use fsdiff.Prelude.{ℕ, ◌≡◌, Bool, true, false, ◌||◌, List, Option, none, some, refl}
use fsdiff.Status.{err, cancelled}
use fsdiff.Stages.Identity.{IdentityStage}
use fsdiff.Stages.Relocation.{RelocationStage}
use fsdiff.Stages.Fsmap.{FsmapStage}
use fsdiff.Stages.Partial.{PartialStage}
use fsdiff.Stages.Controller.{
  Controller, Moment, Surroundings, run_identity, run_relocation, run_fsmap, run_partial,
  run_stages, controller_run, before_identity, before_relocation, before_fsmap, before_partial,
}

-- A controller with a stage at least.
abbrev is_some : {A : Type 0} → Option A → Bool
is_some none = false
is_some (some a) = true

abbrev pub has_stage : Controller → Bool
has_stage ctrl =
    is_some ctrl.identity
    || (is_some ctrl.relocation || (is_some ctrl.fsmap || is_some ctrl.partial))

module _ {P : Type 0} (env : Surroundings P) (src dest : List ℕ)
    (requested : (m : Moment) → env.is_cancelled m ≡ true) where
  -- A run of a controller with any stage on two images, while a cancel request is up, returns FSD_ERR_CANCELLED.
  pub controller_run_cancelled :
      (ctrl : Controller) (pool : P)
      → has_stage ctrl ≡ true
      → controller_run env (some src) (some dest) ctrl pool ≡ err cancelled
  unfolding controller_run run_stages run_identity run_relocation run_fsmap run_partial
  controller_run_cancelled ctrl pool h = go ctrl.identity ctrl.relocation ctrl.fsmap ctrl.partial h
    where
      go :
          (i : Option IdentityStage) (r : Option RelocationStage) (f : Option FsmapStage)
          (p : Option PartialStage)
          → (is_some i || (is_some r || (is_some f || is_some p))) ≡ true
          → controller_run env
              (some src)
              (some dest)
              (record ctrl { identity = i; relocation = r; fsmap = f; partial = p })
              pool
            ≡ err cancelled
      go (some stage) r f p h = rw (requested before_identity) refl
      go none (some stage) f p h = rw (requested before_relocation) refl
      go none none (some stage) p h = rw (requested before_fsmap) refl
      go none none none (some stage) h = rw (requested before_partial) refl
      go none none none none h = cc
