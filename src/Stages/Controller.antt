-- ===== src/Stages/Controller.antt =====
-- src/stages/stage_controller.c: the order of the matching stages. A stage's handle is null exactly where
-- its option is off, so that one `Option` stands for both. Progress callbacks are left out.
use fsdiff.Prelude.{ℕ, ◌/◌, ◌^◌, Bool, true, false, not, ◌&&◌, List, Option, none, some, length}
use fsdiff.Status.{Result, ok, err, ◌>>=◌, ◌>>◌, guard, invalid_arg, out_of_memory, cancelled}
use fsdiff.Simd.{Dispatch}
use fsdiff.Tracker.Operations.{Tracker, tracker_create, finalize}
use fsdiff.Stages.{count_fn_of}
use fsdiff.Stages.Match.{Work}
use fsdiff.Stages.Identity.{IdentityStage, identity_create, identity_run}
use fsdiff.Stages.Relocation.{
  RelocationStage, relocation_create, relocation_build_index, relocation_run,
}
use fsdiff.Stages.Fsmap.{Filesystem, FsmapStage, fsmap_create, fsmap_build_index, fsmap_run}
use fsdiff.Stages.Partial.{PartialStage, partial_create, partial_build_index, partial_run}

-- `fsd_diff_options_t` as the controller reads it; `search_radius` is 0 where it is not positive, and
-- `threshold_count` is `(size_t)(partial_threshold * block_size)`.
pub record Options : Type 0 where
  pub block_size_log2 : ℕ
  pub enable_identity : Bool
  pub enable_relocation : Bool
  pub enable_partial : Bool
  pub enable_fsmap : Bool
  pub threshold_count : ℕ
  pub search_radius : ℕ

-- Whether each allocation of the controller and of its stages succeeds.
pub record Memory : Type 0 where
  pub controller : Bool
  pub tracker : Bool
  pub blocks : Bool
  pub bitmap : Bool
  pub pool : Bool
  pub identity : Bool
  pub relocation : Bool
  pub relocation_pool : Bool
  pub fsmap : Bool
  pub partial : Bool
  pub hash_table : Bool
  pub hash_buckets : Bool
  pub hash_entry : ℕ → Bool
  pub fsmap_pool : Bool
  pub path_table : Bool
  pub path_buckets : Bool
  pub path_entry : ℕ → Bool

-- `fsd_stage_controller_t`
pub record Controller : Type 0 where
  pub block_size : ℕ
  pub identity : Option IdentityStage
  pub relocation : Option RelocationStage
  pub fsmap : Option FsmapStage
  pub partial : Option PartialStage
  pub tracker : Tracker

-- A stage that is created where its option is on.
abbrev pub create_if : {A : Type 0} → Bool → Result A → Result (Option A)
create_if false create = ok none
create_if true create = do a ← create; ok (some a)

-- `fsd_stage_controller_create`; null options are the defaults, which the caller writes out.
unfoldable pub controller_create : Memory → Options → ℕ → ℕ → Result Controller
controller_create memory opts src_blocks dest_blocks = do
  guard (not (opts.enable_relocation && not opts.enable_identity)) invalid_arg
  guard memory.controller out_of_memory
  let block_size = 2 ^ opts.block_size_log2
  tracker ← tracker_create memory.tracker memory.blocks memory.bitmap dest_blocks block_size
  guard memory.pool out_of_memory
  identity ← create_if opts.enable_identity (identity_create memory.identity block_size)
  relocation ←
      create_if opts.enable_relocation
        (relocation_create memory.relocation memory.relocation_pool block_size src_blocks)
  fsmap ← create_if opts.enable_fsmap (fsmap_create memory.fsmap block_size opts.search_radius)
  partial ←
      create_if opts.enable_partial (partial_create memory.partial block_size opts.search_radius)
  ok (record {
    block_size = block_size;
    identity = identity;
    relocation = relocation;
    fsmap = fsmap;
    partial = partial;
    tracker = tracker;
  })

-- Where `controller_cancelled` and the fsmap stage read the two cancel flags.
pub data Moment : Type 0 where
  before_identity before_relocation before_fsmap before_partial : Moment
  at_hypothesis : ℕ → Moment

-- What the stages read besides the controller: the dispatch table, the filesystems in the two images, the
-- pool of the deltas, and whether a cancel flag is set at a moment.
pub record Surroundings (P : Type 0) : Type 0 where
  pub simd : Dispatch
  pub memory : Memory
  pub threshold_count : ℕ
  pub src_fs : Result Filesystem
  pub dest_fs : Result Filesystem
  pub pool_alloc : P → Bool × P
  pub is_cancelled : Moment → Bool

module _ {P : Type 0} (env : Surroundings P) (src dest : List ℕ) where
  -- The four parts of `fsd_stage_controller_run`.
  unfoldable pub run_identity : ℕ → Option IdentityStage → Work P → Result (Work P)
  run_identity block_size none w = ok w
  run_identity block_size (some stage) w = do
    guard (not (env.is_cancelled before_identity)) cancelled
    t ←
        identity_run env.simd stage w.tracker src (length src / block_size) dest
          (length dest / block_size)
    ok (record w { tracker = t })

  unfoldable pub run_relocation : Option RelocationStage → Work P → Result (Work P)
  run_relocation none w = ok w
  run_relocation (some stage) w = do
    guard (not (env.is_cancelled before_relocation)) cancelled
    indexed ←
        relocation_build_index env.memory.hash_table env.memory.hash_buckets env.memory.hash_entry
          stage src
    t ← relocation_run indexed w.tracker src dest
    ok (record w { tracker = t })

  unfoldable pub run_fsmap : Option FsmapStage → Work P → Result (Work P)
  run_fsmap none w = ok w
  run_fsmap (some stage) w = do
    guard (not (env.is_cancelled before_fsmap)) cancelled
    indexed ←
        fsmap_build_index env.memory.fsmap_pool env.memory.path_table env.memory.path_buckets
          env.memory.path_entry stage env.src_fs env.dest_fs (length src) w.tracker
    fsmap_run env.pool_alloc (count_fn_of env.simd) (λ h. env.is_cancelled (at_hypothesis h))
        indexed env.threshold_count src dest w.tracker w.pool

  unfoldable pub run_partial : ℕ → Option PartialStage → Work P → Result (Work P)
  run_partial block_size none w = ok w
  run_partial block_size (some stage) w = do
    guard (not (env.is_cancelled before_partial)) cancelled
    indexed ← partial_build_index stage (length src / block_size)
    partial_run env.pool_alloc (count_fn_of env.simd) indexed env.threshold_count src dest w.tracker
        w.pool

  -- The stages in their order, and the end of the run.
  unfoldable pub run_stages : Controller → P → Result (Work P)
  unfolding run_identity run_relocation run_fsmap run_partial
  run_stages ctrl pool = do
    w1 ← run_identity ctrl.block_size ctrl.identity (record { tracker = ctrl.tracker; pool = pool })
    w2 ← run_relocation ctrl.relocation w1
    w3 ← run_fsmap ctrl.fsmap w2
    w4 ← run_partial ctrl.block_size ctrl.partial w3
    ok (record w4 { tracker = finalize (length w4.tracker.blocks) 0 w4.tracker })

-- `fsd_stage_controller_run`, on the data pointers of the two images: a null one is refused.
unfoldable pub controller_run :
    {P : Type 0}
    → Surroundings P
    → Option (List ℕ)
    → Option (List ℕ)
    → Controller
    → P
    → Result (Work P)
unfolding run_stages
controller_run env (some src) (some dest) ctrl pool = run_stages env src dest ctrl pool
controller_run env none dest ctrl pool = err invalid_arg
controller_run env (some src) none ctrl pool = err invalid_arg
