-- ===== src/Stages/Returns.antt =====
-- With memory enough and no cancel request, `fsd_stage_controller_create` and `fsd_stage_controller_run` return.
use fsdiff.Prelude.{
  ℕ, ◌+◌, ◌/◌, ◌%◌, ◌^◌, ◌<◌, ◌≤◌, ◌≡◌, ◌≢◌, Bool, true, false, not, ◌&&◌, ◌||◌, List, [], ◌∷◌,
  Option, none, some, length, ltb, ◌==◌, arith, refl,
}
use fsdiff.Status.{Error, Result, ok, err, ◌>>=◌, guard, invalid_arg, out_of_memory, cancelled}
use fsdiff.HashTable.{table_create}
use fsdiff.Prelude.Digits.{two_pow_pos}
use fsdiff.Stages.Index.{Lies}
use fsdiff.Tracker.Operations.{tracker_create}
use fsdiff.Stages.{count_fn_of}
use fsdiff.Stages.Match.{Work}
use fsdiff.Stages.Identity.{IdentityStage, identity_create, identity_run}
use fsdiff.Stages.Relocation.{
  RelocationStage, relocation_create, relocation_build_index, relocation_run, index_loop,
}
use fsdiff.Stages.Fsmap.{
  Filesystem, Hypothesis, FsmapStage, open_fs, fsmap_create, fsmap_build_index, fsmap_run,
  hypothesis_loop, test_hypothesis,
}
use fsdiff.Stages.Partial.{
  PartialStage, partial_create, partial_build_index, partial_run, least_count,
}
use fsdiff.Stages.Controller.{
  Options, Memory, Controller, create_if, controller_create, Moment, Surroundings, run_identity,
  run_relocation, run_fsmap, run_partial, run_stages, controller_run, before_identity,
  before_relocation, before_fsmap, before_partial, at_hypothesis,
}

-- Every allocation succeeds that is checked.
pub record Enough (memory : Memory) : Type 0 where
  pub controller : memory.controller ≡ true
  pub tracker : memory.tracker ≡ true
  pub blocks : memory.blocks ≡ true
  pub bitmap : memory.bitmap ≡ true
  pub pool : memory.pool ≡ true
  pub identity : memory.identity ≡ true
  pub relocation : memory.relocation ≡ true
  pub relocation_pool : memory.relocation_pool ≡ true
  pub fsmap : memory.fsmap ≡ true
  pub partial : memory.partial ≡ true
  pub hash_table : memory.hash_table ≡ true
  pub hash_buckets : memory.hash_buckets ≡ true
  pub fsmap_pool : memory.fsmap_pool ≡ true
  pub path_table : memory.path_table ≡ true
  pub path_buckets : memory.path_buckets ≡ true

-- A call returned.
abbrev pub Returns : {A : Type 0} → Result A → Type 0
Returns {A} r = (a : A) × (r ≡ ok a)

then-Returns :
    {A B : Type 0} (r : Result A) (f : A → Result B)
    → Returns r
    → ((a : A) → Returns (f a))
    → Returns (r >>= f)
then-Returns r f (a, e) h = let (b, e') = h a in (b, rw e e')

at-Returns :
    {A B : Type 0} (r : Result A) (f : A → Result B) (a : A)
    → r ≡ ok a
    → Returns (f a)
    → Returns (r >>= f)
at-Returns r f a e (b, e') = (b, rw e e')

guard-Returns : (b : Bool) (e : Error) → b ≡ true → Returns (guard b e)
guard-Returns b e h = (tt, rw h refl)

create_if-Returns : {A : Type 0} (b : Bool) (r : Result A) → Returns r → Returns (create_if b r)
create_if-Returns false r h = (none, refl)
create_if-Returns true r (a, e) = (some a, rw e refl)

table_create-Returns : (n : ℕ) (a b : Bool) → a ≡ true → b ≡ true → Returns (table_create a b n)
unfolding table_create
table_create-Returns n a b ha hb =
    then-Returns (guard a out_of_memory) _ (guard-Returns a out_of_memory ha) (λ _.
      then-Returns (guard b out_of_memory) _ (guard-Returns b out_of_memory hb) (λ _. (_, refl)))

module _ (memory : Memory) (enough : Enough memory) where
  identity_create-Returns : (b : ℕ) → 0 < b → Returns (identity_create memory.identity b)
  unfolding identity_create
  identity_create-Returns b h =
      then-Returns (guard (ltb 0 b) invalid_arg) _
        (guard-Returns (ltb 0 b) invalid_arg (ground arith))
        (λ _.
          then-Returns (guard memory.identity out_of_memory) _
            (guard-Returns memory.identity out_of_memory enough.identity) (λ _. (_, refl)))

  relocation_create-Returns :
      (b n : ℕ) → 0 < b → Returns (relocation_create memory.relocation memory.relocation_pool b n)
  unfolding relocation_create
  relocation_create-Returns b n h =
      then-Returns (guard (ltb 0 b) invalid_arg) _
        (guard-Returns (ltb 0 b) invalid_arg (ground arith))
        (λ _.
          then-Returns (guard memory.relocation out_of_memory) _
            (guard-Returns memory.relocation out_of_memory enough.relocation)
            (λ _.
              then-Returns (guard memory.relocation_pool out_of_memory) _
                (guard-Returns memory.relocation_pool out_of_memory enough.relocation_pool)
                (λ _. (_, refl))))

  fsmap_create-Returns : (b r : ℕ) → 0 < b → Returns (fsmap_create memory.fsmap b r)
  unfolding fsmap_create
  fsmap_create-Returns b r h =
      then-Returns (guard (ltb 0 b) invalid_arg) _
        (guard-Returns (ltb 0 b) invalid_arg (ground arith))
        (λ _.
          then-Returns (guard memory.fsmap out_of_memory) _
            (guard-Returns memory.fsmap out_of_memory enough.fsmap) (λ _. (_, refl)))

  partial_create-Returns : (b r : ℕ) → 0 < b → Returns (partial_create memory.partial b r)
  unfolding partial_create
  partial_create-Returns b r h =
      then-Returns (guard (ltb 0 b) invalid_arg) _
        (guard-Returns (ltb 0 b) invalid_arg (ground arith))
        (λ _.
          then-Returns (guard memory.partial out_of_memory) _
            (guard-Returns memory.partial out_of_memory enough.partial) (λ _. (_, refl)))

  tracker_create-Returns :
      (n b : ℕ)
      → 0 < n
      → 0 < b
      → Returns (tracker_create memory.tracker memory.blocks memory.bitmap n b)
  unfolding tracker_create
  tracker_create-Returns n b hn hb =
      let some_blocks : not (n == 0 || b == 0) ≡ true = ground arith in
      then-Returns (guard (not (n == 0 || b == 0)) invalid_arg) _
        (guard-Returns _ invalid_arg some_blocks)
        (λ _.
          then-Returns (guard memory.tracker out_of_memory) _
            (guard-Returns memory.tracker out_of_memory enough.tracker)
            (λ _.
              then-Returns (guard memory.blocks out_of_memory) _
                (guard-Returns memory.blocks out_of_memory enough.blocks)
                (λ _.
                  then-Returns (guard memory.bitmap out_of_memory) _
                    (guard-Returns memory.bitmap out_of_memory enough.bitmap) (λ _. (_, refl)))))

  pub controller_create-Returns :
      (opts : Options) (src_blocks dest_blocks : ℕ)
      → 0 < 2 ^ opts.block_size_log2
      → 0 < dest_blocks
      → (opts.enable_relocation && not opts.enable_identity) ≡ false
      → Returns (controller_create memory opts src_blocks dest_blocks)
  unfolding controller_create
  controller_create-Returns opts src_blocks dest_blocks hb hn allowed =
      let b = 2 ^ opts.block_size_log2 in
      then-Returns (guard (not (opts.enable_relocation && not opts.enable_identity)) invalid_arg) _
        (guard-Returns _ invalid_arg (rw allowed refl))
        (λ _.
          then-Returns (guard memory.controller out_of_memory) _
            (guard-Returns memory.controller out_of_memory enough.controller)
            (λ _.
              then-Returns (tracker_create memory.tracker memory.blocks memory.bitmap dest_blocks b)
                _ (tracker_create-Returns dest_blocks b hn hb)
                (λ _.
                  then-Returns (guard memory.pool out_of_memory) _
                    (guard-Returns memory.pool out_of_memory enough.pool)
                    (λ _.
                      then-Returns
                        (create_if opts.enable_identity (identity_create memory.identity b)) _
                        (create_if-Returns opts.enable_identity _ (identity_create-Returns b hb))
                        (λ _.
                          then-Returns
                            (create_if opts.enable_relocation (
                              relocation_create memory.relocation memory.relocation_pool b
                                src_blocks))
                            _
                            (create_if-Returns opts.enable_relocation _
                              (relocation_create-Returns b src_blocks hb))
                            (λ _.
                              then-Returns
                                (create_if opts.enable_fsmap
                                  (fsmap_create memory.fsmap b opts.search_radius))
                                _
                                (create_if-Returns opts.enable_fsmap _
                                  (fsmap_create-Returns b opts.search_radius hb))
                                (λ _.
                                  then-Returns
                                    (create_if opts.enable_partial
                                      (partial_create memory.partial b opts.search_radius))
                                    _
                                    (create_if-Returns opts.enable_partial _
                                      (partial_create-Returns b opts.search_radius hb))
                                    (λ _. (_, refl)))))))))

module _ {P : Type 0} (env : Surroundings P) (src dest : List ℕ) where
  -- Memory enough, no cancel request, and the walks of the filesystems have memory too.
  pub record Unhindered : Type 0 where
    pub enough : Enough env.memory
    pub goes_on : (m : Moment) → env.is_cancelled m ≡ false
    pub src_opens : env.src_fs ≢ err out_of_memory
    pub dest_opens : env.dest_fs ≢ err out_of_memory

  open_fs-Returns :
      {A : Type 0} (r : Result Filesystem) (inactive : A) (next : Filesystem → Result A)
      → r ≢ err out_of_memory
      → ((fs : Filesystem) → Returns (next fs))
      → Returns (open_fs r inactive next)
  open_fs-Returns (ok fs) inactive next h k = k fs
  open_fs-Returns (err out_of_memory) inactive next h k = absurd (h refl)
  open_fs-Returns (err _) inactive next h k = (inactive, refl)

  hypothesis_loop-Returns :
      (is_cancelled : ℕ → Bool)
      → ((h : ℕ) → is_cancelled h ≡ false)
      → (count_fn : List ℕ → List ℕ → ℕ) (block_size src_size search_range threshold_count : ℕ)
        (hyps : List Hypothesis) (h : ℕ) (w : Work P)
      → Returns (
          hypothesis_loop count_fn block_size src_size src dest env.pool_alloc is_cancelled
            search_range threshold_count hyps h w)
  unfolding hypothesis_loop
  hypothesis_loop-Returns is_cancelled on count_fn b n r c [] h w = (w, refl)
  hypothesis_loop-Returns is_cancelled on count_fn b n r c (hyp ∷ hyps) h w =
      let go : ((h % 256 == 0) && is_cancelled h) ≡ false = rw (on h) (and_false (h % 256 == 0)) in
      rw go (
        hypothesis_loop-Returns is_cancelled on count_fn b n r c hyps (h + 1)
          (test_hypothesis count_fn b n src dest env.pool_alloc r c hyp w))
    where
      and_false : (b : Bool) → (b && false) ≡ false
      and_false true = refl
      and_false false = refl

  module _ (free : Unhindered) where
    goes : (m : Moment) → Returns (guard (not (env.is_cancelled m)) cancelled)
    goes m = guard-Returns _ cancelled (rw (free.goes_on m) refl)

    run_identity-Returns :
        (b : ℕ) (stage : Option IdentityStage) (w : Work P)
        → Returns (run_identity env src dest b stage w)
    unfolding run_identity identity_run
    run_identity-Returns b none w = (w, refl)
    run_identity-Returns b (some stage) w =
        then-Returns (guard (not (env.is_cancelled before_identity)) cancelled) _
          (goes before_identity) (λ _. (_, refl))

    run_relocation-Returns :
        (stage : Option RelocationStage) (w : Work P)
        → Returns (run_relocation env src dest stage w)
    unfolding run_relocation relocation_build_index relocation_run
    run_relocation-Returns none w = (w, refl)
    run_relocation-Returns (some stage) w =
        let m = env.memory in
        let (table, e) =
          table_create-Returns stage.src_blocks m.hash_table m.hash_buckets free.enough.hash_table
            free.enough.hash_buckets in
        let indexed : RelocationStage = record stage {
          src_hash = some (index_loop stage.block_size src m.hash_entry stage.src_blocks 0 table);
        } in
        let build = relocation_build_index m.hash_table m.hash_buckets m.hash_entry stage src in
        let built : build ≡ ok indexed = rw e refl in
        then-Returns (guard (not (env.is_cancelled before_relocation)) cancelled) _
          (goes before_relocation) (λ _. at-Returns build _ indexed built (_, refl))

    run_fsmap-Returns :
        (stage : Option FsmapStage) (w : Work P) → Returns (run_fsmap env src dest stage w)
    unfolding run_fsmap fsmap_build_index fsmap_run
    run_fsmap-Returns none w = (w, refl)
    run_fsmap-Returns (some stage) w =
        let m = env.memory in
        then-Returns (guard (not (env.is_cancelled before_fsmap)) cancelled) _ (goes before_fsmap)
          (λ _.
            then-Returns
              (fsmap_build_index m.fsmap_pool m.path_table m.path_buckets m.path_entry stage
                env.src_fs env.dest_fs (length src) w.tracker)
              _
              (open_fs-Returns env.src_fs _ _ free.src_opens (λ _.
                open_fs-Returns env.dest_fs _ _ free.dest_opens (λ _.
                  then-Returns (guard m.fsmap_pool out_of_memory) _
                    (guard-Returns m.fsmap_pool out_of_memory free.enough.fsmap_pool)
                    (λ _.
                      then-Returns (table_create m.path_table m.path_buckets 16384) _
                        (table_create-Returns 16384 m.path_table m.path_buckets
                          free.enough.path_table free.enough.path_buckets)
                        (λ _. (_, refl))))))
              (λ indexed.
                hypothesis_loop-Returns (λ h. env.is_cancelled (at_hypothesis h))
                  (λ h. free.goes_on (at_hypothesis h)) (count_fn_of env.simd) indexed.block_size
                  indexed.src_size indexed.search_range (least_count env.threshold_count)
                  indexed.hyps 0 w))

    run_partial-Returns :
        (b : ℕ) (stage : Option PartialStage) (w : Work P)
        → Returns (run_partial env src dest b stage w)
    unfolding run_partial partial_build_index partial_run
    run_partial-Returns b none w = (w, refl)
    run_partial-Returns b (some stage) w =
        then-Returns (guard (not (env.is_cancelled before_partial)) cancelled) _
          (goes before_partial) (λ _. (_, refl))

    pub run_stages-Returns :
        (ctrl : Controller) (pool : P) → Returns (run_stages env src dest ctrl pool)
    unfolding run_stages
    run_stages-Returns ctrl pool =
        let w : Work P = record { tracker = ctrl.tracker; pool = pool } in
        then-Returns (run_identity env src dest ctrl.block_size ctrl.identity w) _
          (run_identity-Returns ctrl.block_size ctrl.identity w)
          (λ w1.
            then-Returns (run_relocation env src dest ctrl.relocation w1) _
              (run_relocation-Returns ctrl.relocation w1)
              (λ w2.
                then-Returns (run_fsmap env src dest ctrl.fsmap w2) _
                  (run_fsmap-Returns ctrl.fsmap w2)
                  (λ w3.
                    then-Returns (run_partial env src dest ctrl.block_size ctrl.partial w3) _
                      (run_partial-Returns ctrl.block_size ctrl.partial w3) (λ w4. (_, refl)))))

    -- With memory enough and no cancel request, relocation enabled only with identity, blocks of 2^5 to 2^24
    -- bytes and a destination of one block or more, `fsd_stage_controller_create` returns a controller for
    -- two images, whose data pointers are not null, and `fsd_stage_controller_run` returns for this
    -- controller and these images. Each image has fewer than 2^62 bytes, and the files that an ext reader
    -- reports lie in it.
    pub controller_run-Returns :
        (opts : Options) (pool : P)
        → 5 ≤ opts.block_size_log2
        → opts.block_size_log2 ≤ 24
        → 0 < length dest / 2 ^ opts.block_size_log2
        → length src < 2 ^ 62
        → length dest < 2 ^ 62
        → Lies (length src) env.src_fs
        → Lies (length dest) env.dest_fs
        → (opts.enable_relocation && not opts.enable_identity) ≡ false
        → (ctrl : Controller) × (controller_create env.memory opts
              (length src / 2 ^ opts.block_size_log2)
              (length dest / 2 ^ opts.block_size_log2)
            ≡ ok ctrl)
          × Returns (controller_run env (some src) (some dest) ctrl pool)
    unfolding controller_run
    controller_run-Returns opts pool _ _ some_blocks _ _ _ _ allowed =
        let b = 2 ^ opts.block_size_log2 in
        let (ctrl, created) =
          controller_create-Returns env.memory free.enough opts (length src / b) (length dest / b)
            (two_pow_pos opts.block_size_log2) some_blocks allowed in
        (ctrl, created, run_stages-Returns ctrl pool)
