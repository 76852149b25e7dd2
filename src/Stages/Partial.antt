-- ===== src/Stages/Partial.antt =====
-- src/stages/stage_partial.c: the last stage. `threshold_count` is `(size_t)(threshold * block_size)`,
-- a product of floating point numbers. The memory pool is its state with an allocation that may fail.
use fsdiff.Prelude.{
  ℕ, zero, suc, ◌+◌, ◌-◌, ◌*◌, ◌/◌, Bool, not, ◌||◌, ◌&&◌, List, Option, none, some, length, ltb,
  leb, ◌==◌, if◌then◌else◌,
}
use fsdiff.Prelude.Int.{ℤ, pos, sub_ℕ, ◌+ℤ◌, ◌-ℤ◌}
use fsdiff.Status.{Result, ok, ◌>>◌, guard, invalid_arg, out_of_memory}
use fsdiff.Tracker.{BlockState, relocate, partial, same_type}
use fsdiff.Tracker.Operations.{Tracker, is_unmatched, get}
use fsdiff.Stages.Match.{Best, best_of, Work, take_match, src_block_at, dest_block_at}
use fsdiff.Stages.Search.{out_of_bounds, search_best}

-- `fsd_partial_stage_t`, without the floating point `threshold`.
pub record PartialStage : Type 0 where
  pub block_size : ℕ
  pub search_range : ℕ
  pub src_blocks : ℕ
  pub src_size : ℕ

-- `fsd_partial_stage_create`; a radius that is not positive is 0.
unfoldable pub partial_create : Bool → ℕ → ℕ → Result PartialStage
partial_create calloc block_size search_radius_blocks = do
  guard (ltb 0 block_size) invalid_arg
  guard calloc out_of_memory
  ok (record {
    block_size = block_size;
    search_range = (if search_radius_blocks == 0 then 8 else search_radius_blocks) * block_size;
    src_blocks = 0;
    src_size = 0;
  })

-- `fsd_partial_stage_build_index`
unfoldable pub partial_build_index : PartialStage → ℕ → Result PartialStage
partial_build_index stage src_blocks =
    ok (record stage { src_blocks = src_blocks; src_size = src_blocks * stage.block_size })

-- `prev_was_relocated` with `prev_src_pos`: the position is read where the flag is set only.
abbrev pub previous_of : ℕ → Option BlockState → Option ℤ
previous_of block_size none = none
previous_of block_size (some prev) =
    if same_type prev.match_type relocate || same_type prev.match_type partial
    then some (pos (prev.src_index * block_size + prev.byte_offset))
    else none

module _ {P : Type 0} (pool_alloc : P → Bool × P) (count_fn : List ℕ → List ℕ → ℕ)
    (block_size src_size : ℕ) (src dest : List ℕ) where
  -- The loop that extends a match to the next blocks, with `n` to go; it ends at the first block that has a
  -- match, is out of the source, is below the threshold or gets no memory.
  unfoldable pub extend_loop : ℕ → ℤ → ℕ → ℕ → Work P → Work P
  unfolding take_match
  extend_loop threshold_count best_offset zero ext_idx w = w
  extend_loop threshold_count best_offset (suc n) ext_idx w =
      let ext_src_pos = pos (ext_idx * block_size) +ℤ best_offset in
      let (stored, w') = take_match block_size src dest pool_alloc ext_idx ext_src_pos w in
      let rest = extend_loop threshold_count best_offset n (ext_idx + 1) w' in
      if not (is_unmatched w.tracker ext_idx)
      then w
      else if out_of_bounds block_size src_size ext_src_pos
      then w
      else if ltb
          (count_fn (src_block_at block_size src ext_src_pos)
            (dest_block_at block_size dest ext_idx))
          threshold_count
      then w
      else if stored
      then rest
      else w'

  -- The two probes, at the continuation of the previous block's match and at the block's own position:
  -- `quick_matched` with what the probe found.
  unfoldable pub probe : ℕ → ℤ → ℕ → Option Best
  probe quick_accept p dest_idx =
      let c = count_fn (src_block_at block_size src p) (dest_block_at block_size dest dest_idx) in
      if out_of_bounds block_size src_size p
      then none
      else if leb quick_accept c
      then some (record { offset = p -ℤ pos (dest_idx * block_size); count = c })
      else none

  abbrev pub or_else : Option Best → Option Best → Option Best
  or_else (some best) _ = some best
  or_else none other = other

  unfoldable pub probes : ℕ → Option ℤ → ℕ → Option Best
  unfolding probe
  probes quick_accept none dest_idx = probe quick_accept (pos (dest_idx * block_size)) dest_idx
  probes quick_accept (some prev_src_pos) dest_idx =
      or_else (probe quick_accept (prev_src_pos +ℤ pos block_size) dest_idx)
        (probe quick_accept (pos (dest_idx * block_size)) dest_idx)

  -- The sweep around the block's position, unless a probe matched.
  unfoldable pub sweep : ℕ → ℕ → Option Best → ℕ → Best
  sweep search_range threshold_count (some best) dest_idx = best
  sweep search_range threshold_count none dest_idx = best_of (
      search_best count_fn src (dest_block_at block_size dest dest_idx) block_size src_size
        (pos (dest_idx * block_size)) (sub_ℕ 0 search_range) (search_range + search_range + 1)
        threshold_count)

  -- The sweep after the previous block's match, where the first one found nothing.
  unfoldable pub sweep_after : ℕ → ℕ → Option ℤ → Best → ℕ → Best
  sweep_after search_range threshold_count none best dest_idx = best
  sweep_after search_range threshold_count (some prev_src_pos) best dest_idx =
      let reloc_base = prev_src_pos +ℤ pos block_size in
      let reloc = best_of (
        search_best count_fn src (dest_block_at block_size dest dest_idx) block_size src_size
          reloc_base (pos 0) (search_range + 1) threshold_count) in
      if ltb best.count threshold_count
        && (leb threshold_count reloc.count && ltb best.count reloc.count)
      then record {
        offset = reloc_base +ℤ reloc.offset -ℤ pos (dest_idx * block_size);
        count = reloc.count;
      }
      else best

  -- What is done with the best position: the check of the bounds, the match, and its extension
  -- to the `n` blocks after this one.
  unfoldable pub accept : ℕ → Best → ℕ → ℕ → Work P → Work P
  unfolding take_match extend_loop
  accept threshold_count best n dest_idx w =
      let src_pos = pos (dest_idx * block_size) +ℤ best.offset in
      let (stored, w') = take_match block_size src dest pool_alloc dest_idx src_pos w in
      let extended = extend_loop threshold_count best.offset n (dest_idx + 1) w' in
      if ltb best.count threshold_count
      then w
      else if out_of_bounds block_size src_size src_pos
      then w
      else if stored
      then extended
      else w'

  -- The body of the loop over the destination blocks.
  unfoldable pub partial_block : ℕ → ℕ → ℕ → ℕ → ℕ → Work P → Work P
  unfolding probes sweep sweep_after accept
  partial_block search_range threshold_count quick_accept n dest_idx w =
      let prev =
        if dest_idx == 0 then none else previous_of block_size (get w.tracker (dest_idx - 1)) in
      let best =
        sweep_after search_range threshold_count prev
          (sweep search_range threshold_count (probes quick_accept prev dest_idx) dest_idx)
          dest_idx in
      if not (is_unmatched w.tracker dest_idx) then w else accept threshold_count best n dest_idx w

  unfoldable pub partial_loop : ℕ → ℕ → ℕ → ℕ → ℕ → Work P → Work P
  unfolding partial_block
  partial_loop search_range threshold_count quick_accept zero dest_idx w = w
  partial_loop search_range threshold_count quick_accept (suc n) dest_idx w =
      partial_loop search_range threshold_count quick_accept n (dest_idx + 1)
        (partial_block search_range threshold_count quick_accept n dest_idx w)

-- At least one matching byte, and the bar of the probes.
abbrev pub least_count : ℕ → ℕ
least_count threshold_count = if threshold_count == 0 then 1 else threshold_count

abbrev pub quick_accept_of : ℕ → ℕ → ℕ
quick_accept_of block_size threshold_count =
    let nine_tenths = (block_size * 9 + 9) / 10 in
    if ltb nine_tenths threshold_count then threshold_count else nine_tenths

-- `fsd_partial_stage_run`
unfoldable pub partial_run :
    {P : Type 0}
    → (P → Bool × P)
    → (List ℕ → List ℕ → ℕ)
    → PartialStage
    → ℕ
    → List ℕ
    → List ℕ
    → Tracker
    → P
    → Result (Work P)
unfolding partial_loop
partial_run pool_alloc count_fn stage threshold_count src dest tracker pool = ok (
    partial_loop pool_alloc count_fn stage.block_size stage.src_size src dest stage.search_range
      (least_count threshold_count) (quick_accept_of stage.block_size (least_count threshold_count))
      (length tracker.blocks) 0 (record { tracker = tracker; pool = pool }))
