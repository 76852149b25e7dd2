-- ===== src/Stages/Fsmap.antt =====
-- src/stages/stage_fsmap.c: the stage that follows the files of two ext filesystems. The calls of
-- `src_walk_cb` and `dest_walk_cb` that `fsd_extfs_walk` makes on an image are a list of files.
use fsdiff.Prelude.{
  ℕ, zero, suc, ◌+◌, ◌-◌, ◌*◌, ◌/◌, ◌%◌, Bool, not, ◌&&◌, List, [], ◌∷◌, ◌++◌, Option, none, some,
  length, get_elem?, ltb, leb, ◌==◌, if◌then◌else◌,
}
use fsdiff.Prelude.Int.{pos, pos_part, neg_part, sub_ℕ, ◌+ℤ◌}
use fsdiff.Status.{Result, ok, err, ◌>>=◌, ◌>>◌, guard, invalid_arg, out_of_memory, cancelled}
use fsdiff.Wire.{u64}
use fsdiff.Crc32.{crc32}
use fsdiff.HashTable.{Entry, HashTable, table_create, insert, lookup}
use fsdiff.Tracker.Operations.{Tracker, is_unmatched}
use fsdiff.Stages.{same_block}
use fsdiff.Stages.Partial.{least_count}
use fsdiff.Stages.Search.{out_of_bounds, search_best}
use fsdiff.Stages.Match.{Work, Best, best_of, take_match, src_block_at, dest_block_at}

-- `fsd_ext_extent_t`
pub record Extent : Type 0 where
  pub logical : ℕ
  pub physical : ℕ
  pub count : ℕ

-- A call of a walk's callback.
pub record File : Type 0 where
  pub path : List ℕ
  pub extents : List Extent

-- `hypothesis_t`
pub record Hypothesis : Type 0 where
  pub dest_block : ℕ
  pub src_pos : ℕ

-- The file table of the source: `src_files` and `path_hash`.
pub record SourceFiles : Type 0 where
  pub src_files : List File
  pub path_hash : HashTable

-- `src_walk_cb`, where the pool has room; `alloc i` says whether it has for the hash entry of file `i`.
abbrev pub add_file : (ℕ → Bool) → File → SourceFiles → SourceFiles
add_file alloc file s = if length file.extents == 0 then s else record {
  src_files = s.src_files ++ file ∷ [];
  path_hash =
      insert (alloc (length s.src_files)) s.path_hash (crc32 file.path) (length s.src_files);
}

-- The walk of the source.
unfoldable pub source_walk : (ℕ → Bool) → List File → SourceFiles → SourceFiles
source_walk alloc [] s = s
source_walk alloc (file ∷ files) s = source_walk alloc files (add_file alloc file s)

-- `src_file_find`
unfoldable pub find_in_chain : List File → ℕ → List ℕ → List Entry → Option File
find_in_chain src_files crc path [] = none
find_in_chain src_files crc path (e ∷ next) =
    let rest = find_in_chain src_files crc path next in
    elim (get_elem? src_files e.block_index) [
      | none ↦ rest
      | some f ↦ if (e.crc32 == crc) && same_block f.path path then some f else rest
    ]

unfoldable pub src_file_find : SourceFiles → List ℕ → Option File
unfolding find_in_chain
src_file_find s path = find_in_chain s.src_files (crc32 path) path (lookup s.path_hash (crc32 path))

-- `src_map_range`
unfoldable pub src_map_range : List Extent → ℕ → ℕ → ℕ → Option ℕ
src_map_range [] fs_block_size logical_byte len = none
src_map_range (e ∷ extents) fs_block_size logical_byte len =
    let ext_lo = u64 (e.logical * fs_block_size) in
    let ext_bytes = u64 (e.count * fs_block_size) in
    let rest = src_map_range extents fs_block_size logical_byte len in
    if leb ext_lo logical_byte && leb (u64 (logical_byte + len)) (u64 (ext_lo + ext_bytes))
    then some (u64 (e.physical * fs_block_size + (logical_byte - ext_lo)))
    else rest

module _ (tracker : Tracker) (block_size src_size src_fs_bs dest_fs_bs : ℕ) where
  -- The position that the file's source extents give a block, if it is inside the source.
  unfoldable pub hypothesis_at : List Extent → ℕ → ℕ → List Hypothesis
  hypothesis_at src_extents b logical_byte =
      within (src_map_range src_extents src_fs_bs logical_byte block_size)
    where
      within : Option ℕ → List Hypothesis
      within none = []
      within (some src_pos) =
          if ltb src_size (u64 (src_pos + block_size))
          then []
          else record { dest_block = b; src_pos = src_pos } ∷ []

  -- The loop over the blocks of an extent, with `n` to go from block `b` on.
  unfoldable pub extent_loop : List Extent → Extent → ℕ → ℕ → List Hypothesis
  unfolding hypothesis_at
  extent_loop src_extents e zero b = []
  extent_loop src_extents e (suc n) b =
      let rest = extent_loop src_extents e n (b + 1) in
      if is_unmatched tracker b
      then hypothesis_at src_extents b
          (u64 (e.logical * dest_fs_bs + (b * block_size - u64 (e.physical * dest_fs_bs))))
        ++ rest
      else rest

  -- The loop over the extents of a destination file: the blocks that lie in each.
  unfoldable pub extents_loop : List Extent → List Extent → List Hypothesis
  unfolding extent_loop
  extents_loop src_extents [] = []
  extents_loop src_extents (e ∷ extents) =
      let phys_lo = u64 (e.physical * dest_fs_bs) in
      let phys_hi = u64 (phys_lo + e.count * dest_fs_bs) in
      let first = u64 (phys_lo + block_size - 1) / block_size in
      extent_loop src_extents e (phys_hi / block_size - first) first
      ++ extents_loop src_extents extents

  -- `dest_walk_cb`: a file whose path the source does not have gives none.
  unfoldable pub dest_walk_cb : SourceFiles → File → List Hypothesis
  unfolding extents_loop src_file_find
  dest_walk_cb s file = found (src_file_find s file.path)
    where
      found : Option File → List Hypothesis
      found none = []
      found (some f) = extents_loop f.extents file.extents

  unfoldable pub dest_walk : SourceFiles → List File → List Hypothesis
  unfolding dest_walk_cb
  dest_walk s [] = []
  dest_walk s (file ∷ files) = dest_walk_cb s file ++ dest_walk s files

-- `hyp_cmp(a, b) <= 0`
abbrev pub hyp_leb : Hypothesis → Hypothesis → Bool
hyp_leb a b =
    if a.dest_block == b.dest_block then leb a.src_pos b.src_pos else ltb a.dest_block b.dest_block

-- `qsort` by `hyp_cmp`, which tells apart any two different hypotheses: the result is the one sorted list.
unfoldable pub sort_insert : Hypothesis → List Hypothesis → List Hypothesis
sort_insert h [] = h ∷ []
sort_insert h (g ∷ gs) = let rest = sort_insert h gs in if hyp_leb h g then h ∷ g ∷ gs else g ∷ rest

unfoldable pub sort : List Hypothesis → List Hypothesis
unfolding sort_insert
sort [] = []
sort (h ∷ hs) = sort_insert h (sort hs)

-- The loop that keeps the first hypothesis of every block; `kept` is the last one kept.
unfoldable pub drop_duplicates : Hypothesis → List Hypothesis → List Hypothesis
drop_duplicates kept [] = []
drop_duplicates kept (h ∷ hs) =
    if h.dest_block == kept.dest_block then drop_duplicates kept hs else h ∷ drop_duplicates h hs

unfoldable pub unique : List Hypothesis → List Hypothesis
unfolding drop_duplicates
unique [] = []
unique (h ∷ hs) = h ∷ drop_duplicates h hs

-- The position of a hypothesis, or the better one that a sweep around it finds.
abbrev pub exact_or_sweep : ℕ → ℕ → ℕ → ℕ → Best → Best
exact_or_sweep block_size src_size hyp_pos exact swept =
    let cand = pos hyp_pos +ℤ swept.offset in
    if leb block_size exact
    then record { offset = pos hyp_pos; count = exact }
    else if ltb exact swept.count
        && (not (pos_part swept.offset + neg_part swept.offset == 0)
            && not (out_of_bounds block_size src_size cand))
    then record { offset = cand; count = swept.count }
    else record { offset = pos hyp_pos; count = exact }

module _ (count_fn : List ℕ → List ℕ → ℕ) (block_size src_size : ℕ) (src dest : List ℕ) where
  -- The count at the position of the hypothesis.
  abbrev pub exact_count : Hypothesis → ℕ
  exact_count h =
      count_fn (src_block_at block_size src (pos h.src_pos))
        (dest_block_at block_size dest h.dest_block)

  -- The directed sweep around it.
  abbrev pub sweep_around : ℕ → ℕ → Hypothesis → Best
  sweep_around search_range threshold_count h = best_of (
      search_best count_fn src (dest_block_at block_size dest h.dest_block) block_size src_size
        (pos h.src_pos) (sub_ℕ 0 search_range) (search_range + search_range + 1) threshold_count)

  -- Here the offset of `Best` is the source position.
  unfoldable pub refine : ℕ → ℕ → Hypothesis → Best
  refine search_range threshold_count h =
      exact_or_sweep block_size src_size h.src_pos (exact_count h)
        (sweep_around search_range threshold_count h)

  -- One hypothesis: nothing for a matched block or a count below the threshold.
  unfoldable pub test_hypothesis :
      {P : Type 0} → (P → Bool × P) → ℕ → ℕ → Hypothesis → Work P → Work P
  unfolding refine take_match
  test_hypothesis pool_alloc search_range threshold_count h w =
      let best = refine search_range threshold_count h in
      if not (is_unmatched w.tracker h.dest_block)
      then w
      else if ltb (exact_count h) block_size && ltb best.count threshold_count
      then w
      else (take_match block_size src dest pool_alloc h.dest_block best.offset w).1

  -- The loop over the hypotheses, `h` of them done: the cancel flags, which `is_cancelled h` reads, are
  -- looked at every CANCEL_CHECK_INTERVAL hypotheses.
  unfoldable pub hypothesis_loop :
      {P : Type 0}
      → (P → Bool × P)
      → (ℕ → Bool)
      → ℕ
      → ℕ
      → List Hypothesis
      → ℕ
      → Work P
      → Result (Work P)
  unfolding test_hypothesis
  hypothesis_loop pool_alloc is_cancelled search_range threshold_count [] h w = ok w
  hypothesis_loop pool_alloc is_cancelled search_range threshold_count (hyp ∷ hyps) h w =
      let rest =
        hypothesis_loop pool_alloc is_cancelled search_range threshold_count hyps (h + 1)
          (test_hypothesis pool_alloc search_range threshold_count hyp w) in
      if (h % 256 == 0) && is_cancelled h then err cancelled else rest

-- `fsd_fsmap_stage_t` as the run reads it; `hyps` is empty where the stage is inactive.
pub record FsmapStage : Type 0 where
  pub block_size : ℕ
  pub search_range : ℕ
  pub hyps : List Hypothesis
  pub src_size : ℕ

-- `fsd_fsmap_stage_create`; a radius that is not positive is 0.
unfoldable pub fsmap_create : Bool → ℕ → ℕ → Result FsmapStage
fsmap_create calloc block_size search_radius_blocks = do
  guard (ltb 0 block_size) invalid_arg
  guard calloc out_of_memory
  ok (record {
    block_size = block_size;
    search_range = (if search_radius_blocks == 0 then 8 else search_radius_blocks) * block_size;
    hyps = [];
    src_size = 0;
  })

-- What `fsd_extfs_open` and `fsd_extfs_walk` give for an image: the size of the filesystem's blocks and
-- the files, in the order of the walk.
pub record Filesystem : Type 0 where
  pub fs_block_size : ℕ
  pub files : List File

-- `fsd_fsmap_stage_build_index`: an image that is no supported filesystem leaves the stage inactive, and
-- only a lack of memory is an error. The callbacks' allocations succeed.
abbrev pub open_fs : {A : Type 0} → Result Filesystem → A → (Filesystem → Result A) → Result A
open_fs (ok fs) inactive next = next fs
open_fs (err out_of_memory) inactive next = err out_of_memory
open_fs (err _) inactive next = ok inactive

unfoldable pub fsmap_build_index :
    Bool
    → Bool
    → Bool
    → (ℕ → Bool)
    → FsmapStage
    → Result Filesystem
    → Result Filesystem
    → ℕ
    → Tracker
    → Result FsmapStage
unfolding source_walk dest_walk sort unique
fsmap_build_index pool alloc_table alloc_buckets alloc stage src_fs dest_fs src_size tracker =
    let inactive = record stage { hyps = []; src_size = src_size } in
    open_fs src_fs inactive (λ src_fs. open_fs dest_fs inactive (λ dest_fs. do
      guard pool out_of_memory
      path_hash ← table_create alloc_table alloc_buckets 16384
      let s = source_walk alloc src_fs.files (record { src_files = []; path_hash = path_hash })
      let hyps =
          dest_walk tracker stage.block_size src_size src_fs.fs_block_size dest_fs.fs_block_size s
            dest_fs.files
      ok (record stage { hyps = unique (sort hyps); src_size = src_size })))

-- `fsd_fsmap_stage_run`
unfoldable pub fsmap_run :
    {P : Type 0}
    → (P → Bool × P)
    → (List ℕ → List ℕ → ℕ)
    → (ℕ → Bool)
    → FsmapStage
    → ℕ
    → List ℕ
    → List ℕ
    → Tracker
    → P
    → Result (Work P)
unfolding hypothesis_loop
fsmap_run pool_alloc count_fn is_cancelled stage threshold_count src dest tracker pool =
    hypothesis_loop count_fn stage.block_size stage.src_size src dest pool_alloc is_cancelled
      stage.search_range (least_count threshold_count) stage.hyps 0
      (record { tracker = tracker; pool = pool })
