-- ===== src/Tests/Stages.antt =====
-- The theorems on the matching stages and on the whole of `fsd_diff_files` at concrete inputs.
use fsdiff.Prelude.{
  ℕ, suc, ◌-◌, ◌^◌, ◌≤◌, ◌<◌, ◌≡◌, true, false, List, [], ◌∷◌, ◌++◌, none, some, length, replicate,
  arith, refl, All, All-append,
}
use fsdiff.Prelude.Int.{pos, negsuc, ◌+ℤ◌}
use fsdiff.Status.{ok, err, bad_magic}
use fsdiff.Wire.{IsByte}
use fsdiff.Crc32.{crc32}
use fsdiff.Crc32.Bitwise.{bitwise_update, crc32-bitwise_update}
use fsdiff.Simd.{
  scalar_dispatch, scalar_is_zero, scalar_is_one, scalar_count_matches, byte_matches, word_matches,
  zero_bytes,
}
use fsdiff.Simd.Scalar.{same_bytes, scalar_tests-same_bytes}
use fsdiff.Simd.Matches.{scalar_count_matches_lem, byte_matches-le}
use fsdiff.Tracker.{unmatched}
use fsdiff.Tracker.Operations.{
  Tracker, tracker_create, create_blocks, create_bitmap, bitmap_set, is_unmatched, get,
}
use fsdiff.Tracker.Reachable.{Reachable, created, Reachable-is_unmatched}
use fsdiff.Decoder.Source.{mmap_source}
use fsdiff.Decoder.Apply.{applied, patch_apply}
use fsdiff.RoundTrip.Blocks.{Described}
use fsdiff.Stages.Relocation.{is_zero_block_quick}
use fsdiff.Stages.Fsmap.{File, Filesystem, FsmapStage}
use fsdiff.Stages.Controller.{
  Options, Memory, Surroundings, Controller, controller_create, controller_run,
}
use fsdiff.Stages.Steps.{scalar_dispatch-Faithful}
use fsdiff.Stages.Search.{search_best, search_loop, prescreen_of, improves, screened_out}
use fsdiff.Stages.Best.{Found, count_of, search_best-Found, search_best-greatest}
use fsdiff.Stages.Quick.{is_zero_block_quick-same_bytes}
use fsdiff.Stages.Index.{Lies, FileFits}
use fsdiff.Stages.Returns.{
  Enough, Unhindered, Returns, run_stages-Returns, controller_run-Returns,
  controller_create-Returns,
}
use fsdiff.Stages.Created.{controller_create-Fit}
use fsdiff.Stages.SoundRun.{controller_run-Sound}
use fsdiff.Ext.{Extfs, rd16, rd32, superblock, check_geometry, extfs_open}
use fsdiff.Ext.Walk.{Walk, extfs_walk, stack_loop, walk_start}
use fsdiff.Ext.Ends.{extfs_walk-empties}
use fsdiff.Ext.Walked.{extfs_walk-FileFits}
use fsdiff.Stages.Cancel.{controller_run_cancelled}
use fsdiff.Reader.{mmap_backend}
use fsdiff.Tracker.Operations.{finalize, unmatched_count, foreach_unmatched}
use fsdiff.Tracker.Unmatched.{unmatched_count-foreach_unmatched}
use fsdiff.Status.{cancelled}
use fsdiff.Diff.{World, diff_files}
use fsdiff.Diff.RoundTrip.{Works, Images, patch_apply-diff_files}
use fsdiff.Tests.{
  takes_all, takes_all_lem, keeps_all, block_of, image, dest, always, always_lem, replicate-IsByte,
  image-IsByte,
}

-- Images of blocks of 32 bytes, no filesystem in them, and a system whose calls succeed.
abbrev options : Options
options = record {
  block_size_log2 = 5;
  enable_identity = true;
  enable_relocation = true;
  enable_partial = true;
  enable_fsmap = true;
  threshold_count = 16;
  search_radius = 1;
}

abbrev memory : Memory
memory = record {
  controller = true;
  tracker = true;
  blocks = true;
  bitmap = true;
  pool = true;
  identity = true;
  relocation = true;
  relocation_pool = true;
  fsmap = true;
  partial = true;
  hash_table = true;
  hash_buckets = true;
  hash_entry = λ i. true;
  fsmap_pool = true;
  path_table = true;
  path_buckets = true;
  path_entry = λ i. true;
}

memory-Enough : Enough memory
memory-Enough = record {
  controller = refl;
  tracker = refl;
  blocks = refl;
  bitmap = refl;
  pool = refl;
  identity = refl;
  relocation = refl;
  relocation_pool = refl;
  fsmap = refl;
  partial = refl;
  hash_table = refl;
  hash_buckets = refl;
  fsmap_pool = refl;
  path_table = refl;
  path_buckets = refl;
}

-- A pool that is its count of allocations.
abbrev env : Surroundings ℕ
env = record {
  simd = scalar_dispatch;
  memory = memory;
  threshold_count = 16;
  src_fs = err bad_magic;
  dest_fs = err bad_magic;
  pool_alloc = λ n. (true, suc n);
  is_cancelled = λ m. false;
}

env-Unhindered : Unhindered env image dest
env-Unhindered = record {
  enough = memory-Enough;
  goes_on = λ m. refl;
  src_opens = λ h. cc;
  dest_opens = λ h. cc;
}

no_filesystem : (size : ℕ) → Lies size (err bad_magic)
no_filesystem size fs h = cc

-- One block more in front.
more-IsByte : (b : ℕ) (rest : List ℕ) → b < 256 → All IsByte rest → All IsByte (block_of b ++ rest)
more-IsByte b rest h k = All-append IsByte (block_of b) rest (replicate-IsByte 32 b h) k

abbrev last_three : List ℕ
last_three = block_of 0 ++ (block_of 0xFF ++ block_of 3)

last_three-IsByte : All IsByte last_three
last_three-IsByte =
    more-IsByte 0 (block_of 0xFF ++ block_of 3) (omega arith)
      (more-IsByte 0xFF (block_of 3) (omega arith) (replicate-IsByte 32 3 (omega arith)))

dest-IsByte : All IsByte dest
dest-IsByte = more-IsByte 7 (block_of 7 ++ (block_of 10 ++ last_three)) (omega arith) (
    more-IsByte 7 (block_of 10 ++ last_three) (omega arith)
      (more-IsByte 10 last_three (omega arith) last_three-IsByte))

abbrev world : World ℕ
world = record {
  src_reader = ok image;
  dest_reader = ok dest;
  env = env;
  pool = 0;
  temp_files = true;
  fdopen = true;
  writers = true;
  encoder = true;
  malloc = always;
  temp_write = takes_all;
  fflush = true;
  fopen = true;
  fwrite = takes_all;
  ferror = false;
  fclose = true;
  backend = mmap_backend;
  posix_memalign = true;
  pread = ok tt;
}

world-Works : Works world
world-Works = record {
  temp_files = refl;
  fdopen = refl;
  writers = refl;
  encoder = refl;
  malloc = always_lem;
  temp_write = takes_all_lem;
  fflush = refl;
  fopen = refl;
  fwrite = takes_all_lem;
  ferror = refl;
  fclose = refl;
  posix_memalign = refl;
  pread = refl;
}

world-Images : Images world world-Works options image dest
world-Images = record {
  src_opens = refl;
  dest_opens = refl;
  log2_low = omega arith;
  log2_high = omega arith;
  whole = refl;
  src_some = omega arith;
  some_blocks = omega arith;
  few_blocks = omega arith;
  src_small = omega arith;
  dest_small = omega arith;
  src_bytes = image-IsByte;
  dest_bytes = dest-IsByte;
  src_lies = no_filesystem 64;
  dest_lies = no_filesystem 192;
}

patch_apply-diff_files_example :
    (patch : List ℕ) × (diff_files world options ≡ ok patch)
    × (patch_apply takes_all keeps_all (ok (mmap_source image)) (ok patch) true true true
        ≡ applied dest)
unfolding mmap_source
patch_apply-diff_files_example =
    patch_apply-diff_files world world-Works options (mmap_source image) dest keeps_all true
      (λ file. refl) world-Images scalar_dispatch-Faithful env-Unhindered refl

scalar_tests-same_bytes_example :
    (scalar_is_zero image ≡ same_bytes 0 image) × (scalar_is_one image ≡ same_bytes 0xFF image)
scalar_tests-same_bytes_example = scalar_tests-same_bytes image image-IsByte

scalar_count_matches_lem_example :
    scalar_count_matches (block_of 7) (block_of 9) ≡ byte_matches (block_of 7) (block_of 9)
scalar_count_matches_lem_example =
    scalar_count_matches_lem (block_of 7) (block_of 9) (replicate-IsByte 32 7 (omega arith))
      (replicate-IsByte 32 9 (omega arith))

crc32-bitwise_update_example : crc32 image ≡ 2 ^ 32 - 1 - bitwise_update (2 ^ 32 - 1) image
crc32-bitwise_update_example = crc32-bitwise_update image image-IsByte

is_zero_block_quick-same_bytes_example :
    is_zero_block_quick (block_of 7) ≡ same_bytes 0 (block_of 7)
is_zero_block_quick-same_bytes_example = is_zero_block_quick-same_bytes (block_of 7) refl

-- The controller of these options, and its run.
abbrev controller : Returns (controller_create memory options 2 6)
controller =
    controller_create-Returns memory memory-Enough options 2 6 (omega arith) (omega arith) refl

abbrev run : Returns (controller_run env (some image) (some dest) controller.0 0)
unfolding controller_run
run = run_stages-Returns env image dest env-Unhindered controller.0 0

controller_run-Returns_example :
    (ctrl : Controller) × (controller_create memory options 2 6 ≡ ok ctrl)
    × Returns (controller_run env (some image) (some dest) ctrl 0)
controller_run-Returns_example =
    controller_run-Returns env image dest env-Unhindered options 0 (omega arith) (omega arith)
      (omega arith) (omega arith) (omega arith) (no_filesystem 64) (no_filesystem 192) refl

controller_run-Sound_example :
    Described 32 image dest 0 run.0.tracker.blocks × (length run.0.tracker.blocks ≡ 6)
controller_run-Sound_example =
    controller_run-Sound env image dest 32 (omega arith) (omega arith) refl image-IsByte dest-IsByte
      scalar_dispatch-Faithful (omega arith) (omega arith) (no_filesystem 64) (no_filesystem 192)
      controller.0 0 run.0
      (controller_create-Fit memory options 2 6 image dest controller.0 controller.1).0
      (controller_create-Fit memory options 2 6 image dest controller.0 controller.1).1 run.1

-- A tracker of two blocks.
abbrev two_blocks : Tracker
two_blocks = record {
  blocks =
      record {
        dest_index = 0;
        src_index = 0;
        byte_offset = 0;
        crc32 = 0;
        match_type = unmatched;
        delta = none;
      }
      ∷ record {
        dest_index = 1;
        src_index = 0;
        byte_offset = 0;
        crc32 = 0;
        match_type = unmatched;
        delta = none;
      }
      ∷ [];
  block_size = 32;
  unmatched_bitmap = 3 ∷ [];
  identity_count = 0;
  relocate_count = 0;
  partial_count = 0;
  zero_count = 0;
  one_count = 0;
  literal_count = 0;
}

two-Reachable : Reachable two_blocks
unfolding tracker_create create_blocks create_bitmap bitmap_set
two-Reachable = created true true true 2 32 two_blocks refl

Reachable-is_unmatched_example :
    (is_unmatched two_blocks 1 ≡ true) × (is_unmatched (finalize 2 0 two_blocks) 1 ≡ false)
unfolding get
Reachable-is_unmatched_example = Reachable-is_unmatched two_blocks 1 _ two-Reachable refl

-- A filesystem with a file of one extent, in an image of 4 blocks of 1024 bytes.
abbrev small_fs : Filesystem
small_fs = record {
  fs_block_size = 1024;
  files =
      record { path = 97 ∷ []; extents = record { logical = 0; physical = 2; count = 2 } ∷ [] }
      ∷ [];
}

abbrev four : Tracker
unfolding create_blocks
four = record two_blocks {
  blocks = create_blocks 4 0;
  block_size = 1024;
  unmatched_bitmap = 15 ∷ [];
}

abbrev fsmap_stage : FsmapStage
fsmap_stage = record { block_size = 1024; search_range = 1024; hyps = []; src_size = 0 }

abbrev indexed : FsmapStage
indexed = record {
  block_size = 1024;
  search_range = 1024;
  hyps = record { dest_block = 2; src_pos = 2048 } ∷ record { dest_block = 3; src_pos = 3072 } ∷ [];
  src_size = 4096;
}

-- A block that stands one byte later in the source.
abbrev moved : List ℕ
moved = 0 ∷ block_of 7

search_best-Found_example :
    Found scalar_count_matches moved
      (block_of 7)
      32
      33
      (pos 0)
      3
      (negsuc 0)
      (search_best scalar_count_matches moved (block_of 7) 32 33 (pos 0) (negsuc 0) 3 16)
unfolding search_best search_loop prescreen_of improves screened_out scalar_count_matches
    word_matches zero_bytes byte_matches ◌+ℤ◌
search_best-Found_example =
    search_best-Found scalar_count_matches moved (block_of 7) 32 33 (pos 0) (negsuc 0) 3 16
      (omega arith) (omega arith)

search_best-greatest_example :
    count_of byte_matches moved (block_of 7) 32 33 (pos 0) (negsuc 0 +ℤ pos 2)
    ≤ (search_best byte_matches moved (block_of 7) 32 33 (pos 0) (negsuc 0) 3 16).1
unfolding ◌+ℤ◌
search_best-greatest_example =
    search_best-greatest byte_matches moved (block_of 7) 32 33 (pos 0) (negsuc 0) 3 16 (omega arith)
      (λ offset. byte_matches-le _ (block_of 7)) 2 (omega arith) refl

-- A controller with the identity stage only.
abbrev identity_only : Controller
identity_only = record {
  block_size = 32;
  tracker = two_blocks;
  identity = some (record { block_size = 32 });
  relocation = none;
  fsmap = none;
  partial = none;
}

controller_run_cancelled_example :
    controller_run
      (record env { is_cancelled = λ m. true })
      (some image)
      (some (block_of 7))
      identity_only
      0
    ≡ err cancelled
controller_run_cancelled_example =
    controller_run_cancelled (record env { is_cancelled = λ m. true }) image (block_of 7)
      (λ m. refl) identity_only 0 refl

unmatched_count-foreach_unmatched_example :
    unmatched_count (5 ∷ []) ≡ length (foreach_unmatched (5 ∷ []) 64 0)
unmatched_count-foreach_unmatched_example =
    unmatched_count-foreach_unmatched (5 ∷ []) (omega arith, tt)

-- An ext2 image of 6 blocks of 1024 bytes: the root directory is block 4, and its file `a` block 5.
abbrev ext_inodes : List ℕ
ext_inodes =
    replicate 128 0
    ++ (0 ∷ 64 ∷ 0 ∷ 0 ∷ 0 ∷ 4 ∷ 0 ∷ 0 ∷ replicate 32 0
        ++ (4 ∷ 0 ∷ 0 ∷ 0 ∷ replicate 84 0
            ++ (0 ∷ 128 ∷ 0 ∷ 0 ∷ 0 ∷ 4 ∷ 0 ∷ 0 ∷ replicate 32 0
                ++ (5 ∷ 0 ∷ 0 ∷ 0 ∷ replicate 724 0))))

abbrev ext_root : List ℕ
ext_root = 3 ∷ 0 ∷ 0 ∷ 0 ∷ 0 ∷ 4 ∷ 1 ∷ 1 ∷ 97 ∷ replicate 1015 0

abbrev ext_superblock : List ℕ
ext_superblock =
    8 ∷ 0 ∷ 0 ∷ 0 ∷ 6 ∷ 0 ∷ 0 ∷ 0 ∷ replicate 12 0
    ++ (1 ∷ 0 ∷ 0 ∷ 0 ∷ replicate 8 0
        ++ (0 ∷ 32 ∷ 0 ∷ 0 ∷ 0 ∷ 0 ∷ 0 ∷ 0 ∷ 8 ∷ 0 ∷ 0 ∷ 0 ∷ replicate 12 0
            ++ (0x53 ∷ 0xEF ∷ 1 ∷ 0 ∷ replicate 36 0 ++ (2 ∷ replicate 927 0))))

abbrev ext_groups : List ℕ
ext_groups = replicate 8 0 ++ (3 ∷ replicate 1015 0)

abbrev ext_image : List ℕ
ext_image =
    replicate 1024 0
    ++ (ext_superblock ++ (ext_groups ++ (ext_inodes ++ (ext_root ++ replicate 1024 0))))

abbrev ext_fs : Extfs
ext_fs = record {
  image = ext_image;
  block_size = 1024;
  block_count = 6;
  inodes_count = 8;
  inodes_per_group = 8;
  blocks_per_group = 8192;
  inode_size = 128;
  desc_size = 32;
  first_data_block = 1;
  gdt_start = 2048;
  group_count = 1;
  has_filetype = true;
}

ext_fs_lem : extfs_open true ext_image ≡ ok ext_fs
unfolding extfs_open superblock check_geometry rd16 rd32
ext_fs_lem = refl

abbrev ext_files : List File
ext_files =
    record { path = 47 ∷ 97 ∷ []; extents = record { logical = 0; physical = 5; count = 1 } ∷ [] }
    ∷ []

ext_files_lem : extfs_walk (λ ino. true) ext_fs true ≡ ok ext_files
unfolding extfs_walk
ext_files_lem = refl

extfs_walk-FileFits_example : All (FileFits 1024 6144) ext_files
extfs_walk-FileFits_example =
    extfs_walk-FileFits (λ ino. true) true true ext_image ext_fs ext_files ext_fs_lem ext_files_lem

-- The state at the end of the walk, with the bit of the root.
abbrev ext_walked : Walk
ext_walked = record { visited = 4 ∷ 0 ∷ []; stack = []; files = ext_files }

ext_walked_lem : stack_loop (λ ino. true) ext_fs 10 (walk_start ext_fs) ≡ ok ext_walked
unfolding stack_loop walk_start
ext_walked_lem = refl

extfs_walk-empties_example : ext_walked.stack ≡ []
extfs_walk-empties_example = extfs_walk-empties (λ ino. true) ext_fs ext_walked ext_walked_lem
