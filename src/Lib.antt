-- ===== src/Lib.antt =====
-- fsdiff: block-level binary diffs of filesystem images, and the application of the patches.
--
-- A diff reads a source and a destination image, and matching stages give every destination block a
-- state in the block tracker. The operation encoder turns the states into three streams, which the
-- buffered writers collect in temporary files, and src/diff.c puts them behind a header into the patch. The
-- application reads the header, cuts the streams apart and executes one operation after another on
-- the source image.
--
--   Status.antt     include/fsdiff/error.h: error codes, and results of fallible functions
--   Wire.antt       little-endian numbers, as src/io/buffered_writer.c writes and src/patch.c reads them
--   Signed.antt     the casts between signed and unsigned integers
--   Header.antt     src/encoding/bkdf_header.c
--   Varint.antt     `encode_varint` of src/encoding/operation_encoder.c, `read_varint` of src/patch.c
--   Sparse.antt     the sparse diff format of one block, in the same two files
--   Sink.antt       what the encoder relies on in a buffered writer
--   Writer.antt     src/io/buffered_writer.c; Writer/Appends.antt makes it a sink
--   Reader.antt     the data pointers of src/io/source_reader.c and src/io/mmap_reader.c
--   Tracker.antt    src/core/block_tracker.c: the block states, Operations on the tracker, and the trackers
--                   that these make (Reachable)
--   HashTable.antt  src/core/hash_table.c
--   Encoder.antt    src/encoding/operation_encoder.c: Count (counts), Runs (coalescing), Emit (operations)
--   Crc32.antt      src/core/crc32.c
--   Simd.antt       src/simd/simd_scalar.c, and the dispatch table
--   Stages.antt     src/stages: Identity, Relocation, Partial, Fsmap and Controller are the five files
--                   stage_*.c, Search is block_search.c, and Match what the stages share; the other
--                   files are proofs: Sound, SoundPartial and SoundRun on what the matches say, Returns and
--                   Cancel on the outcome of a run, Index on the hypotheses of the filesystem stage
--   Ext.antt        src/fs/ext_reader.c: the superblock and inodes; Extents has extent trees and block maps,
--                   Walk the directories; the other files are proofs
--   Patch.antt      the end of `fsd_diff_files` in src/diff.c
--   Diff.antt       `fsd_diff_files` as a whole, its options and its context; Diff/RoundTrip.antt puts all
--                   parts together
--   Decoder.antt    `fsd_patch_apply` of src/patch.c: Source (positioned reads), Reads (fields), Steps
--                   (operations), Apply (the call), Query (the calls that only read the header)
--   RoundTrip.antt  the encoder and the decoder together
--   Tests.antt      the theorems at concrete inputs; Tests/Stages.antt those on stages and images
--
-- Numbers are natural numbers with the wrap-around of their C type written out; offsets are integers. A
-- buffer with a position in it is the list of the bytes from there on. System calls are parameters:
-- what `fwrite` returns for a buffer, and whether `malloc`, `fopen`, `fclose`, `ferror` and their kin
-- succeed. What `fclose` leaves in the output file of a
-- patch application is a function of the bytes written. Pointers that the functions check are taken to be non-null,
-- but for the data pointers of the two images of a diff, which are `none` where they are null.
--
-- Loops that are not over a list run on fuel: the encoder's on the number of blocks left, since a run
-- has a block at least; the decoder's on the length of the operation stream, since an operation has
-- a byte at least; the sparse format's on the size of the block, since a round moves the position or
-- is an error; the writer's on the length of the data and one, since only the first round can find
-- a full buffer; and `fsd_copy_stream` on the length of the file.
-- A loop over the blocks or the offsets of a range has the number of those left as its fuel, the
-- count of the bits of a word 64 rounds, and the walk of an extent tree 6, one more than the depth that it allows. The
-- walk over the directories has one round for every inode and two more; a directory block has its size
-- as the fuel, since an entry has 8 bytes or more.
--
-- A matching stage that is created only where its option is on stands as an `Option` in the controller. A
-- threshold is the integer that the float and the block size give. The memory pool of the deltas is a
-- parameter with a state, which may refuse any allocation; whether a cancel flag is up is a function of the
-- moment at which the code reads it; the filesystems that the ext reader finds in the images are parameters
-- of the stages, and what Ext/Walked.antt says of the reader is what the stages need of them.
--
-- Not modelled: the memory pool, the mapping of files, positioned reads of block devices,
-- `fsd_init`, the processor's features and the AVX2 and NEON routines, which are
-- compiler intrinsics; the command line, progress calls, verbose output, the match log, statistics, and the removal of
-- temporary files.
pub mod Prelude
pub mod Status
pub mod Wire
pub mod Signed
pub mod Header
pub mod Varint
pub mod Sparse
pub mod Sink
pub mod Crc32
pub mod Simd
pub mod Ext
pub mod Stages
pub mod Tracker
pub mod Encoder
pub mod Decoder
pub mod Reader
pub mod RoundTrip
mod Tests
pub mod Diff
pub mod Patch
pub mod HashTable
pub mod Writer
