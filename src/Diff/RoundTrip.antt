-- ===== src/Diff/RoundTrip.antt =====
-- From two images to the patch, and from the patch and the first image back to the second: `fsd_diff_files`
-- of src/diff.c and `fsd_patch_apply` of src/patch.c.
use fsdiff.Prelude.{
  ℕ, ◌+◌, ◌*◌, ◌/◌, ◌%◌, ◌^◌, ◌≡◌, ◌≤◌, ◌<◌, Bool, true, false, not, ◌&&◌, List, [], ◌∷◌, ◌++◌,
  some, length, ltb, ◌==◌, arith, refl, All, length-append,
}
use native.Mathlib.Nat.{zero-div, div-add-mod', pow-le-pow_right}
use fsdiff.Status.{ok}
use fsdiff.Reader.{source_reader_data, source_reader_data_lem, mmap_data_lem}
use fsdiff.Wire.{IsByte}
use fsdiff.Writer.{Writer, bytes_written}
use fsdiff.Writer.Appends.{Sound, contents, flush_lem}
use fsdiff.Patch.{write_patch}
use fsdiff.Encoder.Emit.{Streams, encode}
use fsdiff.Tracker.Operations.{Tracker}
use fsdiff.Decoder.Source.{Source}
use fsdiff.Decoder.Apply.{applied, patch_apply}
use fsdiff.RoundTrip.Blocks.{Described}
use fsdiff.RoundTrip.Setting.{Ready}
use fsdiff.RoundTrip.Whole.{patch_apply-write_patch}
use fsdiff.Stages.Controller.{Options}
use fsdiff.Stages.Steps.{Faithful}
use fsdiff.Stages.Index.{Lies}
use fsdiff.Stages.SoundRun.{controller_run-Sound}
use fsdiff.Stages.Returns.{Unhindered, controller_run-Returns}
use fsdiff.Stages.Created.{controller_create-Fit}
use fsdiff.Diff.{World, file_sink, temp_writer, write_streams, diff_files, encoder_create}

-- Every call of the system succeeds.
pub record Works {P : Type 0} (world : World P) : Type 0 where
  pub temp_files : world.temp_files ≡ true
  pub fdopen : world.fdopen ≡ true
  pub writers : world.writers ≡ true
  pub encoder : world.encoder ≡ true
  pub malloc : (size : ℕ) → world.malloc size ≡ true
  pub temp_write : (file bytes : List ℕ) → world.temp_write file bytes ≡ length bytes
  pub fflush : world.fflush ≡ true
  pub fopen : world.fopen ≡ true
  pub fwrite : (file bytes : List ℕ) → world.fwrite file bytes ≡ length bytes
  pub ferror : world.ferror ≡ false
  pub fclose : world.fclose ≡ true
  pub posix_memalign : world.posix_memalign ≡ true
  pub pread : world.pread ≡ ok tt

temp_writer-Sound : Sound temp_writer
temp_writer-Sound = record { some_room = omega arith; within = omega arith; counted = refl }

abbrev empty_streams : (fwrite : List ℕ → List ℕ → ℕ) → Streams (file_sink fwrite)
empty_streams fwrite = record {
  op_writer = temp_writer;
  diff_writer = temp_writer;
  lit_writer = temp_writer;
}

-- A flushed writer reports the size of its file.
flushed : Writer → Writer
flushed w = record w {
  file = w.file ++ w.buffer;
  buffer = [];
  total_written = w.total_written + length w.buffer;
}

flushed-size : (w : Writer) → Sound w → bytes_written (flushed w) ≡ length (contents w)
unfolding flushed bytes_written
flushed-size w h = omega (arith, h.counted, length-append w.file w.buffer)

dest_bytes_lem : (dest : List ℕ) (b : ℕ) → 0 < length dest / b → 0 < length dest
dest_bytes_lem [] b h = let e = zero-div b in absurd (omega (arith, h, e))
dest_bytes_lem (x ∷ dest) b h = omega arith

module _ {P : Type 0} (world : World P) (works : Works world) where
  write_streams_lem :
      (log2 n : ℕ) (dest : List ℕ) (t : Tracker) (final : Streams (file_sink world.temp_write))
      (patch : List ℕ)
      → 0 < 2 ^ log2
      → n ≡ length dest / 2 ^ log2
      → encode
          (file_sink world.temp_write)
          world.malloc
          dest
          (2 ^ log2)
          t.blocks
          (empty_streams world.temp_write)
        ≡ ok final
      → Ready (file_sink world.temp_write) final
      → write_patch world.fwrite false true n log2
          (contents final.op_writer)
          (length (contents final.op_writer))
          (contents final.diff_writer)
          (length (contents final.diff_writer))
          (contents final.lit_writer)
          (length (contents final.lit_writer))
        ≡ ok patch
      → write_streams world log2 dest t ≡ ok patch
  unfolding write_streams encoder_create flushed
  write_streams_lem log2 n dest t final patch power count encoded ready written =
      let positive : ltb 0 (2 ^ log2) ≡ true = ground arith in
      rw
        (
          works.temp_files,
          works.fdopen,
          positive,
          works.encoder,
          works.writers,
          encoded,
          flush_lem world.temp_write works.temp_write final.op_writer,
          flush_lem world.temp_write works.temp_write final.diff_writer,
          flush_lem world.temp_write works.temp_write final.lit_writer,
          works.fflush,
          works.fopen,
          works.ferror,
          works.fclose,
          flushed-size final.op_writer ready.op_ready.0,
          flushed-size final.diff_writer ready.diff_ready.0,
          flushed-size final.lit_writer ready.lit_ready.0,
        )
        (rw count at written)

  -- The images of the theorem: what the readers give, and what the format and the arithmetic ask of them.
  pub record Images (opts : Options) (src dest : List ℕ) : Type 0 where
    pub src_opens : world.src_reader ≡ ok src
    pub dest_opens : world.dest_reader ≡ ok dest
    pub log2_low : 5 ≤ opts.block_size_log2
    pub log2_high : opts.block_size_log2 ≤ 24
    pub whole : length dest % 2 ^ opts.block_size_log2 ≡ 0
    pub src_some : 0 < length src
    pub some_blocks : 0 < length dest / 2 ^ opts.block_size_log2
    pub few_blocks : length dest / 2 ^ opts.block_size_log2 < 2 ^ 32
    pub src_small : length src < 2 ^ 62
    pub dest_small : length dest < 2 ^ 62
    pub src_bytes : All IsByte src
    pub dest_bytes : All IsByte dest
    pub src_lies : Lies (length src) world.env.src_fs
    pub dest_lies : Lies (length dest) world.env.dest_fs

  -- The second half of `fsd_diff_files`, for a tracker whose blocks are described rightly.
  patch_apply-write_streams :
      (opts : Options) (source : Source) (dest : List ℕ) (t : Tracker) (fclose : List ℕ → List ℕ)
      (may_unlink : Bool)
      → ((file : List ℕ) → fclose file ≡ file)
      → Images opts source.image dest
      → Described (2 ^ opts.block_size_log2) source.image dest 0 t.blocks
      → length t.blocks ≡ length dest / 2 ^ opts.block_size_log2
      → (patch : List ℕ) × (write_streams world opts.block_size_log2 dest t ≡ ok patch)
        × (patch_apply world.fwrite fclose (ok source) (ok patch) true true may_unlink
            ≡ applied dest)
  patch_apply-write_streams opts source dest t fclose may_unlink closes images described count =
      let log2 = opts.block_size_log2 in
      let power : 1 ≤ 2 ^ log2 =
        pow-le-pow_right {n = 2} (omega arith) {i = 0} {j = log2} (omega arith) in
      let whole : length dest ≡ length dest / 2 ^ log2 * 2 ^ log2 =
        omega (arith, div-add-mod' (length dest) (2 ^ log2), images.whole) in
      let (final, patch, encoded, written, ready, back) =
        patch_apply-write_patch (file_sink world.temp_write) source world.fwrite fclose world.malloc
          dest log2 t.blocks (empty_streams world.temp_write) images.log2_low images.log2_high
          (rw count whole) (omega (arith, images.dest_small))
          (omega (arith, count, images.few_blocks)) (omega (arith, images.src_small))
          images.src_bytes works.fwrite closes works.malloc
          (record {
            op_ready = (temp_writer-Sound, works.temp_write);
            diff_ready = (temp_writer-Sound, works.temp_write);
            lit_ready = (temp_writer-Sound, works.temp_write);
          })
          refl refl refl described may_unlink in
      (
        patch,
        write_streams_lem log2 (length t.blocks) dest t final patch power count encoded ready
            written,
        back,
      )

  -- `fsd_diff_files` on two images, and then `fsd_patch_apply` with the patch and the first image, give the
  -- second image, with either backend of the source reader. The destination has from 1 up to 2^32 - 1
  -- whole blocks of 2^5 to 2^24 bytes; the source is not empty; the images are bytes, fewer than 2^62; the
  -- files that an ext reader reports lie in their images; the dispatched tests find only blocks of zeros
  -- and of ones; relocation is enabled only with identity; memory suffices, no cancel is requested,
  -- every call of the system succeeds and `fclose` loses nothing. Both calls return.
  pub patch_apply-diff_files :
      (opts : Options) (source : Source) (dest : List ℕ) (fclose : List ℕ → List ℕ)
      (may_unlink : Bool)
      → ((file : List ℕ) → fclose file ≡ file)
      → Images opts source.image dest
      → Faithful world.env.simd
      → Unhindered world.env source.image dest
      → (opts.enable_relocation && not opts.enable_identity) ≡ false
      → (patch : List ℕ) × (diff_files world opts ≡ ok patch)
        × (patch_apply world.fwrite fclose (ok source) (ok patch) true true may_unlink
            ≡ applied dest)
  unfolding diff_files
  patch_apply-diff_files opts source dest fclose may_unlink closes images faithful free allowed =
      let log2 = opts.block_size_log2 in
      let src = source.image in
      let b = 2 ^ log2 in
      let n = length dest / b in
      let power : 1 ≤ b = pow-le-pow_right {n = 2} (omega arith) {i = 0} {j = log2} (omega arith) in
      let limit : b ≤ 2 ^ 24 =
        pow-le-pow_right {n = 2} (omega arith) {i = log2} {j = 24} images.log2_high in
      let whole : length dest ≡ n * b = omega (arith, div-add-mod' (length dest) b, images.whole) in
      let (ctrl, created, returned) =
        controller_run-Returns world.env src dest free opts world.pool images.log2_low
          images.log2_high images.some_blocks images.src_small images.dest_small images.src_lies
          images.dest_lies allowed in
      let (w, ran) = returned in
      let (fit, sound) =
        controller_create-Fit world.env.memory opts (length src / b) n src dest ctrl created in
      let (described, count) =
        controller_run-Sound world.env src dest b power limit whole images.src_bytes
          images.dest_bytes faithful images.src_small images.dest_small images.src_lies
          images.dest_lies ctrl world.pool w fit sound ran in
      let whole_blocks : (length dest % b == 0) ≡ true = ground (arith, images.whole) in
      let (patch, written, back) =
        patch_apply-write_streams opts source dest w.tracker fclose may_unlink closes images
          described count in
      let src_data : source_reader_data world.backend world.posix_memalign world.pread src
          ≡ ok (some src) =
        rw (works.posix_memalign, works.pread)
          (source_reader_data_lem world.backend src images.src_some) in
      let dest_some : 0 < length dest = dest_bytes_lem dest b images.some_blocks in
      (
        patch,
        rw
            (
              images.src_opens,
              images.dest_opens,
              src_data,
              mmap_data_lem dest dest_some,
              whole_blocks,
              created,
              ran,
            )
            written,
        back,
      )
