-- ===== src/Diff.antt =====
-- src/diff.c: `fsd_diff_files` from the two images to the patch, its options, and its context.
pub mod RoundTrip
use fsdiff.Prelude.{
  ℕ, zero, suc, ◌+◌, ◌*◌, ◌/◌, ◌%◌, ◌^◌, ◌≡◌, Bool, true, false, not, ◌||◌, List, [], ◌∷◌, length,
  ltb, ◌==◌,
}
use fsdiff.Status.{
  Error, Result, ok, err, ◌>>=◌, ◌>>◌, guard, invalid_arg, out_of_memory, io, size_mismatch,
  bad_block_size, cancelled,
}
use fsdiff.Reader.{Backend, mmap_data, source_reader_data}
use fsdiff.Sink.{Sink, Appends}
use fsdiff.Header.{header_size}
use fsdiff.Writer.{Writer, create_from_file, flush, write, write_byte, bytes_written}
use fsdiff.Writer.Appends.{Sound, contents, write_lem, write_byte_lem}
use fsdiff.Patch.{write_patch}
use fsdiff.Encoder.Emit.{Streams, encode}
use fsdiff.Tracker.Operations.{Tracker}
use fsdiff.Stages.Match.{Work}
use fsdiff.Stages.Controller.{Options, Controller, controller_create, controller_run, Surroundings}

-- `fsd_diff_options_init`, with the integer threshold of its blocks: half of 4096 bytes.
abbrev pub default_options : Options
default_options = record {
  block_size_log2 = 12;
  enable_identity = true;
  enable_relocation = true;
  enable_partial = true;
  enable_fsmap = true;
  threshold_count = 2048;
  search_radius = 8;
}

-- A writer to any file as the encoder uses it; it is ready where the file takes everything.
abbrev pub file_sink : (List ℕ → List ℕ → ℕ) → Sink
file_sink fwrite = record {
  W = Writer;
  write_byte = write_byte fwrite;
  write = write fwrite;
  written = contents;
  ready = λ w. Sound w × ((file bytes : List ℕ) → fwrite file bytes ≡ length bytes);
  write_byte_appends = λ w b ready.
      let k = write_byte_lem fwrite ready.1 w b ready.0 in
      record {
        final = k.final;
        returns = k.returns;
        contents = k.contents;
        still_ready = (k.still_ready, ready.1);
      };
  write_appends = λ w bytes ready.
      let k = write_lem fwrite ready.1 w bytes ready.0 in
      record {
        final = k.final;
        returns = k.returns;
        contents = k.contents;
        still_ready = (k.still_ready, ready.1);
      };
}

-- What `fsd_diff_files` meets: the images that the two readers give, the source reader's backend, and what the system's calls return.
pub record World (P : Type 0) : Type 0 where
  pub src_reader : Result (List ℕ)
  pub backend : Backend
  pub posix_memalign : Bool
  pub pread : Result (Unit {0})
  pub dest_reader : Result (List ℕ)
  pub env : Surroundings P
  pub pool : P
  pub temp_files : Bool
  pub fdopen : Bool
  pub writers : Bool
  pub encoder : Bool
  pub malloc : ℕ → Bool
  pub temp_write : List ℕ → List ℕ → ℕ
  pub fflush : Bool
  pub fopen : Bool
  pub fwrite : List ℕ → List ℕ → ℕ
  pub ferror : Bool
  pub fclose : Bool

-- `fsd_op_encoder_create`
unfoldable pub encoder_create : Bool → ℕ → Result ℕ
encoder_create calloc block_size = do
  guard (ltb 0 block_size) invalid_arg
  guard calloc out_of_memory
  ok block_size

-- `fsd_writer_create_from_file` on an empty temporary file, with the default buffer.
abbrev pub temp_writer : Writer
temp_writer = record {
  file = [];
  buffer = [];
  buffer_size = 65536;
  total_written = 0;
  owns_file = false;
}

-- The second half of `fsd_diff_files`: from the tracker to the patch. A writer that could not be created is
-- null, which the encoder refuses.
unfoldable pub write_streams : {P : Type 0} → World P → ℕ → List ℕ → Tracker → Result (List ℕ)
unfolding encoder_create
write_streams world block_size_log2 dest tracker = do
  guard world.temp_files io
  guard world.fdopen io
  block_size ← encoder_create world.encoder (2 ^ block_size_log2)
  guard world.writers invalid_arg
  st ←
      encode (file_sink world.temp_write) world.malloc dest block_size tracker.blocks
        (record { op_writer = temp_writer; diff_writer = temp_writer; lit_writer = temp_writer })
  op ← flush world.temp_write st.op_writer
  diff ← flush world.temp_write st.diff_writer
  lit ← flush world.temp_write st.lit_writer
  guard world.fflush io
  guard world.fopen io
  write_patch world.fwrite world.ferror world.fclose (length dest / 2 ^ block_size_log2)
      block_size_log2 op.file (bytes_written op) diff.file (bytes_written diff) lit.file
      (bytes_written lit)

-- `fsd_diff_files`, without the statistics and the removal of the temporary files: the patch file.
unfoldable pub diff_files : {P : Type 0} → World P → Options → Result (List ℕ)
unfolding write_streams source_reader_data mmap_data
diff_files world opts = do
  src ← world.src_reader
  dest ← world.dest_reader
  src_data ← source_reader_data world.backend world.posix_memalign world.pread src
  let block_size = 2 ^ opts.block_size_log2
  guard (length dest % block_size == 0) size_mismatch
  ctrl ←
      controller_create world.env.memory opts (length src / block_size) (length dest / block_size)
  w ← controller_run world.env src_data (mmap_data dest) ctrl world.pool
  write_streams world opts.block_size_log2 dest w.tracker

-- `fsd_diff_ctx_t`: the options and the cancel flag.
pub record Context : Type 0 where
  pub opts : Options
  pub is_cancelled : Bool

-- `fsd_diff_create`
unfoldable pub diff_create : Bool → Options → Result Context
diff_create calloc opts = do
  guard calloc out_of_memory
  guard (not (ltb opts.block_size_log2 5 || ltb 24 opts.block_size_log2)) bad_block_size
  ok (record { opts = opts; is_cancelled = false })

-- `fsd_diff_cancel`
abbrev pub diff_cancel : Context → Context
diff_cancel ctx = record ctx { is_cancelled = true }

-- The return path of `fsd_diff_files` after the stages: a cancelled run lowers the flag again.
abbrev pub after_run : {A : Type 0} → Context → Result A → Context
after_run ctx (err cancelled) = record ctx { is_cancelled = false }
after_run ctx _ = ctx
