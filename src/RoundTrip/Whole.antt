-- ===== src/RoundTrip/Whole.antt =====
-- From the states of the blocks to the patch file, and from the patch file back to the image:
-- `fsd_op_encoder_encode`, the end of `fsd_diff_files`, and `fsd_patch_apply`.
use fsdiff.Prelude.{
  ℕ, ◌+◌, ◌-◌, ◌*◌, ◌/◌, ◌≤◌, ◌<◌, ◌^◌, ◌≡◌, List, [], ◌++◌, length, ap, ◌∙◌, append-nil, arith,
  refl, Bool, true, false, All, take-append, drop-append, length-append, le→leb,
}
use native.Mathlib.Nat.{le-div_iff_mul-le, pow-le-pow_right}
use fsdiff.Status.{ok}
use fsdiff.Wire.{IsByte}
use fsdiff.Sink.{Sink}
use fsdiff.Tracker.{BlockState}
use fsdiff.Header.{header_size, header_bytes}
use fsdiff.Header.RoundTrip.{header_read_memory-header_bytes}
use fsdiff.Patch.{write_patch, write_patch_lem}
use fsdiff.Encoder.Emit.{Streams, encode, encode_loop}
use fsdiff.Decoder.Source.{Source}
use fsdiff.Decoder.Steps.{run_loop}
use fsdiff.Decoder.Apply.{applied, Plan, int64_max, locate, run_plan, write_output, patch_apply}
use fsdiff.RoundTrip.Blocks.{blocks-whole, Described}
use fsdiff.RoundTrip.Setting.{Setting, Ready}
use fsdiff.RoundTrip.Stream.{Encodes, encode_loop_lem}

-- The plan for a patch file of these streams.
abbrev plan_of : ℕ → ℕ → List ℕ → List ℕ → List ℕ → Plan
plan_of dest_blocks log2 ops diffs lits = record {
  block_size = 2 ^ log2;
  dest_blocks = dest_blocks;
  start = record { ops = ops; diffs = diffs; lits = lits; out = []; dest_block = 0 };
}

header_bytes-length :
    (dest_blocks log2 op_len diff_len : ℕ)
    → length (header_bytes dest_blocks log2 op_len diff_len) ≡ header_size
unfolding header_bytes
header_bytes-length dest_blocks log2 op_len diff_len = refl

patch_apply-applied :
    (fwrite : List ℕ → List ℕ → ℕ) (fclose : List ℕ → List ℕ) (source : Source) (patch : List ℕ)
    (plan : Plan) (out : List ℕ) (may_unlink : Bool)
    → locate patch ≡ ok plan
    → run_plan fwrite source plan ≡ ok out
    → patch_apply fwrite fclose (ok source) (ok patch) true true may_unlink ≡ applied (fclose out)
unfolding patch_apply write_output
patch_apply-applied fwrite fclose source patch plan out may_unlink found ran =
    rw (patch_apply, found, ran) refl

-- The loop leaves the image behind, given its state after the last operation.
run_plan_lem :
    (fwrite : List ℕ → List ℕ → ℕ) (source : Source) (n log2 : ℕ) (ops diffs lits out : List ℕ)
    → run_loop source fwrite
        (2 ^ log2)
        n
        (length ops)
        ops
        (record { ops = ops; diffs = diffs ++ []; lits = lits ++ []; out = []; dest_block = 0 })
      ≡ ok (record { ops = []; diffs = []; lits = []; out = out; dest_block = 0 + n })
    → run_plan fwrite source (plan_of n log2 ops diffs lits) ≡ ok out
unfolding run_plan
run_plan_lem fwrite source n log2 ops diffs lits out h =
    rw (← append-nil diffs, ← append-nil lits, h) (ground arith)

twice : (n b : ℕ) → n * (b * 2) ≡ n * b + n * b
twice n b = grind arith

-- The reader finds the three streams in the file.
locate_lem :
    (dest_blocks log2 : ℕ) (ops diffs lits : List ℕ)
    → 5 ≤ log2
    → log2 ≤ 24
    → dest_blocks < 2 ^ 64
    → length ops < 2 ^ 64
    → length diffs < 2 ^ 64
    → dest_blocks ≤ int64_max / 2 ^ log2
    → locate (header_bytes dest_blocks log2 (length ops) (length diffs) ++ (ops ++ (diffs ++ lits)))
      ≡ ok (plan_of dest_blocks log2 ops diffs lits)
unfolding locate
locate_lem dest_blocks log2 ops diffs lits lo hi hn ho hd fits =
    rw
      (
        header_read_memory-header_bytes dest_blocks log2 (length ops) (length diffs)
            (ops ++ (diffs ++ lits)) lo hi hn ho hd,
        le→leb dest_blocks (int64_max / 2 ^ log2) fits,
        le→leb header_size (length file) (omega (arith, size)),
        le→leb (length ops) (length file - header_size) (omega (arith, size)),
        le→leb (length diffs) (length file - header_size - length ops) (omega (arith, size)),
        drop-append header_size header (ops ++ (diffs ++ lits)) (header_bytes-length _ _ _ _),
        take-append (length ops) ops (diffs ++ lits) refl,
        drop-append (length ops) ops (diffs ++ lits) refl,
        take-append (length diffs) diffs lits refl,
        drop-append (length diffs) diffs lits refl,
      )
      refl
  where
    header : List ℕ
    header = header_bytes dest_blocks log2 (length ops) (length diffs)

    file : List ℕ
    file = header ++ (ops ++ (diffs ++ lits))

    size : length file ≡ header_size + (length ops + (length diffs + length lits))
    size = omega (
      arith,
      length-append header (ops ++ (diffs ++ lits)),
      length-append ops (diffs ++ lits),
      length-append diffs lits,
      header_bytes-length dest_blocks log2 (length ops) (length diffs),
    )

module _ (sink : Sink) (source : Source) (fwrite : List ℕ → List ℕ → ℕ) (fclose : List ℕ → List ℕ)
    (malloc : ℕ → Bool) (dest : List ℕ) (log2 : ℕ) (states : List BlockState)
    (st : Streams sink) where
  open sink use {written}

  -- For a destination image of fewer than 2^32 whole blocks of 2^5 to 2^24 bytes and fewer than 2^63
  -- bytes, a source image of fewer than 2^63 bytes, states that describe every block rightly, three
  -- empty writers that take everything, system calls that succeed and `fclose` losing nothing: the encoder
  -- returns and leaves writers that take everything, the patch is written, and `fsd_patch_apply` on it and the
  -- source writes the destination image.
  pub patch_apply-write_patch :
      5 ≤ log2
      → log2 ≤ 24
      → length dest ≡ length states * 2 ^ log2
      → length dest < 2 ^ 63
      → length states < 2 ^ 32
      → length source.image < 2 ^ 63
      → All IsByte source.image
      → ((file bytes : List ℕ) → fwrite file bytes ≡ length bytes)
      → ((file : List ℕ) → fclose file ≡ file)
      → ((size : ℕ) → malloc size ≡ true)
      → Ready sink st
      → written st.op_writer ≡ []
      → written st.diff_writer ≡ []
      → written st.lit_writer ≡ []
      → Described (2 ^ log2) source.image dest 0 states
      → (may_unlink : Bool)
      → (final : Streams sink) × (patch : List ℕ) × (encode sink malloc dest (2 ^ log2) states st
          ≡ ok final)
        × (write_patch fwrite false true
              (length states)
              log2
              (written final.op_writer)
              (length (written final.op_writer))
              (written final.diff_writer)
              (length (written final.diff_writer))
              (written final.lit_writer)
              (length (written final.lit_writer))
            ≡ ok patch)
        × Ready sink final
        × (patch_apply fwrite fclose (ok source) (ok patch) true true may_unlink ≡ applied dest)
  unfolding encode
  patch_apply-write_patch lo hi whole dest_small few small bytes accepts closes enough ready op0
        diff0 lit0 described may_unlink =
      (
        k.grows.final,
        file,
        k.grows.returns,
        rw (k.grows.op_contents, k.grows.diff_contents, k.grows.lit_contents, op0, diff0, lit0)
            (write_patch_lem fwrite accepts (length states) log2 k.ops k.diffs k.lits),
        k.grows.still_ready,
        patch_apply-applied fwrite fclose source file
              (plan_of (length states) log2 k.ops k.diffs k.lits) dest may_unlink found ran
            ∙ ap applied (closes dest),
      )
    where
      power : 1 ≤ 2 ^ log2
      power = pow-le-pow_right {n = 2} (omega arith) {i = 0} {j = log2} (omega arith)

      power_hi : 2 ^ log2 ≤ 2 ^ 24
      power_hi = pow-le-pow_right {n = 2} (omega arith) {i = log2} {j = 24} hi

      c : Setting
      c = record {
        source = source;
        fwrite = fwrite;
        block_size = 2 ^ log2;
        dest = dest;
        dest_blocks = length states;
        accepts = accepts;
        small = small;
        bytes = bytes;
        some_bytes = power;
        block_limit = power_hi;
        whole = whole;
        dest_small = dest_small;
        few = few;
      }

      k :
          Encodes sink c st 0
            (length states)
            (encode_loop sink malloc dest (2 ^ log2) (length states) 0 states st)
      k =
          encode_loop_lem sink c malloc enough (length states) 0 states st (omega arith)
            (omega arith) ready described

      file : List ℕ
      file =
          header_bytes (length states) log2 (length k.ops) (length k.diffs)
          ++ (k.ops ++ (k.diffs ++ k.lits))

      found : locate file ≡ ok (plan_of (length states) log2 k.ops k.diffs k.lits)
      found =
          locate_lem (length states) log2 k.ops k.diffs k.lits lo hi (omega arith)
            (omega (arith, k.ops_short))
            (omega (arith, k.diffs_short, twice (length states) (2 ^ log2)))
            ((le-div_iff_mul-le {k = 2 ^ log2} power).1 (omega arith))

      ran : run_plan fwrite source (plan_of (length states) log2 k.ops k.diffs k.lits) ≡ ok dest
      ran = run_plan_lem fwrite source (length states) log2 k.ops k.diffs k.lits dest (
          k.runs (length k.ops) [] [] [] (omega arith)
          ∙ ap
              (λ t. ok (record {
                ops = [];
                diffs = [];
                lits = [];
                out = t;
                dest_block = 0 + length states;
              }))
              (blocks-whole (2 ^ log2) dest (length states) whole))
