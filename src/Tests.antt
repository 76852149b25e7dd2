-- ===== src/Tests.antt =====
-- The theorems at concrete inputs.
mod Stages
use fsdiff.Prelude.{
  ◌≢◌, ℕ, zero, suc, All-append, ◌+◌, ◌*◌, ◌≤◌, ◌<◌, ◌≡◌, ◌^◌, Bool, true, false, List, [], ◌∷◌,
  ◌++◌, length, replicate, arith, refl, All, some, none, Option,
}
use fsdiff.Prelude.Int.{negsuc}
use fsdiff.Status.{ok, err, ◌>>=◌, corrupt_data}
use fsdiff.Wire.{u32, IsByte}
use fsdiff.Signed.{abs, is_negative}
use fsdiff.Varint.{encode_varint, read_varint, read_loop}
use fsdiff.Varint.RoundTrip.{read_varint-encode_varint, length-encode_varint}
use fsdiff.Varint.Reader.{IsFlagged, read_varint_takes, read_varint_corrupt, read_varint-append}
use fsdiff.Sparse.{write_block, apply_block, add_diffs, apply_loop, apply_adds}
use fsdiff.Sparse.RoundTrip.{apply_block-write_block}
use fsdiff.Sparse.Writer.{write_block_size}
use fsdiff.Tracker.{
  BlockState, MatchType, unmatched, identity, relocate, partial, all_zero, all_one,
}
use fsdiff.Tracker.Operations.{
  Tracker, tracker_create, create_blocks, create_bitmap, bitmap_set, bitmap_test, bitmap_clear,
  is_unmatched, set_match, get,
}
use fsdiff.Tracker.Matches.{set_match-set_match}
use fsdiff.HashTable.{HashTable, insert, lookup, lookup-insert, next_power_of_2}
use fsdiff.Decoder.Query.{patch_output_size, patch_read_header}
use fsdiff.Header.{header_read}
use fsdiff.Writer.{Writer, create_from_file, bytes_written, close}
use fsdiff.Writer.Appends.{writer_sink, contents}
use fsdiff.Writer.Calls.{byte, buffer, run_calls, created, created-Sound, close-run_calls}
use fsdiff.Encoder.Emit.{Streams}
use fsdiff.Decoder.Source.{mmap_source}
use fsdiff.Sink.{Sink}
use fsdiff.Header.{Header, header_read_memory, check_fields, fields}
use fsdiff.Wire.{read_u64_le}
use fsdiff.Patch.{write_patch, copy_stream, copy_stream_lem, write_patch_lem}
use fsdiff.Encoder.Count.{encode_count}
use fsdiff.Encoder.Emit.{
  encode, write_diff_offset, write_block_offset, diff_offset_enc, block_offset_enc, bool_bit,
  first_byte,
}
use fsdiff.RoundTrip.Counts.{read_count-encode_count}
use fsdiff.RoundTrip.Fields.{
  read_diff_offset-write_diff_offset, read_block_offset-write_block_offset,
}
use fsdiff.RoundTrip.FirstByte.{first_byte_fields}
use fsdiff.Header.{header_bytes}
use fsdiff.Header.RoundTrip.{header_read_memory-header_bytes}
use fsdiff.Header.Checks.{Accepted, header_read_memory-Accepted}
use fsdiff.Decoder.Reads.{
  op_type, count_field, offset_field, flag_field, read_diff_offset, read_block_offset, with_sign,
}
use fsdiff.Decoder.Reads.{read_count, read_count_as}
use fsdiff.Decoder.Steps.{run_loop, step, step_counted, fill_blocks, write_out}
use fsdiff.Decoder.Apply.{patch_apply, applied, write_output, locate, run_plan}
use fsdiff.Decoder.Complete.{patch_apply_complete}
use fsdiff.RoundTrip.Blocks.{Described}
use fsdiff.RoundTrip.Setting.{Ready}
use fsdiff.RoundTrip.Whole.{patch_apply-write_patch}

-- `fwrite` to a file that takes everything.
abbrev takes_all : List ℕ → List ℕ → ℕ
takes_all file bytes = length bytes

takes_all_lem : (file bytes : List ℕ) → takes_all file bytes ≡ length bytes
takes_all_lem file bytes = refl

-- `fclose` of a file that loses nothing.
abbrev keeps_all : List ℕ → List ℕ
keeps_all file = file

-- A source of two blocks, and a destination with a block of each kind.
abbrev block_of : ℕ → List ℕ
block_of b = replicate 32 b

abbrev image : List ℕ
image = block_of 7 ++ block_of 9

abbrev dest : List ℕ
dest = block_of 7 ++ (block_of 7 ++ (block_of 10 ++ (block_of 0 ++ (block_of 0xFF ++ block_of 3))))

abbrev state : MatchType → ℕ → Option (List ℕ) → BlockState
state type src_index delta = record {
  dest_index = 0;
  src_index = src_index;
  byte_offset = 0;
  crc32 = 0;
  match_type = type;
  delta = delta;
}

abbrev states : List BlockState
states =
    state identity 0 none
    ∷ state relocate 0 none
    ∷ state partial 1 (some (block_of 1))
    ∷ state all_zero 0 none
    ∷ state all_one 0 none
    ∷ state unmatched 0 none
    ∷ []

states-Described : Described 32 image dest 0 states
unfolding add_diffs
states-Described = (
  (omega arith, refl),
  ((omega arith, refl), ((omega arith, (block_of 1, refl, refl, refl)), (refl, (refl, (tt, tt))))),
)

abbrev sink : Sink
sink = writer_sink takes_all takes_all_lem

abbrev streams : Streams sink
streams = record { op_writer = created 64; diff_writer = created 64; lit_writer = created 64 }

streams-Ready : Ready sink streams
streams-Ready = record {
  op_ready = created-Sound 64;
  diff_ready = created-Sound 64;
  lit_ready = created-Sound 64;
}

always : ℕ → Bool
always size = true

always_lem : (size : ℕ) → always size ≡ true
unfolding always
always_lem size = refl

replicate-IsByte : (n b : ℕ) → b < 256 → All IsByte (replicate n b)
replicate-IsByte zero b h = tt
replicate-IsByte (suc n) b h = (h, replicate-IsByte n b h)

image-IsByte : All IsByte image
image-IsByte =
    All-append IsByte (block_of 7) (block_of 9) (replicate-IsByte 32 7 (omega arith))
      (replicate-IsByte 32 9 (omega arith))

patch_apply-write_patch_example :
    (final : Streams sink) × (patch : List ℕ) × (encode sink always dest 32 states streams
      ≡ ok final)
    × (write_patch takes_all false true 6 5
          (contents final.op_writer)
          (length (contents final.op_writer))
          (contents final.diff_writer)
          (length (contents final.diff_writer))
          (contents final.lit_writer)
          (length (contents final.lit_writer))
        ≡ ok patch)
    × Ready sink final
    × (patch_apply takes_all keeps_all (ok (mmap_source image)) (ok patch) true true true
        ≡ applied dest)
unfolding mmap_source
patch_apply-write_patch_example =
    patch_apply-write_patch sink (mmap_source image) takes_all keeps_all always dest 5 states
      streams (omega arith) (omega arith) refl (omega arith) (omega arith) (omega arith)
      image-IsByte takes_all_lem (λ file. refl) always_lem streams-Ready refl refl refl
      states-Described true

-- A patch of one operation, OP_ZERO for one block of 32 bytes.
abbrev one_zero_block : List ℕ
one_zero_block =
    b'B' ∷ b'K' ∷ b'D' ∷ b'F' ∷ 1 ∷ 5 ∷ 0 ∷ 0 ∷ 1 ∷ 0 ∷ 0 ∷ 0 ∷ 0 ∷ 0 ∷ 0 ∷ 0 ∷ 1 ∷ 0 ∷ 0 ∷ 0 ∷ 0
    ∷ 0 ∷ 0 ∷ 0 ∷ 0 ∷ 0 ∷ 0 ∷ 0 ∷ 0 ∷ 0 ∷ 0 ∷ 0 ∷ 0x58 ∷ []

one_zero_block_applied :
    patch_apply takes_all keeps_all (ok (mmap_source image)) (ok one_zero_block) true true true
    ≡ applied (block_of 0)
unfolding patch_apply write_output locate run_plan run_loop step read_count read_count_as
    step_counted fill_blocks write_out header_read_memory check_fields fields read_u64_le
    mmap_source
one_zero_block_applied = refl

patch_apply_complete_example :
    (header : Header) × (bytes : List ℕ) × (header_read_memory one_zero_block ≡ ok header)
    × (block_of 0 ≡ bytes)
    × (length bytes ≡ header.dest_blocks * 2 ^ header.block_size_log2)
patch_apply_complete_example =
    patch_apply_complete takes_all keeps_all (mmap_source image) one_zero_block true true true
      (block_of 0) one_zero_block_applied

abbrev some_diffs : List ℕ
some_diffs = 5 ∷ 0 ∷ 0 ∷ 0 ∷ 1 ∷ 2 ∷ 0 ∷ 0 ∷ []

abbrev some_block : List ℕ
some_block = 255 ∷ 1 ∷ 2 ∷ 3 ∷ 4 ∷ 5 ∷ 6 ∷ 7 ∷ []

abbrev ByteList : List ℕ → Type 0
ByteList = All IsByte

some_block-IsByte : ByteList some_block
some_block-IsByte = (
  omega arith,
  (
    omega arith,
    (omega arith, (omega arith, (omega arith, (omega arith, (omega arith, (omega arith, tt)))))),
  ),
)

apply_block-write_block_example :
    apply_block (write_block some_diffs ++ (42 ∷ [])) some_block
    ≡ ok (add_diffs some_block some_diffs, 42 ∷ [])
apply_block-write_block_example =
    apply_block-write_block some_diffs some_block (42 ∷ []) refl (omega arith) some_block-IsByte

write_block_size_example : length (write_block some_diffs) ≤ 2 * length some_diffs
write_block_size_example = write_block_size some_diffs

-- A copy-add run to the end of a block of two bytes, and a byte behind it.
abbrev two_adds : List ℕ
two_adds = 2 ∷ 1 ∷ 1 ∷ 9 ∷ []

apply_two_adds : apply_block two_adds (0 ∷ 2 ∷ []) ≡ ok (1 ∷ 3 ∷ [], 9 ∷ [])
unfolding apply_block apply_loop read_varint read_loop apply_adds
apply_two_adds = refl

close-run_calls_example :
    (w : Writer) × ((create_from_file true true [] 2
        >>= run_calls takes_all (byte 1 ∷ buffer (2 ∷ 3 ∷ 4 ∷ 5 ∷ 6 ∷ []) ∷ byte 7 ∷ []))
      ≡ ok w)
    × (bytes_written w ≡ 7)
    × (close takes_all true true w ≡ ok (1 ∷ 2 ∷ 3 ∷ 4 ∷ 5 ∷ 6 ∷ 7 ∷ []))
close-run_calls_example =
    close-run_calls takes_all (byte 1 ∷ buffer (2 ∷ 3 ∷ 4 ∷ 5 ∷ 6 ∷ []) ∷ byte 7 ∷ []) 2
      takes_all_lem

read_count-encode_count_example :
    (first : ℕ) × (tail : List ℕ) × (final : Writer) × (encode_count sink
        (created 64)
        (5 * 2 ^ 5)
        70000
      ≡ ok final)
    × (contents final ≡ first ∷ tail)
    × (length tail ≤ 4)
    × (op_type first ≡ 5)
    × ((rest : List ℕ) → read_count first (tail ++ rest) ≡ ok (u32 70000, rest))
read_count-encode_count_example =
    read_count-encode_count sink (created 64) 5 70000 (created-Sound 64) (omega arith) (omega arith)
      (omega arith)

read_diff_offset-write_diff_offset_example :
    (bytes : List ℕ) × (final : Writer) × (write_diff_offset sink (created 64) (negsuc 99999)
      ≡ ok final)
    × (contents final ≡ bytes)
    × (length bytes ≤ 4)
    × ((rest : List ℕ)
        → read_diff_offset (diff_offset_enc (abs (negsuc 99999))) (bytes ++ rest)
          ≡ ok (negsuc 99999, rest))
read_diff_offset-write_diff_offset_example =
    read_diff_offset-write_diff_offset sink (created 64) (negsuc 99999) (created-Sound 64)
      (omega arith) (omega arith)

read_block_offset-write_block_offset_example :
    (bytes : List ℕ) × (final : Writer) × (write_block_offset sink (created 64) (abs (negsuc 299))
      ≡ ok final)
    × (contents final ≡ bytes)
    × (length bytes ≤ 4)
    × ((rest : List ℕ)
        → read_block_offset (block_offset_enc (abs (negsuc 299))) (bytes ++ rest)
          ≡ ok (abs (negsuc 299), rest))
    × (with_sign (bool_bit (is_negative (negsuc 299))) (abs (negsuc 299)) ≡ negsuc 299)
read_block_offset-write_block_offset_example =
    read_block_offset-write_block_offset sink (created 64) (negsuc 299) (created-Sound 64)
      (omega arith)

read_varint-encode_varint_example : read_varint (encode_varint 300 ++ (1 ∷ [])) ≡ ok (300, 1 ∷ [])
read_varint-encode_varint_example = read_varint-encode_varint 300 (1 ∷ []) (omega arith)

length-encode_varint_example : length (encode_varint 18446744073709551615) ≤ 10
length-encode_varint_example = length-encode_varint 18446744073709551615 (omega arith)

-- 300 on two bytes, and a byte behind them.
read_300 : read_varint (0xAC ∷ 2 ∷ 9 ∷ []) ≡ ok (300, 9 ∷ [])
unfolding read_varint read_loop
read_300 = refl

read_varint_takes_example : (1 < 3) × (3 ≤ 1 + 10)
read_varint_takes_example = read_varint_takes (0xAC ∷ 2 ∷ 9 ∷ []) 300 (9 ∷ []) read_300

read_varint-append_example : read_varint (0xAC ∷ 2 ∷ 9 ∷ 8 ∷ []) ≡ ok (300, 9 ∷ 8 ∷ [])
read_varint-append_example = read_varint-append (0xAC ∷ 2 ∷ 9 ∷ []) (8 ∷ []) 300 (9 ∷ []) read_300

read_flags : read_varint (replicate 10 0x80) ≡ err corrupt_data
unfolding read_varint read_loop
read_flags = refl

read_varint_corrupt_example : (10 ≤ 10) × All IsFlagged (replicate 10 0x80)
read_varint_corrupt_example =
    read_varint_corrupt (replicate 10 0x80) (replicate-IsByte 10 0x80 (omega arith)) read_flags

header_read_memory-header_bytes_example :
    header_read_memory (header_bytes 300 12 70000 9 ++ (1 ∷ 2 ∷ []))
    ≡ ok (record {
      version = 1;
      block_size_log2 = 12;
      dest_blocks = 300;
      op_stream_len = 70000;
      diff_stream_len = 9;
    })
header_read_memory-header_bytes_example =
    header_read_memory-header_bytes 300 12 70000 9 (1 ∷ 2 ∷ []) (omega arith) (omega arith)
      (omega arith) (omega arith) (omega arith)

abbrev one_zero_header : Header
one_zero_header = record {
  version = 1;
  block_size_log2 = 5;
  dest_blocks = 1;
  op_stream_len = 1;
  diff_stream_len = 0;
}

one_zero_block_read : header_read_memory one_zero_block ≡ ok one_zero_header
unfolding header_read_memory check_fields fields read_u64_le
one_zero_block_read = refl

header_read_memory-Accepted_example : Accepted one_zero_block one_zero_header
header_read_memory-Accepted_example =
    header_read_memory-Accepted one_zero_block one_zero_header one_zero_block_read

first_byte_fields_example :
    (op_type (first_byte 4 2 1 1) ≡ 4)
    × (count_field (first_byte 4 2 1 1) ≡ 2)
    × (offset_field (first_byte 4 2 1 1) ≡ 1)
    × (flag_field (first_byte 4 2 1 1) ≡ 1)
first_byte_fields_example =
    first_byte_fields 4 2 1 1 (omega arith) (omega arith) (omega arith) (omega arith)

write_patch_lem_example :
    write_patch takes_all false true 1 5 (0x58 ∷ []) 1 (7 ∷ []) 1 (8 ∷ 9 ∷ []) 2
    ≡ ok (header_bytes 1 5 1 1 ++ (0x58 ∷ 7 ∷ 8 ∷ 9 ∷ []))
write_patch_lem_example =
    write_patch_lem takes_all takes_all_lem 1 5 (0x58 ∷ []) (7 ∷ []) (8 ∷ 9 ∷ [])

copy_stream_lem_example : copy_stream takes_all false (1 ∷ 2 ∷ []) (7 ∷ []) 2 ≡ ok (7 ∷ 1 ∷ 2 ∷ [])
copy_stream_lem_example = copy_stream_lem takes_all takes_all_lem (1 ∷ 2 ∷ []) (7 ∷ [])

abbrev free_block : ℕ → BlockState
free_block i = record {
  dest_index = i;
  src_index = 0;
  byte_offset = 0;
  crc32 = 0;
  match_type = unmatched;
  delta = none;
}

-- A new tracker of two blocks.
abbrev two_blocks : Tracker
two_blocks = record {
  blocks = free_block 0 ∷ free_block 1 ∷ [];
  block_size = 32;
  unmatched_bitmap = 3 ∷ [];
  identity_count = 0;
  relocate_count = 0;
  partial_count = 0;
  zero_count = 0;
  one_count = 0;
  literal_count = 0;
}

two_blocks_created : tracker_create true true true 2 32 ≡ ok two_blocks
unfolding tracker_create create_blocks create_bitmap bitmap_set
two_blocks_created = refl

one_matched :
    (is_unmatched (set_match two_blocks 1 relocate 0) 1 ≡ false)
    × (is_unmatched (set_match two_blocks 1 relocate 0) 0 ≡ true)
unfolding is_unmatched set_match bitmap_test bitmap_clear
one_matched = (refl, refl)

relocate_is_a_match : relocate ≢ unmatched
relocate_is_a_match h = cc

two_blocks_second : get two_blocks 1 ≡ some (free_block 1)
unfolding get
two_blocks_second = refl

set_match-set_match_example :
    (set_match (set_match two_blocks 1 relocate 0) 1 all_zero 5 ≡ set_match two_blocks 1 relocate 0)
    × (get (set_match two_blocks 1 relocate 0) 1
        ≡ some (record {
          dest_index = 1;
          src_index = 0;
          byte_offset = 0;
          crc32 = 0;
          match_type = relocate;
          delta = none;
        }))
set_match-set_match_example =
    set_match-set_match two_blocks 1 (free_block 1) relocate all_zero 0 5 two_blocks_second refl
      relocate_is_a_match

-- Two buckets, and an entry in the second.
abbrev two_buckets : HashTable
two_buckets = record {
  buckets = [] ∷ (record { crc32 = 5; block_index = 2 } ∷ []) ∷ [];
  entry_count = 1;
}

lookup-insert_example :
    (lookup (insert true two_buckets 7 3) 7
      ≡ record { crc32 = 7; block_index = 3 } ∷ record { crc32 = 5; block_index = 2 } ∷ [])
    × (lookup (insert true two_buckets 7 3) 5 ≡ lookup two_buckets 5)
lookup-insert_example = lookup-insert two_buckets 7 3 5 (omega arith) (λ e. absurd (omega arith))

rounded : next_power_of_2 1025 ≡ 2048
unfolding next_power_of_2
rounded = refl

one_zero_block_size : patch_output_size (some one_zero_block) ≡ ok 32
unfolding patch_output_size patch_read_header header_read header_read_memory check_fields fields
    read_u64_le
one_zero_block_size = refl
