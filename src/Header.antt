-- ===== src/Header.antt =====
-- src/encoding/bkdf_header.c: the 32-byte BKDF header, written and read. The buffers and the file
-- are lists of bytes; the pointers are taken to be non-null.
pub mod RoundTrip
pub mod Checks
use fsdiff.Prelude.{
  ℕ, ◌+◌, List, [], ◌∷◌, ◌++◌, ◌||◌, not, ltb, ◌==◌, if◌then◌else◌, length, get_or, take,
}
use fsdiff.Status.{
  Result, ok, err, invalid_arg, io, truncated, bad_magic, bad_version, bad_block_size, corrupt_data,
}
use fsdiff.Wire.{u64_le, read_u64_le}

-- FSD_HEADER_SIZE and FSD_VERSION of include/fsdiff/types.h
abbrev pub header_size : ℕ
header_size = 32

abbrev pub version_one : ℕ
version_one = 1

-- `fsd_header_t`. `reserved` is stored as 0 and never read; `magic` is always "BKDF".
pub record Header : Type 0 where
  pub version : ℕ
  pub block_size_log2 : ℕ
  pub dest_blocks : ℕ
  pub op_stream_len : ℕ
  pub diff_stream_len : ℕ

-- The buffer that `fsd_header_write` fills.
unfoldable pub header_bytes : ℕ → ℕ → ℕ → ℕ → List ℕ
unfolding u64_le
header_bytes dest_blocks block_size_log2 op_stream_len diff_stream_len =
    b'B'
    ∷ b'K'
    ∷ b'D'
    ∷ b'F'
    ∷ version_one
    ∷ block_size_log2
    ∷ 0
    ∷ 0
    ∷ (u64_le dest_blocks ++ (u64_le op_stream_len ++ u64_le diff_stream_len))

-- `fsd_header_write`. `fwrite` is the count that the call of that name returns for the buffer.
unfoldable pub header_write : (List ℕ → ℕ) → ℕ → ℕ → ℕ → ℕ → Result (List ℕ)
unfolding header_bytes
header_write fwrite dest_blocks block_size_log2 op_stream_len diff_stream_len =
    let header = header_bytes dest_blocks block_size_log2 op_stream_len diff_stream_len in
    if fwrite header == header_size then ok header else err io

-- The fields, from a buffer that passed the checks.
unfoldable pub fields : List ℕ → Header
unfolding read_u64_le
fields buf = record {
  version = at 4;
  block_size_log2 = at 5;
  dest_blocks = word 8;
  op_stream_len = word 16;
  diff_stream_len = word 24;
}
  where
    at : ℕ → ℕ
    at i = get_or buf i 0

    word : ℕ → ℕ
    word i =
        read_u64_le (at i) (at (i + 1)) (at (i + 2)) (at (i + 3)) (at (i + 4)) (at (i + 5))
          (at (i + 6)) (at (i + 7))

-- `fsd_header_read_memory`, from the check of the magic on.
unfoldable pub check_fields : List ℕ → Result Header
unfolding fields
check_fields buf =
    if not (at 0 == b'B') || (not (at 1 == b'K') || (not (at 2 == b'D') || not (at 3 == b'F')))
    then err bad_magic
    else if not (at 4 == version_one)
    then err bad_version
    else if ltb (at 5) 5 || ltb 24 (at 5)
    then err bad_block_size
    else if not (at 6 == 0) || not (at 7 == 0)
    then err corrupt_data
    else ok (fields buf)
  where
    at : ℕ → ℕ
    at i = get_or buf i 0

unfoldable pub header_read_memory : List ℕ → Result Header
unfolding check_fields
header_read_memory buf = if ltb (length buf) header_size then err invalid_arg else check_fields buf

-- `fsd_header_read`: `fread` takes the first 32 bytes of the file, or fewer where it is shorter.
unfoldable pub header_read : List ℕ → Result Header
unfolding header_read_memory
header_read file =
    if ltb (length file) header_size
    then err truncated
    else header_read_memory (take header_size file)
