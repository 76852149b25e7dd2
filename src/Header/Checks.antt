-- ===== src/Header/Checks.antt =====
-- What `fsd_header_read_memory` lets through.
use fsdiff.Prelude.{ℕ, ◌≤◌, ◌≡◌, List, length, get_or, arith}
use fsdiff.Status.{ok}
use fsdiff.Header.{Header, header_size, check_fields, fields, header_read_memory, version_one}

-- What the reader asks of a buffer.
pub record Accepted (buf : List ℕ) (header : Header) : Type 0 where
  pub long : header_size ≤ length buf
  pub magic_b : get_or buf 0 0 ≡ b'B'
  pub magic_k : get_or buf 1 0 ≡ b'K'
  pub magic_d : get_or buf 2 0 ≡ b'D'
  pub magic_f : get_or buf 3 0 ≡ b'F'
  pub version : header.version ≡ version_one
  pub small : 5 ≤ header.block_size_log2
  pub large : header.block_size_log2 ≤ 24
  pub flags : get_or buf 6 0 ≡ 0
  pub reserved : get_or buf 7 0 ≡ 0

-- A header that `fsd_header_read_memory` accepts stands in a buffer of 32 bytes or more, begins with
-- "BKDF", has version 1, a block size between 2^5 and 2^24, and zeros in the flags and the
-- reserved byte.
pub header_read_memory-Accepted :
    (buf : List ℕ) (header : Header) → header_read_memory buf ≡ ok header → Accepted buf header
unfolding header_read_memory check_fields fields
header_read_memory-Accepted buf header h = record {
  long = ground (arith);
  magic_b = ground (arith);
  magic_k = ground (arith);
  magic_d = ground (arith);
  magic_f = ground (arith);
  version = ground (arith);
  small = ground (arith);
  large = ground (arith);
  flags = ground (arith);
  reserved = ground (arith);
}
