-- ===== src/Header/RoundTrip.antt =====
-- Reading back a header that was written.
use fsdiff.Prelude.{ℕ, ◌≤◌, ◌<◌, ◌^◌, ◌≡◌, List, ◌++◌, arith}
use fsdiff.Status.{ok}
use fsdiff.Wire.RoundTrip.{read_u64_le-u64_le}
use fsdiff.Header.{header_bytes, header_read_memory, version_one}

-- What `fsd_header_write` wrote, `fsd_header_read_memory` returns, whatever follows the header, if
-- the block size is one that the format allows and the three other numbers are below 2^64.
pub header_read_memory-header_bytes :
    (dest_blocks log2 op_len diff_len : ℕ) (rest : List ℕ)
    → 5 ≤ log2
    → log2 ≤ 24
    → dest_blocks < 2 ^ 64
    → op_len < 2 ^ 64
    → diff_len < 2 ^ 64
    → header_read_memory (header_bytes dest_blocks log2 op_len diff_len ++ rest)
      ≡ ok (record {
        version = version_one;
        block_size_log2 = log2;
        dest_blocks = dest_blocks;
        op_stream_len = op_len;
        diff_stream_len = diff_len;
      })
unfolding header_read_memory header_bytes
header_read_memory-header_bytes n log2 o d rest lo hi hn ho hd =
    ground (arith, read_u64_le-u64_le n hn, read_u64_le-u64_le o ho, read_u64_le-u64_le d hd)
