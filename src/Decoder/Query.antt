-- ===== src/Decoder/Query.antt =====
-- `fsd_patch_read_header` and `fsd_patch_output_size` of src/patch.c. The file is `none` where `fopen` fails.
use fsdiff.Prelude.{ℕ, ◌*◌, ◌/◌, ◌^◌, List, Option, none, some, leb}
use fsdiff.Status.{Result, ok, err, ◌>>=◌, ◌>>◌, guard, file_not_found, corrupt_data}
use fsdiff.Header.{Header, header_read}
use fsdiff.Encoder.Format.{size_max}

unfoldable pub patch_read_header : Option (List ℕ) → Result Header
patch_read_header none = err file_not_found
patch_read_header (some file) = header_read file

unfoldable pub patch_output_size : Option (List ℕ) → Result ℕ
unfolding patch_read_header
patch_output_size file = do
  header ← patch_read_header file
  let block_size = 2 ^ header.block_size_log2
  guard (leb header.dest_blocks (size_max / block_size)) corrupt_data
  ok (header.dest_blocks * block_size)
