-- ===== src/Encoder/Format.antt =====
-- The constants of the patch format (include/fsdiff/types.h, src/encoding/operation_encoder.c) and the
-- casts of 64-bit values that both sides of the format make.
use fsdiff.Prelude.{ℕ, ◌+◌, ◌-◌, ◌^◌}
use fsdiff.Prelude.Int.{ℤ}
use fsdiff.Wire.{u64}
use fsdiff.Signed.{to_signed}

-- `fsd_op_type_t`, FSD_OP_COPY_IDENTITY to FSD_OP_LITERAL
abbrev pub op_copy_identity : ℕ
op_copy_identity = 0

abbrev pub op_copy_relocate : ℕ
op_copy_relocate = 1

abbrev pub op_zero : ℕ
op_zero = 2

abbrev pub op_one : ℕ
op_one = 3

abbrev pub op_copy_add : ℕ
op_copy_add = 4

abbrev pub op_literal : ℕ
op_literal = 5

-- SPARSE_THRESHOLD_PER_BLOCK, SIZE_MAX and UINT32_MAX
abbrev pub sparse_threshold : ℕ
sparse_threshold = 512

abbrev pub size_max : ℕ
size_max = 2 ^ 64 - 1

abbrev pub uint32_max : ℕ
uint32_max = 2 ^ 32 - 1

-- `count - 1` in `uint64_t`
abbrev pub less_one : ℕ → ℕ
less_one count = u64 (count + size_max)

-- `(int64_t)x`
abbrev pub int64 : ℕ → ℤ
int64 x = to_signed (2 ^ 63) (u64 x)
