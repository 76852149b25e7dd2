-- ===== src/Decoder/Reads.antt =====
-- The fields of an operation, read from the operation stream.
use fsdiff.Prelude.{ℕ, ◌+◌, ◌^◌, List, bit_and, ◌==◌, if◌then◌else◌}
use fsdiff.Prelude.Int.{ℤ, pos, sub_ℕ}
use fsdiff.Status.{Result, ok, err, ◌>>=◌, corrupt_data}
use fsdiff.Wire.{shr, read_u8, read_u16, read_u24, read_u32}
use fsdiff.Signed.{to_signed}

-- `(first_byte >> 5) & 0x7`, `(first_byte >> 3) & 0x3`, `(first_byte >> 1) & 0x3`, `first_byte & 0x1`
abbrev pub op_type : ℕ → ℕ
op_type first_byte = bit_and (shr first_byte 5) 0x7

abbrev pub count_field : ℕ → ℕ
count_field first_byte = bit_and (shr first_byte 3) 0x3

abbrev pub offset_field : ℕ → ℕ
offset_field first_byte = bit_and (shr first_byte 1) 0x3

abbrev pub flag_field : ℕ → ℕ
flag_field first_byte = bit_and first_byte 0x1

-- The cases 0, 1 and 2 of a count's encoding; case 3 is `inline`.
unfoldable pub read_count_as : ℕ → Result (ℕ × List ℕ) → List ℕ → Result (ℕ × List ℕ)
read_count_as enc inline ops =
    if enc == 0
    then (do (n, ops') ← read_u8 ops; ok (n + 1, ops'))
    else if enc == 1
    then (do (n, ops') ← read_u16 ops; ok (n + 1, ops'))
    else if enc == 2
    then read_u32 ops
    else inline

-- `read_count`
unfoldable pub read_count : ℕ → List ℕ → Result (ℕ × List ℕ)
unfolding read_count_as
read_count first_byte ops =
    read_count_as (count_field first_byte) (ok (bit_and first_byte 0x7 + 1, ops)) ops

-- The count of OP_COPY_ADD, which has no inline form.
unfoldable pub read_add_count : ℕ → List ℕ → Result (ℕ × List ℕ)
unfolding read_count_as
read_add_count first_byte ops = read_count_as (count_field first_byte) (err corrupt_data) ops

-- The offset of OP_COPY_RELOCATE, in blocks: `offset_enc` 3 reads nothing and is the offset 0.
unfoldable pub read_block_offset : ℕ → List ℕ → Result (ℕ × List ℕ)
read_block_offset enc ops =
    if enc == 0
    then read_u8 ops
    else if enc == 1
    then read_u16 ops
    else if enc == 2
    then read_u32 ops
    else ok (0, ops)

-- `if (sign) offset = -offset;`
abbrev pub with_sign : ℕ → ℕ → ℤ
with_sign sign n = if sign == 0 then pos n else sub_ℕ 0 n

-- The offset of OP_COPY_ADD, in bytes: `offset_enc` 3 reads nothing and is the offset 0.
unfoldable pub read_diff_offset : ℕ → List ℕ → Result (ℤ × List ℕ)
read_diff_offset enc ops =
    if enc == 0
    then (do (raw, ops') ← read_u16 ops; ok (to_signed (2 ^ 15) raw, ops'))
    else if enc == 1
    then (do (raw, ops') ← read_u24 ops; ok (to_signed (2 ^ 23) raw, ops'))
    else if enc == 2
    then (do (raw, ops') ← read_u32 ops; ok (to_signed (2 ^ 31) raw, ops'))
    else ok (pos 0, ops)
