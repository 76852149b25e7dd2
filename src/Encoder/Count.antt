-- ===== src/Encoder/Count.antt =====
-- `encode_count` of src/encoding/operation_encoder.c, and the counts of the operations that have no
-- inline form.
use fsdiff.Prelude.{ℕ, ◌*◌, ◌^◌, bit_and, bit_or, leb, ◌==◌, if◌then◌else◌}
use fsdiff.Status.{Result, ◌>>=◌}
use fsdiff.Wire.{u8, u16, u32, u16_le, u32_le}
use fsdiff.Sink.{Sink}
use fsdiff.Encoder.Format.{less_one}

-- The count after the first byte of OP_COPY_RELOCATE and OP_COPY_ADD, which have no inline form.
unfoldable pub count_enc : ℕ → ℕ
count_enc count = if leb count 256 then 0 else if leb count 65536 then 1 else 2

module _ (sink : Sink) where
  open sink use {W, write_byte, write}

  -- `encode_count`
  unfoldable pub encode_count : W → ℕ → ℕ → Result W
  encode_count writer op_byte count =
      if leb count 8
      then write_byte writer
          (u8 (bit_or (bit_or op_byte (3 * 2 ^ 3)) (bit_and (less_one count) 0x7)))
      else if leb count 256
      then (do
        w ← write_byte writer (u8 (bit_or op_byte (0 * 2 ^ 3)))
        write_byte w (u8 (less_one count)))
      else if leb count 65536
      then (do
        w ← write_byte writer (u8 (bit_or op_byte (1 * 2 ^ 3)))
        write w (u16_le (u16 (less_one count))))
      else (do
        w ← write_byte writer (u8 (bit_or op_byte (2 * 2 ^ 3)))
        write w (u32_le (u32 count)))

  unfoldable pub write_count : W → ℕ → Result W
  write_count writer count =
      if count_enc count == 0
      then write_byte writer (u8 (less_one count))
      else if count_enc count == 1
      then write writer (u16_le (u16 (less_one count)))
      else write writer (u32_le (u32 count))
