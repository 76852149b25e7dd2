-- ===== src/RoundTrip/FirstByte.antt =====
-- The fields of an operation's first byte: what src/encoding/operation_encoder.c packs,
-- src/patch.c takes apart.
use fsdiff.Prelude.{ℕ, ◌+◌, ◌*◌, ◌/◌, ◌^◌, ◌<◌, ◌≡◌, ap, ◌∙◌, arith, bit_or}
use fsdiff.Prelude.Bits.{bit_or-shift_left, bit_and_seven, bit_and_three, bit_and_one}
use fsdiff.Encoder.Emit.{first_byte}
use fsdiff.Decoder.Reads.{op_type, count_field, offset_field, flag_field}

-- Two fields, the higher one first.
join : (k hi lo : ℕ) → lo < 2 ^ k → bit_or (hi * 2 ^ k) lo ≡ hi * 2 ^ k + lo
join k hi lo h = bit_or-shift_left k lo hi h

pub first_byte_sum :
    (op count offset flag : ℕ)
    → op < 8
    → count < 4
    → offset < 4
    → flag < 2
    → first_byte op count offset flag ≡ op * 32 + count * 8 + offset * 2 + flag
first_byte_sum op count offset flag ho hc hf hg = omega (arith, e1, e2, e3)
  where
    e1 : bit_or (op * 2 ^ 5) (count * 2 ^ 3) ≡ op * 32 + count * 8
    e1 = omega (arith, join 5 op (count * 2 ^ 3) (omega arith))

    e2 :
        bit_or (bit_or (op * 2 ^ 5) (count * 2 ^ 3)) (offset * 2 ^ 1)
        ≡ op * 32 + count * 8 + offset * 2
    e2 =
        ap (λ (t : ℕ). bit_or t (offset * 2 ^ 1)) {x = bit_or (op * 2 ^ 5) (count * 2 ^ 3)}
          {y = (op * 4 + count) * 2 ^ 3} (omega (arith, e1))
        ∙ omega (arith, join 3 (op * 4 + count) (offset * 2 ^ 1) (omega arith))

    e3 :
        bit_or (bit_or (bit_or (op * 2 ^ 5) (count * 2 ^ 3)) (offset * 2 ^ 1)) flag
        ≡ op * 32 + count * 8 + offset * 2 + flag
    e3 =
        ap (λ (t : ℕ). bit_or t flag)
          {x = bit_or (bit_or (op * 2 ^ 5) (count * 2 ^ 3)) (offset * 2 ^ 1)}
          {y = (op * 16 + count * 4 + offset) * 2 ^ 1} (omega (arith, e2))
        ∙ omega (arith, join 1 (op * 16 + count * 4 + offset) flag (omega arith))

-- From a byte that the writer packed of an operation below 8, two encodings below 4 and a flag below
-- 2, the reader's four fields are these numbers.
pub first_byte_fields :
    (op count offset flag : ℕ)
    → op < 8
    → count < 4
    → offset < 4
    → flag < 2
    → (op_type (first_byte op count offset flag) ≡ op)
      × (count_field (first_byte op count offset flag) ≡ count)
      × (offset_field (first_byte op count offset flag) ≡ offset)
      × (flag_field (first_byte op count offset flag) ≡ flag)
first_byte_fields op count offset flag ho hc hf hg =
    let e : first_byte op count offset flag ≡ op * 32 + count * 8 + offset * 2 + flag =
      first_byte_sum op count offset flag ho hc hf hg in
    rw e (
      omega (arith, bit_and_seven ((op * 32 + count * 8 + offset * 2 + flag) / 2 ^ 5)),
      omega (arith, bit_and_three ((op * 32 + count * 8 + offset * 2 + flag) / 2 ^ 3)),
      omega (arith, bit_and_three ((op * 32 + count * 8 + offset * 2 + flag) / 2 ^ 1)),
      omega (arith, bit_and_one (op * 32 + count * 8 + offset * 2 + flag)),
    )
