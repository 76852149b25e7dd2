-- ===== src/Varint.antt =====
-- The base-128 varints of the sparse diff format: `encode_varint` of
-- src/encoding/operation_encoder.c and `read_varint` of src/patch.c.
pub mod RoundTrip
pub mod Reader
use fsdiff.Prelude.{
  ℕ, zero, suc, ◌+◌, ◌*◌, ◌/◌, ◌^◌, true, false, List, [], ◌∷◌, bit_and, bit_or, ltb, leb, ◌==◌,
  if◌then◌else◌,
}
use fsdiff.Status.{Result, ok, err, truncated, corrupt_data}
use fsdiff.Wire.{u8, u64, shr}

-- `while (value >= 128)`. Each round divides the value, so as many rounds as the value are enough:
-- the clause for no rounds left is reached at the value 0 alone.
unfoldable pub varint_loop : ℕ → ℕ → List ℕ
varint_loop zero value = u8 (bit_and value 0x7F) ∷ []
varint_loop (suc fuel) value = elim (leb 128 value) [
  | true ↦ u8 (bit_or (bit_and value 0x7F) 0x80) ∷ varint_loop fuel (shr value 7)
  | false ↦ u8 (bit_and value 0x7F) ∷ []
]

-- The bytes that `encode_varint` stores; their number is its result.
unfoldable pub encode_varint : ℕ → List ℕ
unfolding varint_loop
encode_varint value = varint_loop value value

-- `while (*ptr < end)`: the list is what lies between the two pointers.
unfoldable pub read_loop : List ℕ → ℕ → ℕ → Result (ℕ × List ℕ)
read_loop [] value shift = err truncated
read_loop (byte ∷ rest) value shift =
    let value' = bit_or value (u64 (bit_and byte 0x7F * 2 ^ shift)) in
    let more = read_loop rest value' (shift + 7) in
    if bit_and byte 0x80 == 0
    then ok (value', rest)
    else if leb 64 (shift + 7)
    then err corrupt_data
    else more

unfoldable pub read_varint : List ℕ → Result (ℕ × List ℕ)
unfolding read_loop
read_varint stream = read_loop stream 0 0
