-- ===== src/Varint/RoundTrip.antt =====
-- `read_varint` reads back what `encode_varint` wrote.
use fsdiff.Prelude.{
  ℕ, zero, suc, ◌+◌, ◌-◌, ◌*◌, ◌/◌, ◌%◌, ◌^◌, ◌≤◌, ◌<◌, ◌≡◌, ap, List, [], ◌∷◌, ◌++◌, arith, leb,
  Bool-cases, inl, inr, length, All, ◌∙◌,
}
use native.Mathlib.Decide.{dec_lt}
use fsdiff.Wire.{IsByte}
use native.Mathlib.Nat.{div-add-mod}
use native.Mathlib.Numerals.{towards_suc}
use fsdiff.Prelude.Bits.{bit_and_127, top_bit, set_top_bit, bit_or-shift}
use fsdiff.Status.{ok}
use fsdiff.Varint.{varint_loop, encode_varint, read_loop, read_varint}

next_shift : (shift : ℕ) → 2 ^ (shift + 7) ≡ 128 * 2 ^ shift
next_shift shift = simp towards_suc (omega arith)

-- The lowest group of `w` and the groups above it, both shifted.
two_groups : (shift w : ℕ) → w % 128 * 2 ^ shift + w / 128 * 2 ^ (shift + 7) ≡ w * 2 ^ shift
two_groups shift w = omega (
  arith,
  ap (λ (power : ℕ). w / 128 * power) (next_shift shift),
  ap (λ (word : ℕ). word * 2 ^ shift) (div-add-mod w 128),
)

-- One round of the reader on the last byte of a varint.
last_byte :
    (w value shift : ℕ) (rest : List ℕ)
    → w < 128
    → value < 2 ^ shift
    → value + w * 2 ^ shift < 2 ^ 64
    → read_loop (w ∷ rest) value shift ≡ ok (value + w * 2 ^ shift, rest)
unfolding read_loop
last_byte w value shift rest hw hv fits =
    ground (arith, bit_and_127 w, top_bit w, bit_or-shift shift value w)

-- One round on a byte whose flag says that more follow.
inner_byte :
    (g value shift : ℕ) (rest : List ℕ)
    → g < 128
    → shift + 7 < 64
    → value < 2 ^ shift
    → value + g * 2 ^ shift < 2 ^ 64
    → read_loop ((g + 128) ∷ rest) value shift ≡ read_loop rest (value + g * 2 ^ shift) (shift + 7)
unfolding read_loop
inner_byte g value shift rest hg hs hv fits =
    ground (arith, bit_and_127 (g + 128), top_bit (g + 128), bit_or-shift shift value g)

-- The bytes that the writer emits, as arithmetic.
loop_last : (fuel w : ℕ) → w ≤ fuel → w < 128 → varint_loop fuel w ≡ w ∷ []
unfolding varint_loop
loop_last zero w h hw = ground (arith, bit_and_127 w)
loop_last (suc fuel) w h hw = ground (arith, bit_and_127 w)

loop_more :
    (fuel w : ℕ) → 128 ≤ w → varint_loop (suc fuel) w ≡ (w % 128 + 128) ∷ varint_loop fuel (w / 128)
unfolding varint_loop
loop_more fuel w h = ground (arith, bit_and_127 w, set_top_bit (w % 128) (omega arith))

small_group :
    (g shift : ℕ) (value : ℕ)
    → g < 128
    → value < 2 ^ shift
    → value + g * 2 ^ shift < 2 ^ (shift + 7)
small_group g shift value hg hv = grind (arith, next_shift shift)

-- A full group at bit 63 would not fit 64 bits.
room : (w shift j : ℕ) → shift ≡ 7 * j → j ≤ 9 → 128 ≤ w → w * 2 ^ shift < 2 ^ 64 → shift + 7 < 64
room w shift j hs hj hw fits = elim (dec_lt j 9) [
  | yes p ↦ omega arith
  | no p ↦
      let e : shift ≡ 63 = omega arith in
      let big : w * 2 ^ 63 < 2 ^ 64 = rw e at fits in absurd (omega arith)
]

-- `w` is what is still to come, from bit `shift` on: there are at most nine full groups below it.
read_loop-varint_loop :
    (fuel w value shift j : ℕ) (rest : List ℕ)
    → w ≤ fuel
    → shift ≡ 7 * j
    → j ≤ 9
    → value < 2 ^ shift
    → value + w * 2 ^ shift < 2 ^ 64
    → read_loop (varint_loop fuel w ++ rest) value shift ≡ ok (value + w * 2 ^ shift, rest)
read_loop-varint_loop zero w value shift j rest h hs hj hv fits =
    rw (loop_last zero w h (omega arith)) (last_byte w value shift rest (omega arith) hv fits)
read_loop-varint_loop (suc fuel) w value shift j rest h hs hj hv fits =
    elim (Bool-cases (leb 128 w)) [
      | inr small ↦
          rw (loop_last (suc fuel) w h (ground arith))
            (last_byte w value shift rest (ground arith) hv fits)
      | inl big ↦
          let hw : 128 ≤ w = ground arith in
          let more : shift + 7 < 64 = room w shift j hs hj hw (omega arith) in
          rw (loop_more fuel w hw) (
            inner_byte (w % 128) value shift _ (omega arith) more hv
              (omega (arith, two_groups shift w))
            ∙ read_loop-varint_loop fuel (w / 128) (value + w % 128 * 2 ^ shift) (shift + 7) (j + 1)
                rest (omega arith) (omega arith) (omega arith)
                (small_group (w % 128) shift value (omega arith) hv)
                (omega (arith, two_groups shift w))
            ∙ ap (λ (t : ℕ). ok (t, rest)) (omega (arith, two_groups shift w)))
    ]

-- `read_varint` returns the 64-bit number that `encode_varint` wrote, and leaves what follows it.
pub read_varint-encode_varint :
    (v : ℕ) (rest : List ℕ) → v < 2 ^ 64 → read_varint (encode_varint v ++ rest) ≡ ok (v, rest)
unfolding read_varint encode_varint
read_varint-encode_varint v rest h =
    read_loop-varint_loop v v 0 0 0 rest (omega arith) (omega arith) (omega arith) (omega arith)
      (omega arith)
    ∙ ap (λ (t : ℕ). ok (t, rest)) (omega arith)

length-varint_loop :
    (k fuel w : ℕ) → w ≤ fuel → w < 128 ^ suc k → length (varint_loop fuel w) ≤ suc k
length-varint_loop k zero w h hw = rw (loop_last zero w h (omega arith)) (omega arith)
length-varint_loop zero (suc fuel) w h hw =
    rw (loop_last (suc fuel) w h (omega arith)) (omega arith)
length-varint_loop (suc k) (suc fuel) w h hw = elim (Bool-cases (leb 128 w)) [
  | inr small ↦ rw (loop_last (suc fuel) w h (ground arith)) (omega arith)
  | inl big ↦
      rw (loop_more fuel w (ground arith))
        (omega (arith, length-varint_loop k fuel (w / 128) (ground arith) (omega arith)))
]

-- The varint of a 64-bit number is no longer than the buffer of ten bytes.
pub length-encode_varint : (v : ℕ) → v < 2 ^ 64 → length (encode_varint v) ≤ 10
unfolding encode_varint
length-encode_varint v h = length-varint_loop 9 v v (omega arith) (omega arith)

varint_loop-le : (fuel w : ℕ) → w ≤ fuel → length (varint_loop fuel w) ≤ 1 + (w - 1)
varint_loop-le zero w h = rw (loop_last zero w h (omega arith)) (omega arith)
varint_loop-le (suc fuel) w h = elim (Bool-cases (leb 128 w)) [
  | inr small ↦ rw (loop_last (suc fuel) w h (ground arith)) (omega arith)
  | inl big ↦
      let hw : 128 ≤ w = ground arith in
      rw (loop_more fuel w hw) (omega (arith, varint_loop-le fuel (w / 128) (omega arith)))
]

-- A varint takes one byte for 0, and no more bytes than its value otherwise.
pub length-encode_varint-le : (v : ℕ) → length (encode_varint v) ≤ 1 + (v - 1)
unfolding encode_varint
length-encode_varint-le v = varint_loop-le v v (omega arith)

pub encode_varint-IsByte : (fuel w : ℕ) → w ≤ fuel → All IsByte (varint_loop fuel w)
encode_varint-IsByte zero w h = rw (loop_last zero w h (omega arith)) (omega arith)
encode_varint-IsByte (suc fuel) w h = elim (Bool-cases (leb 128 w)) [
  | inr small ↦ rw (loop_last (suc fuel) w h (ground arith)) (ground arith)
  | inl big ↦
      rw (loop_more fuel w (ground arith))
        (omega arith, encode_varint-IsByte fuel (w / 128) (ground arith))
]
