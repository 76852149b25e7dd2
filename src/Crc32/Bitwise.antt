-- ===== src/Crc32/Bitwise.antt =====
-- The table of src/core/crc32.c against the definition of CRC-32 bit by bit.
use fsdiff.Prelude.{
  ℕ, zero, suc, ◌+◌, ◌-◌, ◌*◌, ◌/◌, ◌%◌, ◌^◌, ◌<◌, ◌≤◌, ◌≡◌, Bool, true, false, List, [], ◌∷◌,
  get_or, length, ◌==◌, if◌then◌else◌, All, bit_and, arith, refl, sym, ap, ap₂, ◌∙◌, inl, inr,
  Bool-cases,
}
use Prim.Native.Nat.{bit_xor}
use fsdiff.Prelude.Bits.{bit_and_255}
use fsdiff.Prelude.Xor.{
  bit_xor-byte, bit_xor-zero_right, bit_xor-half, bit_xor-parity, bit_xor-regroup,
  bit_xor-zero_left, bit_xor-lt,
}
use fsdiff.Wire.{IsByte}
use fsdiff.Crc32.{crc32_table, crc32_step, tail_loop, crc32_update, crc32_final, crc32}

-- The polynomial where a bit is set.
abbrev poly : ℕ → ℕ
poly bit = if bit == 0 then 0 else 0xEDB88320

-- One bit of the register.
abbrev shift_bit : ℕ → ℕ
shift_bit crc = bit_xor (crc / 2) (poly (crc % 2))

unfoldable shift_bits : ℕ → ℕ → ℕ
shift_bits zero crc = crc
shift_bits (suc n) crc = shift_bits n (shift_bit crc)

-- CRC-32 by definition: every byte is added to the register, which then moves by eight bits.
unfoldable pub bitwise_update : ℕ → List ℕ → ℕ
unfolding shift_bits
bitwise_update crc [] = crc
bitwise_update crc (byte ∷ buf) = bitwise_update (shift_bits 8 (bit_xor crc byte)) buf

poly-xor : (a b : ℕ) → a ≤ 1 → b ≤ 1 → poly ((a + b) % 2) ≡ bit_xor (poly a) (poly b)
poly-xor zero zero h k = refl
poly-xor zero (suc b) h k = let e : b ≡ 0 = omega arith in rw e refl
poly-xor (suc a) zero h k = let e : a ≡ 0 = omega arith in rw e refl
poly-xor (suc a) (suc b) h k =
    let e : a ≡ 0 = omega arith in let e' : b ≡ 0 = omega arith in rw (e, e') refl

-- The moves are linear.
shift_bit-xor : (a b : ℕ) → shift_bit (bit_xor a b) ≡ bit_xor (shift_bit a) (shift_bit b)
shift_bit-xor a b =
    let n = a + b + 0xEDB88320 in
    let pa : poly (a % 2) ≤ n = ground arith in
    let pb : poly (b % 2) ≤ n = ground arith in
    rw (bit_xor-half a b, bit_xor-parity a b, poly-xor (a % 2) (b % 2) (omega arith) (omega arith))
      (bit_xor-regroup n (a / 2) (b / 2) (poly (a % 2)) (poly (b % 2)) (omega arith) (omega arith)
        pa pb)

shift_bits-xor :
    (n a b : ℕ) → shift_bits n (bit_xor a b) ≡ bit_xor (shift_bits n a) (shift_bits n b)
unfolding shift_bits
shift_bits-xor zero a b = refl
shift_bits-xor (suc n) a b =
    ap (shift_bits n) (shift_bit-xor a b) ∙ shift_bits-xor n (shift_bit a) (shift_bit b)

-- Digits above the ones that move out only move down.
shift_bit-even : (a : ℕ) → shift_bit (2 * a) ≡ a
shift_bit-even a =
    let e : 2 * a / 2 ≡ a = omega arith in
    let e' : 2 * a % 2 ≡ 0 = omega arith in rw (e, e') (bit_xor-zero_right a)

shift_bits-byte : (a : ℕ) → shift_bits 8 (256 * a) ≡ a
unfolding shift_bits
shift_bits-byte a =
    let e : 256 * a ≡ 2 * (2 * (2 * (2 * (2 * (2 * (2 * (2 * a))))))) = omega arith in
    rw
      (
        e,
        shift_bit-even (2 * (2 * (2 * (2 * (2 * (2 * (2 * a))))))),
        shift_bit-even (2 * (2 * (2 * (2 * (2 * (2 * a)))))),
        shift_bit-even (2 * (2 * (2 * (2 * (2 * a))))),
        shift_bit-even (2 * (2 * (2 * (2 * a)))),
        shift_bit-even (2 * (2 * (2 * a))),
        shift_bit-even (2 * (2 * a)),
        shift_bit-even (2 * a),
        shift_bit-even a,
      )
      refl

-- Every entry of the table, by computation.
abbrev right_from : ℕ → List ℕ → Bool
right_from i [] = true
right_from i (entry ∷ table) = if shift_bits 8 i == entry then right_from (i + 1) table else false

table_right : right_from 0 crc32_table ≡ true
unfolding shift_bits
table_right = refl

right_from-entry :
    (i j : ℕ) (table : List ℕ)
    → right_from i table ≡ true
    → j < length table
    → get_or table j 0 ≡ shift_bits 8 (i + j)
right_from-entry i j [] h k = absurd (omega arith)
right_from-entry i zero (entry ∷ table) h k = elim (Bool-cases (shift_bits 8 i == entry)) [
  | inr wrong ↦ let no_way : false ≡ true = rw wrong at h in cc
  | inl right ↦
      let e : shift_bits 8 i ≡ entry = ground (arith, right) in
      let e' : i + 0 ≡ i = omega arith in sym (rw e' e)
]
right_from-entry i (suc j) (entry ∷ table) h k = elim (Bool-cases (shift_bits 8 i == entry)) [
  | inr wrong ↦ let no_way : false ≡ true = rw wrong at h in cc
  | inl right ↦
      let e : i + suc j ≡ i + 1 + j = omega arith in
      rw e (right_from-entry (i + 1) j table (rw right at h) (omega arith))
]

entry_of_byte : (byte : ℕ) → IsByte byte → get_or crc32_table byte 0 ≡ shift_bits 8 byte
entry_of_byte byte h =
    right_from-entry 0 byte crc32_table table_right (omega arith) ∙ ap (shift_bits 8) (omega arith)

-- Numbers with no common digit.
disjoint : (a h : ℕ) → a < 256 → a + 256 * h ≡ bit_xor a (256 * h)
disjoint a h lt =
    let e : a ≡ a + 256 * 0 = omega arith in
    let e' : 256 * h ≡ 0 + 256 * h = omega arith in
    sym (
      ap₂ bit_xor e e'
      ∙ (bit_xor-byte a 0 0 h lt (omega arith)
          ∙ ap₂ (λ (s t : ℕ). s + 256 * t) (bit_xor-zero_right a) (bit_xor-zero_left h)))

-- One step with the table is eight moves of the register.
crc32_step_lem :
    (crc byte : ℕ) → IsByte byte → crc32_step crc byte ≡ shift_bits 8 (bit_xor crc byte)
unfolding crc32_step
crc32_step_lem crc byte h =
    let low = crc % 256 in
    let high = crc / 256 in
    let lt : bit_xor low byte < 256 = bit_xor-lt 8 low byte (omega arith) h in
    let parts : crc ≡ low + 256 * high = omega arith in
    let plain : byte ≡ byte + 256 * 0 = omega arith in
    let register : bit_xor crc byte ≡ bit_xor low byte + 256 * high =
      ap₂ bit_xor parts plain
      ∙ (bit_xor-byte low byte high 0 (omega arith) h
          ∙ ap (λ t. bit_xor low byte + 256 * t) (bit_xor-zero_right high)) in
    let index : bit_and (bit_xor crc byte) 255 ≡ bit_xor low byte =
      bit_and_255 (bit_xor crc byte) ∙ omega (arith, register, lt) in
    let shifted : crc / 2 ^ 8 ≡ high = omega arith in
    let apart : bit_xor low byte + 256 * high ≡ bit_xor (bit_xor low byte) (256 * high) =
      disjoint (bit_xor low byte) high lt in
    rw (index, entry_of_byte (bit_xor low byte) lt, shifted, register, apart)
      (sym (
        shift_bits-xor 8 (bit_xor low byte) (256 * high)
        ∙ ap (bit_xor (shift_bits 8 (bit_xor low byte))) (shift_bits-byte high)))

tail_loop_lem :
    (crc : ℕ) (buf : List ℕ) → All IsByte buf → tail_loop crc buf ≡ bitwise_update crc buf
unfolding tail_loop bitwise_update
tail_loop_lem crc [] h = refl
tail_loop_lem crc (byte ∷ buf) h =
    rw (crc32_step_lem crc byte h.0) (tail_loop_lem (shift_bits 8 (bit_xor crc byte)) buf h.1)

-- The loop of eight bytes a round is the loop over bytes.
crc32_update_lem : (buf : List ℕ) (crc : ℕ) → crc32_update crc buf ≡ tail_loop crc buf
unfolding crc32_update tail_loop
crc32_update_lem (b0 ∷ b1 ∷ b2 ∷ b3 ∷ b4 ∷ b5 ∷ b6 ∷ b7 ∷ buf) crc = crc32_update_lem buf _
crc32_update_lem short crc = refl

-- `fsd_crc32`, by its table and eight bytes a round, is CRC-32 by definition, with a register of 32 ones before
-- the first byte and inverted after the last one, on any buffer of bytes.
pub crc32-bitwise_update :
    (bytes : List ℕ)
    → All IsByte bytes
    → crc32 bytes ≡ 2 ^ 32 - 1 - bitwise_update (2 ^ 32 - 1) bytes
unfolding crc32 crc32_final
crc32-bitwise_update bytes h =
    ap (λ (t : ℕ). 2 ^ 32 - 1 - t)
      (crc32_update_lem bytes 0xFFFFFFFF ∙ tail_loop_lem 0xFFFFFFFF bytes h)
