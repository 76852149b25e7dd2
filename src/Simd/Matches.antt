-- ===== src/Simd/Matches.antt =====
-- The exclusive or of src/simd/simd_scalar.c against a count byte by byte.
use fsdiff.Prelude.{
  ℕ, suc, ◌+◌, ◌*◌, ◌/◌, ◌%◌, ◌^◌, ◌<◌, ◌≤◌, ◌≡◌, inl, inr, List, [], ◌∷◌, ◌==◌, if◌then◌else◌,
  length, All, arith, refl, sym, ◌∙◌, Bool-cases,
}
use Prim.Native.Nat.{bit_xor}
use fsdiff.Prelude.Bits.{bit_and_255}
use fsdiff.Prelude.Xor.{bit_xor_self, bit_xor-eq_zero, bit_xor-lt, bit_xor-byte}
use fsdiff.Wire.{IsByte}
use fsdiff.Simd.{load_word, zero_bytes, word_matches, byte_matches, scalar_count_matches}

-- One byte of a difference.
same_byte : ℕ → ℕ → ℕ
same_byte a b = if a == b then 1 else 0

xor_zero : (a b : ℕ) → (bit_xor a b == 0) ≡ (a == b)
xor_zero a b = elim (Bool-cases (a == b)) [
  | inl same ↦
      let e : a ≡ b = ground (arith, same) in rw (same, e, bit_xor_self b b (omega arith)) refl
  | inr apart ↦ elim (Bool-cases (bit_xor a b == 0)) [
    | inr miss ↦ miss ∙ sym apart
    | inl hit ↦
        let z : bit_xor a b ≡ 0 = ground (arith, hit) in
        let e : a ≡ b = bit_xor-eq_zero (a + b) a b (omega arith) (omega arith) z in
        ground (arith, apart, e)
  ]
]

zero_step :
    (n a b x y : ℕ)
    → IsByte a
    → IsByte b
    → zero_bytes (suc n) (bit_xor (a + 256 * x) (b + 256 * y))
      ≡ same_byte a b + zero_bytes n (bit_xor x y)
unfolding zero_bytes same_byte
zero_step n a b x y ha hb =
    let lt : bit_xor a b < 256 = bit_xor-lt 8 a b ha hb in
    let low : (bit_xor a b + 256 * bit_xor x y) % 256 ≡ bit_xor a b = omega arith in
    let high : (bit_xor a b + 256 * bit_xor x y) / 2 ^ 8 ≡ bit_xor x y = omega arith in
    rw
      (
        bit_xor-byte a b x y ha hb,
        bit_and_255 (bit_xor a b + 256 * bit_xor x y),
        low,
        high,
        xor_zero a b,
      )
      refl

zero_last : (a b : ℕ) → IsByte a → IsByte b → zero_bytes 1 (bit_xor a b) ≡ same_byte a b + 0
unfolding zero_bytes same_byte
zero_last a b ha hb =
    let lt : bit_xor a b < 256 = bit_xor-lt 8 a b ha hb in
    let low : bit_xor a b % 256 ≡ bit_xor a b = omega arith in
    rw (bit_and_255 (bit_xor a b), low, xor_zero a b) refl

-- The shortcut of a word with no difference.
word_matches_lem : (diff : ℕ) → word_matches diff ≡ zero_bytes 8 diff
unfolding word_matches zero_bytes
word_matches_lem diff = elim (Bool-cases (diff == 0)) [
  | inl z ↦ let e : diff ≡ 0 = ground (arith, z) in rw e refl
  | inr n ↦ rw n refl
]

byte_matches-step :
    (a b : ℕ) (xs ys : List ℕ) → byte_matches (a ∷ xs) (b ∷ ys) ≡ same_byte a b + byte_matches xs ys
unfolding byte_matches same_byte
byte_matches-step a b xs ys = refl

-- `fsd_scalar_count_matches`, which counts the zero bytes of the difference of two words, counts the
-- positions at which two buffers of bytes hold the same byte, whatever their length.
pub scalar_count_matches_lem :
    (xs ys : List ℕ)
    → All IsByte xs
    → All IsByte ys
    → scalar_count_matches xs ys ≡ byte_matches xs ys
unfolding scalar_count_matches
scalar_count_matches_lem (a0 ∷ a1 ∷ a2 ∷ a3 ∷ a4 ∷ a5 ∷ a6 ∷ a7 ∷ xs)
      (b0 ∷ b1 ∷ b2 ∷ b3 ∷ b4 ∷ b5 ∷ b6 ∷ b7 ∷ ys)
      (h0, (h1, (h2, (h3, (h4, (h5, (h6, (h7, hs))))))))
      (k0, (k1, (k2, (k3, (k4, (k5, (k6, (k7, ks)))))))) =
    rw
      (
        scalar_count_matches_lem xs ys hs ks,
        word_matches_lem
            (bit_xor (load_word a0 a1 a2 a3 a4 a5 a6 a7) (load_word b0 b1 b2 b3 b4 b5 b6 b7)),
        zero_step 7 a0 b0
            (a1 + 256 * (a2 + 256 * (a3 + 256 * (a4 + 256 * (a5 + 256 * (a6 + 256 * a7))))))
            (b1 + 256 * (b2 + 256 * (b3 + 256 * (b4 + 256 * (b5 + 256 * (b6 + 256 * b7)))))) h0 k0,
        zero_step 6 a1 b1 (a2 + 256 * (a3 + 256 * (a4 + 256 * (a5 + 256 * (a6 + 256 * a7)))))
            (b2 + 256 * (b3 + 256 * (b4 + 256 * (b5 + 256 * (b6 + 256 * b7))))) h1 k1,
        zero_step 5 a2 b2 (a3 + 256 * (a4 + 256 * (a5 + 256 * (a6 + 256 * a7))))
            (b3 + 256 * (b4 + 256 * (b5 + 256 * (b6 + 256 * b7)))) h2 k2,
        zero_step 4 a3 b3 (a4 + 256 * (a5 + 256 * (a6 + 256 * a7)))
            (b4 + 256 * (b5 + 256 * (b6 + 256 * b7))) h3 k3,
        zero_step 3 a4 b4 (a5 + 256 * (a6 + 256 * a7)) (b5 + 256 * (b6 + 256 * b7)) h4 k4,
        zero_step 2 a5 b5 (a6 + 256 * a7) (b6 + 256 * b7) h5 k5,
        zero_step 1 a6 b6 a7 b7 h6 k6,
        zero_last a7 b7 h7 k7,
        byte_matches-step a0 b0,
        byte_matches-step a1 b1,
        byte_matches-step a2 b2,
        byte_matches-step a3 b3,
        byte_matches-step a4 b4,
        byte_matches-step a5 b5,
        byte_matches-step a6 b6,
        byte_matches-step a7 b7,
      )
      (omega arith)
scalar_count_matches_lem xs ys h k = refl

pub byte_matches-le : (xs ys : List ℕ) → byte_matches xs ys ≤ length ys
unfolding byte_matches
byte_matches-le [] ys = omega arith
byte_matches-le (x ∷ xs) [] = omega arith
byte_matches-le (x ∷ xs) (y ∷ ys) = let k = byte_matches-le xs ys in ground (arith, k)
