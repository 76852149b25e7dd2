-- ===== src/Prelude/Bits.antt =====
-- Bit operations as arithmetic: masks by their binary digits, and `|` of disjoint parts as a sum.
use Prim.Native.Nat.{
  ℕ, zero, suc, ◌+◌, ◌*◌, ◌/◌, ◌%◌, ◌^◌, ◌≤◌, ◌<◌, min, max, bit_and, bit_or, digits,
  bit_or-bitwise, bit_and-bitwise,
}
use mathlib.Core.Path.{◌≡◌, refl, ap}
use native.Mathlib.Omega.{arith}
use native.Mathlib.Nat.{pow-suc}

-- Any count of digits that covers `a` gives the same number.
module _ (z : ℕ → ℕ) (f : ℕ → ℕ → ℕ) where
  pub digits_count : (n m a b : ℕ) → a ≤ n → a ≤ m → digits z f n a b ≡ digits z f m a b
  digits_count zero zero a b p q = refl
  digits_count zero (suc m) zero b p q = refl
  digits_count zero (suc m) (suc a) b p q = absurd (omega arith)
  digits_count (suc n) zero zero b p q = refl
  digits_count (suc n) zero (suc a) b p q = absurd (omega arith)
  digits_count (suc n) (suc m) zero b p q = refl
  digits_count (suc n) (suc m) (suc a) b p q =
      omega (arith, digits_count n m (suc a / 2) (b / 2) (omega arith) (omega arith))

pub bit_or-zero_left : (b : ℕ) → bit_or 0 b ≡ b
bit_or-zero_left b = bit_or-bitwise 0 b

pub bit_or_step : (a b : ℕ) → bit_or a b ≡ bit_or (a / 2) (b / 2) * 2 + max (a % 2) (b % 2)
bit_or_step zero b = omega (arith, bit_or-zero_left b, bit_or-zero_left (b / 2))
bit_or_step (suc a) b = omega (
  arith,
  bit_or-bitwise (suc a) b,
  bit_or-bitwise (suc a / 2) (b / 2),
  digits_count (λ y. y) max a (suc a / 2) (suc a / 2) (b / 2) (omega arith) (omega arith),
)

pub bit_and-zero_left : (b : ℕ) → bit_and 0 b ≡ 0
bit_and-zero_left b = bit_and-bitwise 0 b

pub bit_and_step : (x y : ℕ) → bit_and x y ≡ bit_and (x / 2) (y / 2) * 2 + min (x % 2) (y % 2)
bit_and_step zero y = omega (arith, bit_and-zero_left y, bit_and-zero_left (y / 2))
bit_and_step (suc x) y = omega (
  arith,
  bit_and-bitwise (suc x) y,
  bit_and-bitwise (suc x / 2) (y / 2),
  digits_count (λ d. 0) min x (suc x / 2) (suc x / 2) (y / 2) (omega arith) (omega arith),
)

bit_and-zero_right : (n a : ℕ) → a ≤ n → bit_and a 0 ≡ 0
bit_and-zero_right n zero h = bit_and-zero_left 0
bit_and-zero_right zero (suc a) h = absurd (omega arith)
bit_and-zero_right (suc n) (suc a) h =
    omega (arith, bit_and_step (suc a) 0, bit_and-zero_right n (suc a / 2) (omega arith))

-- A mask of ones keeps the low digits, of a number of any size.
pub bit_and_one : (a : ℕ) → bit_and a 1 ≡ a % 2
bit_and_one a = omega (arith, bit_and_step a 1, bit_and-zero_right (a / 2) (a / 2) (omega arith))

pub bit_and_three : (a : ℕ) → bit_and a 3 ≡ a % 4
bit_and_three a = omega (arith, bit_and_step a 3, bit_and_one (a / 2))

pub bit_and_seven : (a : ℕ) → bit_and a 7 ≡ a % 8
bit_and_seven a = omega (arith, bit_and_step a 7, bit_and_three (a / 2))

bit_and_31 : (a : ℕ) → bit_and a 31 ≡ a % 32
bit_and_31 a = omega (arith, bit_and_step a 31, bit_and_step (a / 2) 15, bit_and_seven (a / 2 / 2))

pub bit_and_127 : (a : ℕ) → bit_and a 127 ≡ a % 128
bit_and_127 a = omega (arith, bit_and_step a 127, bit_and_step (a / 2) 63, bit_and_31 (a / 2 / 2))

pub double_pow : (k : ℕ) → 2 ^ suc k ≡ 2 * 2 ^ k
double_pow k = omega (arith, pow-suc 2 k)

pub double_shift : (b k : ℕ) → b * 2 ^ suc k ≡ 2 * (b * 2 ^ k)
double_shift b k = omega (arith, ap (λ (t : ℕ). b * t) (double_pow k))

-- A value shifted left past another one: `a | (b << k)` is a sum.
pub bit_or-shift : (k a b : ℕ) → a < 2 ^ k → bit_or a (b * 2 ^ k) ≡ a + b * 2 ^ k
bit_or-shift zero zero b h = omega (arith, bit_or-zero_left (b * 2 ^ 0))
bit_or-shift zero (suc a) b h = absurd (omega arith)
bit_or-shift (suc k) a b h = omega (
  arith,
  bit_or_step a (b * 2 ^ suc k),
  double_pow k,
  double_shift b k,
  half,
  bit_or-shift k (a / 2) b (omega (arith, double_pow k)),
)
  where
    half : bit_or (a / 2) (b * 2 ^ suc k / 2) ≡ bit_or (a / 2) (b * 2 ^ k)
    half = ap (λ (t : ℕ). bit_or (a / 2) t) (omega (arith, double_shift b k))

bit_or-zero_right : (n a : ℕ) → a ≤ n → bit_or a 0 ≡ a
bit_or-zero_right n zero h = bit_or-zero_left 0
bit_or-zero_right zero (suc a) h = absurd (omega arith)
bit_or-zero_right (suc n) (suc a) h =
    omega (arith, bit_or_step (suc a) 0, bit_or-zero_right n (suc a / 2) (omega arith))

-- The same with the higher part on the left: `(b << k) | a`.
pub bit_or-shift_left : (k a b : ℕ) → a < 2 ^ k → bit_or (b * 2 ^ k) a ≡ b * 2 ^ k + a
bit_or-shift_left zero zero b h =
    omega (arith, bit_or-zero_right (b * 2 ^ 0) (b * 2 ^ 0) (omega arith))
bit_or-shift_left zero (suc a) b h = absurd (omega arith)
bit_or-shift_left (suc k) a b h = omega (
  arith,
  bit_or_step (b * 2 ^ suc k) a,
  double_pow k,
  double_shift b k,
  half,
  bit_or-shift_left k (a / 2) b (omega (arith, double_pow k)),
)
  where
    half : bit_or (b * 2 ^ suc k / 2) (a / 2) ≡ bit_or (b * 2 ^ k) (a / 2)
    half = ap (λ (t : ℕ). bit_or t (a / 2)) (omega (arith, double_shift b k))

-- The flag of a varint's byte.
pub set_top_bit : (b : ℕ) → b < 128 → bit_or b 0x80 ≡ b + 128
set_top_bit b h = omega (arith, bit_or-shift 7 b 1 h)

bit_and_two : (a : ℕ) → bit_and a 2 ≡ a / 2 % 2 * 2
bit_and_two a = omega (arith, bit_and_step a 2, bit_and_one (a / 2))

bit_and_eight : (a : ℕ) → bit_and a 8 ≡ a / 8 % 2 * 8
bit_and_eight a = omega (arith, bit_and_step a 8, bit_and_step (a / 2) 4, bit_and_two (a / 2 / 2))

bit_and_32 : (a : ℕ) → bit_and a 32 ≡ a / 32 % 2 * 32
bit_and_32 a = omega (arith, bit_and_step a 32, bit_and_step (a / 2) 16, bit_and_eight (a / 2 / 2))

pub top_bit : (b : ℕ) → b < 256 → bit_and b 0x80 ≡ b / 128 * 128
top_bit b h =
    omega (arith, h, bit_and_step b 0x80, bit_and_step (b / 2) 0x40, bit_and_32 (b / 2 / 2))

pub bit_and_255 : (a : ℕ) → bit_and a 255 ≡ a % 256
bit_and_255 a = omega (arith, bit_and_step a 255, bit_and_127 (a / 2))
