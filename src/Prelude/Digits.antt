-- ===== src/Prelude/Digits.antt =====
-- The binary digits of a number, and those of a mask.
use Prim.Native.Nat.{ℕ, zero, suc, ◌-◌, ◌*◌, ◌/◌, ◌%◌, ◌^◌, ◌≤◌, ◌<◌, min, max, bit_and, bit_or}
use mathlib.Core.Path.{◌≡◌, refl, ap}
use mathlib.Core.Logic.{◌≢◌}
use native.Mathlib.Omega.{arith}
use fsdiff.Prelude.Bits.{bit_and_step, bit_or_step, bit_and_one, double_pow, double_shift}

pub two_pow_pos : (n : ℕ) → 1 ≤ 2 ^ n
two_pow_pos zero = omega arith
two_pow_pos (suc n) = omega (arith, double_pow n, two_pow_pos n)

-- Digit `k` of `a`.
abbrev pub bit : ℕ → ℕ → ℕ
bit a zero = a % 2
bit a (suc k) = bit (a / 2) k

pub bit-le : (k a : ℕ) → bit a k ≤ 1
bit-le zero a = omega arith
bit-le (suc k) a = bit-le k (a / 2)

pub bit-bit_and : (k a b : ℕ) → bit (bit_and a b) k ≡ min (bit a k) (bit b k)
bit-bit_and zero a b = omega (arith, bit_and_step a b)
bit-bit_and (suc k) a b =
    let e : bit_and a b / 2 ≡ bit_and (a / 2) (b / 2) = omega (arith, bit_and_step a b) in
    rw e (bit-bit_and k (a / 2) (b / 2))

pub bit-bit_or : (k a b : ℕ) → bit (bit_or a b) k ≡ max (bit a k) (bit b k)
bit-bit_or zero a b = omega (arith, bit_or_step a b)
bit-bit_or (suc k) a b =
    let e : bit_or a b / 2 ≡ bit_or (a / 2) (b / 2) = omega (arith, bit_or_step a b) in
    rw e (bit-bit_or k (a / 2) (b / 2))

-- The test of one digit.
pub bit_and-pow : (k a : ℕ) → bit_and a (2 ^ k) ≡ bit a k * 2 ^ k
bit_and-pow zero a = omega (arith, bit_and_one a)
bit_and-pow (suc k) a =
    let e : 2 ^ suc k / 2 ≡ 2 ^ k = omega (arith, double_pow k) in
    let e' : bit_and (a / 2) (2 ^ suc k / 2) ≡ bit_and (a / 2) (2 ^ k) =
      ap (λ (t : ℕ). bit_and (a / 2) t) e in
    omega (
      arith,
      bit_and_step a (2 ^ suc k),
      e',
      bit_and-pow k (a / 2),
      double_pow k,
      double_shift (bit (a / 2) k) k,
    )

pub bit-zero : (k : ℕ) → bit 0 k ≡ 0
bit-zero zero = refl
bit-zero (suc k) = bit-zero k

-- The digits of a power of two, and of a mask with one digit missing.
pub bit-pow_self : (k : ℕ) → bit (2 ^ k) k ≡ 1
bit-pow_self zero = refl
bit-pow_self (suc k) =
    let e : 2 ^ suc k / 2 ≡ 2 ^ k = omega (arith, double_pow k) in rw e (bit-pow_self k)

pub bit-pow_ne : (j k : ℕ) → j ≢ k → bit (2 ^ j) k ≡ 0
bit-pow_ne zero zero h = absurd (h refl)
bit-pow_ne zero (suc k) h = bit-zero k
bit-pow_ne (suc j) zero h = omega (arith, double_pow j)
bit-pow_ne (suc j) (suc k) h =
    let e : 2 ^ suc j / 2 ≡ 2 ^ j = omega (arith, double_pow j) in
    rw e (bit-pow_ne j k (λ e. h (ap suc e)))

bit-ones : (n k : ℕ) → k < n → bit (2 ^ n - 1) k ≡ 1
bit-ones zero k h = absurd (omega arith)
bit-ones (suc n) zero h = let p : 1 ≤ 2 ^ n = two_pow_pos n in omega (arith, double_pow n)
bit-ones (suc n) (suc k) h =
    let e : (2 ^ suc n - 1) / 2 ≡ 2 ^ n - 1 = omega (arith, double_pow n) in
    rw e (bit-ones n k (omega arith))

pub bit-hole_self : (n k : ℕ) → k < n → bit (2 ^ n - 1 - 2 ^ k) k ≡ 0
bit-hole_self zero k h = absurd (omega arith)
bit-hole_self (suc n) zero h = omega (arith, double_pow n)
bit-hole_self (suc n) (suc k) h =
    let e : (2 ^ suc n - 1 - 2 ^ suc k) / 2 ≡ 2 ^ n - 1 - 2 ^ k =
      omega (arith, double_pow n, double_pow k) in
    rw e (bit-hole_self n k (omega arith))

pow_above : (n j : ℕ) → j < n → 2 * 2 ^ j ≤ 2 ^ n
pow_above zero j h = absurd (omega arith)
pow_above (suc n) zero h = omega (arith, double_pow n, two_pow_pos n)
pow_above (suc n) (suc j) h = omega (arith, double_pow n, double_pow j, pow_above n j (omega arith))

pub bit-hole_ne : (n j k : ℕ) → k < n → j < n → j ≢ k → bit (2 ^ n - 1 - 2 ^ j) k ≡ 1
bit-hole_ne zero j k h h' ne = absurd (omega arith)
bit-hole_ne (suc n) zero zero h h' ne = absurd (ne refl)
bit-hole_ne (suc n) zero (suc k) h h' ne =
    let e : (2 ^ suc n - 1 - 2 ^ 0) / 2 ≡ 2 ^ n - 1 = omega (arith, double_pow n) in
    rw e (bit-ones n k (omega arith))
bit-hole_ne (suc n) (suc j) zero h h' ne =
    omega (arith, double_pow n, double_pow j, two_pow_pos n, pow_above n j (omega arith))
bit-hole_ne (suc n) (suc j) (suc k) h h' ne =
    let e : (2 ^ suc n - 1 - 2 ^ suc j) / 2 ≡ 2 ^ n - 1 - 2 ^ j =
      omega (arith, double_pow n, double_pow j) in
    rw e (bit-hole_ne n j k (omega arith) (omega arith) (λ e. ne (ap suc e)))
