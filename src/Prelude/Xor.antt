-- ===== src/Prelude/Xor.antt =====
-- The exclusive or of numbers by their binary digits.
use Prim.Native.Nat.{
  ℕ, zero, suc, ◌+◌, ◌*◌, ◌/◌, ◌%◌, ◌^◌, ◌≤◌, ◌<◌, bit_xor, bit_xor-bitwise, differ,
}
use mathlib.Core.Path.{◌≡◌, refl, ap₂, ◌∙◌}
use native.Mathlib.Omega.{arith}
use fsdiff.Prelude.Bits.{digits_count, double_pow, double_shift}

differ-lem : (x y : ℕ) → x ≤ 1 → y ≤ 1 → differ x y ≡ (x + y) % 2
differ-lem zero zero h k = refl
differ-lem zero (suc y) h k = let e : y ≡ 0 = omega arith in rw e refl
differ-lem (suc x) zero h k = let e : x ≡ 0 = omega arith in rw e refl
differ-lem (suc x) (suc y) h k =
    let e : x ≡ 0 = omega arith in let e' : y ≡ 0 = omega arith in rw (e, e') refl

pub bit_xor-zero_left : (b : ℕ) → bit_xor 0 b ≡ b
bit_xor-zero_left b = bit_xor-bitwise 0 b

pub bit_xor_step : (a b : ℕ) → bit_xor a b ≡ bit_xor (a / 2) (b / 2) * 2 + (a % 2 + b % 2) % 2
bit_xor_step zero b = omega (arith, bit_xor-zero_left b, bit_xor-zero_left (b / 2))
bit_xor_step (suc a) b = omega (
  arith,
  bit_xor-bitwise (suc a) b,
  bit_xor-bitwise (suc a / 2) (b / 2),
  digits_count (λ y. y) differ a (suc a / 2) (suc a / 2) (b / 2) (omega arith) (omega arith),
  differ-lem (suc a % 2) (b % 2) (omega arith) (omega arith),
)

-- Two numbers with no differing digit are equal.
pub bit_xor_self : (n a : ℕ) → a ≤ n → bit_xor a a ≡ 0
bit_xor_self n zero h = bit_xor-zero_left 0
bit_xor_self zero (suc a) h = absurd (omega arith)
bit_xor_self (suc n) (suc a) h =
    omega (arith, bit_xor_step (suc a) (suc a), bit_xor_self n (suc a / 2) (omega arith))

pub bit_xor-eq_zero : (n a b : ℕ) → a ≤ n → b ≤ n → bit_xor a b ≡ 0 → a ≡ b
bit_xor-eq_zero zero a b h k e = omega arith
bit_xor-eq_zero (suc n) a b h k e =
    let s : bit_xor (a / 2) (b / 2) ≡ 0 = omega (arith, bit_xor_step a b) in
    let ih : a / 2 ≡ b / 2 = bit_xor-eq_zero n (a / 2) (b / 2) (omega arith) (omega arith) s in
    omega (arith, ih, bit_xor_step a b)

-- The low digits and the high digits apart.
pub bit_xor-shift :
    (k a b x y : ℕ)
    → a < 2 ^ k
    → b < 2 ^ k
    → bit_xor (a + x * 2 ^ k) (b + y * 2 ^ k) ≡ bit_xor a b + bit_xor x y * 2 ^ k
bit_xor-shift zero zero zero x y h k =
    let e : 0 + x * 2 ^ 0 ≡ x = omega arith in
    let e' : 0 + y * 2 ^ 0 ≡ y = omega arith in rw (e, e') (omega (arith, bit_xor-zero_left 0))
bit_xor-shift zero (suc a) b x y h k = absurd (omega arith)
bit_xor-shift zero zero (suc b) x y h k = absurd (omega arith)
bit_xor-shift (suc n) a b x y h k =
    let e : (a + x * 2 ^ suc n) / 2 ≡ a / 2 + x * 2 ^ n = omega (arith, double_shift x n) in
    let e' : (b + y * 2 ^ suc n) / 2 ≡ b / 2 + y * 2 ^ n = omega (arith, double_shift y n) in
    omega (
      arith,
      bit_xor_step (a + x * 2 ^ suc n) (b + y * 2 ^ suc n),
      ap₂ bit_xor e e',
      bit_xor-shift n (a / 2) (b / 2) x y (omega (arith, double_pow n))
          (omega (arith, double_pow n)),
      bit_xor_step a b,
      double_shift x n,
      double_shift y n,
      double_shift (bit_xor x y) n,
    )

pub bit_xor-lt : (k a b : ℕ) → a < 2 ^ k → b < 2 ^ k → bit_xor a b < 2 ^ k
bit_xor-lt zero a b h k =
    let e : a ≡ 0 = omega arith in
    let e' : b ≡ 0 = omega arith in rw (e, e') (omega (arith, bit_xor-zero_left 0))
bit_xor-lt (suc n) a b h k = omega (
  arith,
  bit_xor_step a b,
  double_pow n,
  bit_xor-lt n (a / 2) (b / 2) (omega (arith, double_pow n)) (omega (arith, double_pow n)),
)

pub bit_xor-byte :
    (a b x y : ℕ)
    → a < 256
    → b < 256
    → bit_xor (a + 256 * x) (b + 256 * y) ≡ bit_xor a b + 256 * bit_xor x y
bit_xor-byte a b x y h k =
    let e : a + 256 * x ≡ a + x * 2 ^ 8 = omega arith in
    let e' : b + 256 * y ≡ b + y * 2 ^ 8 = omega arith in
    omega (arith, ap₂ bit_xor e e', bit_xor-shift 8 a b x y h k)

pub bit_xor_comm : (n a b : ℕ) → a ≤ n → b ≤ n → bit_xor a b ≡ bit_xor b a
bit_xor_comm zero a b h k =
    let e : a ≡ 0 = omega arith in let e' : b ≡ 0 = omega arith in rw (e, e') refl
bit_xor_comm (suc n) a b h k = omega (
  arith,
  bit_xor_step a b,
  bit_xor_step b a,
  bit_xor_comm n (a / 2) (b / 2) (omega arith) (omega arith),
)

pub bit_xor-zero_right : (a : ℕ) → bit_xor a 0 ≡ a
bit_xor-zero_right a = bit_xor_comm a a 0 (omega arith) (omega arith) ∙ bit_xor-zero_left a

pub bit_xor-half : (a b : ℕ) → bit_xor a b / 2 ≡ bit_xor (a / 2) (b / 2)
bit_xor-half a b = omega (arith, bit_xor_step a b)

pub bit_xor-parity : (a b : ℕ) → bit_xor a b % 2 ≡ (a % 2 + b % 2) % 2
bit_xor-parity a b = omega (arith, bit_xor_step a b)

-- Four numbers regrouped.
pub bit_xor-regroup :
    (n a b c d : ℕ)
    → a ≤ n
    → b ≤ n
    → c ≤ n
    → d ≤ n
    → bit_xor (bit_xor a b) (bit_xor c d) ≡ bit_xor (bit_xor a c) (bit_xor b d)
bit_xor-regroup zero a b c d ha hb hc hd =
    let e : a ≡ 0 = omega arith in
    let e' : b ≡ 0 = omega arith in
    let f : c ≡ 0 = omega arith in let f' : d ≡ 0 = omega arith in rw (e, e', f, f') refl
bit_xor-regroup (suc n) a b c d ha hb hc hd =
    let ih =
      bit_xor-regroup n (a / 2) (b / 2) (c / 2) (d / 2) (omega arith) (omega arith) (omega arith)
        (omega arith) in
    let l = ap₂ bit_xor (bit_xor-half a b) (bit_xor-half c d) in
    let r = ap₂ bit_xor (bit_xor-half a c) (bit_xor-half b d) in
    omega (
      arith,
      bit_xor_step (bit_xor a b) (bit_xor c d),
      bit_xor_step (bit_xor a c) (bit_xor b d),
      l,
      r,
      ih,
      bit_xor-parity a b,
      bit_xor-parity c d,
      bit_xor-parity a c,
      bit_xor-parity b d,
    )
