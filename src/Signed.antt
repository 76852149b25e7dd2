-- ===== src/Signed.antt =====
-- `int64_t` values as integers, and the fixed-width fields that carry them in two's complement.
use fsdiff.Prelude.{
  ℕ, ◌+◌, ◌-◌, ◌*◌, ◌%◌, ◌<◌, ◌≤◌, ◌≡◌, Bool, true, false, ◌&&◌, ltb, ◌==◌, if◌then◌else◌, arith,
}
use native.Mathlib.Nat.{mod-eq_of_lt}
use fsdiff.Prelude.Int.{ℤ, pos, negsuc, pos_part, neg_part}

-- The integer that a bit pattern below `2 * half` stands for.
abbrev pub to_signed : ℕ → ℕ → ℤ
to_signed half raw = if ltb raw half then pos raw else negsuc (2 * half - raw - 1)

-- The bit pattern of an integer modulo `m`, as a cast to an unsigned type gives it.
abbrev pub of_signed : ℕ → ℤ → ℕ
of_signed m (pos n) = n % m
of_signed m (negsuc n) = m - 1 - n % m

-- `z < 0`, `-z` or `z`, and `a == b`.
abbrev pub is_negative : ℤ → Bool
is_negative (pos n) = false
is_negative (negsuc n) = true

abbrev pub abs : ℤ → ℕ
abs z = pos_part z + neg_part z

abbrev pub eq_ℤ : ℤ → ℤ → Bool
eq_ℤ a b = pos_part a == pos_part b && neg_part a == neg_part b

-- A field of 16, 24 or 32 bits holds every integer of its range.
pub to_signed-of_signed :
    (half : ℕ) (z : ℤ)
    → pos_part z < half
    → neg_part z ≤ half
    → to_signed half (of_signed (2 * half) z) ≡ z
to_signed-of_signed half (pos n) hp hn =
    let e : n % (2 * half) ≡ n = mod-eq_of_lt (omega arith) in rw e (ground arith)
to_signed-of_signed half (negsuc n) hp hn =
    let e : n % (2 * half) ≡ n = mod-eq_of_lt (omega arith) in rw e (ground arith)
