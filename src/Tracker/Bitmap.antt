-- ===== src/Tracker/Bitmap.antt =====
-- The bits of the tracker's bitmap: `bitmap_set`, `bitmap_clear` and `bitmap_test` of
-- src/core/block_tracker.c.
use fsdiff.Prelude.{
  ℕ, zero, suc, ◌-◌, ◌*◌, ◌/◌, ◌%◌, ◌^◌, ◌<◌, ◌≤◌, ◌≡◌, ◌≢◌, true, false, not, List, ◌==◌, length,
  set, get_or, bit_and, bit_or, arith, refl, ◌⊎◌, inl, inr, Bool-cases, get_or-set_self,
  get_or-set_out, get_or-set_ne, get_or-out,
}
use fsdiff.Prelude.Digits.{
  bit, bit-le, bit-bit_and, bit-bit_or, bit_and-pow, bit-zero, bit-pow_self, bit-pow_ne,
  bit-hole_self, bit-hole_ne, two_pow_pos,
}
use fsdiff.Tracker.Operations.{bitmap_set, bitmap_clear, bitmap_test}

-- The test of one bit reads a digit.
pub is_set : (k w : ℕ) → not (bit_and w (2 ^ k) == 0) ≡ (bit w k == 1)
is_set k w = rw (bit_and-pow k w) (read (bit w k) (bit-le k w))
  where
    read : (b : ℕ) → b ≤ 1 → not (b * 2 ^ k == 0) ≡ (b == 1)
    read zero h = let e : 0 * 2 ^ k ≡ 0 = omega arith in rw e refl
    read (suc b) h =
        let e : b ≡ 0 = omega arith in
        let e' : 1 * 2 ^ k ≡ 2 ^ k = omega arith in
        let p : 1 ≤ 2 ^ k = two_pow_pos k in rw (e, e') (ground arith)

pub bitmap_test-bit :
    (bitmap : List ℕ) (i : ℕ)
    → bitmap_test bitmap i ≡ (bit (get_or bitmap (i / 64) 0) (i % 64) == 1)
unfolding bitmap_test
bitmap_test-bit bitmap i = is_set (i % 64) (get_or bitmap (i / 64) 0)

-- Two positions of one word differ in their bit.
same_word : (i j : ℕ) → i ≢ j → i / 64 ≡ j / 64 → i % 64 ≢ j % 64
same_word i j ne e e' = ne (omega arith)

below : (i : ℕ) → i % 64 < 64
below i = omega arith

-- The word at `w` after a write of it.
written : (bitmap : List ℕ) (w v : ℕ) → (get_or (set bitmap w v) w 0 ≡ v) ⊎ (length bitmap ≤ w)
written bitmap w v = elim (in_or_out w (length bitmap)) [
  | inl h ↦ inl (get_or-set_self bitmap w v 0 h)
  | inr h ↦ inr h
]
  where
    in_or_out : (w n : ℕ) → (w < n) ⊎ (n ≤ w)
    in_or_out w n = omega arith

pub bitmap_test-bitmap_clear_self :
    (bitmap : List ℕ) (i : ℕ) → bitmap_test (bitmap_clear bitmap i) i ≡ false
unfolding bitmap_clear
bitmap_test-bitmap_clear_self bitmap i =
    let k = i % 64 in
    let w = get_or bitmap (i / 64) 0 in
    let hole = 2 ^ 64 - 1 - 2 ^ k in
    rw (bitmap_test-bit (bitmap_clear bitmap i) i)
      (elim (written bitmap (i / 64) (bit_and w hole)) [
        | inl e ↦
            let z : bit (bit_and w hole) k ≡ 0 =
              omega (arith, bit-bit_and k w hole, bit-hole_self 64 k (below i)) in
            rw (e, z) refl
        | inr h ↦ rw (get_or-set_out bitmap (i / 64) (bit_and w hole) 0 h, bit-zero k) refl
      ])

pub bitmap_test-bitmap_clear_ne :
    (bitmap : List ℕ) (i j : ℕ)
    → i ≢ j
    → bitmap_test (bitmap_clear bitmap i) j ≡ bitmap_test bitmap j
unfolding bitmap_clear
bitmap_test-bitmap_clear_ne bitmap i j ne =
    let w = get_or bitmap (i / 64) 0 in
    let hole = 2 ^ 64 - 1 - 2 ^ (i % 64) in
    let k = j % 64 in
    rw (bitmap_test-bit (bitmap_clear bitmap i) j, bitmap_test-bit bitmap j)
      (elim (Bool-cases (i / 64 == j / 64)) [
        | inl same ↦
            let e : i / 64 ≡ j / 64 = ground (arith, same) in
            rw (← e) (elim (written bitmap (i / 64) (bit_and w hole)) [
              | inl e' ↦
                  let z : bit (bit_and w hole) k ≡ bit w k = omega (
                    arith,
                    bit-bit_and k w hole,
                    bit-le k w,
                    bit-hole_ne 64 (i % 64) k (below j) (below i) (same_word i j ne e),
                  ) in
                  rw (e', z) refl
              | inr h ↦
                  rw
                    (
                      get_or-set_out bitmap (i / 64) (bit_and w hole) 0 h,
                      get_or-out bitmap (i / 64) 0 h,
                    )
                    refl
            ])
        | inr apart ↦
            let ne' : i / 64 ≢ j / 64 = λ e. ground (arith, apart) in
            rw (get_or-set_ne bitmap (i / 64) (j / 64) (bit_and w hole) 0 ne') refl
      ])

pub bitmap_test-bitmap_set_self :
    (bitmap : List ℕ) (i : ℕ) → i / 64 < length bitmap → bitmap_test (bitmap_set bitmap i) i ≡ true
unfolding bitmap_set
bitmap_test-bitmap_set_self bitmap i h =
    let k = i % 64 in
    let w = get_or bitmap (i / 64) 0 in
    let z : bit (bit_or w (2 ^ k)) k ≡ 1 =
      omega (arith, bit-bit_or k w (2 ^ k), bit-le k w, bit-pow_self k) in
    rw
      (
        bitmap_test-bit (bitmap_set bitmap i) i,
        get_or-set_self bitmap (i / 64) (bit_or w (2 ^ k)) 0 h,
        z,
      )
      refl

pub bitmap_test-bitmap_set_ne :
    (bitmap : List ℕ) (i j : ℕ) → i ≢ j → bitmap_test (bitmap_set bitmap i) j ≡ bitmap_test bitmap j
unfolding bitmap_set
bitmap_test-bitmap_set_ne bitmap i j ne =
    let w = get_or bitmap (i / 64) 0 in
    let mask = 2 ^ (i % 64) in
    let k = j % 64 in
    rw (bitmap_test-bit (bitmap_set bitmap i) j, bitmap_test-bit bitmap j)
      (elim (Bool-cases (i / 64 == j / 64)) [
        | inl same ↦
            let e : i / 64 ≡ j / 64 = ground (arith, same) in
            rw (← e) (elim (written bitmap (i / 64) (bit_or w mask)) [
              | inl e' ↦
                  let z : bit (bit_or w mask) k ≡ bit w k =
                    omega
                      (arith, bit-bit_or k w mask, bit-pow_ne (i % 64) k (same_word i j ne e)) in
                  rw (e', z) refl
              | inr h ↦
                  rw
                    (
                      get_or-set_out bitmap (i / 64) (bit_or w mask) 0 h,
                      get_or-out bitmap (i / 64) 0 h,
                    )
                    refl
            ])
        | inr apart ↦
            let ne' : i / 64 ≢ j / 64 = λ e. ground (arith, apart) in
            rw (get_or-set_ne bitmap (i / 64) (j / 64) (bit_or w mask) 0 ne') refl
      ])
