-- ===== src/Stages/Steps.antt =====
-- Facts on blocks that the matching stages rest on: comparisons, deltas, bounds, and the dispatched tests.
use fsdiff.Prelude.{
  ℕ, zero, suc, ◌+◌, ◌-◌, ◌*◌, ◌≤◌, ◌<◌, ◌≡◌, true, false, List, [], ◌∷◌, length, take, drop,
  replicate, ◌==◌, arith, refl, sym, ap, ap₂, ◌∙◌, inl, inr, Bool-cases, All, All-take, All-drop,
  length-take, length-drop, mul_mono,
}
use fsdiff.Prelude.Int.{ℤ, pos_part, neg_part}
use fsdiff.Wire.{IsByte, u8}
use fsdiff.Simd.{Dispatch, scalar_dispatch}
use fsdiff.Simd.Scalar.{same_bytes-replicate, scalar_tests-same_bytes}
use fsdiff.Sparse.{add_diffs}
use fsdiff.Encoder.Emit.{slice}
use fsdiff.Stages.{same_block, is_zero_block, is_one_block}
use fsdiff.Stages.Match.{delta_of}
use fsdiff.Stages.Search.{out_of_bounds}

pub same_block-eq : (xs ys : List ℕ) → same_block xs ys ≡ true → xs ≡ ys
unfolding same_block
same_block-eq [] [] h = refl
same_block-eq [] (b ∷ ys) h = cc
same_block-eq (a ∷ xs) [] h = cc
same_block-eq (a ∷ xs) (b ∷ ys) h = elim (Bool-cases (a == b)) [
  | inl same ↦
      let e : a ≡ b = ground (arith, same) in
      let h' : same_block xs ys ≡ true = rw same at h in
      ap₂ (λ (x : ℕ) (zs : List ℕ). x ∷ zs) e (same_block-eq xs ys h')
  | inr apart ↦ let h' : false ≡ true = rw apart at h in cc
]

-- Block `i` of `n` blocks is inside an image that has them.
pub block_inside : (i n b size : ℕ) → i < n → n * b ≤ size → i * b + b ≤ size
block_inside i n b size h k =
    let m = mul_mono (i + 1) n b (omega arith) in
    let e : (i + 1) * b ≡ i * b + b = grind arith in omega (arith, m, e)

pub slice-length : (xs : List ℕ) (at n : ℕ) → at + n ≤ length xs → length (slice xs at n) ≡ n
slice-length xs at n h = length-take n (drop at xs) (omega (arith, length-drop at xs))

take-short : (n : ℕ) (xs : List ℕ) → length (take n xs) ≤ length xs
take-short zero xs = omega arith
take-short (suc n) [] = omega arith
take-short (suc n) (x ∷ xs) = let k = take-short n xs in omega (arith, k)

pub slice-inside :
    (xs : List ℕ) (at n : ℕ) → 0 < n → length (slice xs at n) ≡ n → at + n ≤ length xs
slice-inside xs at n p h = omega (arith, take-short n (drop at xs), length-drop at xs, h)

pub All-slice : (xs : List ℕ) (at n : ℕ) → All IsByte xs → All IsByte (slice xs at n)
All-slice xs at n h = All-take IsByte n (drop at xs) (All-drop IsByte at xs h)

-- The delta of two blocks of one length, added to the source, gives the destination.
pub delta_of-length : (ds ss : List ℕ) → length ds ≡ length ss → length (delta_of ds ss) ≡ length ds
unfolding delta_of
delta_of-length [] ss h = refl
delta_of-length (d ∷ ds) [] h = absurd (omega arith)
delta_of-length (d ∷ ds) (s ∷ ss) h = ap suc (delta_of-length ds ss (omega arith))

add_byte : (s d : ℕ) → IsByte s → IsByte d → u8 (s + u8 (d + 256 - s)) ≡ d
add_byte s d hs hd = omega arith

pub add_diffs-delta_of :
    (ss ds : List ℕ)
    → length ds ≡ length ss
    → All IsByte ss
    → All IsByte ds
    → add_diffs ss (delta_of ds ss) ≡ ds
unfolding add_diffs delta_of
add_diffs-delta_of [] [] h hs hd = refl
add_diffs-delta_of [] (d ∷ ds) h hs hd = absurd (omega arith)
add_diffs-delta_of (s ∷ ss) [] h hs hd = absurd (omega arith)
add_diffs-delta_of (s ∷ ss) (d ∷ ds) h hs hd =
    ap₂ (λ (x : ℕ) (zs : List ℕ). x ∷ zs) (add_byte s d hs.0 hd.0)
      (add_diffs-delta_of ss ds (omega arith) hs.1 hd.1)

-- A position that passed the check.
pub in_bounds :
    (block_size src_size : ℕ) (p : ℤ)
    → out_of_bounds block_size src_size p ≡ false
    → (neg_part p ≡ 0) × (pos_part p + block_size ≤ src_size)
in_bounds block_size src_size p h = ground arith

-- The tests behind the dispatch table find only blocks of zeros and of ones.
pub record Faithful (simd : Dispatch) : Type 0 where
  pub zeros :
      (block : List ℕ)
      → All IsByte block
      → is_zero_block simd block ≡ true
      → block ≡ replicate (length block) 0
  pub ones :
      (block : List ℕ)
      → All IsByte block
      → is_one_block simd block ≡ true
      → block ≡ replicate (length block) 0xFF

-- Those of src/simd/simd_scalar.c do.
pub scalar_dispatch-Faithful : Faithful scalar_dispatch
unfolding scalar_dispatch is_zero_block is_one_block
scalar_dispatch-Faithful = record {
  zeros = λ block bytes h.
      same_bytes-replicate 0 block (sym (scalar_tests-same_bytes block bytes).0 ∙ h);
  ones = λ block bytes h.
      same_bytes-replicate 0xFF block (sym (scalar_tests-same_bytes block bytes).1 ∙ h);
}
