-- ===== src/Tracker/Unmatched.antt =====
-- The count of `fsd_block_tracker_unmatched_count` is the number of bits that `bitmap_test` sees.
use fsdiff.Prelude.{
  ℕ, zero, suc, ◌+◌, ◌-◌, ◌*◌, ◌/◌, ◌%◌, ◌^◌, ◌<◌, ◌≤◌, ◌≡◌, List, [], ◌∷◌, ◌==◌, length, All,
  bit_and, arith, refl, sym, ap, ap₂, ◌∙◌, inl, inr, Bool-cases,
}
use fsdiff.Prelude.Bits.{bit_and_step, double_pow}
use fsdiff.Prelude.Digits.{bit}
use fsdiff.Tracker.Operations.{bitmap_test, foreach_unmatched, count_word, unmatched_count}
use fsdiff.Tracker.Bitmap.{bitmap_test-bit}

-- The sum of the first `n` binary digits.
ones : ℕ → ℕ → ℕ
ones zero w = 0
ones (suc n) w = w % 2 + ones n (w / 2)

bit_and_self : (n a : ℕ) → a ≤ n → bit_and a a ≡ a
bit_and_self zero a h = let e : a ≡ 0 = omega arith in rw e refl
bit_and_self (suc n) a h = omega (arith, bit_and_step a a, bit_and_self n (a / 2) (omega arith))

-- A round takes one digit away, and leaves a number with no more of them.
clear_lowest :
    (n w : ℕ)
    → 0 < w
    → w < 2 ^ n
    → (ones n w ≡ suc (ones n (bit_and w (w - 1)))) × (bit_and w (w - 1) < 2 ^ n)
unfolding ones
clear_lowest zero w h k = absurd (omega arith)
clear_lowest (suc n) w h k = elim (Bool-cases (w % 2 == 0)) [
  | inr odd ↦
      let e : (w - 1) / 2 ≡ w / 2 = ground (arith, odd) in
      let step = bit_and_step w (w - 1) in
      let same = ap (bit_and (w / 2)) e ∙ bit_and_self (w / 2) (w / 2) (omega arith) in
      let r : bit_and w (w - 1) ≡ w / 2 * 2 = ground (arith, odd, step, same) in
      let half : bit_and w (w - 1) / 2 ≡ w / 2 = omega (arith, r) in
      let parity : bit_and w (w - 1) % 2 ≡ 0 = omega (arith, r) in
      (rw (half, parity) (ground (arith, odd)), omega (arith, r, k))
  | inl even ↦
      let e : (w - 1) / 2 ≡ w / 2 - 1 = ground (arith, even) in
      let step = bit_and_step w (w - 1) in
      let low = ap (bit_and (w / 2)) e in
      let ih = clear_lowest n (w / 2) (ground (arith, even)) (omega (arith, k, double_pow n)) in
      let r : bit_and w (w - 1) ≡ bit_and (w / 2) (w / 2 - 1) * 2 =
        ground (arith, even, step, low) in
      let half : bit_and w (w - 1) / 2 ≡ bit_and (w / 2) (w / 2 - 1) = omega (arith, r) in
      let parity : bit_and w (w - 1) % 2 ≡ 0 = omega (arith, r) in
      let wp : w % 2 ≡ 0 = ground (arith, even) in
      (rw (half, parity, wp) (omega (arith, ih.0)), omega (arith, r, ih.1, double_pow n))
]

ones-zero : (n : ℕ) → ones n 0 ≡ 0
unfolding ones
ones-zero zero = refl
ones-zero (suc n) = omega (arith, ones-zero n)

ones-le : (n w : ℕ) → ones n w ≤ n
unfolding ones
ones-le zero w = omega arith
ones-le (suc n) w = let k = ones-le n (w / 2) in omega (arith, k)

-- Fuel for every digit is enough.
count_word_lem : (n fuel w : ℕ) → w < 2 ^ n → ones n w ≤ fuel → count_word fuel w ≡ ones n w
unfolding count_word
count_word_lem n zero w h k = omega (arith, k)
count_word_lem n (suc fuel) w h k = elim (Bool-cases (w == 0)) [
  | inl empty ↦ let e : w ≡ 0 = ground (arith, empty) in rw e (sym (ones-zero n))
  | inr full ↦
      let c = clear_lowest n w (ground (arith, full)) h in
      rw (full, count_word_lem n fuel (bit_and w (w - 1)) c.1 (omega (arith, c.0, k))) (sym c.0)
]

-- The walk over the marked positions, cut in two, of the first word, and of the words after it.
foreach_unmatched-add :
    (bitmap : List ℕ) (n m i : ℕ)
    → length (foreach_unmatched bitmap (n + m) i)
      ≡ length (foreach_unmatched bitmap n i) + length (foreach_unmatched bitmap m (i + n))
unfolding foreach_unmatched
foreach_unmatched-add bitmap zero m i =
    let e : 0 + m ≡ m = omega arith in let e' : i + 0 ≡ i = omega arith in rw (e, e') (omega arith)
foreach_unmatched-add bitmap (suc n) m i =
    let e : suc n + m ≡ suc (n + m) = omega arith in
    let e' : i + suc n ≡ i + 1 + n = omega arith in
    let ih = foreach_unmatched-add bitmap n m (i + 1) in
    elim (Bool-cases (bitmap_test bitmap i)) [
      | inl marked ↦ rw (e, e', marked) (omega (arith, ih))
      | inr clear ↦ rw (e, e', clear) ih
    ]

halves : ℕ → ℕ → ℕ
halves zero w = w
halves (suc k) w = halves k (w / 2)

halves-half : (k w : ℕ) → halves k (w / 2) ≡ halves k w / 2
unfolding halves
halves-half zero w = refl
halves-half (suc k) w = halves-half k (w / 2)

bit-halves : (k w : ℕ) → bit w k ≡ halves k w % 2
unfolding halves
bit-halves zero w = refl
bit-halves (suc k) w = bit-halves k (w / 2)

first_word_test :
    (w : ℕ) (bitmap : List ℕ) (i : ℕ) → i < 64 → bitmap_test (w ∷ bitmap) i ≡ (halves i w % 2 == 1)
first_word_test w bitmap i h =
    let e : i / 64 ≡ 0 = omega arith in
    let e' : i % 64 ≡ i = omega arith in
    bitmap_test-bit (w ∷ bitmap) i ∙ rw (e, e', bit-halves i w) refl

foreach_unmatched-word :
    (w : ℕ) (bitmap : List ℕ) (n i : ℕ)
    → i + n ≤ 64
    → length (foreach_unmatched (w ∷ bitmap) n i) ≡ ones n (halves i w)
unfolding foreach_unmatched ones halves
foreach_unmatched-word w bitmap zero i h = refl
foreach_unmatched-word w bitmap (suc n) i h =
    let ih : length (foreach_unmatched (w ∷ bitmap) n (i + 1)) ≡ ones n (halves i w / 2) =
      foreach_unmatched-word w bitmap n (i + 1) (omega arith)
      ∙ ap (ones n) (next ∙ halves-half i w) in
    elim (Bool-cases (halves i w % 2 == 1)) [
      | inl marked ↦
          rw (first_word_test w bitmap i (omega arith), marked, ih) (ground (arith, marked))
      | inr clear ↦ rw (first_word_test w bitmap i (omega arith), clear, ih) (ground (arith, clear))
    ]
  where
    next : halves (i + 1) w ≡ halves i (w / 2)
    next = let e : i + 1 ≡ suc i = omega arith in rw e refl

foreach_unmatched-next :
    (w : ℕ) (bitmap : List ℕ) (n i : ℕ)
    → length (foreach_unmatched (w ∷ bitmap) n (64 + i)) ≡ length (foreach_unmatched bitmap n i)
unfolding foreach_unmatched
foreach_unmatched-next w bitmap zero i = refl
foreach_unmatched-next w bitmap (suc n) i =
    let e : (64 + i) / 64 ≡ suc (i / 64) = omega arith in
    let e' : (64 + i) % 64 ≡ i % 64 = omega arith in
    let same : bitmap_test (w ∷ bitmap) (64 + i) ≡ bitmap_test bitmap i =
      bitmap_test-bit (w ∷ bitmap) (64 + i) ∙ (rw (e, e') refl ∙ sym (bitmap_test-bit bitmap i)) in
    let after : 64 + i + 1 ≡ 64 + (i + 1) = omega arith in
    let ih =
      ap (λ k. length (foreach_unmatched (w ∷ bitmap) n k)) after
      ∙ foreach_unmatched-next w bitmap n (i + 1) in
    elim (Bool-cases (bitmap_test bitmap i)) [
      | inl marked ↦ rw (same, marked) (ap suc ih)
      | inr clear ↦ rw (same, clear) ih
    ]

-- `fsd_block_tracker_unmatched_count`, which clears the lowest bit of every word until none is left, is the
-- number of blocks that `fsd_block_tracker_foreach_unmatched` visits in the positions of a bitmap of 64-bit
-- words; 64 rounds for a word are enough.
pub unmatched_count-foreach_unmatched :
    (bitmap : List ℕ)
    → All (λ w. w < 2 ^ 64) bitmap
    → unmatched_count bitmap ≡ length (foreach_unmatched bitmap (64 * length bitmap) 0)
unfolding unmatched_count halves foreach_unmatched
unmatched_count-foreach_unmatched [] h = let e : 64 * 0 ≡ 0 = omega arith in rw e refl
unmatched_count-foreach_unmatched (w ∷ bitmap) h =
    let n = length bitmap in
    let e : 64 * suc n ≡ 64 + 64 * n = omega arith in
    rw (e, count_word_lem 64 64 w h.0 (ones-le 64 w), unmatched_count-foreach_unmatched bitmap h.1)
      (sym (
        foreach_unmatched-add (w ∷ bitmap) 64 (64 * n) 0
        ∙ ap₂ (λ (a b : ℕ). a + b) (foreach_unmatched-word w bitmap 64 0 (omega arith))
            (foreach_unmatched-next w bitmap (64 * n) 0)))
