-- ===== src/Stages/Quick.antt =====
-- `is_zero_block_quick` of src/stages/stage_relocation.c.
use fsdiff.Prelude.{
  ℕ, zero, suc, ◌-◌, ◌*◌, ◌/◌, ◌%◌, ◌<◌, ◌≡◌, Bool, true, false, not, ◌&&◌, List, [], ◌∷◌, drop,
  length, length-drop, leb, ◌==◌, if◌then◌else◌, arith, refl, sym, ◌∙◌, inl, inr, Bool-cases,
}
use fsdiff.Simd.{load_word}
use fsdiff.Simd.Scalar.{same_bytes, same_bytes-append, word_zero}
use fsdiff.Stages.Relocation.{first_word, word_at, words_zero, is_zero_block_quick}

first_word-short : (xs : List ℕ) → length xs < 8 → first_word xs ≡ 0
unfolding first_word
first_word-short (a ∷ b ∷ c ∷ d ∷ e ∷ f ∷ g ∷ h ∷ rest) k = absurd (omega arith)
first_word-short short k = refl

-- In a block whose words are zero, so is every word.
words_zero-word_at : (block : List ℕ) (i : ℕ) → words_zero block ≡ true → word_at block i ≡ 0
unfolding words_zero word_at first_word
words_zero-word_at (a ∷ b ∷ c ∷ d ∷ e ∷ f ∷ g ∷ h ∷ rest) zero zeros =
    elim (Bool-cases (load_word a b c d e f g h == 0)) [
      | inr other ↦ let no_way : false ≡ true = rw other at zeros in cc
      | inl here ↦ ground (arith, here)
    ]
words_zero-word_at (a ∷ b ∷ c ∷ d ∷ e ∷ f ∷ g ∷ h ∷ rest) (suc i) zeros =
    elim (Bool-cases (load_word a b c d e f g h == 0)) [
      | inr other ↦ let no_way : false ≡ true = rw other at zeros in cc
      | inl here ↦
          let skip : suc i * 8 ≡ suc (suc (suc (suc (suc (suc (suc (suc (i * 8)))))))) =
            omega arith in
          rw skip (words_zero-word_at rest i (rw here at zeros))
    ]
words_zero-word_at tail i zeros =
    first_word-short (drop (i * 8) tail) (omega (arith, length-drop (i * 8) tail))

-- The quick look at two words does not change the answer of the full check.
quick_words : (block : List ℕ) → is_zero_block_quick block ≡ words_zero block
unfolding is_zero_block_quick
quick_words block = elim (Bool-cases (words_zero block)) [
  | inl zeros ↦
      let first : (word_at block 0 == 0) ≡ true =
        ground (arith, words_zero-word_at block 0 zeros) in
      let last : (word_at block (length block / 8 - 1) == 0) ≡ true =
        ground (arith, words_zero-word_at block (length block / 8 - 1) zeros) in
      rw (first, last, zeros) (both (leb 16 (length block)))
  | inr other ↦ rw other (
      any (leb 16 (length block) && not (word_at block 0 == 0))
        (leb 16 (length block) && not (word_at block (length block / 8 - 1) == 0)))
]
  where
    both : (b : Bool) → (if b && false then false else if b && false then false else true) ≡ true
    both true = refl
    both false = refl

    any : (b c : Bool) → (if b then false else if c then false else false) ≡ false
    any true c = refl
    any false true = refl
    any false false = refl

words_zero-same_bytes :
    (block : List ℕ) → length block % 8 ≡ 0 → words_zero block ≡ same_bytes 0 block
unfolding words_zero
words_zero-same_bytes (a ∷ b ∷ c ∷ d ∷ e ∷ f ∷ g ∷ h ∷ rest) k =
    rw (words_zero-same_bytes rest (omega arith), word_zero a b c d e f g h)
      (sym (same_bytes-append 0 (a ∷ b ∷ c ∷ d ∷ e ∷ f ∷ g ∷ h ∷ []) rest))
words_zero-same_bytes [] k = refl
words_zero-same_bytes short k = absurd (omega arith)

-- For a block of whole 64-bit words, which a block of 2^5 bytes or more is, `is_zero_block_quick` tells whether
-- every byte is 0.
pub is_zero_block_quick-same_bytes :
    (block : List ℕ) → length block % 8 ≡ 0 → is_zero_block_quick block ≡ same_bytes 0 block
is_zero_block_quick-same_bytes block h = quick_words block ∙ words_zero-same_bytes block h
