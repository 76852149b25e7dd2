-- ===== src/Simd/Scalar.antt =====
-- The word loops of src/simd/simd_scalar.c against byte-by-byte definitions.
use fsdiff.Prelude.{
  ℕ, ◌+◌, ◌*◌, ◌≤◌, ◌≡◌, inl, inr, Bool, true, false, List, [], ◌∷◌, ◌++◌, ◌==◌, if◌then◌else◌,
  length, All, replicate, arith, refl, ap₂, sym, Bool-cases,
}
use fsdiff.Wire.{IsByte}
use fsdiff.Simd.{load_word, only_bytes, only_words, scalar_is_zero, scalar_is_one}

-- Every byte of a list is the one.
abbrev pub same_bytes : ℕ → List ℕ → Bool
same_bytes byte [] = true
same_bytes byte (a ∷ rest) = if a == byte then same_bytes byte rest else false

pub same_bytes-replicate :
    (byte : ℕ) (bytes : List ℕ)
    → same_bytes byte bytes ≡ true
    → bytes ≡ replicate (length bytes) byte
same_bytes-replicate byte [] h = refl
same_bytes-replicate byte (a ∷ rest) h = elim (Bool-cases (a == byte)) [
  | inl same ↦
      let e : a ≡ byte = ground (arith, same) in
      let h' : same_bytes byte rest ≡ true = rw same at h in
      ap₂ (λ (x : ℕ) (xs : List ℕ). x ∷ xs) e (same_bytes-replicate byte rest h')
  | inr other ↦ let h' : false ≡ true = rw other at h in cc
]

only_bytes-same : (byte : ℕ) (bytes : List ℕ) → only_bytes byte bytes ≡ same_bytes byte bytes
unfolding only_bytes
only_bytes-same byte [] = refl
only_bytes-same byte (a ∷ rest) = rw (only_bytes-same byte rest) refl

pub same_bytes-append :
    (byte : ℕ) (xs ys : List ℕ)
    → same_bytes byte (xs ++ ys) ≡ (if same_bytes byte xs then same_bytes byte ys else false)
same_bytes-append byte [] ys = refl
same_bytes-append byte (x ∷ xs) ys = elim (Bool-cases (x == byte)) [
  | inl same ↦ rw same (same_bytes-append byte xs ys)
  | inr other ↦ rw other refl
]

-- A word is zero when its eight bytes are, and all ones when they are.
pub word_zero :
    (a b c d e f g h : ℕ)
    → (load_word a b c d e f g h == 0) ≡ same_bytes 0 (a ∷ b ∷ c ∷ d ∷ e ∷ f ∷ g ∷ h ∷ [])
word_zero a b c d e f g h = ground arith

-- `n` bytes make their greatest number when each is the greatest byte.
top_word :
    (a w n : ℕ)
    → IsByte a
    → w ≤ n
    → (a + 256 * w == 255 + 256 * n) ≡ (if a == 255 then w == n else false)
top_word a w n ha hw = ground arith

word_one :
    (a b c d e f g h : ℕ)
    → All IsByte (a ∷ b ∷ c ∷ d ∷ e ∷ f ∷ g ∷ h ∷ [])
    → (load_word a b c d e f g h == 0xFFFFFFFFFFFFFFFF)
      ≡ same_bytes 255 (a ∷ b ∷ c ∷ d ∷ e ∷ f ∷ g ∷ h ∷ [])
word_one a b c d e f g h (ha, (hb, (hc, (hd, (he, (hf, (hg, (hh, _)))))))) =
    rw
      (
        top_word a (b + 256 * (c + 256 * (d + 256 * (e + 256 * (f + 256 * (g + 256 * h))))))
            0xFFFFFFFFFFFFFF ha (omega arith),
        top_word b (c + 256 * (d + 256 * (e + 256 * (f + 256 * (g + 256 * h))))) 0xFFFFFFFFFFFF hb
            (omega arith),
        top_word c (d + 256 * (e + 256 * (f + 256 * (g + 256 * h)))) 0xFFFFFFFFFF hc (omega arith),
        top_word d (e + 256 * (f + 256 * (g + 256 * h))) 0xFFFFFFFF hd (omega arith),
        top_word e (f + 256 * (g + 256 * h)) 0xFFFFFF he (omega arith),
        top_word f (g + 256 * h) 0xFFFF hf (omega arith),
        top_word g h 0xFF hg (omega arith),
      )
      (elim (Bool-cases (h == 255)) [ inl e ↦ rw e refl | inr e ↦ rw e refl ])

only_words-zero : (bytes : List ℕ) → only_words 0 0 bytes ≡ same_bytes 0 bytes
unfolding only_words
only_words-zero (a ∷ b ∷ c ∷ d ∷ e ∷ f ∷ g ∷ h ∷ rest) =
    rw (only_words-zero rest, word_zero a b c d e f g h)
      (sym (same_bytes-append 0 (a ∷ b ∷ c ∷ d ∷ e ∷ f ∷ g ∷ h ∷ []) rest))
only_words-zero tail = only_bytes-same 0 tail

only_words-one :
    (bytes : List ℕ)
    → All IsByte bytes
    → only_words 0xFFFFFFFFFFFFFFFF 255 bytes ≡ same_bytes 255 bytes
unfolding only_words
only_words-one (a ∷ b ∷ c ∷ d ∷ e ∷ f ∷ g ∷ h ∷ rest)
      (ha, (hb, (hc, (hd, (he, (hf, (hg, (hh, hs)))))))) =
    rw
      (
        only_words-one rest hs,
        word_one a b c d e f g h (ha, (hb, (hc, (hd, (he, (hf, (hg, (hh, tt)))))))),
      )
      (sym (same_bytes-append 255 (a ∷ b ∷ c ∷ d ∷ e ∷ f ∷ g ∷ h ∷ []) rest))
only_words-one tail hs = only_bytes-same 255 tail

-- The word-at-a-time tests of src/simd/simd_scalar.c on a buffer of bytes of any length are the
-- byte-by-byte ones: `fsd_scalar_is_zero` tells whether every byte is 0, and
-- `fsd_scalar_is_one` whether every byte is 0xFF.
pub scalar_tests-same_bytes :
    (bytes : List ℕ)
    → All IsByte bytes
    → (scalar_is_zero bytes ≡ same_bytes 0 bytes) × (scalar_is_one bytes ≡ same_bytes 0xFF bytes)
unfolding scalar_is_zero scalar_is_one
scalar_tests-same_bytes bytes h = (only_words-zero bytes, only_words-one bytes h)
