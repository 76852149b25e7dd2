-- ===== src/Simd.antt =====
-- src/simd: the dispatch table, and the portable routines of src/simd/simd_scalar.c.
-- A buffer with its length is a list of bytes. A 64-bit word is loaded in little-endian order.
pub mod Scalar
pub mod Matches
use fsdiff.Prelude.{
  ℕ, zero, suc, ◌+◌, ◌*◌, ◌^◌, Bool, true, false, List, [], ◌∷◌, Option, none, some, ◌==◌,
  if◌then◌else◌, bit_and,
}
use Prim.Native.Nat.{bit_xor}
use fsdiff.Wire.{shr}

-- `memcpy(&word, bytes + i * 8, sizeof(word))`
abbrev pub load_word : ℕ → ℕ → ℕ → ℕ → ℕ → ℕ → ℕ → ℕ → ℕ
load_word a b c d e f g h =
    a + 256 * (b + 256 * (c + 256 * (d + 256 * (e + 256 * (f + 256 * (g + 256 * h))))))

-- The loop over the remaining bytes, for the byte that each must be.
unfoldable pub only_bytes : ℕ → List ℕ → Bool
only_bytes byte [] = true
only_bytes byte (a ∷ rest) = let more = only_bytes byte rest in if a == byte then more else false

-- The loop over the words, for the word that each must be, with the remaining bytes after it.
unfoldable pub only_words : ℕ → ℕ → List ℕ → Bool
unfolding only_bytes
only_words word byte (a ∷ b ∷ c ∷ d ∷ e ∷ f ∷ g ∷ h ∷ rest) =
    let more = only_words word byte rest in
    if load_word a b c d e f g h == word then more else false
only_words word byte tail = only_bytes byte tail

-- `fsd_scalar_is_zero` and `fsd_scalar_is_one`
unfoldable pub scalar_is_zero : List ℕ → Bool
unfolding only_words
scalar_is_zero bytes = only_words 0 0 bytes

unfoldable pub scalar_is_one : List ℕ → Bool
unfolding only_words
scalar_is_one bytes = only_words 0xFFFFFFFFFFFFFFFF 0xFF bytes

-- `for (int j = 0; j < 8; j++)`: the zero bytes of `diff`.
unfoldable pub zero_bytes : ℕ → ℕ → ℕ
zero_bytes zero diff = 0
zero_bytes (suc n) diff = (if bit_and diff 0xFF == 0 then 1 else 0) + zero_bytes n (shr diff 8)

unfoldable pub word_matches : ℕ → ℕ
unfolding zero_bytes
word_matches diff = if diff == 0 then 8 else zero_bytes 8 diff

-- The loop over the remaining bytes.
unfoldable pub byte_matches : List ℕ → List ℕ → ℕ
byte_matches (a ∷ xs) (b ∷ ys) = (if a == b then 1 else 0) + byte_matches xs ys
byte_matches _ _ = 0

-- `fsd_scalar_count_matches`, for buffers of one length.
unfoldable pub scalar_count_matches : List ℕ → List ℕ → ℕ
unfolding word_matches byte_matches
scalar_count_matches (a0 ∷ a1 ∷ a2 ∷ a3 ∷ a4 ∷ a5 ∷ a6 ∷ a7 ∷ xs)
      (b0 ∷ b1 ∷ b2 ∷ b3 ∷ b4 ∷ b5 ∷ b6 ∷ b7 ∷ ys) =
    word_matches (bit_xor (load_word a0 a1 a2 a3 a4 a5 a6 a7) (load_word b0 b1 b2 b3 b4 b5 b6 b7))
    + scalar_count_matches xs ys
scalar_count_matches xs ys = byte_matches xs ys

-- `fsd_simd_dispatch_t`: a null pointer is `none`. The instruction set's name and capabilities are
-- not read by the matching code.
pub record Dispatch : Type 0 where
  pub is_zero : Option (List ℕ → Bool)
  pub is_one : Option (List ℕ → Bool)
  pub count_matches : Option (List ℕ → List ℕ → ℕ)

-- `setup_scalar_dispatch`, which is `fsd_simd_force_scalar`
unfoldable pub scalar_dispatch : Dispatch
unfolding scalar_is_zero scalar_is_one scalar_count_matches
scalar_dispatch = record {
  is_zero = some scalar_is_zero;
  is_one = some scalar_is_one;
  count_matches = some scalar_count_matches;
}
