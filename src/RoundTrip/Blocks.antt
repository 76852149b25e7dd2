-- ===== src/RoundTrip/Blocks.antt =====
-- An image as a sequence of blocks, and what a block's state promises of the images.
use fsdiff.Prelude.{
  ℕ, zero, suc, ◌+◌, ◌*◌, ◌≤◌, ◌≡◌, ap₂, arith, List, [], ◌∷◌, ◌++◌, length, drop, replicate, some,
  append_assoc, take-add, drop-add, take-length,
}
use fsdiff.Sparse.{add_diffs}
use fsdiff.Tracker.{
  BlockState, MatchType, unmatched, identity, relocate, partial, all_zero, all_one,
}
use fsdiff.Encoder.Emit.{slice}

module _ (block_size : ℕ) where
  -- Block `i` of an image, and the `n` blocks from block `i` on.
  abbrev pub block : List ℕ → ℕ → List ℕ
  block image i = slice image (i * block_size) block_size

  abbrev pub blocks : List ℕ → ℕ → ℕ → List ℕ
  blocks image i zero = []
  blocks image i (suc n) = block image i ++ blocks image (i + 1) n

  pub blocks-add :
      (image : List ℕ) (i n m : ℕ)
      → blocks image i (n + m) ≡ blocks image i n ++ blocks image (i + n) m
  blocks-add image i zero m = ap₂ (blocks image) (omega arith) (omega arith)
  blocks-add image i (suc n) m =
      let e : suc n + m ≡ suc (n + m) = omega arith in
      let e' : i + suc n ≡ i + 1 + n = omega arith in
      rw (e, e', append_assoc, blocks-add image (i + 1) n m)

  pub blocks-eq-slice :
      (image : List ℕ) (i n : ℕ) → blocks image i n ≡ slice image (i * block_size) (n * block_size)
  blocks-eq-slice image i zero = let e : 0 * block_size ≡ 0 = omega arith in rw e
  blocks-eq-slice image i (suc n) =
      let e : suc n * block_size ≡ block_size + n * block_size = grind arith in
      let e' : (i + 1) * block_size ≡ i * block_size + block_size = grind arith in
      rw (e, take-add, blocks-eq-slice image (i + 1) n, e', drop-add)

  -- All the blocks of an image of that many blocks.
  pub blocks-whole :
      (image : List ℕ) (n : ℕ) → length image ≡ n * block_size → blocks image 0 n ≡ image
  blocks-whole image n h =
      let e : 0 * block_size ≡ 0 = omega arith in
      rw (blocks-eq-slice image 0 n, e, ← h) (take-length image)

module _ (block_size : ℕ) (src dest : List ℕ) where
  -- What a state of each type promises of block `i` of the destination.
  abbrev pub Matches : ℕ → BlockState → MatchType → Type 0
  Matches i s unmatched = Unit
  Matches i s identity =
      (i * block_size + block_size ≤ length src)
      × (block block_size src i ≡ block block_size dest i)
  Matches i s relocate =
      (s.src_index * block_size + block_size ≤ length src)
      × (block block_size src s.src_index ≡ block block_size dest i)
  Matches i s partial =
      (s.src_index * block_size + s.byte_offset + block_size ≤ length src)
      × ((delta : List ℕ) × (s.delta ≡ some delta)
          × (length delta ≡ block_size)
          × (add_diffs (slice src (s.src_index * block_size + s.byte_offset) block_size) delta
              ≡ block block_size dest i))
  Matches i s all_zero = block block_size dest i ≡ replicate block_size 0
  Matches i s all_one = block block_size dest i ≡ replicate block_size 0xFF

  -- The states of the blocks from block `i` on are right.
  abbrev pub Described : ℕ → List BlockState → Type 0
  Described i [] = Unit
  Described i (s ∷ ss) = Matches i s s.match_type × Described (i + 1) ss

  pub Described-drop :
      (n i : ℕ) (ss : List BlockState) → Described i ss → Described (i + n) (drop n ss)
  Described-drop zero i ss h = let e : i + 0 ≡ i = omega arith in rw e h
  Described-drop (suc n) i [] h = tt
  Described-drop (suc n) i (s ∷ ss) h =
      let e : i + suc n ≡ i + 1 + n = omega arith in rw e (Described-drop n (i + 1) ss h.1)
