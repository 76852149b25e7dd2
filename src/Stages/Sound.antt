-- ===== src/Stages/Sound.antt =====
-- The matching stages record only matches that are true of the two images.
use fsdiff.Prelude.{
  ℕ, zero, suc, ◌+◌, ◌-◌, ◌*◌, ◌≤◌, ◌<◌, ◌≡◌, true, List, [], ◌∷◌, Option, none, some, length,
  replicate, ltb, ◌==◌, if◌then◌else◌, arith, refl, ap, ◌∙◌, inl, inr, Bool-cases, All,
}
use fsdiff.Status.{ok}
use fsdiff.Wire.{IsByte}
use fsdiff.Simd.{Dispatch}
use fsdiff.Crc32.{crc32}
use fsdiff.HashTable.{Entry, HashTable, lookup}
use fsdiff.Tracker.{BlockState, identity, relocate, all_zero, all_one}
use fsdiff.Tracker.Operations.{Tracker, set_match, is_unmatched, get}
use fsdiff.RoundTrip.Blocks.{block}
use fsdiff.Stages.{same_block, is_zero_block, is_one_block}
use fsdiff.Stages.Identity.{common_block, dest_block_only, common_loop, dest_loop, identity_run}
use fsdiff.Stages.Relocation.{
  RelocationStage, chain_loop, relocate_state, relocation_loop, relocation_run,
}
use fsdiff.Stages.Invariant.{Sound, set_match-Sound, set_crc32-Sound, not_unmatched}
use fsdiff.Stages.Steps.{
  Faithful, same_block-eq, block_inside, slice-length, slice-inside, All-slice,
}

module _ (block_size : ℕ) (src dest : List ℕ) (dest_blocks : ℕ) (some_bytes : 0 < block_size)
    (whole : length dest ≡ dest_blocks * block_size) (src_bytes : All IsByte src)
    (dest_bytes : All IsByte dest) where
  abbrev pub Good : Tracker → Type 0
  Good = Sound block_size src dest dest_blocks

  pub dest_length : (i : ℕ) → i < dest_blocks → length (block block_size dest i) ≡ block_size
  dest_length i h =
      slice-length dest (i * block_size) block_size
        (block_inside i dest_blocks block_size (length dest) h (omega (arith, whole)))

  -- A match of a source block that compares equal.
  same_block-Matches :
      (i j : ℕ)
      → i < dest_blocks
      → same_block (block block_size src j) (block block_size dest i) ≡ true
      → (j * block_size + block_size ≤ length src)
        × (block block_size src j ≡ block block_size dest i)
  same_block-Matches i j h same =
      let e = same_block-eq (block block_size src j) (block block_size dest i) same in
      (slice-inside src (j * block_size) block_size some_bytes (ap length e ∙ dest_length i h), e)

  module _ (simd : Dispatch) (faithful : Faithful simd) where
    zero-Good :
        (i : ℕ) (t : Tracker)
        → i < dest_blocks
        → is_zero_block simd (block block_size dest i) ≡ true
        → Good t
        → Good (set_match t i all_zero 0)
    zero-Good i t h z good =
        let e =
          faithful.zeros (block block_size dest i)
            (All-slice dest (i * block_size) block_size dest_bytes) z in
        set_match-Sound block_size src dest dest_blocks t i all_zero 0 (not_unmatched refl)
          (λ s. e ∙ ap (λ n. replicate n 0) (dest_length i h)) good

    one-Good :
        (i : ℕ) (t : Tracker)
        → i < dest_blocks
        → is_one_block simd (block block_size dest i) ≡ true
        → Good t
        → Good (set_match t i all_one 0)
    one-Good i t h z good =
        let e =
          faithful.ones (block block_size dest i)
            (All-slice dest (i * block_size) block_size dest_bytes) z in
        set_match-Sound block_size src dest dest_blocks t i all_one 0 (not_unmatched refl)
          (λ s. e ∙ ap (λ n. replicate n 0xFF) (dest_length i h)) good

    common_block-Good :
        (i : ℕ) (t : Tracker)
        → i < dest_blocks
        → Good t
        → Good (common_block simd block_size src dest i t)
    unfolding common_block
    common_block-Good i t h good =
        elim (Bool-cases (is_zero_block simd (block block_size dest i))) [
          | inl z ↦ rw z (zero-Good i t h z good)
          | inr not_zeros ↦ elim (Bool-cases (is_one_block simd (block block_size dest i))) [
            | inl o ↦ rw (not_zeros, o) (one-Good i t h o good)
            | inr not_ones ↦
                elim (Bool-cases (same_block (block block_size src i) (block block_size dest i))) [
                  | inl same ↦
                      rw (not_zeros, not_ones, same)
                        (set_match-Sound block_size src dest dest_blocks t i identity i
                          (not_unmatched refl) (λ s. same_block-Matches i i h same) good)
                  | inr differs ↦
                      rw (not_zeros, not_ones, differs)
                        (set_crc32-Sound block_size src dest dest_blocks t i
                          (crc32 (block block_size dest i)) good)
                ]
          ]
        ]

    dest_block_only-Good :
        (i : ℕ) (t : Tracker)
        → i < dest_blocks
        → Good t
        → Good (dest_block_only simd block_size src dest i t)
    unfolding dest_block_only
    dest_block_only-Good i t h good =
        elim (Bool-cases (is_zero_block simd (block block_size dest i))) [
          | inl z ↦ rw z (zero-Good i t h z good)
          | inr not_zeros ↦ elim (Bool-cases (is_one_block simd (block block_size dest i))) [
            | inl o ↦ rw (not_zeros, o) (one-Good i t h o good)
            | inr not_ones ↦
                rw (not_zeros, not_ones)
                  (set_crc32-Sound block_size src dest dest_blocks t i
                    (crc32 (block block_size dest i)) good)
          ]
        ]

    common_loop-Good :
        (n i : ℕ) (t : Tracker)
        → i + n ≤ dest_blocks
        → Good t
        → Good (common_loop simd block_size src dest n i t)
    unfolding common_loop
    common_loop-Good zero i t h good = good
    common_loop-Good (suc n) i t h good =
        common_loop-Good n (i + 1) (common_block simd block_size src dest i t) (omega arith)
          (common_block-Good i t (omega arith) good)

    dest_loop-Good :
        (n i : ℕ) (t : Tracker)
        → i + n ≤ dest_blocks
        → Good t
        → Good (dest_loop simd block_size src dest n i t)
    unfolding dest_loop
    dest_loop-Good zero i t h good = good
    dest_loop-Good (suc n) i t h good =
        dest_loop-Good n (i + 1) (dest_block_only simd block_size src dest i t) (omega arith)
          (dest_block_only-Good i t (omega arith) good)

    pub identity_run-Good :
        (t : Tracker) (src_blocks : ℕ)
        → Good t
        → (t' : Tracker) × (identity_run simd
              (record { block_size = block_size })
              t
              src
              src_blocks
              dest
              dest_blocks
            ≡ ok t')
          × Good t'
    unfolding identity_run
    identity_run-Good t src_blocks good =
        let common = if ltb src_blocks dest_blocks then src_blocks else dest_blocks in
        let le : common ≤ dest_blocks = ground arith in
        (
          dest_loop simd block_size src dest (dest_blocks - common) common
              (common_loop simd block_size src dest common 0 t),
          refl,
          dest_loop-Good (dest_blocks - common) common
              (common_loop simd block_size src dest common 0 t) (omega (arith, le))
              (common_loop-Good common 0 t (omega (arith, le)) good),
        )

  -- The second stage.
  chain_loop-Good :
      (i : ℕ) (chain : List Entry) (t : Tracker)
      → i < dest_blocks
      → Good t
      → Good (chain_loop block_size src dest i chain t)
  unfolding chain_loop
  chain_loop-Good i [] t h good = good
  chain_loop-Good i (entry ∷ next) t h good = elim (Bool-cases (entry.block_index == i)) [
    | inl here ↦ rw here (chain_loop-Good i next t h good)
    | inr other ↦
        elim (Bool-cases
          (same_block (block block_size src entry.block_index) (block block_size dest i))) [
            | inl same ↦
                rw (other, same)
                  (set_match-Sound block_size src dest dest_blocks t i relocate entry.block_index
                    (not_unmatched refl) (λ s. same_block-Matches i entry.block_index h same) good)
            | inr differs ↦ rw (other, differs) (chain_loop-Good i next t h good)
          ]
  ]

  relocation_loop-Good :
      (table : HashTable) (n i : ℕ) (t : Tracker)
      → i + n ≤ dest_blocks
      → Good t
      → Good (relocation_loop block_size src dest table n i t)
  unfolding relocation_loop
  relocation_loop-Good table zero i t h good = good
  relocation_loop-Good table (suc n) i t h good =
      relocation_loop-Good table n (i + 1) _ (omega arith) (elim (Bool-cases (is_unmatched t i)) [
        | inr has ↦ rw has good
        | inl free ↦ rw free (state-Good (get t i))
      ])
    where
      state-Good : (s : Option BlockState) → Good (relocate_state block_size src dest table i t s)
      state-Good none = good
      state-Good (some s) = chain_loop-Good i (lookup table s.crc32) t (omega arith) good

  pub relocation_run-Good :
      (stage : RelocationStage) (table : HashTable) (t : Tracker)
      → stage.block_size ≡ block_size
      → stage.src_hash ≡ some table
      → Good t
      → (t' : Tracker) × (relocation_run stage t src dest ≡ ok t') × Good t'
  unfolding relocation_run
  relocation_run-Good stage table t size hash good = (
    relocation_loop block_size src dest table (length t.blocks) 0 t,
    rw (hash, size) refl,
    relocation_loop-Good table (length t.blocks) 0 t (omega (arith, good.count)) good,
  )
