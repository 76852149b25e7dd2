-- ===== src/Ext/Inside.antt =====
-- The extents that src/fs/ext_reader.c collects lie inside the filesystem, and the filesystem inside the image.
use fsdiff.Prelude.{
  ℕ, zero, suc, ◌+◌, ◌-◌, ◌*◌, ◌/◌, ◌^◌, ◌≤◌, ◌<◌, ◌≡◌, Bool, true, false, not, List, [], ◌∷◌, none,
  length, ◌==◌, if◌then◌else◌, bit_and, arith, refl, inl, inr, Bool-cases, All, mul_mono,
}
use native.Mathlib.Nat.{le-div_iff_mul-le}
use fsdiff.Status.{Result, ok, >>=-eq-ok, ok_injective}
use fsdiff.Wire.{u64}
use fsdiff.Stages.Fsmap.{Extent}
use fsdiff.Stages.Index.{Fits}
use fsdiff.Ext.{Extfs, rd16, rd32, superblock, check_geometry, extfs_open, sb_offset}
use fsdiff.Ext.Extents.{
  extents_from_node, blockmap_collect, inode_file_size, in_order, inode_extents,
}
use fsdiff.Ext.Within.{Within, Kept, extents_from_node-Kept}
use fsdiff.Ext.BlockMap.{blockmap_collect-Kept}

pub in_order-All {ℓ} :
    {A : Type ℓ} (P : A → Type 0) (done list : List A)
    → All P done
    → All P list
    → All P (in_order done list)
unfolding in_order
in_order-All P done [] kept _ = kept
in_order-All P done (e ∷ list) kept (here, there) =
    in_order-All P (e ∷ done) list (here, kept) there

module _ (fs : Extfs) where
  either-Kept :
      (b : Bool) (x y : Result (List Extent)) (result : List Extent)
      → (x ≡ ok result → Kept fs result)
      → (y ≡ ok result → Kept fs result)
      → (if b then x else y) ≡ ok result
      → Kept fs result
  either-Kept true x y result left right h = left h
  either-Kept false x y result left right h = right h

  pub inode_extents-Kept :
      (ino : ℕ) (result : List Extent) → inode_extents fs ino ≡ ok result → Kept fs result
  unfolding inode_extents
  inode_extents-Kept ino result h =
      let flags = rd32 fs.image (ino + 0x20) in
      let tree = extents_from_node 6 fs (ino + 0x28) 60 none [] in
      let blocks =
        u64 (inode_file_size fs.image ino (rd16 fs.image ino) + fs.block_size - 1)
        / fs.block_size in
      let map = blockmap_collect fs (ino + 0x28) blocks in
      elim (Bool-cases (bit_and flags 0x10000000 == 0)) [
        | inr inline ↦ let same : [] ≡ result = ok_injective (rw inline at h) in rw (← same) tt
        | inl plain ↦
            let (list, collected, h1) =
              >>=-eq-ok (if not (bit_and flags 0x80000 == 0) then tree else map)
                (λ list. ok (in_order [] list)) (rw plain at h) in
            let same = ok_injective h1 in
            rw (← same) (
              in_order-All (Within fs) [] list tt (
                either-Kept (not (bit_and flags 0x80000 == 0)) tree map list
                  (extents_from_node-Kept fs 6 (ino + 0x28) 60 none [] list tt)
                  (blockmap_collect-Kept fs (ino + 0x28) blocks list) collected))
      ]

check_geometry-blocks :
    (fs fs' : Extfs)
    → check_geometry fs ≡ ok fs'
    → (fs ≡ fs') × (fs.block_count ≤ length fs.image / fs.block_size)
unfolding check_geometry
check_geometry-blocks fs fs' h = ground arith

-- What the checks of the superblock give.
abbrev pub Opened : List ℕ → Extfs → Type 0
Opened image fs =
    (fs.image ≡ image)
    × (0 < fs.block_size)
    × (fs.block_size ≤ 4096)
    × (fs.block_count ≤ length image / fs.block_size)

block_size-le : (n : ℕ) → n ≤ 2 → (0 < 1024 * 2 ^ n) × (1024 * 2 ^ n ≤ 4096)
block_size-le zero h = omega arith
block_size-le (suc zero) h = omega arith
block_size-le (suc (suc zero)) h = omega arith
block_size-le (suc (suc (suc n))) h = omega arith

superblock-Opened :
    (image : List ℕ) (fs : Extfs)
    → rd32 image (sb_offset + 0x18) ≤ 2
    → check_geometry (superblock image) ≡ ok fs
    → Opened image fs
unfolding superblock
superblock-Opened image fs small h =
    let (same, inside) = check_geometry-blocks (superblock image) fs h in
    let (some_bytes, limit) = block_size-le (rd32 image (sb_offset + 0x18)) small in
    rw (← same) (refl, some_bytes, limit, inside)

pub extfs_open-Opened :
    (calloc : Bool) (image : List ℕ) (fs : Extfs)
    → extfs_open calloc image ≡ ok fs
    → Opened image fs
unfolding extfs_open
extfs_open-Opened calloc image fs h =
    let (small, checked) : (rd32 image (sb_offset + 0x18) ≤ 2)
        × (check_geometry (superblock image) ≡ ok fs) =
      ground arith in
    superblock-Opened image fs small checked

Within-Fits :
    (image : List ℕ) (fs : Extfs) (e : Extent)
    → Opened image fs
    → Within fs e
    → Fits fs.block_size (length image) e
Within-Fits image fs e (_, some_bytes, limit, inside) (physical, logical) =
    let blocks : fs.block_count * fs.block_size ≤ length image =
      (le-div_iff_mul-le {k = fs.block_size} some_bytes).0 inside in
    let first = mul_mono (e.physical + e.count) fs.block_count fs.block_size physical in
    let second = mul_mono (e.logical + e.count) (2 ^ 33) fs.block_size logical in
    (omega (arith, blocks, first), omega (arith, second, limit))

pub Kept-Fits :
    (image : List ℕ) (fs : Extfs)
    → Opened image fs
    → (extents : List Extent) → All (Within fs) extents
    → All (Fits fs.block_size (length image)) extents
Kept-Fits image fs opened [] kept = tt
Kept-Fits image fs opened (e ∷ extents) (here, there) =
    (Within-Fits image fs e opened here, Kept-Fits image fs opened extents there)
