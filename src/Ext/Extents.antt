-- ===== src/Ext/Extents.antt =====
-- The extents of an inode in src/fs/ext_reader.c: extent trees and block maps. An error stands for the
-- -1 that skips the file, and a list under construction has the newest extent in front.
use fsdiff.Prelude.{
  ℕ, zero, suc, ◌+◌, ◌-◌, ◌*◌, ◌/◌, ◌^◌, Bool, true, not, ◌||◌, ◌&&◌, List, [], ◌∷◌, Option, none,
  some, length, ltb, leb, ◌==◌, if◌then◌else◌, bit_and, bit_or,
}
use fsdiff.Status.{Result, ok, err, ◌>>=◌, ◌>>◌, guard, corrupt_data}
use fsdiff.Wire.{u64}
use fsdiff.Stages.Fsmap.{Extent}
use fsdiff.Ext.{Extfs, rd16, rd32, fs_block}

-- `extent_append`
unfoldable pub extent_append : List Extent → ℕ → ℕ → ℕ → Result (List Extent)
extent_append list logical physical zero = ok list
extent_append [] logical physical (suc n) =
    ok (record { logical = logical; physical = physical; count = suc n } ∷ [])
extent_append (last ∷ list) logical physical (suc n) =
    if (last.logical + last.count == logical) && (last.physical + last.count == physical)
    then ok (record last { count = last.count + suc n } ∷ list)
    else (do
      guard (ltb (length (last ∷ list)) 65536) corrupt_data
      ok (record { logical = logical; physical = physical; count = suc n } ∷ last ∷ list))

-- A leaf entry of an extent tree: the empty and the unwritten ones are passed over.
unfoldable pub leaf_entry : Extfs → ℕ → List Extent → Result (List Extent)
unfolding extent_append rd16 rd32
leaf_entry fs entry out =
    let len = rd16 fs.image (entry + 4) in
    let phys = bit_or (rd32 fs.image (entry + 8)) (rd16 fs.image (entry + 6) * 2 ^ 32) in
    if len == 0 || ltb 32768 len then ok out else (do
      guard (not (phys == 0 || ltb fs.block_count (phys + len))) corrupt_data
      extent_append out (rd32 fs.image entry) phys len)

-- An index entry: `node` walks the node that it points to.
unfoldable pub index_entry :
    (ℕ → List Extent → Result (List Extent)) → Extfs → ℕ → List Extent → Result (List Extent)
unfolding fs_block rd16 rd32
index_entry node fs entry out = do
  cb ← fs_block fs (bit_or (rd32 fs.image (entry + 4)) (rd16 fs.image (entry + 8) * 2 ^ 32))
  node cb out

-- The loop over the entries of a node, with `n` to go.
unfoldable pub entries_loop :
    (ℕ → List Extent → Result (List Extent)) → ℕ → ℕ → List Extent → Result (List Extent)
entries_loop step zero entry out = ok out
entries_loop step (suc n) entry out = do
  out' ← step entry out
  entries_loop step n (entry + 12) out'

-- The header of a node: its magic, its depth, and that its entries fit.
unfoldable pub check_node : Extfs → ℕ → ℕ → Option ℕ → Result (ℕ × ℕ)
unfolding rd16
check_node fs node space expect_depth = do
  guard (leb 12 space && (rd16 fs.image node == 0xF30A)) corrupt_data
  let entries = rd16 fs.image (node + 2)
  let depth = rd16 fs.image (node + 6)
  guard (leb depth 5 && expected expect_depth depth) corrupt_data
  guard (leb (12 + entries * 12) space) corrupt_data
  ok (entries, depth)
  where
    expected : Option ℕ → ℕ → Bool
    expected none depth = true
    expected (some d) depth = depth == d

-- `extents_from_node`. A node is at most 5 deep, and a child one less, so that a fuel of 6 is enough.
unfoldable pub extents_from_node : ℕ → Extfs → ℕ → ℕ → Option ℕ → List Extent → Result (List Extent)
unfolding check_node leaf_entry index_entry entries_loop
extents_from_node zero fs node space expect_depth out = err corrupt_data
extents_from_node (suc fuel) fs node space expect_depth out = do
  (entries, depth) ← check_node fs node space expect_depth
  entries_loop
      (if depth == 0
        then leaf_entry fs
        else index_entry (λ cb. extents_from_node fuel fs cb fs.block_size (some (depth - 1))) fs)
      entries (node + 12) out

-- `*logical` and the list of a block map.
pub record Mapping : Type 0 where
  pub logical : ℕ
  pub out : List Extent

-- The loop over the pointers of an indirect block, with `n` to go from pointer `i` on; `next` is the call
-- for a pointer.
unfoldable pub pointers_loop :
    (ℕ → Mapping → Result Mapping) → Extfs → ℕ → ℕ → ℕ → ℕ → Mapping → Result Mapping
unfolding rd32
pointers_loop next fs remaining blk zero i m = ok m
pointers_loop next fs remaining blk (suc n) i m = if leb remaining m.logical then ok m else (do
  m' ← next (rd32 fs.image (blk + i * 4)) m
  pointers_loop next fs remaining blk n (i + 1) m')

-- `blockmap_indirect`
unfoldable pub blockmap_indirect : ℕ → Extfs → ℕ → ℕ → Mapping → Result Mapping
unfolding extent_append pointers_loop fs_block
blockmap_indirect zero fs remaining map_block m =
    if remaining == 0
    then ok m
    else if map_block == 0
    then ok (record m { logical = m.logical + 1 })
    else (do
      guard (ltb map_block fs.block_count) corrupt_data
      out ← extent_append m.out m.logical map_block 1
      ok (record { logical = m.logical + 1; out = out }))
blockmap_indirect (suc level) fs remaining map_block m =
    if remaining == 0
    then ok m
    else if map_block == 0
    then ok (record m { logical = m.logical + (fs.block_size / 4) ^ suc level })
    else (do
      blk ← fs_block fs map_block
      pointers_loop (blockmap_indirect level fs remaining) fs remaining blk (fs.block_size / 4) 0 m)

-- The loop over the three indirect pointers, with `n` to go from `level` on.
unfoldable pub levels_loop : Extfs → ℕ → ℕ → ℕ → ℕ → Mapping → Result Mapping
unfolding blockmap_indirect rd32
levels_loop fs file_blocks iblock zero level m = ok m
levels_loop fs file_blocks iblock (suc n) level m = if leb file_blocks m.logical then ok m else (do
  m' ← blockmap_indirect level fs file_blocks (rd32 fs.image (iblock + (11 + level) * 4)) m
  levels_loop fs file_blocks iblock n (level + 1) m')

-- `blockmap_collect`: twelve direct pointers, then the indirect ones.
unfoldable pub blockmap_collect : Extfs → ℕ → ℕ → Result (List Extent)
unfolding levels_loop pointers_loop blockmap_indirect
blockmap_collect fs iblock file_blocks = do
  guard (leb file_blocks (2 ^ 32)) corrupt_data
  m ←
      pointers_loop (blockmap_indirect 0 fs file_blocks) fs file_blocks iblock 12 0
        (record { logical = 0; out = [] })
  m' ← levels_loop fs file_blocks iblock 3 1 m
  ok m'.out

-- `inode_file_size`
unfoldable pub inode_file_size : List ℕ → ℕ → ℕ → ℕ
unfolding rd32
inode_file_size image ino mode =
    let low = rd32 image (ino + 0x04) in
    if bit_and mode 0xF000 == 0x8000 then bit_or low (rd32 image (ino + 0x6C) * 2 ^ 32) else low

-- Oldest first.
unfoldable pub in_order {ℓ} : {A : Type ℓ} → List A → List A → List A
in_order done [] = done
in_order done (e ∷ list) = in_order (e ∷ done) list

-- `inode_extents`
unfoldable pub inode_extents : Extfs → ℕ → Result (List Extent)
unfolding extents_from_node blockmap_collect inode_file_size in_order rd16 rd32
inode_extents fs ino =
    let flags = rd32 fs.image (ino + 0x20) in
    if not (bit_and flags 0x10000000 == 0) then ok [] else (do
      list ←
          if not (bit_and flags 0x80000 == 0)
          then extents_from_node 6 fs (ino + 0x28) 60 none []
          else blockmap_collect fs (ino + 0x28) (
              u64 (inode_file_size fs.image ino (rd16 fs.image ino) + fs.block_size - 1)
              / fs.block_size)
      ok (in_order [] list))
