-- ===== src/Ext.antt =====
-- src/fs/ext_reader.c: the superblock, the inodes and the extents of an ext2/3/4 filesystem. A pointer into the
-- image is its offset. Block numbers that pass the checks are below the image's size, so that their products
-- with the block size are exact. Memory for the extents of a file is taken to suffice.
pub mod Extents
pub mod Within
pub mod BlockMap
pub mod Walk
pub mod Inside
pub mod Steps
pub mod Walked
pub mod Visited
pub mod Ends
use fsdiff.Prelude.{
  ℕ, zero, suc, ◌+◌, ◌-◌, ◌*◌, ◌/◌, ◌%◌, ◌^◌, Bool, true, false, not, ◌||◌, ◌&&◌, List, [], ◌∷◌,
  Option, none, some, length, get_or, ltb, leb, ◌==◌, if◌then◌else◌, bit_and, bit_or,
}
use fsdiff.Status.{Result, ok, err, ◌>>=◌, ◌>>◌, guard, out_of_memory, bad_magic, corrupt_data}
use fsdiff.Wire.{u16, u32, shr}

-- `rd16` and `rd32`
unfoldable pub rd16 : List ℕ → ℕ → ℕ
rd16 image p = u16 (bit_or (get_or image p 0) (get_or image (p + 1) 0 * 2 ^ 8))

unfoldable pub rd32 : List ℕ → ℕ → ℕ
rd32 image p = u32 (
    bit_or
      (bit_or (bit_or (get_or image p 0) (get_or image (p + 1) 0 * 2 ^ 8))
        (get_or image (p + 2) 0 * 2 ^ 16))
      (get_or image (p + 3) 0 * 2 ^ 24))

-- `fsd_extfs_t`
pub record Extfs : Type 0 where
  pub image : List ℕ
  pub block_size : ℕ
  pub block_count : ℕ
  pub inodes_count : ℕ
  pub inodes_per_group : ℕ
  pub blocks_per_group : ℕ
  pub inode_size : ℕ
  pub desc_size : ℕ
  pub first_data_block : ℕ
  pub gdt_start : ℕ
  pub group_count : ℕ
  pub has_filetype : Bool

-- Offsets of the superblock, and its flags: INCOMPAT_RECOVER, INCOMPAT_64BIT, INCOMPAT_FILETYPE and
-- the complement of INCOMPAT_ALLOWED.
abbrev pub sb_offset : ℕ
sb_offset = 1024

abbrev pub incompat_recover : ℕ
incompat_recover = 0x4

abbrev pub incompat_64bit : ℕ
incompat_64bit = 0x80

abbrev pub incompat_filetype : ℕ
incompat_filetype = 0x2

abbrev pub not_allowed : ℕ
not_allowed = 2 ^ 32 - 1 - 0xA2C2

-- The handle that the superblock describes.
unfoldable pub superblock : List ℕ → Extfs
unfolding rd16 rd32
superblock image =
    let incompat = rd32 image (sb_offset + 0x60) in
    let is_64bit = not (bit_and incompat incompat_64bit == 0) in
    let block_size = 1024 * 2 ^ rd32 image (sb_offset + 0x18) in
    let low = rd32 image (sb_offset + 0x04) in
    let block_count =
      if is_64bit then bit_or low (rd32 image (sb_offset + 0x150) * 2 ^ 32) else low in
    let blocks_per_group = rd32 image (sb_offset + 0x20) in
    let first_data_block = rd32 image (sb_offset + 0x14) in
    record {
      image = image;
      block_size = block_size;
      block_count = block_count;
      inodes_count = rd32 image sb_offset;
      inodes_per_group = rd32 image (sb_offset + 0x28);
      blocks_per_group = blocks_per_group;
      inode_size =
          if leb 1 (rd32 image (sb_offset + 0x4C)) then rd16 image (sb_offset + 0x58) else 128;
      desc_size = if is_64bit then rd16 image (sb_offset + 0xFE) else 32;
      first_data_block = first_data_block;
      gdt_start = (first_data_block + 1) * block_size;
      group_count =
          u32 ((block_count - first_data_block + blocks_per_group - 1) / blocks_per_group);
      has_filetype = not (bit_and incompat incompat_filetype == 0);
    }

-- The checks of the geometry.
unfoldable pub check_geometry : Extfs → Result Extfs
check_geometry fs = do
  guard
      (not (
        fs.inodes_per_group == 0
        || (fs.blocks_per_group == 0 || (fs.inodes_count == 0 || fs.block_count == 0))))
      corrupt_data
  guard
      (leb 128 fs.inode_size
        && (leb fs.inode_size fs.block_size && (bit_and fs.inode_size (fs.inode_size - 1) == 0)))
      corrupt_data
  guard (leb 32 fs.desc_size && leb fs.desc_size fs.block_size) corrupt_data
  guard (fs.first_data_block == (if fs.block_size == 1024 then 1 else 0)) corrupt_data
  guard (leb fs.block_count (length fs.image / fs.block_size)) corrupt_data
  guard (leb fs.inodes_count (fs.group_count * fs.inodes_per_group)) corrupt_data
  guard (leb (fs.gdt_start + fs.group_count * fs.desc_size) (length fs.image)) corrupt_data
  ok fs

-- `fsd_extfs_open`
unfoldable pub extfs_open : Bool → List ℕ → Result Extfs
unfolding rd16 rd32 superblock check_geometry
extfs_open calloc image = do
  guard (leb (sb_offset + 1024) (length image)) bad_magic
  guard (rd16 image (sb_offset + 0x38) == 0xEF53) bad_magic
  guard (leb (rd32 image (sb_offset + 0x18)) 2) bad_magic
  guard (bit_and (rd32 image (sb_offset + 0x60)) incompat_recover == 0) bad_magic
  guard (bit_and (rd32 image (sb_offset + 0x60)) not_allowed == 0) bad_magic
  guard (not (bit_and (rd16 image (sb_offset + 0x3A)) 1 == 0)) bad_magic
  guard calloc out_of_memory
  check_geometry (superblock image)

-- `fs_block`
unfoldable pub fs_block : Extfs → ℕ → Result ℕ
fs_block fs b = do
  guard (not (b == 0 || leb fs.block_count b)) corrupt_data
  guard (leb (b * fs.block_size + fs.block_size) (length fs.image)) corrupt_data
  ok (b * fs.block_size)

-- `inode_ptr`
unfoldable pub inode_ptr : Extfs → ℕ → Result ℕ
unfolding rd32
inode_ptr fs ino = do
  guard (not (ino == 0 || ltb fs.inodes_count ino)) corrupt_data
  let group = (ino - 1) / fs.inodes_per_group
  let within = (ino - 1) % fs.inodes_per_group
  let gd = fs.gdt_start + group * fs.desc_size
  let low = rd32 fs.image (gd + 0x08)
  let table = if leb 44 fs.desc_size then bit_or low (rd32 fs.image (gd + 0x28) * 2 ^ 32) else low
  let byte = table * fs.block_size + within * fs.inode_size
  guard (not (table == 0 || leb fs.block_count table)) corrupt_data
  guard (leb (byte + fs.inode_size) (length fs.image)) corrupt_data
  ok byte
