-- ===== src/Ext/Walk.antt =====
-- `fsd_extfs_walk` of src/fs/ext_reader.c: the directories from the root on, with a stack of those to read, and the
-- files that its callback is called for. The callback goes on after every file; where one stops for want of memory,
-- its caller gives up too.
use fsdiff.Prelude.{
  ℕ, zero, suc, ◌+◌, ◌/◌, ◌%◌, ◌^◌, Bool, false, not, ◌||◌, ◌&&◌, List, [], ◌∷◌, ◌++◌, length,
  get_or, set, replicate, ltb, leb, ◌==◌, if◌then◌else◌, bit_and, bit_or,
}
use fsdiff.Encoder.Emit.{slice}
use fsdiff.Status.{Result, ok, err, ◌>>=◌, ◌>>◌, guard, out_of_memory, corrupt_data}
use fsdiff.Stages.Fsmap.{Extent, File}
use fsdiff.Ext.{Extfs, rd16, rd32, fs_block, inode_ptr}
use fsdiff.Ext.Extents.{inode_extents, in_order}

-- `dir_entry_t`
pub record Directory : Type 0 where
  pub inode : ℕ
  pub path : List ℕ

-- What the walk keeps: the bits of `visited`, the stack and, the newest in front, the files of the calls.
pub record Walk : Type 0 where
  pub visited : List ℕ
  pub stack : List Directory
  pub files : List File

-- The bits of `visited`.
unfoldable pub is_visited : List ℕ → ℕ → Bool
is_visited visited ino = not (bit_and (get_or visited (ino / 8) 0) (2 ^ (ino % 8)) == 0)

unfoldable pub visit : List ℕ → ℕ → List ℕ
visit visited ino = set visited (ino / 8) (bit_or (get_or visited (ino / 8) 0) (2 ^ (ino % 8)))

-- The type of an entry by its inode's mode, in a filesystem without types in its entries.
unfoldable pub type_of_inode : Extfs → ℕ → ℕ
unfolding inode_ptr rd16
type_of_inode fs ino = elim (inode_ptr fs ino) [
  | err code ↦ 0
  | ok ti ↦
      let fmt = bit_and (rd16 fs.image ti) 0xF000 in
      if fmt == 0x4000 then 2 else if fmt == 0x8000 then 1 else 0
]

unfoldable pub name_len_of : Extfs → ℕ → ℕ
unfolding rd16
name_len_of fs de = if fs.has_filetype then get_or fs.image (de + 6) 0 else rd16 fs.image (de + 6)

unfoldable pub type_of : Extfs → ℕ → ℕ → ℕ
unfolding type_of_inode
type_of fs de ino = if fs.has_filetype then get_or fs.image (de + 7) 0 else type_of_inode fs ino

abbrev pub is_dot : List ℕ → Bool
is_dot (a ∷ []) = a == 46
is_dot (a ∷ b ∷ []) = (a == 46) && (b == 46)
is_dot name = false

-- `memchr`
unfoldable pub has_byte : ℕ → List ℕ → Bool
has_byte b [] = false
has_byte b (a ∷ name) = (a == b) || has_byte b name

-- `path_depth`
unfoldable pub path_depth : List ℕ → ℕ
path_depth [] = 0
path_depth (a ∷ path) = if a == 47 then suc (path_depth path) else path_depth path

-- An inode that has the mode of a directory, or of a regular file, and its extents.
unfoldable pub extents_of : Extfs → ℕ → ℕ → Result (List Extent)
unfolding inode_ptr inode_extents rd16
extents_of fs mode ino = do
  p ← inode_ptr fs ino
  guard (bit_and (rd16 fs.image p) 0xF000 == mode) corrupt_data
  inode_extents fs p

-- The root has the inode 2, and is visited before the loop.
unfoldable pub walk_start : Extfs → Walk
unfolding visit
walk_start fs = record {
  visited = visit (replicate (fs.inodes_count / 8 + 1) 0) 2;
  stack = record { inode = 2; path = [] } ∷ [];
  files = [];
}

-- `push` says whether there is memory for the entry of an inode on the stack.
module _ (push : ℕ → Bool) (fs : Extfs) where
  -- A directory that is not visited yet goes on the stack.
  unfoldable pub visit_directory : ℕ → List ℕ → Walk → Result Walk
  unfolding is_visited visit path_depth
  visit_directory ino path w =
      if leb ino fs.inodes_count && (not (is_visited w.visited ino) && leb (path_depth path) 128)
      then (do
        guard (push ino) out_of_memory
        ok (record w {
          visited = visit w.visited ino;
          stack = record { inode = ino; path = path } ∷ w.stack;
        }))
      else ok w

  -- The callback is called for a regular file, unless its extents cannot be collected.
  unfoldable pub visit_file : ℕ → List ℕ → Walk → Walk
  unfolding extents_of
  visit_file ino path w = elim (extents_of fs 0x8000 ino) [
    | err code ↦ w
    | ok extents ↦ record w { files = record { path = path; extents = extents } ∷ w.files }
  ]

  -- The entry at `de`.
  unfoldable pub visit_entry : List ℕ → ℕ → Walk → Result Walk
  unfolding visit_directory visit_file name_len_of type_of has_byte rd16 rd32
  visit_entry dir_path de w =
      let ino = rd32 fs.image de in
      let name_len = name_len_of fs de in
      let name = slice fs.image (de + 8) name_len in
      let path = dir_path ++ (47 ∷ name) in
      let ftype = type_of fs de ino in
      if ino == 0 || (name_len == 0 || ltb (rd16 fs.image (de + 4)) (8 + name_len))
      then ok w
      else if is_dot name
          || (has_byte 47 name || (has_byte 0 name || leb 4096 (length dir_path + 1 + name_len)))
      then ok w
      else if ftype == 2
      then visit_directory ino path w
      else if ftype == 1
      then ok (visit_file ino path w)
      else ok w

  -- The entries of a directory block. An entry has 8 bytes or more, so that a fuel of the block size is enough.
  unfoldable pub block_entries : ℕ → List ℕ → ℕ → ℕ → Walk → Result Walk
  unfolding visit_entry rd16
  block_entries zero dir_path blk pos w = ok w
  block_entries (suc fuel) dir_path blk pos w =
      let rec_len = rd16 fs.image (blk + pos + 4) in
      if ltb fs.block_size (pos + 8)
        || (ltb rec_len 8 || (not (bit_and rec_len 3 == 0) || ltb fs.block_size (pos + rec_len)))
      then ok w
      else (do
        w' ← visit_entry dir_path (blk + pos) w
        block_entries fuel dir_path blk (pos + rec_len) w')

  -- A block of a directory, which is passed over where it is not in the filesystem.
  unfoldable pub directory_block : List ℕ → ℕ → Walk → Result Walk
  unfolding block_entries fs_block
  directory_block dir_path b w = elim (fs_block fs b) [
    | err code ↦ ok w
    | ok blk ↦ block_entries fs.block_size dir_path blk 0 w
  ]

  -- The loop over the blocks of an extent, with `n` to go from block `b` on.
  unfoldable pub extent_blocks : List ℕ → ℕ → ℕ → Walk → Result Walk
  unfolding directory_block
  extent_blocks dir_path zero b w = ok w
  extent_blocks dir_path (suc n) b w = do
    w' ← directory_block dir_path b w
    extent_blocks dir_path n (b + 1) w'

  unfoldable pub directory_extents : List ℕ → List Extent → Walk → Result Walk
  unfolding extent_blocks
  directory_extents dir_path [] w = ok w
  directory_extents dir_path (e ∷ extents) w = do
    w' ← extent_blocks dir_path e.count e.physical w
    directory_extents dir_path extents w'

  -- A directory off the stack, which is passed over where its extents cannot be collected.
  unfoldable pub read_directory : Directory → Walk → Result Walk
  unfolding directory_extents extents_of
  read_directory dir w = elim (extents_of fs 0x4000 dir.inode) [
    | err code ↦ ok w
    | ok extents ↦ directory_extents dir.path extents w
  ]

  -- The loop over the stack. A directory goes on it once, when its bit in `visited` is set.
  unfoldable pub stack_loop : ℕ → Walk → Result Walk
  unfolding read_directory
  stack_loop zero w = ok w
  stack_loop (suc fuel) w =
      let rest : Directory → List Directory → Result Walk =
        λ dir stack. read_directory dir (record w { stack = stack }) >>= stack_loop fuel in
      elim w.stack [ [] ↦ ok w | dir ∷ stack ↦ rest dir stack ]

  -- `fsd_extfs_walk`, where `alloc` says whether there is memory for `visited` and `path_buf`: the files in the
  -- order of the calls. The inodes and the root bound the directories.
  unfoldable pub extfs_walk : Bool → Result (List File)
  unfolding stack_loop walk_start in_order
  extfs_walk alloc = do
    guard (alloc && push 2) out_of_memory
    w ← stack_loop (fs.inodes_count + 2) (walk_start fs)
    ok (in_order [] w.files)
