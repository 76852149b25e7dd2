-- ===== src/Ext/Steps.antt =====
-- The steps of `fsd_extfs_walk` of src/fs/ext_reader.c between two states of the walk that are in a relation, if a
-- directory that goes on the stack and a file that is reported are.
use fsdiff.Prelude.{
  ℕ, zero, suc, ◌+◌, ◌≡◌, Bool, true, false, not, ◌||◌, List, [], ◌∷◌, ◌++◌, length, ltb, leb, ◌==◌,
  if◌then◌else◌, bit_and,
}
use fsdiff.Encoder.Emit.{slice}
use fsdiff.Status.{Result, ok, err, ◌>>=◌, >>=-eq-ok, ok_injective}
use fsdiff.Stages.Fsmap.{Extent}
use fsdiff.Ext.{Extfs, rd16, rd32, fs_block}
use fsdiff.Ext.Walk.{
  Directory, Walk, extents_of, visit_directory, visit_file, visit_entry, block_entries,
  directory_block, extent_blocks, directory_extents, read_directory, name_len_of, type_of, is_dot,
  has_byte,
}

module _ (push : ℕ → Bool) (fs : Extfs) (R : Walk → Walk → Type 0) (same : (w : Walk) → R w w)
    (then_R : (w w1 w' : Walk) → R w w1 → R w1 w' → R w w') where
  -- A step between related states.
  abbrev pub Keeps : (Walk → Result Walk) → Type 0
  Keeps step = (w w' : Walk) → step w ≡ ok w' → R w w'

  pub done-Keeps : Keeps ok
  done-Keeps w w' h = let e = ok_injective h in rw (← e) (same w)

  either-Keeps :
      (b : Bool) (first second : Walk → Result Walk)
      → Keeps first
      → Keeps second
      → Keeps (λ w. if b then first w else second w)
  either-Keeps true first second keeps keeps' = keeps
  either-Keeps false first second keeps keeps' = keeps'

  then-Keeps :
      (first second : Walk → Result Walk)
      → Keeps first
      → Keeps second
      → Keeps (λ w. first w >>= second)
  then-Keeps first second keeps keeps' w w' h =
      let (w1, ran, h1) = >>=-eq-ok (first w) second h in
      then_R w w1 w' (keeps w w1 ran) (keeps' w1 w' h1)

  module _ (directory_keeps : (ino : ℕ) (path : List ℕ) → Keeps (visit_directory push fs ino path))
      (file_keeps : (ino : ℕ) (path : List ℕ) (w : Walk)
        → R w (visit_file push fs ino path w)) where
    visit_entry-Keeps : (dir_path : List ℕ) (de : ℕ) → Keeps (visit_entry push fs dir_path de)
    unfolding visit_entry
    visit_entry-Keeps dir_path de =
        let ino = rd32 fs.image de in
        let name_len = name_len_of fs de in
        let name = slice fs.image (de + 8) name_len in
        let path = dir_path ++ (47 ∷ name) in
        let file : Walk → Result Walk = λ w. ok (visit_file push fs ino path w) in
        let ftype = type_of fs de ino in
        let regular : Walk → Result Walk = λ w. if ftype == 1 then file w else ok w in
        let named : Walk → Result Walk =
          λ w. if ftype == 2 then visit_directory push fs ino path w else regular w in
        let strange =
          is_dot name
          || (has_byte 47 name || (has_byte 0 name || leb 4096 (length dir_path + 1 + name_len))) in
        either-Keeps (ino == 0 || (name_len == 0 || ltb (rd16 fs.image (de + 4)) (8 + name_len))) ok
          (λ w. if strange then ok w else named w) done-Keeps
          (either-Keeps strange ok named done-Keeps (
            either-Keeps (ftype == 2) (visit_directory push fs ino path) regular
              (directory_keeps ino path)
              (either-Keeps (ftype == 1) file ok
                (λ w w' h. let same = ok_injective h in rw (← same) (file_keeps ino path w))
                done-Keeps)))

    block_entries-Keeps :
        (fuel : ℕ) (dir_path : List ℕ) (blk pos : ℕ)
        → Keeps (block_entries push fs fuel dir_path blk pos)
    unfolding block_entries
    block_entries-Keeps zero dir_path blk pos = done-Keeps
    block_entries-Keeps (suc fuel) dir_path blk pos =
        let rec_len = rd16 fs.image (blk + pos + 4) in
        let rest = block_entries push fs fuel dir_path blk (pos + rec_len) in
        either-Keeps
          (ltb fs.block_size (pos + 8)
            || (ltb rec_len 8
                || (not (bit_and rec_len 3 == 0) || ltb fs.block_size (pos + rec_len))))
          ok (λ w. visit_entry push fs dir_path (blk + pos) w >>= rest) done-Keeps
          (then-Keeps (visit_entry push fs dir_path (blk + pos)) rest
            (visit_entry-Keeps dir_path (blk + pos))
            (block_entries-Keeps fuel dir_path blk (pos + rec_len)))

    directory_block-Keeps : (dir_path : List ℕ) (b : ℕ) → Keeps (directory_block push fs dir_path b)
    unfolding directory_block
    directory_block-Keeps dir_path b w w' h = go (fs_block fs b) h
      where
        go :
            (r : Result ℕ)
            → (elim r as (λ _. Result Walk) [
              | err code ↦ ok w
              | ok blk ↦ block_entries push fs fs.block_size dir_path blk 0 w
            ])
              ≡ ok w'
            → R w w'
        go (err code) h = done-Keeps w w' h
        go (ok blk) h = block_entries-Keeps fs.block_size dir_path blk 0 w w' h

    extent_blocks-Keeps : (dir_path : List ℕ) (n b : ℕ) → Keeps (extent_blocks push fs dir_path n b)
    unfolding extent_blocks
    extent_blocks-Keeps dir_path zero b = done-Keeps
    extent_blocks-Keeps dir_path (suc n) b =
        then-Keeps (directory_block push fs dir_path b) (extent_blocks push fs dir_path n (b + 1))
          (directory_block-Keeps dir_path b) (extent_blocks-Keeps dir_path n (b + 1))

    directory_extents-Keeps :
        (dir_path : List ℕ) (extents : List Extent)
        → Keeps (directory_extents push fs dir_path extents)
    unfolding directory_extents
    directory_extents-Keeps dir_path [] = done-Keeps
    directory_extents-Keeps dir_path (e ∷ extents) =
        then-Keeps (extent_blocks push fs dir_path e.count e.physical)
          (directory_extents push fs dir_path extents)
          (extent_blocks-Keeps dir_path e.count e.physical)
          (directory_extents-Keeps dir_path extents)

    pub read_directory-Keeps : (dir : Directory) → Keeps (read_directory push fs dir)
    unfolding read_directory
    read_directory-Keeps dir w w' h = go (extents_of fs 0x4000 dir.inode) h
      where
        go :
            (r : Result (List Extent))
            → (elim r as (λ _. Result Walk) [
              | err code ↦ ok w
              | ok extents ↦ directory_extents push fs dir.path extents w
            ])
              ≡ ok w'
            → R w w'
        go (err code) h = done-Keeps w w' h
        go (ok extents) h = directory_extents-Keeps dir.path extents w w' h
