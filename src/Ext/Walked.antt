-- ===== src/Ext/Walked.antt =====
-- The files that `fsd_extfs_walk` of src/fs/ext_reader.c reports lie inside the image.
use fsdiff.Prelude.{
  ℕ, zero, suc, ◌+◌, ◌≡◌, Bool, not, ◌&&◌, List, [], ◌∷◌, length, leb, ◌==◌, bit_and, inl, inr,
  Bool-cases, All, refl,
}
use fsdiff.Status.{
  Result, ok, err, ◌>>=◌, guard, out_of_memory, corrupt_data, >>=-eq-ok, ok_injective,
}
use fsdiff.Stages.Fsmap.{Extent, File}
use fsdiff.Stages.Index.{Fits, FileFits}
use fsdiff.Ext.{Extfs, rd16, inode_ptr, extfs_open}
use fsdiff.Ext.Within.{Within}
use fsdiff.Ext.Inside.{inode_extents-Kept, in_order-All, extfs_open-Opened, Kept-Fits}
use fsdiff.Ext.Walk.{
  Directory, Walk, extents_of, visit_directory, visit_file, read_directory, stack_loop, extfs_walk,
  walk_start, is_visited, path_depth,
}
use fsdiff.Ext.Steps.{read_directory-Keeps}

extents_of-Within :
    (fs : Extfs) (mode ino : ℕ) (list : List Extent)
    → extents_of fs mode ino ≡ ok list
    → All (Within fs) list
unfolding extents_of
extents_of-Within fs mode ino list h =
    let (p, _, h1) = >>=-eq-ok (inode_ptr fs ino) _ h in
    let (_, _, h2) =
      >>=-eq-ok (guard (bit_and (rd16 fs.image p) 0xF000 == mode) corrupt_data) _ h1 in
    inode_extents-Kept fs p list h2

module _ (push : ℕ → Bool) (fs : Extfs) where
  -- A walk whose files have extents inside the filesystem only.
  abbrev Good : Walk → Type 0
  Good w = All (λ file. All (Within fs) file.extents) w.files

  abbrev KeepsGood : Walk → Walk → Type 0
  KeepsGood w w' = Good w → Good w'

  visit_directory-Good :
      (ino : ℕ) (path : List ℕ) (w w' : Walk)
      → visit_directory push fs ino path w ≡ ok w'
      → KeepsGood w w'
  unfolding visit_directory
  visit_directory-Good ino path w w' h good =
      elim (Bool-cases (
        leb ino fs.inodes_count && (not (is_visited w.visited ino) && leb (path_depth path) 128))) [
          | inl new ↦
              let (_, _, h1) = >>=-eq-ok (guard (push ino) out_of_memory) _ (rw new at h) in
              let same = ok_injective h1 in rw (← same) good
          | inr old ↦ let same : w ≡ w' = ok_injective (rw old at h) in rw (← same) good
        ]

  visit_file-Good :
      (ino : ℕ) (path : List ℕ) (w : Walk) → Good w → Good (visit_file push fs ino path w)
  unfolding visit_file
  visit_file-Good ino path w good = go (extents_of fs 0x8000 ino) (extents_of-Within fs 0x8000 ino)
    where
      go :
          (r : Result (List Extent))
          → ((list : List Extent) → r ≡ ok list → All (Within fs) list)
          → Good (elim r as (λ _. Walk) [
            | err code ↦ w
            | ok extents ↦ record w { files = record { path = path; extents = extents } ∷ w.files }
          ])
      go (err code) inside = good
      go (ok extents) inside = (inside extents refl, good)

  read_directory-Good :
      (dir : Directory) (w w' : Walk) → read_directory push fs dir w ≡ ok w' → KeepsGood w w'
  read_directory-Good =
      read_directory-Keeps push fs KeepsGood (λ w good. good)
        (λ w w1 w' first second good. second (first good)) visit_directory-Good visit_file-Good

  stack_loop-Good : (fuel : ℕ) (w w' : Walk) → Good w → stack_loop push fs fuel w ≡ ok w' → Good w'
  unfolding stack_loop
  stack_loop-Good zero w w' good h = let same = ok_injective h in rw (← same) good
  stack_loop-Good (suc fuel) w w' good h = go (stack_loop-Good fuel) w.stack h
    where
      go :
          ((w1 w2 : Walk) → Good w1 → stack_loop push fs fuel w1 ≡ ok w2 → Good w2)
          → (stack : List Directory)
          → (elim stack as (λ _. Result Walk) [
            | [] ↦ ok w
            | dir ∷ stack' ↦
                read_directory push fs dir (record w { stack = stack' }) >>= stack_loop push fs fuel
          ])
            ≡ ok w'
          → Good w'
      go later [] h = let same = ok_injective h in rw (← same) good
      go later (dir ∷ stack) h =
          let first : Walk = record w { stack = stack } in
          let (w1, ran, h1) =
            >>=-eq-ok (read_directory push fs dir first) (stack_loop push fs fuel) h in
          later w1 w' (read_directory-Good dir first w1 ran good) h1

  extfs_walk-Within :
      (alloc : Bool) (files : List File)
      → extfs_walk push fs alloc ≡ ok files
      → All (λ file. All (Within fs) file.extents) files
  unfolding extfs_walk walk_start
  extfs_walk-Within alloc files h =
      let (_, _, h1) = >>=-eq-ok (guard (alloc && push 2) out_of_memory) _ h in
      let (w, ran, h2) =
        >>=-eq-ok (stack_loop push fs (fs.inodes_count + 2) (walk_start fs)) _ h1 in
      let same = ok_injective h2 in
      rw (← same) (
        in_order-All (λ file. All (Within fs) file.extents) [] w.files tt
          (stack_loop-Good (fs.inodes_count + 2) (walk_start fs) w tt ran))

FileFits-All :
    (image : List ℕ) (fs : Extfs) (files : List File)
    → ((extents : List Extent)
        → All (Within fs) extents
        → All (Fits fs.block_size (length image)) extents)
    → All (λ file. All (Within fs) file.extents) files
    → All (FileFits fs.block_size (length image)) files
FileFits-All image fs [] fits kept = tt
FileFits-All image fs (file ∷ files) fits (here, there) =
    (fits file.extents here, FileFits-All image fs files fits there)

-- The checks of the ext reader are enough: if it opens an image as a filesystem and the walk over the directories
-- returns, then the extents of every file that the walk reports lie inside the image, by their block
-- numbers times the filesystem's block size, and inside the first 2^62 bytes of the file.
pub extfs_walk-FileFits :
    (push : ℕ → Bool) (calloc alloc : Bool) (image : List ℕ) (fs : Extfs) (files : List File)
    → extfs_open calloc image ≡ ok fs
    → extfs_walk push fs alloc ≡ ok files
    → All (FileFits fs.block_size (length image)) files
extfs_walk-FileFits push calloc alloc image fs files opened walked =
    FileFits-All image fs files (Kept-Fits image fs (extfs_open-Opened calloc image fs opened))
      (extfs_walk-Within push fs alloc files walked)
