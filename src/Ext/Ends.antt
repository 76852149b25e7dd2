-- ===== src/Ext/Ends.antt =====
-- The fuel of `extfs_walk` is enough: an inode goes on the stack at most once.
use fsdiff.Prelude.{
  ℕ, zero, suc, ◌+◌, ◌/◌, ◌%◌, ◌^◌, ◌≤◌, ◌≡◌, Bool, List, [], ◌∷◌, length, replicate, leb, inl, inr,
  Bool-cases, refl, arith, length-set, length-replicate, get_or, bit_or, ◌∙◌,
}
use fsdiff.Status.{Result, ok, err, ◌>>=◌, guard, out_of_memory, >>=-eq-ok, ok_injective}
use fsdiff.Stages.Fsmap.{Extent}
use fsdiff.Ext.{Extfs}
use fsdiff.Ext.Walk.{
  Directory, Walk, extents_of, visit_directory, visit_file, read_directory, stack_loop, visit,
  walk_start, is_visited, path_depth,
}
use fsdiff.Ext.Steps.{read_directory-Keeps}
use fsdiff.Ext.Visited.{unvisited, unvisited-visit, unvisited-le}

length-visit : (visited : List ℕ) (ino : ℕ) → length (visit visited ino) ≡ length visited
unfolding visit
length-visit visited ino =
    length-set visited (ino / 8) (bit_or (get_or visited (ino / 8) 0) (2 ^ (ino % 8)))

module _ (push : ℕ → Bool) (fs : Extfs) where
  -- The directories that may still come off the stack.
  abbrev left : Walk → ℕ
  left w = unvisited w.visited (fs.inodes_count + 1) + length w.stack

  -- `visited` has a bit for every inode.
  abbrev Room : Walk → Type 0
  Room w = length w.visited ≡ fs.inodes_count / 8 + 1

  abbrev NoMore : Walk → Walk → Type 0
  NoMore w w' = Room w → Room w' × (left w' ≤ left w)

  visit_directory-NoMore :
      (ino : ℕ) (path : List ℕ) (w w' : Walk)
      → visit_directory push fs ino path w ≡ ok w'
      → NoMore w w'
  unfolding visit_directory
  visit_directory-NoMore ino path w w' h room = elim (Bool-cases (leb ino fs.inodes_count)) [
    | inr above ↦
        let same : w ≡ w' = ok_injective (rw above at h) in rw (← same) (room, omega arith)
    | inl below ↦
        let h0 = rw below at h in
        elim (Bool-cases (is_visited w.visited ino)) [
          | inl old ↦
              let same : w ≡ w' = ok_injective (rw old at h0) in rw (← same) (room, omega arith)
          | inr new ↦ elim (Bool-cases (leb (path_depth path) 128)) [
            | inr deep ↦
                let same : w ≡ w' = ok_injective (rw (new, deep) at h0) in
                rw (← same) (room, omega arith)
            | inl shallow ↦
                let (_, _, h1) =
                  >>=-eq-ok (guard (push ino) out_of_memory) _ (rw (new, shallow) at h0) in
                let same = ok_injective h1 in
                let le : ino ≤ fs.inodes_count = ground (arith, below) in
                let fewer =
                  unvisited-visit w.visited ino (fs.inodes_count + 1) (omega (arith, le, room))
                    (omega (arith, le)) new in
                rw (← same) (length-visit w.visited ino ∙ room, omega (arith, fewer))
          ]
        ]
  ]

  visit_file-NoMore :
      (ino : ℕ) (path : List ℕ) (w : Walk) → NoMore w (visit_file push fs ino path w)
  unfolding visit_file
  visit_file-NoMore ino path w room = go (extents_of fs 0x8000 ino)
    where
      go :
          (r : Result (List Extent))
          → Room (elim r as (λ _. Walk) [
            | err code ↦ w
            | ok extents ↦ record w { files = record { path = path; extents = extents } ∷ w.files }
          ])
            × (left (elim r as (λ _. Walk) [
              | err code ↦ w
              | ok extents ↦ record w {
                files = record { path = path; extents = extents } ∷ w.files;
              }
            ])
                ≤ left w)
      go (err code) = (room, omega arith)
      go (ok extents) = (room, omega arith)

  read_directory-NoMore :
      (dir : Directory) (w w' : Walk) → read_directory push fs dir w ≡ ok w' → NoMore w w'
  read_directory-NoMore =
      read_directory-Keeps push fs NoMore (λ w room. (room, omega arith))
        (λ w w1 w' first second room.
          let (room1, less) = first room in
          let (room', less') = second room1 in (room', omega (arith, less, less')))
        visit_directory-NoMore visit_file-NoMore

  -- The loop of `fsd_extfs_walk` ends with an empty stack, if the stack and the inodes without a bit are no
  -- more than its rounds.
  pub stack_loop-empties :
      (fuel : ℕ) (w w' : Walk)
      → Room w
      → left w ≤ fuel
      → stack_loop push fs fuel w ≡ ok w'
      → w'.stack ≡ []
  unfolding stack_loop
  stack_loop-empties zero w w' room enough h =
      let same = ok_injective h in rw (← same) (none_left w.stack (omega (arith, enough)))
    where
      none_left : (stack : List Directory) → length stack ≤ 0 → stack ≡ []
      none_left [] h = refl
      none_left (dir ∷ stack) h = absurd (omega (arith, h))
  stack_loop-empties (suc fuel) w w' room enough h = go (stack_loop-empties fuel) w.stack refl h
    where
      go :
          ((w1 w2 : Walk)
            → Room w1
            → left w1 ≤ fuel
            → stack_loop push fs fuel w1 ≡ ok w2
            → w2.stack ≡ [])
          → (stack : List Directory) → w.stack ≡ stack
          → (elim stack as (λ _. Result Walk) [
            | [] ↦ ok w
            | dir ∷ stack' ↦
                read_directory push fs dir (record w { stack = stack' }) >>= stack_loop push fs fuel
          ])
            ≡ ok w'
          → w'.stack ≡ []
      go later [] e h = let same = ok_injective h in rw (← same) e
      go later (dir ∷ stack) e h =
          let first : Walk = record w { stack = stack } in
          let (w1, ran, h1) =
            >>=-eq-ok (read_directory push fs dir first) (stack_loop push fs fuel) h in
          let (room1, less) = read_directory-NoMore dir first w1 ran room in
          let one : length w.stack ≡ suc (length stack) = rw e refl in
          later w1 w' room1 (omega (arith, less, enough, one)) h1

  -- The loop of `fsd_extfs_walk`, from the root on, comes to its end: with as many rounds as the filesystem has
  -- inodes and two more, it leaves no directory on the stack, unless the memory for one is refused.
  pub extfs_walk-empties :
      (w : Walk) → stack_loop push fs (fs.inodes_count + 2) (walk_start fs) ≡ ok w → w.stack ≡ []
  unfolding walk_start
  extfs_walk-empties w h =
      let blank = replicate (fs.inodes_count / 8 + 1) 0 in
      let few = unvisited-le (visit blank 2) (fs.inodes_count + 1) in
      stack_loop-empties (fs.inodes_count + 2) (walk_start fs) w
        (length-visit blank 2 ∙ length-replicate (fs.inodes_count / 8 + 1) 0) (omega (arith, few)) h
