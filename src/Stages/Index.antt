-- ===== src/Stages/Index.antt =====
-- The hypotheses of src/stages/stage_fsmap.c are blocks inside the source image.
use fsdiff.Prelude.{
  ℕ, zero, suc, ◌+◌, ◌-◌, ◌*◌, ◌/◌, ◌^◌, ◌≤◌, ◌<◌, ◌≡◌, Bool, ◌&&◌, List, [], ◌∷◌, some, length,
  get_elem?, ltb, leb, ◌==◌, arith, refl, ◌∙◌, ◌⊎◌, inl, inr, Bool-cases, Option-cases, All,
  All-append, add_mul,
}
use native.Mathlib.Nat.{le-div_iff_mul-le}
use fsdiff.Status.{Result, ok, err, guard, out_of_memory, ok_injective, >>=-eq-ok}
use fsdiff.Wire.{u64}
use fsdiff.Crc32.{crc32}
use fsdiff.HashTable.{Entry, lookup, table_create}
use fsdiff.Tracker.Operations.{Tracker, is_unmatched}
use fsdiff.Stages.{same_block}
use fsdiff.Stages.Fsmap.{
  Extent, File, Hypothesis, SourceFiles, add_file, source_walk, find_in_chain, src_file_find,
  src_map_range, hypothesis_at, extent_loop, extents_loop, dest_walk_cb, dest_walk, hyp_leb,
  sort_insert, sort, drop_duplicates, unique, FsmapStage, Filesystem, open_fs, fsmap_build_index,
}

-- An extent that is inside its image, and whose place in the file is a 62-bit number: the reader of the
-- filesystem gives no other.
abbrev pub Fits : ℕ → ℕ → Extent → Type 0
Fits fs_block_size image_size e =
    ((e.physical + e.count) * fs_block_size ≤ image_size)
    × ((e.logical + e.count) * fs_block_size ≤ 2 ^ 62)

abbrev pub FileFits : ℕ → ℕ → File → Type 0
FileFits fs_block_size image_size file = All (Fits fs_block_size image_size) file.extents

src_map_range-inside :
    (fs_block_size image_size len logical_byte p : ℕ) (extents : List Extent)
    → image_size < 2 ^ 63
    → len ≤ 2 ^ 24
    → logical_byte ≤ 2 ^ 62
    → All (Fits fs_block_size image_size) extents
    → src_map_range extents fs_block_size logical_byte len ≡ some p
    → p + len ≤ image_size
unfolding src_map_range
src_map_range-inside fs size len at p [] hs hl ha fits h = cc
src_map_range-inside fs size len at p (e ∷ extents) hs hl ha fits h =
    elim (Bool-cases (
      leb (u64 (e.logical * fs)) at
      && leb (u64 (at + len)) (u64 (u64 (e.logical * fs) + u64 (e.count * fs))))) [
        | inr other ↦ src_map_range-inside fs size len at p extents hs hl ha fits.1 (rw other at h)
        | inl here ↦
            let e' : u64 (e.physical * fs + (at - u64 (e.logical * fs))) ≡ p =
              some_eq _ _ (rw here at h) in
            ground
              (arith, add_mul e.physical e.count fs, add_mul e.logical e.count fs, fits.0, here, e')
      ]
  where
    some_eq : (a b : ℕ) → some a ≡ some b → a ≡ b
    some_eq a b h = cc

All-get_elem? :
    {A : Type 0} (Q : A → Type 0) (xs : List A) (i : ℕ) (x : A)
    → All Q xs
    → get_elem? xs i ≡ some x
    → Q x
All-get_elem? Q [] i x h e = cc
All-get_elem? Q (y ∷ xs) zero x h e = let e' : y ≡ x = cc in rw (← e') h.0
All-get_elem? Q (y ∷ xs) (suc i) x h e = All-get_elem? Q xs i x h.1 e

-- The file table keeps what holds of the files of the walk.
module _ (Q : File → Type 0) where
  add_file-All :
      (alloc : ℕ → Bool) (file : File) (s : SourceFiles)
      → Q file
      → All Q s.src_files
      → All Q (add_file alloc file s).src_files
  add_file-All alloc file s h k = elim (Bool-cases (length file.extents == 0)) [
    | inl empty ↦ rw (add_file, empty) k
    | inr full ↦ rw (add_file, full) (All-append Q s.src_files (file ∷ []) k (h, tt))
  ]

  source_walk-All :
      (alloc : ℕ → Bool) (files : List File) (s : SourceFiles)
      → All Q files
      → All Q s.src_files
      → All Q (source_walk alloc files s).src_files
  unfolding source_walk
  source_walk-All alloc [] s h k = k
  source_walk-All alloc (file ∷ files) s h k =
      source_walk-All alloc files (add_file alloc file s) h.1 (add_file-All alloc file s h.0 k)

  find_in_chain-All :
      (src_files : List File) (crc : ℕ) (path : List ℕ) (chain : List Entry) (f : File)
      → All Q src_files
      → find_in_chain src_files crc path chain ≡ some f
      → Q f
  unfolding find_in_chain
  find_in_chain-All src_files crc path [] f h e = cc
  find_in_chain-All src_files crc path (entry ∷ next) f h e =
      elim (Option-cases (get_elem? src_files entry.block_index)) [
        | inl gone ↦ find_in_chain-All src_files crc path next f h (rw (find_in_chain, gone) at e)
        | inr (g, there) ↦ elim (Bool-cases ((entry.crc32 == crc) && same_block g.path path)) [
          | inr other ↦
              find_in_chain-All src_files crc path next f h (rw (find_in_chain, there, other) at e)
          | inl found ↦
              let e' : some g ≡ some f = rw (find_in_chain, there, found) at e in
              All-get_elem? Q src_files entry.block_index f h (there ∙ e')
        ]
      ]

module _ (tracker : Tracker) (block_size src_size dest_size src_fs_bs dest_fs_bs : ℕ)
    (some_bytes : 0 < block_size) (block_limit : block_size ≤ 2 ^ 24)
    (src_small : src_size < 2 ^ 62) (dest_small : dest_size < 2 ^ 62) where
  abbrev pub Inside : Hypothesis → Type 0
  Inside h = h.src_pos + block_size ≤ src_size

  hypothesis_at-Inside :
      (src_extents : List Extent) (b logical_byte : ℕ)
      → All (Fits src_fs_bs src_size) src_extents
      → logical_byte ≤ 2 ^ 62
      → All Inside (
          hypothesis_at tracker block_size src_size src_fs_bs dest_fs_bs src_extents b logical_byte)
  unfolding hypothesis_at
  hypothesis_at-Inside src_extents b logical_byte fits h =
      elim (Option-cases (src_map_range src_extents src_fs_bs logical_byte block_size)) [
        | inl gone ↦ rw gone tt
        | inr (p, mapped) ↦ elim (Bool-cases (ltb src_size (u64 (p + block_size)))) [
          | inl out ↦ rw (mapped, out) tt
          | inr within ↦
              let k =
                src_map_range-inside src_fs_bs src_size block_size logical_byte p src_extents
                  (omega arith) block_limit h fits mapped in
              rw (mapped, within) (k, tt)
        ]
      ]

  -- A block below the end of an extent lies in it, and has its place in the file.
  place :
      (e : Extent) (b : ℕ)
      → Fits dest_fs_bs dest_size e
      → b < u64 (u64 (e.physical * dest_fs_bs) + e.count * dest_fs_bs) / block_size
      → u64 (e.logical * dest_fs_bs + (b * block_size - u64 (e.physical * dest_fs_bs))) ≤ 2 ^ 62
  place e b fits below =
      let top = u64 (u64 (e.physical * dest_fs_bs) + e.count * dest_fs_bs) in
      let le : (b + 1) * block_size ≤ top =
        (le-div_iff_mul-le {k = block_size} some_bytes).0 (omega (arith, below)) in
      let e1 : (b + 1) * block_size ≡ b * block_size + block_size = grind arith in
      ground (
        arith,
        add_mul e.physical e.count dest_fs_bs,
        add_mul e.logical e.count dest_fs_bs,
        fits,
        le,
        e1,
      )

  extent_loop-Inside :
      (src_extents : List Extent) (e : Extent) (n b : ℕ)
      → All (Fits src_fs_bs src_size) src_extents
      → Fits dest_fs_bs dest_size e
      → n ≤ u64 (u64 (e.physical * dest_fs_bs) + e.count * dest_fs_bs) / block_size - b
      → All Inside (extent_loop tracker block_size src_size src_fs_bs dest_fs_bs src_extents e n b)
  unfolding extent_loop
  extent_loop-Inside src_extents e zero b fits here h = tt
  extent_loop-Inside src_extents e (suc n) b fits here h =
      let rest = extent_loop-Inside src_extents e n (b + 1) fits here (omega (arith, h)) in
      elim (Bool-cases (is_unmatched tracker b)) [
        | inr has ↦ rw has rest
        | inl free ↦ rw free (
            All-append Inside _ _
              (hypothesis_at-Inside src_extents b _ fits (place e b here (omega (arith, h)))) rest)
      ]

  extents_loop-Inside :
      (src_extents extents : List Extent)
      → All (Fits src_fs_bs src_size) src_extents
      → All (Fits dest_fs_bs dest_size) extents
      → All Inside
          (extents_loop tracker block_size src_size src_fs_bs dest_fs_bs src_extents extents)
  unfolding extents_loop
  extents_loop-Inside src_extents [] fits h = tt
  extents_loop-Inside src_extents (e ∷ extents) fits h =
      All-append Inside _ _ (extent_loop-Inside src_extents e _ _ fits h.0 (omega arith))
        (extents_loop-Inside src_extents extents fits h.1)

  dest_walk_cb-Inside :
      (s : SourceFiles) (file : File)
      → All (FileFits src_fs_bs src_size) s.src_files
      → FileFits dest_fs_bs dest_size file
      → All Inside (dest_walk_cb tracker block_size src_size src_fs_bs dest_fs_bs s file)
  unfolding dest_walk_cb src_file_find
  dest_walk_cb-Inside s file h k =
      let crc = crc32 file.path in
      let chain = lookup s.path_hash crc in
      elim (Option-cases (find_in_chain s.src_files crc file.path chain)) [
        | inl gone ↦ rw gone tt
        | inr (f, found) ↦ rw found (
            extents_loop-Inside f.extents file.extents
              (find_in_chain-All (FileFits src_fs_bs src_size) s.src_files crc file.path chain f h
                found)
              k)
      ]

  dest_walk-Inside :
      (s : SourceFiles) (files : List File)
      → All (FileFits src_fs_bs src_size) s.src_files
      → All (FileFits dest_fs_bs dest_size) files
      → All Inside (dest_walk tracker block_size src_size src_fs_bs dest_fs_bs s files)
  unfolding dest_walk
  dest_walk-Inside s [] h k = tt
  dest_walk-Inside s (file ∷ files) h k =
      All-append Inside _ _ (dest_walk_cb-Inside s file h k.0) (dest_walk-Inside s files h k.1)

-- Sorting and dropping keep what holds of every hypothesis.
module _ (Q : Hypothesis → Type 0) where
  sort_insert-All :
      (h : Hypothesis) (hs : List Hypothesis) → Q h → All Q hs → All Q (sort_insert h hs)
  unfolding sort_insert
  sort_insert-All h [] q k = (q, tt)
  sort_insert-All h (g ∷ gs) q k = elim (Bool-cases (hyp_leb h g)) [
    | inl first ↦ rw (sort_insert, first) (q, k)
    | inr later ↦ rw (sort_insert, later) (k.0, sort_insert-All h gs q k.1)
  ]

  sort-All : (hs : List Hypothesis) → All Q hs → All Q (sort hs)
  unfolding sort
  sort-All [] k = tt
  sort-All (h ∷ hs) k = sort_insert-All h (sort hs) k.0 (sort-All hs k.1)

  drop_duplicates-All :
      (kept : Hypothesis) (hs : List Hypothesis) → All Q hs → All Q (drop_duplicates kept hs)
  unfolding drop_duplicates
  drop_duplicates-All kept [] k = tt
  drop_duplicates-All kept (h ∷ hs) k = elim (Bool-cases (h.dest_block == kept.dest_block)) [
    | inl same ↦ rw (drop_duplicates, same) (drop_duplicates-All kept hs k.1)
    | inr other ↦ rw (drop_duplicates, other) (k.0, drop_duplicates-All h hs k.1)
  ]

  unique-All : (hs : List Hypothesis) → All Q hs → All Q (unique hs)
  unfolding unique
  unique-All [] k = tt
  unique-All (h ∷ hs) k = (k.0, drop_duplicates-All h hs k.1)

open_fs-cases :
    {A : Type 0} (r : Result Filesystem) (inactive a : A) (next : Filesystem → Result A)
    → open_fs r inactive next ≡ ok a
    → (inactive ≡ a) ⊎ ((fs : Filesystem) × (r ≡ ok fs) × (next fs ≡ ok a))
open_fs-cases (ok fs) inactive a next h = inr (fs, refl, h)
open_fs-cases (err out_of_memory) inactive a next h = cc
open_fs-cases (err _) inactive a next h = inl (ok_injective h)

-- A filesystem that lies in its image.
abbrev pub Lies : ℕ → Result Filesystem → Type 0
Lies image_size r =
    (fs : Filesystem) → r ≡ ok fs → All (FileFits fs.fs_block_size image_size) fs.files

pub fsmap_build_index-Inside :
    (pool alloc_table alloc_buckets : Bool) (alloc : ℕ → Bool) (stage result : FsmapStage)
    (src_fs dest_fs : Result Filesystem) (src_size dest_size : ℕ) (tracker : Tracker)
    → 0 < stage.block_size
    → stage.block_size ≤ 2 ^ 24
    → src_size < 2 ^ 62
    → dest_size < 2 ^ 62
    → Lies src_size src_fs
    → Lies dest_size dest_fs
    → fsmap_build_index pool alloc_table alloc_buckets alloc stage src_fs dest_fs src_size tracker
      ≡ ok result
    → (result.block_size ≡ stage.block_size)
      × (result.src_size ≡ src_size)
      × All (λ h. h.src_pos + result.block_size ≤ src_size) result.hyps
unfolding fsmap_build_index
fsmap_build_index-Inside pool alloc_table alloc_buckets alloc stage result src_fs dest_fs src_size
      dest_size tracker some_bytes limit src_small dest_small src_lies dest_lies h =
    let inactive : FsmapStage = record stage { hyps = []; src_size = src_size } in
    elim (open_fs-cases src_fs inactive result _ h) [
      | inl same ↦ rw (← same) (refl, refl, tt)
      | inr (sfs, s_open, h1) ↦ elim (open_fs-cases dest_fs inactive result _ h1) [
        | inl same ↦ rw (← same) (refl, refl, tt)
        | inr (dfs, d_open, h2) ↦
            let (_, _, h3) = >>=-eq-ok (guard pool out_of_memory) _ h2 in
            let (path_hash, _, h4) =
              >>=-eq-ok (table_create alloc_table alloc_buckets 16384) _ h3 in
            let same = ok_injective h4 in
            let s0 : SourceFiles = record { src_files = []; path_hash = path_hash } in
            rw (← same) (
              refl,
              refl,
              unique-All _ _ (
                  sort-All _ _ (
                    dest_walk-Inside tracker stage.block_size src_size dest_size sfs.fs_block_size
                      dfs.fs_block_size some_bytes limit src_small dest_small
                      (source_walk alloc sfs.files s0) dfs.files
                      (source_walk-All (FileFits sfs.fs_block_size src_size) alloc sfs.files s0
                        (src_lies sfs s_open) tt)
                      (dest_lies dfs d_open))),
            )
      ]
    ]
