-- ===== src/Ext/Within.antt =====
-- The walk of an extent tree in src/fs/ext_reader.c and the extents that it collects.
use fsdiff.Prelude.{
  ℕ, zero, suc, ◌+◌, ◌-◌, ◌*◌, ◌^◌, ◌≤◌, ◌<◌, ◌≡◌, Bool, true, false, not, ◌||◌, ◌&&◌, List, [],
  ◌∷◌, Option, some, length, ltb, ◌==◌, if◌then◌else◌, bit_or, arith, inl, inr, Bool-cases, All,
}
use fsdiff.Status.{Result, ok, guard, corrupt_data, >>=-eq-ok, ok_injective, guard-true}
use fsdiff.Stages.Fsmap.{Extent}
use fsdiff.Ext.{Extfs, rd16, rd32, fs_block}
use fsdiff.Ext.Extents.{
  extent_append, leaf_entry, index_entry, entries_loop, check_node, extents_from_node,
}

rd16-lt : (image : List ℕ) (p : ℕ) → rd16 image p < 2 ^ 16
unfolding rd16
rd16-lt image p = omega arith

rd32-lt : (image : List ℕ) (p : ℕ) → rd32 image p < 2 ^ 32
unfolding rd32
rd32-lt image p = omega arith

module _ (fs : Extfs) where
  -- An extent inside the filesystem, whose place in the file has no more than 33 bits.
  abbrev pub Within : Extent → Type 0
  Within e = (e.physical + e.count ≤ fs.block_count) × (e.logical + e.count ≤ 2 ^ 33)

  abbrev pub Kept : List Extent → Type 0
  Kept list = All Within list

  pub extent_append-Kept :
      (list : List Extent) (logical physical n : ℕ) (result : List Extent)
      → Kept list
      → physical + n ≤ fs.block_count
      → logical + n ≤ 2 ^ 33
      → extent_append list logical physical n ≡ ok result
      → Kept result
  unfolding extent_append
  extent_append-Kept list logical physical zero result kept hp hl h =
      let same = ok_injective h in rw (← same) kept
  extent_append-Kept [] logical physical (suc n) result kept hp hl h =
      let same = ok_injective h in rw (← same) ((hp, hl), tt)
  extent_append-Kept (last ∷ list) logical physical (suc n) result kept hp hl h =
      elim (Bool-cases
        ((last.logical + last.count == logical) && (last.physical + last.count == physical))) [
          | inl joins ↦
              let joined : record last { count = last.count + suc n } ∷ list ≡ result =
                ok_injective (rw joins at h) in
              let e : last.physical + last.count ≡ physical = ground (arith, joins) in
              let e' : last.logical + last.count ≡ logical = ground (arith, joins) in
              rw (← joined) ((omega (arith, e, hp), omega (arith, e', hl)), kept.1)
          | inr apart ↦
              let (_, _, h1) =
                >>=-eq-ok (guard (ltb (length (last ∷ list)) 65536) corrupt_data) _
                  (rw apart at h) in
              let same = ok_injective h1 in rw (← same) ((hp, hl), kept)
        ]

  -- A step over an entry that keeps the invariant.
  abbrev Keeps : (ℕ → List Extent → Result (List Extent)) → Type 0
  Keeps step =
      (entry : ℕ) (out result : List Extent) → Kept out → step entry out ≡ ok result → Kept result

  leaf_entry-Keeps : Keeps (leaf_entry fs)
  unfolding leaf_entry
  leaf_entry-Keeps entry out result kept h =
      let len = rd16 fs.image (entry + 4) in
      let phys = bit_or (rd32 fs.image (entry + 8)) (rd16 fs.image (entry + 6) * 2 ^ 32) in
      elim (Bool-cases (len == 0 || ltb 32768 len)) [
        | inl skipped ↦ let same : out ≡ result = ok_injective (rw skipped at h) in rw (← same) kept
        | inr written ↦
            let (u, checked, h1) =
              >>=-eq-ok (guard (not (phys == 0 || ltb fs.block_count (phys + len))) corrupt_data) _
                (rw written at h) in
            let inside =
              guard-true (not (phys == 0 || ltb fs.block_count (phys + len))) corrupt_data u
                checked in
            extent_append-Kept out (rd32 fs.image entry) phys len result kept
              (ground (arith, inside))
              (omega (arith, rd32-lt fs.image entry, rd16-lt fs.image (entry + 4))) h1
      ]

  index_entry-Keeps :
      (node : ℕ → List Extent → Result (List Extent)) → Keeps node → Keeps (index_entry node fs)
  unfolding index_entry
  index_entry-Keeps node keeps entry out result kept h =
      let (cb, _, h1) =
        >>=-eq-ok
          (fs_block fs (bit_or (rd32 fs.image (entry + 4)) (rd16 fs.image (entry + 8) * 2 ^ 32))) _
          h in
      keeps cb out result kept h1

  entries_loop-Kept :
      (step : ℕ → List Extent → Result (List Extent))
      → Keeps step
      → (n entry : ℕ) (out result : List Extent) → Kept out
      → entries_loop step n entry out ≡ ok result
      → Kept result
  unfolding entries_loop
  entries_loop-Kept step keeps zero entry out result kept h =
      let same = ok_injective h in rw (← same) kept
  entries_loop-Kept step keeps (suc n) entry out result kept h =
      let (out', ran, h1) = >>=-eq-ok (step entry out) _ h in
      entries_loop-Kept step keeps n (entry + 12) out' result (keeps entry out out' kept ran) h1

  either-Keeps :
      (b : Bool)
      → (step step' : ℕ → List Extent → Result (List Extent)) → Keeps step
      → Keeps step'
      → Keeps (if b then step else step')
  either-Keeps true step step' keeps keeps' = keeps
  either-Keeps false step step' keeps keeps' = keeps'

  pub extents_from_node-Kept :
      (fuel node space : ℕ) (expect_depth : Option ℕ) (out result : List Extent)
      → Kept out
      → extents_from_node fuel fs node space expect_depth out ≡ ok result
      → Kept result
  unfolding extents_from_node
  extents_from_node-Kept zero node space expect_depth out result kept h = cc
  extents_from_node-Kept (suc fuel) node space expect_depth out result kept h =
      let (header, _, h1) = >>=-eq-ok (check_node fs node space expect_depth) _ h in
      let child : ℕ → List Extent → Result (List Extent) =
        λ cb. extents_from_node fuel fs cb fs.block_size (some (header.1 - 1)) in
      entries_loop-Kept (if header.1 == 0 then leaf_entry fs else index_entry child fs)
        (either-Keeps (header.1 == 0) (leaf_entry fs) (index_entry child fs) leaf_entry-Keeps (
          index_entry-Keeps child
            (λ cb out'. extents_from_node-Kept fuel cb fs.block_size (some (header.1 - 1)) out')))
        header.0 (node + 12) out result kept h1
