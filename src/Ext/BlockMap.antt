-- ===== src/Ext/BlockMap.antt =====
-- The walk of a block map in src/fs/ext_reader.c and the extents that it collects.
use fsdiff.Prelude.{
  ℕ, zero, suc, ◌+◌, ◌*◌, ◌/◌, ◌^◌, ◌≤◌, ◌<◌, ◌≡◌, Bool, true, false, List, [], ltb, leb, ◌==◌,
  if◌then◌else◌, arith, inl, inr, Bool-cases,
}
use fsdiff.Status.{Result, ok, ◌>>=◌, guard, corrupt_data, >>=-eq-ok, ok_injective, guard-true}
use fsdiff.Stages.Fsmap.{Extent}
use fsdiff.Ext.{Extfs, rd32, fs_block}
use fsdiff.Ext.Extents.{
  extent_append, Mapping, pointers_loop, blockmap_indirect, levels_loop, blockmap_collect,
}
use fsdiff.Ext.Within.{Kept, extent_append-Kept}

module _ (fs : Extfs) where
  -- A step of a block map that keeps the invariant.
  abbrev Maps : (ℕ → Mapping → Result Mapping) → Type 0
  Maps next =
      (pointer : ℕ) (m m' : Mapping)
      → m.logical < 2 ^ 32
      → Kept fs m.out
      → next pointer m ≡ ok m'
      → Kept fs m'.out

  pointers_loop-Kept :
      (next : ℕ → Mapping → Result Mapping)
      → Maps next
      → (remaining blk n i : ℕ) (m m' : Mapping) → remaining ≤ 2 ^ 32
      → Kept fs m.out
      → pointers_loop next fs remaining blk n i m ≡ ok m'
      → Kept fs m'.out
  unfolding pointers_loop
  pointers_loop-Kept next maps remaining blk zero i m m' small kept h =
      let same = ok_injective h in rw (← same) kept
  pointers_loop-Kept next maps remaining blk (suc n) i m m' small kept h =
      elim (Bool-cases (leb remaining m.logical)) [
        | inl over ↦ let same : m ≡ m' = ok_injective (rw over at h) in rw (← same) kept
        | inr more ↦
            let (m1, ran, h1) = >>=-eq-ok (next (rd32 fs.image (blk + i * 4)) m) _ (rw more at h) in
            pointers_loop-Kept next maps remaining blk n (i + 1) m1 m' small
              (maps (rd32 fs.image (blk + i * 4)) m m1 (ground (arith, more, small)) kept ran) h1
      ]

  mapping-Kept :
      (b : Bool) (m : Mapping) (r : Result Mapping) (m' : Mapping)
      → Kept fs m.out
      → (r ≡ ok m' → Kept fs m'.out)
      → (if b then ok m else r) ≡ ok m'
      → Kept fs m'.out
  mapping-Kept true m r m' kept next h = let same = ok_injective h in rw (← same) kept
  mapping-Kept false m r m' kept next h = next h

  blockmap_indirect-Kept :
      (level remaining : ℕ) → remaining ≤ 2 ^ 32 → Maps (blockmap_indirect level fs remaining)
  unfolding blockmap_indirect
  blockmap_indirect-Kept zero remaining small pointer m m' low kept h =
      elim (Bool-cases (remaining == 0)) [
        | inl nothing ↦ let same : m ≡ m' = ok_injective (rw nothing at h) in rw (← same) kept
        | inr something ↦
            let h0 = rw something at h in
            elim (Bool-cases (pointer == 0)) [
              | inl hole ↦
                  let same : record m { logical = m.logical + 1 } ≡ m' =
                    ok_injective (rw hole at h0) in
                  rw (← same) kept
              | inr mapped ↦
                  let (u, checked, h1) =
                    >>=-eq-ok (guard (ltb pointer fs.block_count) corrupt_data) _
                      (rw mapped at h0) in
                  let inside = guard-true (ltb pointer fs.block_count) corrupt_data u checked in
                  let (out, added, h2) = >>=-eq-ok (extent_append m.out m.logical pointer 1) _ h1 in
                  let same = ok_injective h2 in
                  rw (← same) (
                    extent_append-Kept fs m.out m.logical pointer 1 out kept
                      (ground (arith, inside)) (omega (arith, low)) added)
            ]
      ]
  blockmap_indirect-Kept (suc level) remaining small pointer m m' low kept h =
      let past : Mapping = record m { logical = m.logical + (fs.block_size / 4) ^ suc level } in
      let loop : ℕ → Result Mapping = λ blk.
        pointers_loop (blockmap_indirect level fs remaining) fs remaining blk (fs.block_size / 4) 0
          m in
      mapping-Kept (remaining == 0) m
        (if pointer == 0 then ok past else (fs_block fs pointer >>= loop)) m' kept
        (mapping-Kept (pointer == 0) past (fs_block fs pointer >>= loop) m' kept (λ h0.
          let (blk, _, h1) = >>=-eq-ok (fs_block fs pointer) loop h0 in
          pointers_loop-Kept (blockmap_indirect level fs remaining)
            (blockmap_indirect-Kept level remaining small) remaining blk (fs.block_size / 4) 0 m m'
            small kept h1))
        h

  levels_loop-Kept :
      (file_blocks iblock n level : ℕ) (m m' : Mapping)
      → file_blocks ≤ 2 ^ 32
      → Kept fs m.out
      → levels_loop fs file_blocks iblock n level m ≡ ok m'
      → Kept fs m'.out
  unfolding levels_loop
  levels_loop-Kept file_blocks iblock zero level m m' small kept h =
      let same = ok_injective h in rw (← same) kept
  levels_loop-Kept file_blocks iblock (suc n) level m m' small kept h =
      elim (Bool-cases (leb file_blocks m.logical)) [
        | inl over ↦ let same : m ≡ m' = ok_injective (rw over at h) in rw (← same) kept
        | inr more ↦
            let pointer = rd32 fs.image (iblock + (11 + level) * 4) in
            let (m1, ran, h1) =
              >>=-eq-ok (blockmap_indirect level fs file_blocks pointer m) _ (rw more at h) in
            levels_loop-Kept file_blocks iblock n (level + 1) m1 m' small
              (blockmap_indirect-Kept level file_blocks small pointer m m1
                (ground (arith, more, small)) kept ran)
              h1
      ]

  pub blockmap_collect-Kept :
      (iblock file_blocks : ℕ) (result : List Extent)
      → blockmap_collect fs iblock file_blocks ≡ ok result
      → Kept fs result
  unfolding blockmap_collect
  blockmap_collect-Kept iblock file_blocks result h =
      let (u, checked, h1) = >>=-eq-ok (guard (leb file_blocks (2 ^ 32)) corrupt_data) _ h in
      let less = guard-true (leb file_blocks (2 ^ 32)) corrupt_data u checked in
      let small : file_blocks ≤ 2 ^ 32 = ground (arith, less) in
      let empty : Mapping = record { logical = 0; out = [] } in
      let (m, direct, h2) =
        >>=-eq-ok
          (pointers_loop (blockmap_indirect 0 fs file_blocks) fs file_blocks iblock 12 0 empty) _
          h1 in
      let (m', rest, h3) = >>=-eq-ok (levels_loop fs file_blocks iblock 3 1 m) _ h2 in
      let same = ok_injective h3 in
      rw (← same) (
        levels_loop-Kept file_blocks iblock 3 1 m m' small
          (pointers_loop-Kept (blockmap_indirect 0 fs file_blocks)
            (blockmap_indirect-Kept 0 file_blocks small) file_blocks iblock 12 0 empty m small tt
            direct)
          rest)
