-- ===== src/Stages/Best.antt =====
-- The search of src/stages/block_search.c finds a best offset.
use fsdiff.Prelude.{
  ℕ, zero, suc, ◌-◌, ◌≤◌, ◌<◌, ◌≡◌, ◌⊎◌, inl, inr, true, false, List, ltb, leb, ◌==◌, if◌then◌else◌,
  arith, refl, sym, ap, ◌∙◌, Bool-cases,
}
use fsdiff.Prelude.Int.{ℤ, pos, negsuc, pos_part, ◌+ℤ◌, int_laws}
use fsdiff.Encoder.Emit.{slice}
use fsdiff.Stages.Search.{
  out_of_bounds, Prescreen, prescreen_of, screened_out, improves, search_loop, search_best,
}

next_offset : (offset : ℤ) (k : ℕ) → offset +ℤ pos 1 +ℤ pos k ≡ offset +ℤ pos (suc k)
next_offset offset k = omega int_laws

first_offset : (offset : ℤ) → offset +ℤ pos 0 ≡ offset
first_offset offset = omega int_laws

module _ (count_fn : List ℕ → List ℕ → ℕ) (src dest_block : List ℕ) (block_size src_size : ℕ)
    (center_pos : ℤ) where
  abbrev pub count_of : ℤ → ℕ
  count_of offset = count_fn (slice src (pos_part (center_pos +ℤ offset)) block_size) dest_block

  abbrev pub InRange : ℤ → Type 0
  InRange offset = out_of_bounds block_size src_size (center_pos +ℤ offset) ≡ false

  -- An offset of the range, inside the source, with the count.
  pub record Found (n : ℕ) (offset : ℤ) (best : ℤ × ℕ) : Type 0 where
    pub index : ℕ
    pub below : index < n
    pub at : best.0 ≡ offset +ℤ pos index
    pub inside : InRange best.0
    pub counted : best.1 ≡ count_of best.0

  Found-next :
      (n : ℕ) (offset : ℤ) (best : ℤ × ℕ)
      → Found n (offset +ℤ pos 1) best
      → Found (suc n) offset best
  Found-next n offset best f = record {
    index = suc f.index;
    below = omega (arith, f.below);
    at = f.at ∙ next_offset offset f.index;
    inside = f.inside;
    counted = f.counted;
  }

  Found-here :
      (n : ℕ) (offset : ℤ) → InRange offset → Found (suc n) offset (offset, count_of offset)
  Found-here n offset h = record {
    index = 0;
    below = omega arith;
    at = sym (first_offset offset);
    inside = h;
    counted = refl;
  }

  -- What an improvement says.
  improves-inside :
      (screen : Prescreen) (best_count : ℕ) (offset : ℤ)
      → improves count_fn src dest_block block_size src_size screen
          (center_pos +ℤ offset)
          best_count
          (count_of offset)
        ≡ true
      → InRange offset × (best_count < count_of offset)
  unfolding improves
  improves-inside screen best_count offset h =
      elim (Bool-cases (out_of_bounds block_size src_size (center_pos +ℤ offset))) [
        | inl out ↦ let no_way : false ≡ true = rw out at h in cc
        | inr inside ↦
            elim (Bool-cases (
              screened_out count_fn src dest_block block_size screen
                (pos_part (center_pos +ℤ offset)))) [
                  | inl out ↦ let no_way : false ≡ true = rw (inside, out) at h in cc
                  | inr kept ↦
                      let more : ltb best_count (count_of offset) ≡ true = rw (inside, kept) at h in
                      (inside, ground (arith, more))
                ]
      ]

  -- The loop ends with what it started with, or with a better offset that it came by.
  loop_result :
      (screen : Prescreen) (n : ℕ) (offset best_offset : ℤ) (best_count : ℕ)
      → let r =
          search_loop count_fn src dest_block block_size src_size center_pos screen n offset
            best_offset best_count in
        (r ≡ (best_offset, best_count)) ⊎ (Found n offset r × (best_count < r.1))
  unfolding search_loop
  loop_result screen zero offset best_offset best_count = inl refl
  loop_result screen (suc n) offset best_offset best_count =
      elim (Bool-cases (
        improves count_fn src dest_block block_size src_size screen (center_pos +ℤ offset)
          best_count (count_of offset))) [
            | inr worse ↦
                rw worse (elim (loop_result screen n (offset +ℤ pos 1) best_offset best_count) [
                  | inl e ↦ inl e
                  | inr (f, more) ↦ inr (Found-next n offset _ f, more)
                ])
            | inl better ↦
                let (inside, more) = improves-inside screen best_count offset better in
                elim (Bool-cases (count_of offset == block_size)) [
                  | inl perfect ↦ rw (better, perfect) (inr (Found-here n offset inside, more))
                  | inr imperfect ↦
                      rw (better, imperfect)
                        (elim (loop_result screen n (offset +ℤ pos 1) offset (count_of offset)) [
                          | inl e ↦ inr (rw e (Found-here n offset inside), rw e more)
                          | inr (f, more') ↦
                              inr (Found-next n offset _ f, omega (arith, more, more'))
                        ])
                ]
          ]

  -- Without a prescreen, and with counts up to the block's size, nothing in the range is better.
  module _ (full : (offset : ℤ) → count_of offset ≤ block_size) (screen : Prescreen)
      (off : screen.len ≡ 0) where
    not_improved :
        (best_count : ℕ) (offset : ℤ)
        → improves count_fn src dest_block block_size src_size screen
            (center_pos +ℤ offset)
            best_count
            (count_of offset)
          ≡ false
        → InRange offset
        → count_of offset ≤ best_count
    unfolding improves screened_out
    not_improved best_count offset h inside =
        let h' : ltb best_count (count_of offset) ≡ false = rw (inside, off) at h in
        ground (arith, h')

    loop_best :
        (n : ℕ) (offset best_offset : ℤ) (best_count : ℕ)
        → let r =
            search_loop count_fn src dest_block block_size src_size center_pos screen n offset
              best_offset best_count in
          (best_count ≤ r.1)
          × ((k : ℕ) → k < n → InRange (offset +ℤ pos k) → count_of (offset +ℤ pos k) ≤ r.1)
    unfolding search_loop
    loop_best zero offset best_offset best_count = (omega arith, λ k h. absurd (omega arith))
    loop_best (suc n) offset best_offset best_count =
        elim (Bool-cases (
          improves count_fn src dest_block block_size src_size screen (center_pos +ℤ offset)
            best_count (count_of offset))) [
              | inr worse ↦
                  let (le, rest) = loop_best n (offset +ℤ pos 1) best_offset best_count in
                  rw worse (
                    le,
                    from_first n offset _
                        (λ inside. omega (arith, le, not_improved best_count offset worse inside))
                        rest,
                  )
              | inl better ↦
                  let (inside, more) = improves-inside screen best_count offset better in
                  elim (Bool-cases (count_of offset == block_size)) [
                    | inl perfect ↦
                        let e : count_of offset ≡ block_size = ground (arith, perfect) in
                        rw (better, perfect)
                          (omega (arith, more), λ k _ _. omega (arith, e, full (offset +ℤ pos k)))
                    | inr imperfect ↦
                        let (le, rest) = loop_best n (offset +ℤ pos 1) offset (count_of offset) in
                        rw (better, imperfect)
                          (omega (arith, more, le), from_first n offset _ (λ _. le) rest)
                  ]
            ]
      where
        from_first :
            (n : ℕ) (offset : ℤ) (top : ℕ)
            → (InRange offset → count_of offset ≤ top)
            → ((k : ℕ)
                → k < n
                → InRange (offset +ℤ pos 1 +ℤ pos k)
                → count_of (offset +ℤ pos 1 +ℤ pos k) ≤ top)
            → (k : ℕ) → k < suc n
            → InRange (offset +ℤ pos k)
            → count_of (offset +ℤ pos k) ≤ top
        from_first n offset top here rest zero h inside =
            let e = first_offset offset in rw e (here (rw e at inside))
        from_first n offset top here rest (suc k) h inside =
            let e = next_offset offset k in rw (← e) (rest k (omega arith) (rw (← e) at inside))

abbrev first_count : ℕ → ℕ
first_count threshold_count = if ltb 0 threshold_count then threshold_count - 1 else 0

module _ (count_fn : List ℕ → List ℕ → ℕ) (src dest_block : List ℕ) (block_size src_size : ℕ)
    (center_pos min_offset : ℤ) (n threshold_count : ℕ) where
  -- Where the count that `fsd_block_search_best` reports reaches a positive threshold, the offset is one of the
  -- range, its position is inside the source, and the count is the block's there.
  pub search_best-Found :
      0 < threshold_count
      → threshold_count
        ≤ (search_best count_fn src dest_block block_size src_size center_pos min_offset n
            threshold_count).1
      → Found count_fn src dest_block block_size src_size center_pos n min_offset (
          search_best count_fn src dest_block block_size src_size center_pos min_offset n
            threshold_count)
  unfolding search_best
  search_best-Found positive reached =
      let screen = prescreen_of block_size threshold_count in
      elim (loop_result count_fn src dest_block block_size src_size center_pos screen n min_offset
        (negsuc 0) (first_count threshold_count)) [
          | inr (f, _) ↦ f
          | inl e ↦
              let same = ap (λ (r : ℤ × ℕ). r.1) e in
              let low : first_count threshold_count < threshold_count = ground arith in
              absurd (omega (arith, same, low, reached))
        ]

  no_screen : block_size < 1024 → (prescreen_of block_size threshold_count).len ≡ 0
  unfolding prescreen_of
  no_screen small = let e : leb 1024 block_size ≡ false = ground arith in rw e refl

  -- For blocks below 1024 bytes and counts that are not above the block's size, no offset of the range with
  -- a position inside the source has a greater count than the one that `fsd_block_search_best` reports.
  pub search_best-greatest :
      block_size < 1024
      → ((offset : ℤ)
          → count_of count_fn src dest_block block_size src_size center_pos offset ≤ block_size)
      → (k : ℕ) → k < n
      → InRange count_fn src dest_block block_size src_size center_pos (min_offset +ℤ pos k)
      → count_of count_fn src dest_block block_size src_size center_pos (min_offset +ℤ pos k)
        ≤ (search_best count_fn src dest_block block_size src_size center_pos min_offset n
            threshold_count).1
  unfolding search_best
  search_best-greatest small full k below inside =
      (loop_best count_fn src dest_block block_size src_size center_pos full
          (prescreen_of block_size threshold_count) (no_screen small) n min_offset (negsuc 0)
          (first_count threshold_count)).1
        k below inside
