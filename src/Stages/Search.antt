-- ===== src/Stages/Search.antt =====
-- src/stages/block_search.c: the search for the offset at which a block matches best.
use fsdiff.Prelude.{
  ℕ, zero, suc, ◌+◌, ◌-◌, ◌*◌, ◌/◌, Bool, false, ◌||◌, ◌&&◌, List, ltb, leb, ◌==◌, if◌then◌else◌,
}
use fsdiff.Prelude.Int.{ℤ, pos, negsuc, pos_part, neg_part, ◌+ℤ◌}
use fsdiff.Encoder.Emit.{slice}

-- `pos < 0 || (size_t)(pos + block_size) > src_size`
abbrev pub out_of_bounds : ℕ → ℕ → ℤ → Bool
out_of_bounds block_size src_size p = ltb 0 (neg_part p) || ltb src_size (pos_part p + block_size)

-- `prescreen_len`, `prescreen_min` and `prescreen_mid`; the length is 0 where the screen is off.
pub record Prescreen : Type 0 where
  pub len : ℕ
  pub least : ℕ
  pub mid : ℕ

unfoldable pub prescreen_of : ℕ → ℕ → Prescreen
prescreen_of block_size threshold_count =
    if leb 1024 block_size
    then (let least = threshold_count * 128 / block_size in
        record { len = if least == 0 then 0 else 128; least = least; mid = block_size / 2 })
    else record { len = 0; least = 0; mid = 0 }

-- `count_fn` on `len` bytes at `src + at` and at `dest_block + from`.
abbrev pub count_at : (List ℕ → List ℕ → ℕ) → List ℕ → List ℕ → ℕ → ℕ → ℕ → ℕ
count_at count_fn src dest_block at from len =
    count_fn (slice src (at + from) len) (slice dest_block from len)

module _ (count_fn : List ℕ → List ℕ → ℕ) (src dest_block : List ℕ) (block_size : ℕ) where
  -- `sample < prescreen_min`
  unfoldable pub screened_out : Prescreen → ℕ → Bool
  screened_out screen src_pos =
      ltb 0 screen.len
      && ltb
          (count_at count_fn src dest_block src_pos 0 screen.len
            + count_at count_fn src dest_block src_pos screen.mid screen.len)
          screen.least

  -- No `continue` before the full count, and a count above the best one.
  unfoldable pub improves : ℕ → Prescreen → ℤ → ℕ → ℕ → Bool
  unfolding screened_out
  improves src_size screen src_pos best_count match_count =
      if out_of_bounds block_size src_size src_pos
      then false
      else if screened_out screen (pos_part src_pos)
      then false
      else ltb best_count match_count

  -- The loop over the offsets, with `n` to go from `offset` on.
  unfoldable pub search_loop : ℕ → ℤ → Prescreen → ℕ → ℤ → ℤ → ℕ → ℤ × ℕ
  unfolding improves
  search_loop src_size center_pos screen zero offset best_offset best_count =
      (best_offset, best_count)
  search_loop src_size center_pos screen (suc n) offset best_offset best_count =
      let src_pos = center_pos +ℤ offset in
      let match_count = count_fn (slice src (pos_part src_pos) block_size) dest_block in
      let better = improves src_size screen src_pos best_count match_count in
      let rest =
        search_loop src_size center_pos screen n (offset +ℤ pos 1)
          (if better then offset else best_offset) (if better then match_count else best_count) in
      if better && (match_count == block_size) then (offset, match_count) else rest

  -- `fsd_block_search_best` for the offsets from `min_offset` on, `n` of them: `max_offset` is
  -- `min_offset + n - 1`. The pair is the offset and `*best_count_out`.
  unfoldable pub search_best : ℕ → ℤ → ℤ → ℕ → ℕ → ℤ × ℕ
  unfolding search_loop prescreen_of
  search_best src_size center_pos min_offset n threshold_count =
      search_loop src_size center_pos (prescreen_of block_size threshold_count) n min_offset
        (negsuc 0) (if ltb 0 threshold_count then threshold_count - 1 else 0)
