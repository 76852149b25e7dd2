-- ===== src/Stages/Match.antt =====
-- The partial matches that src/stages/stage_partial.c and src/stages/stage_fsmap.c record: a delta against
-- the source at a byte position, in memory from a pool whose allocation may fail.
use fsdiff.Prelude.{ℕ, ◌+◌, ◌-◌, ◌*◌, ◌/◌, ◌%◌, Bool, true, false, List, [], ◌∷◌, some}
use fsdiff.Prelude.Int.{ℤ, pos_part}
use fsdiff.Wire.{u8}
use fsdiff.Encoder.Emit.{slice}
use fsdiff.Tracker.{partial}
use fsdiff.Tracker.Operations.{Tracker, set_match, set_delta}

-- `delta[i] = dest_block[i] - src_block[i]`
unfoldable pub delta_of : List ℕ → List ℕ → List ℕ
delta_of (d ∷ dest) (s ∷ src) = u8 (d + 256 - s) ∷ delta_of dest src
delta_of _ _ = []

-- What a search found: `best_offset` and `best_count`.
pub record Best : Type 0 where
  pub offset : ℤ
  pub count : ℕ

abbrev pub best_of : ℤ × ℕ → Best
best_of (offset, count) = record { offset = offset; count = count }

-- What the stages change: the tracker and the memory pool of the deltas.
pub record Work (P : Type 0) : Type 0 where
  pub tracker : Tracker
  pub pool : P

-- `dest + dest_idx * block_size` and `src + src_pos`, with a block's length.
abbrev pub dest_block_at : ℕ → List ℕ → ℕ → List ℕ
dest_block_at block_size dest i = slice dest (i * block_size) block_size

abbrev pub src_block_at : ℕ → List ℕ → ℤ → List ℕ
src_block_at block_size src p = slice src (pos_part p) block_size

module _ (block_size : ℕ) (src dest : List ℕ) where
  -- A partial match at a source position.
  unfoldable pub record_match : ℕ → ℤ → Tracker → Tracker
  unfolding delta_of
  record_match dest_idx src_pos t =
      set_delta (set_match t dest_idx partial (pos_part src_pos / block_size)) dest_idx
        (pos_part src_pos % block_size)
        (some
          (delta_of (dest_block_at block_size dest dest_idx) (src_block_at block_size src src_pos)))

  -- The match where the allocation succeeded: whether it did, and the work.
  abbrev pub store_match : {P : Type 0} → ℕ → ℤ → Work P → Bool × P → Bool × Work P
  store_match dest_idx src_pos w (false, pool) = (false, record w { pool = pool })
  store_match dest_idx src_pos w (true, pool) =
      (true, record { tracker = record_match dest_idx src_pos w.tracker; pool = pool })

  -- The allocation and the match.
  unfoldable pub take_match : {P : Type 0} → (P → Bool × P) → ℕ → ℤ → Work P → Bool × Work P
  unfolding record_match
  take_match pool_alloc dest_idx src_pos w = store_match dest_idx src_pos w (pool_alloc w.pool)
