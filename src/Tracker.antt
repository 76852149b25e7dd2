-- ===== src/Tracker.antt =====
-- src/core/block_tracker.c: the state of every destination block through the matching stages.
-- The tracker's pointers are taken to be non-null.
pub mod Operations
pub mod Bitmap
pub mod Invariant
pub mod Reachable
pub mod Unmatched
pub mod Matches
use fsdiff.Prelude.{ℕ, Bool, List, Option, ◌==◌}

-- `fsd_match_type_t`: FSD_MATCH_NONE, _IDENTITY, _RELOCATE, _PARTIAL, _ZERO and _ONE.
pub data MatchType : Type 0 where
  unmatched identity relocate partial all_zero all_one : MatchType

abbrev pub match_code : MatchType → ℕ
match_code unmatched = 0
match_code identity = 1
match_code relocate = 2
match_code partial = 3
match_code all_zero = 4
match_code all_one = 5

abbrev pub same_type : MatchType → MatchType → Bool
same_type a b = match_code a == match_code b

-- `fsd_block_state_t`. `byte_offset` is an `int64_t` as its 64-bit pattern; `delta` is the buffer of
-- `delta_size` bytes, or null.
pub record BlockState : Type 0 where
  pub dest_index : ℕ
  pub src_index : ℕ
  pub byte_offset : ℕ
  pub crc32 : ℕ
  pub match_type : MatchType
  pub delta : Option (List ℕ)
