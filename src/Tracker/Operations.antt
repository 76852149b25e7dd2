-- ===== src/Tracker/Operations.antt =====
-- The operations of src/core/block_tracker.c. `unmatched_bitmap` is a list of 64-bit words.
use fsdiff.Prelude.{
  ℕ, zero, suc, ◌+◌, ◌-◌, ◌/◌, ◌%◌, ◌^◌, Bool, false, List, [], ◌∷◌, Option, none, some, not, ◌||◌,
  leb, ◌==◌, if◌then◌else◌, length, get_elem?, get_or, set, replicate, bit_and, bit_or,
}
use fsdiff.Status.{Result, ok, ◌>>◌, guard, invalid_arg, out_of_memory}
use fsdiff.Tracker.{
  MatchType, BlockState, unmatched, identity, relocate, partial, all_zero, all_one, same_type,
}

-- `fsd_block_tracker_t`; `count` is the length of `blocks`.
pub record Tracker : Type 0 where
  pub blocks : List BlockState
  pub block_size : ℕ
  pub unmatched_bitmap : List ℕ
  pub identity_count : ℕ
  pub relocate_count : ℕ
  pub partial_count : ℕ
  pub zero_count : ℕ
  pub one_count : ℕ
  pub literal_count : ℕ

-- `bitmap_set`, `bitmap_clear` and `bitmap_test`
unfoldable pub bitmap_set : List ℕ → ℕ → List ℕ
bitmap_set bitmap index =
    set bitmap (index / 64) (bit_or (get_or bitmap (index / 64) 0) (2 ^ (index % 64)))

unfoldable pub bitmap_clear : List ℕ → ℕ → List ℕ
bitmap_clear bitmap index =
    set bitmap (index / 64) (bit_and (get_or bitmap (index / 64) 0) (2 ^ 64 - 1 - 2 ^ (index % 64)))

unfoldable pub bitmap_test : List ℕ → ℕ → Bool
bitmap_test bitmap index = not (bit_and (get_or bitmap (index / 64) 0) (2 ^ (index % 64)) == 0)

-- The loop of `fsd_block_tracker_create` from index `i` on, with `n` blocks left.
unfoldable pub create_blocks : ℕ → ℕ → List BlockState
create_blocks zero i = []
create_blocks (suc n) i =
    record {
      dest_index = i;
      src_index = 0;
      byte_offset = 0;
      crc32 = 0;
      match_type = unmatched;
      delta = none;
    }
    ∷ create_blocks n (i + 1)

unfoldable pub create_bitmap : ℕ → ℕ → List ℕ → List ℕ
unfolding bitmap_set
create_bitmap zero i bitmap = bitmap
create_bitmap (suc n) i bitmap = create_bitmap n (i + 1) (bitmap_set bitmap i)

-- `fsd_block_tracker_create`. `calloc` says of each of the three allocations whether it succeeds.
unfoldable pub tracker_create : Bool → Bool → Bool → ℕ → ℕ → Result Tracker
unfolding create_blocks create_bitmap
tracker_create calloc_tracker calloc_blocks calloc_bitmap dest_blocks block_size = do
  guard (not (dest_blocks == 0 || block_size == 0)) invalid_arg
  guard calloc_tracker out_of_memory
  guard calloc_blocks out_of_memory
  guard calloc_bitmap out_of_memory
  ok (record {
    blocks = create_blocks dest_blocks 0;
    block_size = block_size;
    unmatched_bitmap = create_bitmap dest_blocks 0 (replicate ((dest_blocks + 63) / 64) 0);
    identity_count = 0;
    relocate_count = 0;
    partial_count = 0;
    zero_count = 0;
    one_count = 0;
    literal_count = 0;
  })

-- The `switch` that counts a match.
abbrev pub count_match : MatchType → Tracker → Tracker
count_match identity t = record t { identity_count = t.identity_count + 1 }
count_match relocate t = record t { relocate_count = t.relocate_count + 1 }
count_match partial t = record t { partial_count = t.partial_count + 1 }
count_match all_zero t = record t { zero_count = t.zero_count + 1 }
count_match all_one t = record t { one_count = t.one_count + 1 }
count_match unmatched t = t

-- The part of `fsd_block_tracker_set_match` at a block that is there.
abbrev pub match_block : Tracker → ℕ → BlockState → MatchType → ℕ → Tracker
match_block t dest_index block match_type src_index =
    if same_type block.match_type unmatched
    then count_match match_type (record t {
      blocks =
          set t.blocks dest_index (record block { match_type = match_type; src_index = src_index });
      unmatched_bitmap = bitmap_clear t.unmatched_bitmap dest_index;
    })
    else t

-- `fsd_block_tracker_set_match`
unfoldable pub set_match : Tracker → ℕ → MatchType → ℕ → Tracker
set_match t dest_index match_type src_index = elim (get_elem? t.blocks dest_index) [
  | none ↦ t
  | some block ↦ match_block t dest_index block match_type src_index
]

-- `fsd_block_tracker_set_crc32`
unfoldable pub set_crc32 : Tracker → ℕ → ℕ → Tracker
set_crc32 t dest_index crc32 = elim (get_elem? t.blocks dest_index) [
  | none ↦ t
  | some block ↦ record t { blocks = set t.blocks dest_index (record block { crc32 = crc32 }) }
]

-- `fsd_block_tracker_set_delta`
unfoldable pub set_delta : Tracker → ℕ → ℕ → Option (List ℕ) → Tracker
set_delta t dest_index byte_offset delta = elim (get_elem? t.blocks dest_index) [
  | none ↦ t
  | some block ↦ record t {
    blocks = set t.blocks dest_index (record block { byte_offset = byte_offset; delta = delta });
  }
]

-- `fsd_block_tracker_is_unmatched` and `fsd_block_tracker_get`
unfoldable pub is_unmatched : Tracker → ℕ → Bool
unfolding bitmap_test
is_unmatched t dest_index =
    if leb (length t.blocks) dest_index then false else bitmap_test t.unmatched_bitmap dest_index

unfoldable pub get : Tracker → ℕ → Option BlockState
get t dest_index = get_elem? t.blocks dest_index

-- The loop of `fsd_block_tracker_foreach_unmatched` from index `i` on: the calls of the callback, in order.
unfoldable pub foreach_unmatched : List ℕ → ℕ → ℕ → List ℕ
unfolding bitmap_test
foreach_unmatched bitmap zero i = []
foreach_unmatched bitmap (suc n) i =
    let rest = foreach_unmatched bitmap n (i + 1) in if bitmap_test bitmap i then i ∷ rest else rest

-- The loop of `fsd_block_tracker_finalize` from index `i` on.
unfoldable pub finalize : ℕ → ℕ → Tracker → Tracker
unfolding bitmap_test bitmap_clear
finalize zero i t = t
finalize (suc n) i t = finalize n (i + 1) (
    if bitmap_test t.unmatched_bitmap i
    then record t {
      literal_count = t.literal_count + 1;
      unmatched_bitmap = bitmap_clear t.unmatched_bitmap i;
    }
    else t)

-- `while (word)`: every round clears the lowest set bit. A word has 64 bits, which is enough fuel.
unfoldable pub count_word : ℕ → ℕ → ℕ
count_word zero word = 0
count_word (suc fuel) word =
    let rest = count_word fuel (bit_and word (word - 1)) in if word == 0 then 0 else suc rest

-- `fsd_block_tracker_unmatched_count`
unfoldable pub unmatched_count : List ℕ → ℕ
unfolding count_word
unmatched_count [] = 0
unmatched_count (word ∷ bitmap) = count_word 64 word + unmatched_count bitmap
