-- ===== src/Tracker/Reachable.antt =====
-- The trackers that calls of src/core/block_tracker.c can make, and `fsd_block_tracker_finalize` on them.
use fsdiff.Prelude.{
  ℕ, zero, suc, ◌+◌, ◌*◌, ◌/◌, ◌<◌, ◌≤◌, ◌≡◌, ◌≢◌, Bool, true, false, not, ◌||◌, List, Option, none,
  some, length, get_elem?, replicate, leb, ◌==◌, arith, refl, sym, ap, ◌∙◌, length-set,
  length-replicate, get_elem?-some, inl, inr, Bool-cases, if◌then◌else◌,
}
use fsdiff.Status.{ok, guard, invalid_arg, out_of_memory, >>=-eq-ok, ok_injective}
use fsdiff.Tracker.{MatchType, BlockState, unmatched, same_type}
use fsdiff.Tracker.Operations.{
  Tracker, bitmap_set, bitmap_test, create_blocks, create_bitmap, tracker_create, set_match,
  set_crc32, set_delta, is_unmatched, get, finalize, bitmap_clear,
}
use fsdiff.Tracker.Bitmap.{
  bitmap_test-bitmap_set_self, bitmap_test-bitmap_set_ne, bitmap_test-bitmap_clear_self,
  bitmap_test-bitmap_clear_ne,
}
use fsdiff.Tracker.Invariant.{Agrees, set_match-Agrees, set_crc32-Agrees, set_delta-Agrees}

-- A created tracker, and any calls on it; no caller gives FSD_MATCH_NONE as a match.
pub data Reachable : Tracker → Type 0 where
  created :
      (calloc_tracker calloc_blocks calloc_bitmap : Bool) (dest_blocks block_size : ℕ) (t : Tracker)
      → tracker_create calloc_tracker calloc_blocks calloc_bitmap dest_blocks block_size ≡ ok t
      → Reachable t
  after_match :
      (t : Tracker) (dest_index : ℕ) (type : MatchType) (src_index : ℕ)
      → type ≢ unmatched
      → Reachable t
      → Reachable (set_match t dest_index type src_index)
  after_crc32 :
      (t : Tracker) (dest_index crc32 : ℕ) → Reachable t → Reachable (set_crc32 t dest_index crc32)
  after_delta :
      (t : Tracker) (dest_index byte_offset : ℕ) (delta : Option (List ℕ))
      → Reachable t
      → Reachable (set_delta t dest_index byte_offset delta)

create_blocks-unmatched :
    (n i j : ℕ) (block : BlockState)
    → get_elem? (create_blocks n i) j ≡ some block
    → (j < n) × (block.match_type ≡ unmatched)
unfolding create_blocks
create_blocks-unmatched zero i j block h = cc
create_blocks-unmatched (suc n) i zero block h = (omega arith, sym (ap type_of h))
  where
    type_of : Option BlockState → MatchType
    type_of none = unmatched
    type_of (some b) = b.match_type
create_blocks-unmatched (suc n) i (suc j) block h =
    let k = create_blocks-unmatched n (i + 1) j block h in (omega (arith, k.0), k.1)

bitmap_set-length : (bitmap : List ℕ) (i : ℕ) → length (bitmap_set bitmap i) ≡ length bitmap
unfolding bitmap_set
bitmap_set-length bitmap i = length-set bitmap (i / 64) _

-- The loop keeps the bits that are set,
create_bitmap-kept :
    (n i j : ℕ) (bitmap : List ℕ)
    → j < i
    → bitmap_test (create_bitmap n i bitmap) j ≡ bitmap_test bitmap j
unfolding create_bitmap
create_bitmap-kept zero i j bitmap h = refl
create_bitmap-kept (suc n) i j bitmap h =
    create_bitmap-kept n (i + 1) j (bitmap_set bitmap i) (omega arith)
    ∙ bitmap_test-bitmap_set_ne bitmap i j (λ e. omega (arith, e))

-- and sets one for every block.
create_bitmap-all :
    (n i j : ℕ) (bitmap : List ℕ)
    → i + n ≤ 64 * length bitmap
    → j < n
    → bitmap_test (create_bitmap n i bitmap) (i + j) ≡ true
unfolding create_bitmap
create_bitmap-all zero i j bitmap room h = absurd (omega arith)
create_bitmap-all (suc n) i zero bitmap room h =
    let e : i + 0 ≡ i = omega arith in
    rw e (
      create_bitmap-kept n (i + 1) i (bitmap_set bitmap i) (omega arith)
      ∙ bitmap_test-bitmap_set_self bitmap i (omega arith))
create_bitmap-all (suc n) i (suc j) bitmap room h =
    let e : i + suc j ≡ i + 1 + j = omega arith in
    rw e (
      create_bitmap-all n (i + 1) j (bitmap_set bitmap i)
        (omega (arith, bitmap_set-length bitmap i)) (omega arith))

pub tracker_create-Agrees :
    (calloc_tracker calloc_blocks calloc_bitmap : Bool) (dest_blocks block_size : ℕ) (t : Tracker)
    → tracker_create calloc_tracker calloc_blocks calloc_bitmap dest_blocks block_size ≡ ok t
    → Agrees t
unfolding tracker_create
tracker_create-Agrees calloc_tracker calloc_blocks calloc_bitmap dest_blocks block_size t h =
    let (_, _, h0) =
      >>=-eq-ok (guard (not (dest_blocks == 0 || block_size == 0)) invalid_arg) _ h in
    let (_, _, h1) = >>=-eq-ok (guard calloc_tracker out_of_memory) _ h0 in
    let (_, _, h2) = >>=-eq-ok (guard calloc_blocks out_of_memory) _ h1 in
    let (_, _, h3) = >>=-eq-ok (guard calloc_bitmap out_of_memory) _ h2 in
    let same = ok_injective h3 in
    rw (← same) (λ i block there.
      let (inside, free) = create_blocks-unmatched dest_blocks 0 i block there in
      let e : i ≡ 0 + i = omega arith in
      ap (bitmap_test (create_bitmap dest_blocks 0 (replicate ((dest_blocks + 63) / 64) 0))) e
      ∙ create_bitmap-all dest_blocks 0 i (replicate ((dest_blocks + 63) / 64) 0)
          (omega (arith, length-replicate {A = ℕ} ((dest_blocks + 63) / 64) 0)) inside
      ∙ (rw free refl))

pub Reachable-Agrees : (t : Tracker) → Reachable t → Agrees t
Reachable-Agrees _ (created a b c n size t h) = tracker_create-Agrees a b c n size t h
Reachable-Agrees _ (after_match t i type src ne r) =
    set_match-Agrees t i type src ne (Reachable-Agrees t r)
Reachable-Agrees _ (after_crc32 t i crc32 r) = set_crc32-Agrees t i crc32 (Reachable-Agrees t r)
Reachable-Agrees _ (after_delta t i off delta r) =
    set_delta-Agrees t i off delta (Reachable-Agrees t r)

-- The code reads a block's bit where it means its state.
pub is_unmatched-Agrees :
    (t : Tracker) (i : ℕ) (block : BlockState)
    → get_elem? t.blocks i ≡ some block
    → Agrees t
    → is_unmatched t i ≡ same_type block.match_type unmatched
unfolding is_unmatched
is_unmatched-Agrees t i block there agrees =
    rw (leb-false i (length t.blocks) (get_elem?-some t.blocks i block there))
      (agrees i block there)
  where
    leb-false : (i n : ℕ) → i < n → leb n i ≡ false
    leb-false i n h = ground arith

bitmap_clear-clear :
    (bitmap : List ℕ) (i j : ℕ)
    → bitmap_test bitmap j ≡ false
    → bitmap_test (bitmap_clear bitmap i) j ≡ false
bitmap_clear-clear bitmap i j clear = elim (Bool-cases (i == j)) [
  | inl same ↦
      let e : i ≡ j = ground (arith, same) in rw (← e) (bitmap_test-bitmap_clear_self bitmap i)
  | inr differ ↦
      let apart : i ≢ j = λ e. ground (arith, differ, e) in
      bitmap_test-bitmap_clear_ne bitmap i j apart ∙ clear
]

-- A round of the loop of `fsd_block_tracker_finalize`, on what the test of the bit gives.
abbrev round : Bool → ℕ → Tracker → Tracker
round b i t =
    if b
    then record t {
      literal_count = t.literal_count + 1;
      unmatched_bitmap = bitmap_clear t.unmatched_bitmap i;
    }
    else t

round-clear :
    (b : Bool) (i j : ℕ) (t : Tracker)
    → bitmap_test t.unmatched_bitmap j ≡ false
    → bitmap_test (round b i t).unmatched_bitmap j ≡ false
round-clear true i j t clear = bitmap_clear-clear t.unmatched_bitmap i j clear
round-clear false i j t clear = clear

round_self :
    (b : Bool) (i : ℕ) (t : Tracker)
    → bitmap_test t.unmatched_bitmap i ≡ b
    → bitmap_test (round b i t).unmatched_bitmap i ≡ false
round_self true i t e = bitmap_test-bitmap_clear_self t.unmatched_bitmap i
round_self false i t e = e

-- The loop leaves the clear bits clear,
finalize-clear :
    (n i j : ℕ) (t : Tracker)
    → bitmap_test t.unmatched_bitmap j ≡ false
    → bitmap_test (finalize n i t).unmatched_bitmap j ≡ false
unfolding finalize
finalize-clear zero i j t clear = clear
finalize-clear (suc n) i j t clear =
    let b = bitmap_test t.unmatched_bitmap i in
    finalize-clear n (i + 1) j (round b i t) (round-clear b i j t clear)

-- and clears one for every block.
finalize-all :
    (n i j : ℕ) (t : Tracker)
    → j < n
    → bitmap_test (finalize n i t).unmatched_bitmap (i + j) ≡ false
unfolding finalize
finalize-all zero i j t h = absurd (omega (arith, h))
finalize-all (suc n) i zero t h =
    let b = bitmap_test t.unmatched_bitmap i in
    let e : i + 0 ≡ i = omega arith in
    rw e (finalize-clear n (i + 1) i (round b i t) (round_self b i t refl))
finalize-all (suc n) i (suc j) t h =
    let b = bitmap_test t.unmatched_bitmap i in
    let e : i + suc j ≡ i + 1 + j = omega arith in
    rw e (finalize-all n (i + 1) j (round b i t) (omega (arith, h)))

if_false : (b x : Bool) → x ≡ false → (if b then false else x) ≡ false
if_false true x h = refl
if_false false x h = h

-- In a tracker that was created, and changed by `fsd_block_tracker_set_match` with matches other than
-- FSD_MATCH_NONE, by `fsd_block_tracker_set_crc32` and by `fsd_block_tracker_set_delta` only, the bitmap says of
-- every block whether it has a match: `fsd_block_tracker_is_unmatched` is true exactly where the block's type
-- is FSD_MATCH_NONE. After `fsd_block_tracker_finalize` it is true of no block.
pub Reachable-is_unmatched :
    (t : Tracker) (dest_index : ℕ) (block : BlockState)
    → Reachable t
    → get t dest_index ≡ some block
    → (is_unmatched t dest_index ≡ same_type block.match_type unmatched)
      × (is_unmatched (finalize (length t.blocks) 0 t) dest_index ≡ false)
unfolding get is_unmatched
Reachable-is_unmatched t i block reachable there =
    let inside = get_elem?-some t.blocks i block there in
    let done = finalize-all (length t.blocks) 0 i t inside in
    let e : 0 + i ≡ i = omega arith in
    (
      is_unmatched-Agrees t i block there (Reachable-Agrees t reachable),
      if_false _ _ (rw e at done),
    )
