-- ===== src/Tracker/Matches.antt =====
-- The matches that the tracker records.
use fsdiff.Prelude.{
  ℕ, ◌≡◌, ◌≢◌, true, false, List, some, get_elem?, refl, ap, ◌∙◌, get_elem?-set_self,
  get_elem?-some,
}
use fsdiff.Tracker.{
  MatchType, BlockState, unmatched, identity, relocate, partial, all_zero, all_one, same_type,
}
use fsdiff.Tracker.Operations.{Tracker, count_match, set_match, get}

pub count_match-blocks : (type : MatchType) (t : Tracker) → (count_match type t).blocks ≡ t.blocks
count_match-blocks identity t = refl
count_match-blocks relocate t = refl
count_match-blocks partial t = refl
count_match-blocks all_zero t = refl
count_match-blocks all_one t = refl
count_match-blocks unmatched t = refl

-- A block that has a match keeps it.
pub kept :
    (t : Tracker) (i : ℕ) (block : BlockState) (type : MatchType) (src_index : ℕ)
    → get_elem? t.blocks i ≡ some block
    → same_type block.match_type unmatched ≡ false
    → set_match t i type src_index ≡ t
unfolding set_match
kept t i block type src_index there matched = rw (set_match, there, matched) refl

-- A block that has none gets it.
pub matched :
    (t : Tracker) (i : ℕ) (block : BlockState) (type : MatchType) (src_index : ℕ)
    → get_elem? t.blocks i ≡ some block
    → same_type block.match_type unmatched ≡ true
    → get_elem? (set_match t i type src_index).blocks i
      ≡ some (record block { match_type = type; src_index = src_index })
unfolding set_match
matched t i block type src_index there free =
    rw (set_match, there, free)
      (ap (λ (bs : List BlockState). get_elem? bs i) (count_match-blocks type _)
        ∙ get_elem?-set_self t.blocks i _ (get_elem?-some t.blocks i block there))

pub different : (type : MatchType) → type ≢ unmatched → same_type type unmatched ≡ false
different unmatched h = absurd (h refl)
different identity h = refl
different relocate h = refl
different partial h = refl
different all_zero h = refl
different all_one h = refl

-- The first match of a block stays: after a call of `fsd_block_tracker_set_match` that gives an unmatched
-- block a match, a second call on the block changes nothing, and the block has the first call's
-- match and source index.
pub set_match-set_match :
    (t : Tracker) (dest_index : ℕ) (block : BlockState) (first second : MatchType)
    (src_index other : ℕ)
    → get t dest_index ≡ some block
    → block.match_type ≡ unmatched
    → first ≢ unmatched
    → (set_match (set_match t dest_index first src_index) dest_index second other
        ≡ set_match t dest_index first src_index)
      × (get (set_match t dest_index first src_index) dest_index
          ≡ some (record block { match_type = first; src_index = src_index }))
unfolding get
set_match-set_match t i block first second src_index other there free ne =
    let once = matched t i block first src_index there (rw free refl) in
    (kept (set_match t i first src_index) i _ second other once (different first ne), once)
