-- ===== src/Tracker/Invariant.antt =====
-- The tracker's invariant: the bitmap marks the blocks that have no match.
use fsdiff.Prelude.{
  ℕ, zero, suc, ◌<◌, ◌≡◌, ◌≢◌, true, false, List, [], ◌∷◌, Option, none, some, length, get_elem?,
  set, leb, arith, refl, sym, ap, ◌∙◌, ◌⊎◌, inl, inr, Bool-cases, Option-cases,
}
use fsdiff.Tracker.{
  MatchType, BlockState, unmatched, identity, relocate, partial, all_zero, all_one, same_type,
}
use fsdiff.Tracker.Operations.{
  Tracker, bitmap_clear, bitmap_test, count_match, set_match, set_crc32, set_delta, is_unmatched,
}
use fsdiff.Tracker.Matches.{count_match-blocks, different, kept}
use fsdiff.Tracker.Bitmap.{bitmap_test-bitmap_clear_self, bitmap_test-bitmap_clear_ne}

-- A bit of the bitmap is set for a block without a match, and clear for one with a match.
abbrev pub Agrees : Tracker → Type 0
Agrees t =
    (i : ℕ) (block : BlockState)
    → get_elem? t.blocks i ≡ some block
    → bitmap_test t.unmatched_bitmap i ≡ same_type block.match_type unmatched

count_match-bitmap :
    (type : MatchType) (t : Tracker) → (count_match type t).unmatched_bitmap ≡ t.unmatched_bitmap
count_match-bitmap identity t = refl
count_match-bitmap relocate t = refl
count_match-bitmap partial t = refl
count_match-bitmap all_zero t = refl
count_match-bitmap all_one t = refl
count_match-bitmap unmatched t = refl

-- What a call of `fsd_block_tracker_set_match` does: nothing, or a match of a block without one.
pub record Matched (t t' : Tracker) (i : ℕ) (type : MatchType) (src_index : ℕ) : Type 0 where
  pub block : BlockState
  pub there : get_elem? t.blocks i ≡ some block
  pub free : same_type block.match_type unmatched ≡ true
  pub blocks_eq :
      t'.blocks ≡ set t.blocks i (record block { match_type = type; src_index = src_index })
  pub bitmap_eq : t'.unmatched_bitmap ≡ bitmap_clear t.unmatched_bitmap i

pub set_match-there :
    (t : Tracker) (i : ℕ) (type : MatchType) (src_index : ℕ) (block : BlockState)
    → get_elem? t.blocks i ≡ some block
    → same_type block.match_type unmatched ≡ true
    → Matched t (set_match t i type src_index) i type src_index
unfolding set_match
set_match-there t i type src_index block there free = record {
  block = block;
  there = there;
  free = free;
  blocks_eq = rw (set_match, there, free) (count_match-blocks type _);
  bitmap_eq = rw (set_match, there, free) (count_match-bitmap type _);
}

pub set_match-cases :
    (t : Tracker) (i : ℕ) (type : MatchType) (src_index : ℕ)
    → (set_match t i type src_index ≡ t) ⊎ Matched t (set_match t i type src_index) i type src_index
unfolding set_match
set_match-cases t i type src_index = elim (Option-cases (get_elem? t.blocks i)) [
  | inl gone ↦ inl (rw (set_match, gone) refl)
  | inr (block, there) ↦ elim (Bool-cases (same_type block.match_type unmatched)) [
    | inr taken ↦ inl (kept t i block type src_index there taken)
    | inl free ↦ inr (set_match-there t i type src_index block there free)
  ]
]

some_eq : (a b : BlockState) → some a ≡ some b → a ≡ b
some_eq a b h = cc

-- The states after a write of one of them.
pub read_set :
    (blocks : List BlockState) (i j : ℕ) (new found : BlockState)
    → get_elem? (set blocks i new) j ≡ some found
    → ((i ≡ j) × (new ≡ found)) ⊎ ((i ≢ j) × (get_elem? blocks j ≡ some found))
read_set [] i j new found h = cc
read_set (b ∷ blocks) zero zero new found h = inl (refl, some_eq new found h)
read_set (b ∷ blocks) zero (suc j) new found h = inr (λ e. omega (arith, e), h)
read_set (b ∷ blocks) (suc i) zero new found h = inr (λ e. omega (arith, e), h)
read_set (b ∷ blocks) (suc i) (suc j) new found h = elim (read_set blocks i j new found h) [
  | inl (e, e') ↦ inl (ap suc e, e')
  | inr (ne, e) ↦ inr (λ e. ne (omega (arith, e)), e)
]

-- A write of a block with the bit that belongs to it.
Agrees-write :
    (t t' : Tracker) (i : ℕ) (new : BlockState)
    → t'.blocks ≡ set t.blocks i new
    → bitmap_test t'.unmatched_bitmap i ≡ same_type new.match_type unmatched
    → ((j : ℕ) → i ≢ j → bitmap_test t'.unmatched_bitmap j ≡ bitmap_test t.unmatched_bitmap j)
    → Agrees t
    → Agrees t'
Agrees-write t t' i new e here others agrees j block h =
    elim (read_set t.blocks i j new block (ap (λ bs. get_elem? bs j) (sym e) ∙ h)) [
      | inl (e', e'') ↦ rw (← e', ← e'') here
      | inr (ne, there) ↦ others j ne ∙ agrees j block there
    ]

pub set_match-Agrees :
    (t : Tracker) (i : ℕ) (type : MatchType) (src_index : ℕ)
    → type ≢ unmatched
    → Agrees t
    → Agrees (set_match t i type src_index)
set_match-Agrees t i type src_index ne agrees = elim (set_match-cases t i type src_index) [
  | inl same ↦ rw same agrees
  | inr m ↦
      Agrees-write t (set_match t i type src_index) i
        (record m.block { match_type = type; src_index = src_index }) m.blocks_eq
        (ap (λ bm. bitmap_test bm i) m.bitmap_eq
          ∙ (bitmap_test-bitmap_clear_self t.unmatched_bitmap i ∙ sym (different type ne)))
        (λ j apart.
          ap (λ bm. bitmap_test bm j) m.bitmap_eq
          ∙ bitmap_test-bitmap_clear_ne t.unmatched_bitmap i j apart)
        agrees
]

-- A change of a block that leaves its type alone.
Agrees-update :
    (t : Tracker) (i : ℕ) (block new : BlockState)
    → get_elem? t.blocks i ≡ some block
    → new.match_type ≡ block.match_type
    → Agrees t
    → Agrees (record t { blocks = set t.blocks i new })
Agrees-update t i block new there same agrees =
    Agrees-write t (record t { blocks = set t.blocks i new }) i new refl
      (agrees i block there ∙ ap (λ type. same_type type unmatched) (sym same)) (λ j apart. refl)
      agrees

pub set_crc32-Agrees : (t : Tracker) (i crc32 : ℕ) → Agrees t → Agrees (set_crc32 t i crc32)
unfolding set_crc32
set_crc32-Agrees t i crc32 agrees = elim (Option-cases (get_elem? t.blocks i)) [
  | inl gone ↦ rw (set_crc32, gone) agrees
  | inr (block, there) ↦
      rw (set_crc32, there)
        (Agrees-update t i block (record block { crc32 = crc32 }) there refl agrees)
]

pub set_delta-Agrees :
    (t : Tracker) (i byte_offset : ℕ) (delta : Option (List ℕ))
    → Agrees t
    → Agrees (set_delta t i byte_offset delta)
unfolding set_delta
set_delta-Agrees t i byte_offset delta agrees = elim (Option-cases (get_elem? t.blocks i)) [
  | inl gone ↦ rw (set_delta, gone) agrees
  | inr (block, there) ↦
      rw (set_delta, there)
        (Agrees-update t i block (record block { byte_offset = byte_offset; delta = delta }) there
          refl agrees)
]

-- A block that the bitmap marks is there and has no match.
pub unmatched_block :
    (t : Tracker) (i : ℕ)
    → is_unmatched t i ≡ true
    → Agrees t
    → (block : BlockState) × (get_elem? t.blocks i ≡ some block)
      × (same_type block.match_type unmatched ≡ true)
unfolding is_unmatched
unmatched_block t i marked agrees = elim (Bool-cases (leb (length t.blocks) i)) [
  | inl out ↦ let no : false ≡ true = rw out at marked in cc
  | inr inside ↦
      let set : bitmap_test t.unmatched_bitmap i ≡ true = rw inside at marked in
      elim (Option-cases (get_elem? t.blocks i)) [
        | inl gone ↦ absurd (get_elem?-none t.blocks i (ground (arith, inside)) gone)
        | inr (block, there) ↦ (block, there, sym (agrees i block there) ∙ set)
      ]
]
  where
    get_elem?-none : (xs : List BlockState) (i : ℕ) → i < length xs → get_elem? xs i ≢ none
    get_elem?-none [] i h e = omega arith
    get_elem?-none (x ∷ xs) zero h e = cc
    get_elem?-none (x ∷ xs) (suc i) h e = get_elem?-none xs i (omega arith) e
