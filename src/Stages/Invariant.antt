-- ===== src/Stages/Invariant.antt =====
-- What the matching stages keep: the tracker's bitmap marks the blocks without a match, and every match is true
-- of the two images.
use fsdiff.Prelude.{
  ℕ, zero, suc, ◌+◌, ◌≡◌, ◌≢◌, true, false, List, [], ◌∷◌, some, length, get_elem?, set, arith,
  refl, ap, ◌∙◌, inl, inr, Option-cases, length-set, get_elem?-some, get_elem?-set_self,
}
use fsdiff.Tracker.{
  MatchType, BlockState, unmatched, identity, relocate, partial, all_zero, all_one, same_type,
}
use fsdiff.Tracker.Operations.{Tracker, set_match, set_crc32, set_delta, is_unmatched}
use fsdiff.Tracker.Invariant.{
  Agrees, set_match-cases, set_match-there, unmatched_block, set_match-Agrees, set_crc32-Agrees,
  set_delta-Agrees,
}
use fsdiff.RoundTrip.Blocks.{Matches, Described}

pub set-set : (xs : List BlockState) (i : ℕ) (a b : BlockState) → set (set xs i a) i b ≡ set xs i b
set-set [] i a b = refl
set-set (x ∷ xs) zero a b = refl
set-set (x ∷ xs) (suc i) a b = ap (λ ys. x ∷ ys) (set-set xs i a b)

pub not_unmatched : {type : MatchType} → same_type type unmatched ≡ false → type ≢ unmatched
not_unmatched h e = let h' = rw e at h in cc

module _ (block_size : ℕ) (src dest : List ℕ) where
  pub Described-set :
      (ss : List BlockState) (i j : ℕ) (new : BlockState)
      → Described block_size src dest j ss
      → Matches block_size src dest (j + i) new new.match_type
      → Described block_size src dest j (set ss i new)
  Described-set [] i j new h m = tt
  Described-set (s ∷ ss) zero j new h m = let e : j + 0 ≡ j = omega arith in (rw e at m, h.1)
  Described-set (s ∷ ss) (suc i) j new h m =
      let e : j + suc i ≡ j + 1 + i = omega arith in
      (h.0, Described-set ss i (j + 1) new h.1 (rw e at m))

  pub Described-get :
      (ss : List BlockState) (i j : ℕ) (s : BlockState)
      → Described block_size src dest j ss
      → get_elem? ss i ≡ some s
      → Matches block_size src dest (j + i) s s.match_type
  Described-get [] i j s h there = cc
  Described-get (x ∷ ss) zero j s h there =
      let e : j + 0 ≡ j = omega arith in let e' : x ≡ s = cc in rw (e, ← e') h.0
  Described-get (x ∷ ss) (suc i) j s h there =
      let e : j + suc i ≡ j + 1 + i = omega arith in rw e (Described-get ss i (j + 1) s h.1 there)

  -- A block's CRC-32 is no part of its match.
  Matches-crc32 :
      (i : ℕ) (s : BlockState) (crc32 : ℕ) (type : MatchType)
      → Matches block_size src dest i s type
      → Matches block_size src dest i (record s { crc32 = crc32 }) type
  Matches-crc32 i s crc32 unmatched h = h
  Matches-crc32 i s crc32 identity h = h
  Matches-crc32 i s crc32 relocate h = h
  Matches-crc32 i s crc32 partial h = h
  Matches-crc32 i s crc32 all_zero h = h
  Matches-crc32 i s crc32 all_one h = h

  module _ (dest_blocks : ℕ) where
    pub record Sound (t : Tracker) : Type 0 where
      pub agrees : Agrees t
      pub described : Described block_size src dest 0 t.blocks
      pub count : length t.blocks ≡ dest_blocks

    Sound-blocks :
        (t t' : Tracker) (i : ℕ) (new : BlockState)
        → Agrees t'
        → t'.blocks ≡ set t.blocks i new
        → Matches block_size src dest i new new.match_type
        → Sound t
        → Sound t'
    Sound-blocks t t' i new agrees e m s = record {
      agrees = agrees;
      described =
          let e' : 0 + i ≡ i = omega arith in
          rw e (Described-set t.blocks i 0 new s.described (rw e' m));
      count = ap length e ∙ (length-set t.blocks i new ∙ s.count);
    }

    -- A match that is true of the images, whatever else the block's state holds.
    pub set_match-Sound :
        (t : Tracker) (i : ℕ) (type : MatchType) (src_index : ℕ)
        → type ≢ unmatched
        → ((s : BlockState)
            → Matches block_size src dest i
                (record s { match_type = type; src_index = src_index })
                type)
        → Sound t
        → Sound (set_match t i type src_index)
    set_match-Sound t i type src_index ne m s = elim (set_match-cases t i type src_index) [
      | inl same ↦ rw same s
      | inr c ↦
          Sound-blocks t (set_match t i type src_index) i
            (record c.block { match_type = type; src_index = src_index })
            (set_match-Agrees t i type src_index ne s.agrees) c.blocks_eq (m c.block) s
    ]

    pub set_crc32-Sound : (t : Tracker) (i crc32 : ℕ) → Sound t → Sound (set_crc32 t i crc32)
    unfolding set_crc32
    set_crc32-Sound t i crc32 s = elim (Option-cases (get_elem? t.blocks i)) [
      | inl gone ↦ rw (set_crc32, gone) s
      | inr (b, there) ↦
          let e' : 0 + i ≡ i = omega arith in
          let m : Matches block_size src dest i b b.match_type =
            rw e' at (Described-get t.blocks i 0 b s.described there) in
          Sound-blocks t (set_crc32 t i crc32) i (record b { crc32 = crc32 })
            (set_crc32-Agrees t i crc32 s.agrees) (rw (set_crc32, there) refl)
            (Matches-crc32 i b crc32 b.match_type m) s
    ]

    -- The two calls that record a partial match of an unmatched block.
    pub partial_match-Sound :
        (t : Tracker) (i src_index byte_offset : ℕ) (delta : List ℕ)
        → is_unmatched t i ≡ true
        → ((s : BlockState)
            → Matches block_size src dest i
                (record s { src_index = src_index; byte_offset = byte_offset; delta = some delta })
                partial)
        → Sound t
        → Sound (set_delta (set_match t i partial src_index) i byte_offset (some delta))
    unfolding set_delta
    partial_match-Sound t i src_index byte_offset delta free m s =
        let (b, there, none_yet) = unmatched_block t i free s.agrees in
        let c = set_match-there t i partial src_index b there none_yet in
        let t' = set_match t i partial src_index in
        let once : BlockState = record c.block { match_type = partial; src_index = src_index } in
        let twice : BlockState = record once { byte_offset = byte_offset; delta = some delta } in
        let here : get_elem? t'.blocks i ≡ some once =
          ap (λ bs. get_elem? bs i) c.blocks_eq
          ∙ get_elem?-set_self t.blocks i once (get_elem?-some t.blocks i c.block c.there) in
        let last : (set_delta t' i byte_offset (some delta)).blocks ≡ set t'.blocks i twice =
          rw (set_delta, here) refl in
        Sound-blocks t (set_delta t' i byte_offset (some delta)) i twice
          (set_delta-Agrees t' i byte_offset (some delta)
            (set_match-Agrees t i partial src_index (not_unmatched refl) s.agrees))
          (last ∙ (ap (λ bs. set bs i twice) c.blocks_eq ∙ set-set t.blocks i once twice))
          (m c.block) s
