-- ===== src/RoundTrip/Runs.antt =====
-- The runs that the encoder coalesces: what holds of each block of a run.
use fsdiff.Prelude.{ℕ, zero, suc, ◌+◌, ◌≤◌, ◌≡◌, arith, List, [], ◌∷◌, true, Bool-cases, inl, inr}
use mathlib.Core.Path.{subst}
use fsdiff.Prelude.Int.{ℤ}
use fsdiff.Signed.{eq_ℤ}
use fsdiff.Tracker.{BlockState, MatchType, unmatched, relocate, partial, same_type}
use fsdiff.Encoder.Runs.{same_run, relocate_run, partial_run, block_offset, diff_offset}
use fsdiff.RoundTrip.Blocks.{Matches, Described}

pub same_type→eq : (a b : MatchType) → same_type a b ≡ true → a ≡ b
same_type→eq unmatched b h = ground arith
same_type→eq _ b h = ground arith

pub eq_ℤ→eq : (a b : ℤ) → eq_ℤ a b ≡ true → a ≡ b
eq_ℤ→eq a b h = ground arith

module _ (block_size : ℕ) (src dest : List ℕ) where
  -- The first `n` states are right, of one type, and have the property `P` at their index.
  abbrev pub Run : MatchType → (ℕ → BlockState → Type 0) → ℕ → ℕ → List BlockState → Type 0
  Run type P i zero ss = Unit
  Run type P i (suc n) [] = ⊥
  Run type P i (suc n) (s ∷ ss) =
      Matches block_size src dest i s type × P i s × Run type P (i + 1) n ss

  abbrev pub Anything : ℕ → BlockState → Type 0
  Anything i s = Unit

  as_type :
      (i : ℕ) (s : BlockState) (type : MatchType)
      → same_type s.match_type type ≡ true
      → Matches block_size src dest i s s.match_type
      → Matches block_size src dest i s type
  as_type i s type h m =
      subst (Matches block_size src dest i s) (same_type→eq s.match_type type h) m

  pub same_run-Run :
      (type : MatchType) (i : ℕ) (ss : List BlockState)
      → Described block_size src dest i ss
      → Run type Anything i (same_run type ss) ss
  unfolding same_run
  same_run-Run type i [] d = tt
  same_run-Run type i (s ∷ ss) d = elim (Bool-cases (same_type s.match_type type)) [
    | inl same ↦ rw same (as_type i s type same d.0, tt, same_run-Run type (i + 1) ss d.1)
    | inr other ↦ rw other tt
  ]

  abbrev pub BlockOffset : ℤ → ℕ → BlockState → Type 0
  BlockOffset base i s = block_offset s i ≡ base

  pub relocate_run-Run :
      (base : ℤ) (i : ℕ) (ss : List BlockState)
      → Described block_size src dest i ss
      → Run relocate (BlockOffset base) i (relocate_run base i ss) ss
  unfolding relocate_run
  relocate_run-Run base i [] d = tt
  relocate_run-Run base i (s ∷ ss) d = elim (Bool-cases (same_type s.match_type relocate)) [
    | inr other ↦ rw other tt
    | inl same ↦ elim (Bool-cases (eq_ℤ (block_offset s i) base)) [
      | inr far ↦ rw (same, far) tt
      | inl near ↦
          rw (same, near)
            (as_type i s relocate same d.0, eq_ℤ→eq _ _ near, relocate_run-Run base (i + 1) ss d.1)
    ]
  ]

  abbrev pub DiffOffset : ℤ → ℕ → BlockState → Type 0
  DiffOffset base i s = diff_offset block_size s i ≡ base

  pub partial_run-Run :
      (base : ℤ) (more i : ℕ) (ss : List BlockState)
      → Described block_size src dest i ss
      → Run partial (DiffOffset base) i (partial_run block_size base more i ss) ss
        × (partial_run block_size base more i ss ≤ more)
  unfolding partial_run
  partial_run-Run base zero i ss d = (tt, omega arith)
  partial_run-Run base (suc more) i [] d = (tt, omega arith)
  partial_run-Run base (suc more) i (s ∷ ss) d =
      elim (Bool-cases (same_type s.match_type partial)) [
        | inr other ↦ rw other (tt, omega arith)
        | inl same ↦ elim (Bool-cases (eq_ℤ (diff_offset block_size s i) base)) [
          | inr far ↦ rw (same, far) (tt, omega arith)
          | inl near ↦
              let (run, short) = partial_run-Run base more (i + 1) ss d.1 in
              rw (same, near) ((as_type i s partial same d.0, eq_ℤ→eq _ _ near, run), omega arith)
        ]
      ]
