-- ===== src/Stages.antt =====
-- src/stages: the matching stages, which give the tracker's blocks their matches. The pointers are taken
-- to be non-null, and the verbose output is left out. An image in memory has fewer than 2^63 bytes,
-- so that positions in one are exact in `size_t` and in `int64_t`.
pub mod Identity
pub mod Relocation
pub mod Match
pub mod Search
pub mod Partial
pub mod Fsmap
pub mod Controller
pub mod Invariant
pub mod Index
pub mod Best
pub mod Quick
pub mod Cancel
pub mod Steps
pub mod Sound
pub mod SoundPartial
pub mod SoundRun
pub mod Returns
pub mod Created
use fsdiff.Prelude.{ℕ, Bool, true, false, List, [], ◌∷◌, Option, none, some, ◌==◌, if◌then◌else◌}
use fsdiff.Simd.{Dispatch, only_words, scalar_count_matches}

-- `memcmp(a, b, n) == 0`
unfoldable pub same_block : List ℕ → List ℕ → Bool
same_block [] [] = true
same_block (a ∷ xs) (b ∷ ys) = let rest = same_block xs ys in if a == b then rest else false
same_block _ _ = false

-- A call through the dispatch table, or the fallback where the pointer is null.
abbrev pub dispatch_or {ℓ} : {A : Type ℓ} → Option A → A → A
dispatch_or none fallback = fallback
dispatch_or (some routine) fallback = routine

-- `is_zero_block` and `is_one_block` of src/stages/stage_identity.c
unfoldable pub is_zero_block : Dispatch → List ℕ → Bool
is_zero_block simd block = dispatch_or simd.is_zero (only_words 0 0) block

unfoldable pub is_one_block : Dispatch → List ℕ → Bool
is_one_block simd block = dispatch_or simd.is_one (only_words 0xFFFFFFFFFFFFFFFF 0xFF) block

-- `fsd_block_search_count_fn`
unfoldable pub count_fn_of : Dispatch → List ℕ → List ℕ → ℕ
count_fn_of simd = dispatch_or simd.count_matches scalar_count_matches
