-- ===== src/Stages/Relocation.antt =====
-- src/stages/stage_relocation.c: the second stage.
use fsdiff.Prelude.{
  ℕ, zero, suc, ◌+◌, ◌-◌, ◌*◌, ◌/◌, Bool, true, false, not, ◌&&◌, List, [], ◌∷◌, Option, none, some,
  drop, length, ltb, leb, ◌==◌, if◌then◌else◌,
}
use fsdiff.Status.{Result, ok, err, ◌>>=◌, ◌>>◌, guard, invalid_arg, out_of_memory, not_initialized}
use fsdiff.Crc32.{crc32}
use fsdiff.Simd.{load_word}
use fsdiff.HashTable.{Entry, HashTable, table_create, insert, lookup}
use fsdiff.Encoder.Emit.{slice}
use fsdiff.Tracker.{BlockState, relocate}
use fsdiff.Tracker.Operations.{Tracker, set_match, is_unmatched, get}
use fsdiff.Stages.{same_block}

-- `ptr[i]`, for a block that has the word.
unfoldable pub first_word : List ℕ → ℕ
first_word (a ∷ b ∷ c ∷ d ∷ e ∷ f ∷ g ∷ h ∷ _) = load_word a b c d e f g h
first_word _ = 0

unfoldable pub word_at : List ℕ → ℕ → ℕ
unfolding first_word
word_at block i = first_word (drop (i * 8) block)

-- The loop over the words of a block; bytes after the last word are not read.
unfoldable pub words_zero : List ℕ → Bool
words_zero (a ∷ b ∷ c ∷ d ∷ e ∷ f ∷ g ∷ h ∷ rest) =
    let more = words_zero rest in if load_word a b c d e f g h == 0 then more else false
words_zero _ = true

-- `is_zero_block_quick`
unfoldable pub is_zero_block_quick : List ℕ → Bool
unfolding word_at words_zero
is_zero_block_quick block =
    if leb 16 (length block) && not (word_at block 0 == 0)
    then false
    else if leb 16 (length block) && not (word_at block (length block / 8 - 1) == 0)
    then false
    else words_zero block

-- `fsd_relocation_stage_t`, without its memory pool; a null `src_hash` is `none`.
pub record RelocationStage : Type 0 where
  pub block_size : ℕ
  pub src_blocks : ℕ
  pub src_hash : Option HashTable

-- `fsd_relocation_stage_create`. `calloc` and `pool` say whether the allocations succeed.
unfoldable pub relocation_create : Bool → Bool → ℕ → ℕ → Result RelocationStage
relocation_create calloc pool block_size src_blocks = do
  guard (ltb 0 block_size) invalid_arg
  guard calloc out_of_memory
  guard pool out_of_memory
  ok (record { block_size = block_size; src_blocks = src_blocks; src_hash = none })

module _ (block_size : ℕ) (src : List ℕ) where
  -- The loop of `fsd_relocation_stage_build_index`. `alloc i` says whether the pool has room for the
  -- entry of block `i`; the code ignores a failure.
  unfoldable pub index_loop : (ℕ → Bool) → ℕ → ℕ → HashTable → HashTable
  unfolding is_zero_block_quick
  index_loop alloc zero i table = table
  index_loop alloc (suc n) i table =
      let block = slice src (i * block_size) block_size in
      index_loop alloc n (i + 1)
        (if is_zero_block_quick block then table else insert (alloc i) table (crc32 block) i)

-- `fsd_relocation_stage_build_index`
unfoldable pub relocation_build_index :
    Bool → Bool → (ℕ → Bool) → RelocationStage → List ℕ → Result RelocationStage
unfolding index_loop
relocation_build_index alloc_table alloc_buckets alloc stage src = do
  table ← table_create alloc_table alloc_buckets stage.src_blocks
  ok (record stage {
    src_hash = some (index_loop stage.block_size src alloc stage.src_blocks 0 table);
  })

module _ (block_size : ℕ) (src dest : List ℕ) where
  -- `while (entry)`: the chain from the entry that the lookup returns.
  unfoldable pub chain_loop : ℕ → List Entry → Tracker → Tracker
  chain_loop dest_idx [] t = t
  chain_loop dest_idx (entry ∷ next) t =
      let rest = chain_loop dest_idx next t in
      if entry.block_index == dest_idx
      then rest
      else if same_block (slice src (entry.block_index * block_size) block_size)
          (slice dest (dest_idx * block_size) block_size)
      then set_match t dest_idx relocate entry.block_index
      else rest

  -- The search for one unmatched block.
  unfoldable pub relocate_state : HashTable → ℕ → Tracker → Option BlockState → Tracker
  unfolding chain_loop
  relocate_state table dest_idx t none = t
  relocate_state table dest_idx t (some state) = chain_loop dest_idx (lookup table state.crc32) t

  -- The loop over the destination blocks, with `n` to go.
  unfoldable pub relocation_loop : HashTable → ℕ → ℕ → Tracker → Tracker
  unfolding relocate_state
  relocation_loop table zero dest_idx t = t
  relocation_loop table (suc n) dest_idx t =
      relocation_loop table n (dest_idx + 1)
        (if is_unmatched t dest_idx then relocate_state table dest_idx t (get t dest_idx) else t)

-- `fsd_relocation_stage_run`
unfoldable pub relocation_run : RelocationStage → Tracker → List ℕ → List ℕ → Result Tracker
unfolding relocation_loop
relocation_run stage tracker src dest = search stage.src_hash
  where
    search : Option HashTable → Result Tracker
    search none = err not_initialized
    search (some table) =
        ok (relocation_loop stage.block_size src dest table (length tracker.blocks) 0 tracker)
