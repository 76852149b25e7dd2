-- ===== src/HashTable.antt =====
-- src/core/hash_table.c: the source blocks by their CRC-32. A chain of entries is a list, and null the empty
-- list; the pool's allocations are parameters.
use fsdiff.Prelude.{
  ℕ, ◌+◌, ◌-◌, ◌*◌, ◌/◌, ◌%◌, ◌<◌, ◌≡◌, ◌≢◌, Bool, true, false, List, [], ◌∷◌, get_or, set, length,
  replicate, ltb, ◌==◌, if◌then◌else◌, bit_or, arith, refl, length-set, get_or-set_self,
  get_or-set_ne, Bool-cases, inl, inr,
}
use native.Mathlib.Nat.{mod-lt}
use fsdiff.Status.{Result, ok, ◌>>◌, guard, out_of_memory}
use fsdiff.Wire.{u64, shr}

-- `fsd_hash_entry_t`, without its `next`
pub record Entry : Type 0 where
  pub crc32 : ℕ
  pub block_index : ℕ

-- `fsd_hash_table_t`; `bucket_count` is the length of `buckets`.
pub record HashTable : Type 0 where
  pub buckets : List (List Entry)
  pub entry_count : ℕ

-- MIN_BUCKETS
abbrev pub min_buckets : ℕ
min_buckets = 1024

-- `next_power_of_2`, for a 64-bit `size_t`
unfoldable pub next_power_of_2 : ℕ → ℕ
next_power_of_2 n =
    if n == 0
    then 1
    else (let n0 = n - 1 in
        let n1 = bit_or n0 (shr n0 1) in
        let n2 = bit_or n1 (shr n1 2) in
        let n3 = bit_or n2 (shr n2 4) in
        let n4 = bit_or n3 (shr n3 8) in
        let n5 = bit_or n4 (shr n4 16) in let n6 = bit_or n5 (shr n5 32) in u64 (n6 + 1))

-- `fsd_hash_table_create`. `alloc_table` and `alloc_buckets` say whether the pool has room.
unfoldable pub table_create : Bool → Bool → ℕ → Result HashTable
unfolding next_power_of_2
table_create alloc_table alloc_buckets expected_entries = do
  let wanted = u64 (expected_entries * 4) / 3
  let bucket_count = next_power_of_2 (if ltb wanted min_buckets then min_buckets else wanted)
  guard alloc_table out_of_memory
  guard alloc_buckets out_of_memory
  ok (record { buckets = replicate bucket_count []; entry_count = 0 })

-- `hash_to_bucket`
abbrev pub hash_to_bucket : ℕ → ℕ → ℕ
hash_to_bucket crc32 bucket_count = crc32 % bucket_count

-- `fsd_hash_table_insert`
unfoldable pub insert : Bool → HashTable → ℕ → ℕ → HashTable
insert false table crc32 block_index = table
insert true table crc32 block_index =
    let bucket = hash_to_bucket crc32 (length table.buckets) in
    let entry : Entry = record { crc32 = crc32; block_index = block_index } in
    record {
      buckets = set table.buckets bucket (entry ∷ get_or table.buckets bucket []);
      entry_count = table.entry_count + 1;
    }

-- `while (entry)`
unfoldable pub find : List Entry → ℕ → List Entry
find [] crc32 = []
find (entry ∷ next) crc32 =
    let rest = find next crc32 in if entry.crc32 == crc32 then entry ∷ next else rest

-- `fsd_hash_table_lookup`: the chain from the entry that it returns.
unfoldable pub lookup : HashTable → ℕ → List Entry
unfolding find
lookup table crc32 =
    find (get_or table.buckets (hash_to_bucket crc32 (length table.buckets)) []) crc32

-- A lookup in the bucket that an insertion changed.
find-head :
    (crc32 block_index : ℕ) (chain : List Entry)
    → find (record { crc32 = crc32; block_index = block_index } ∷ chain) crc32
      ≡ record { crc32 = crc32; block_index = block_index } ∷ chain
unfolding find
find-head crc32 block_index chain = ground arith

find-tail :
    (crc32 block_index other : ℕ) (chain : List Entry)
    → other ≢ crc32
    → find (record { crc32 = crc32; block_index = block_index } ∷ chain) other ≡ find chain other
unfolding find
find-tail crc32 block_index other chain ne = ground arith

-- In a table with a bucket, an entry that is inserted is what a lookup of its CRC-32 finds, before the older
-- ones of its bucket, and a lookup of any other CRC-32 finds what it found before.
pub lookup-insert :
    (table : HashTable) (crc32 block_index other : ℕ)
    → 0 < length table.buckets
    → other ≢ crc32
    → (lookup (insert true table crc32 block_index) crc32
        ≡ record { crc32 = crc32; block_index = block_index }
          ∷ get_or table.buckets (hash_to_bucket crc32 (length table.buckets)) [])
      × (lookup (insert true table crc32 block_index) other ≡ lookup table other)
unfolding lookup insert
lookup-insert table crc32 block_index other h ne = (
  rw (size, get_or-set_self table.buckets mine (entry ∷ chain) [] (mod-lt crc32 h))
      (find-head crc32 block_index chain),
  rw size (elim (Bool-cases (mine == theirs)) [
    | inl same ↦
        let e : mine ≡ theirs = ground (arith, same) in
        rw (← e, get_or-set_self table.buckets mine (entry ∷ chain) [] (mod-lt crc32 h))
          (find-tail crc32 block_index other chain ne)
    | inr apart ↦
        let e : mine ≢ theirs = λ e. ground (arith, apart) in
        rw (get_or-set_ne table.buckets mine theirs (entry ∷ chain) [] e) refl
  ]),
)
  where
    mine : ℕ
    mine = hash_to_bucket crc32 (length table.buckets)

    theirs : ℕ
    theirs = hash_to_bucket other (length table.buckets)

    entry : Entry
    entry = record { crc32 = crc32; block_index = block_index }

    chain : List Entry
    chain = get_or table.buckets mine []

    size : length (set table.buckets mine (entry ∷ chain)) ≡ length table.buckets
    size = length-set table.buckets mine (entry ∷ chain)
