-- ===== src/Reader.antt =====
-- The data pointers of src/io/source_reader.c and src/io/mmap_reader.c. An image of no bytes is not mapped, so that
-- its pointer with the mmap backend is null, which is `none`; the direct backend gives it a valid one.
use fsdiff.Prelude.{ℕ, ◌<◌, ◌≡◌, Bool, true, List, [], ◌∷◌, Option, none, some, length, arith, refl}
use fsdiff.Status.{Result, ok, ◌>>=◌, ◌>>◌, guard, out_of_memory}

-- `fsd_backend_t`
pub data Backend : Type 0 where
  mmap_backend direct_backend : Backend

-- `fsd_mmap_data`, after `fsd_mmap_open`.
unfoldable pub mmap_data : List ℕ → Option (List ℕ)
mmap_data [] = none
mmap_data (b ∷ image) = some (b ∷ image)

-- `direct_materialize`, on the results of `posix_memalign` and of `pread_full`: the buffer.
unfoldable pub direct_materialize : Bool → Result (Unit {0}) → List ℕ → Result (List ℕ)
direct_materialize posix_memalign pread [] = ok []
direct_materialize posix_memalign pread (b ∷ image) = do
  guard posix_memalign out_of_memory
  pread
  ok (b ∷ image)

-- `fsd_source_reader_data`
unfoldable pub source_reader_data :
    Backend → Bool → Result (Unit {0}) → List ℕ → Result (Option (List ℕ))
unfolding mmap_data direct_materialize
source_reader_data mmap_backend posix_memalign pread image = ok (mmap_data image)
source_reader_data direct_backend posix_memalign pread image = do
  slurp ← direct_materialize posix_memalign pread image
  ok (some slurp)

pub mmap_data_lem : (image : List ℕ) → 0 < length image → mmap_data image ≡ some image
unfolding mmap_data
mmap_data_lem [] h = absurd (omega (arith, h))
mmap_data_lem (b ∷ image) h = refl

-- Both backends give the bytes of an image that has some, where memory suffices and the reads succeed.
pub source_reader_data_lem :
    (backend : Backend) (image : List ℕ)
    → 0 < length image
    → source_reader_data backend true (ok tt) image ≡ ok (some image)
unfolding source_reader_data
source_reader_data_lem backend [] h = absurd (omega (arith, h))
source_reader_data_lem mmap_backend (b ∷ image) h = refl
source_reader_data_lem direct_backend (b ∷ image) h = refl
