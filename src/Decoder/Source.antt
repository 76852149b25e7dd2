-- ===== src/Decoder/Source.antt =====
-- What src/patch.c uses of a source reader (src/io/source_reader.h), and the reader of a memory-mapped
-- file.
use fsdiff.Prelude.{
  ℕ, ◌+◌, ◌-◌, ◌≤◌, ◌≡◌, List, ltb, ◌==◌, ◌||◌, if◌then◌else◌, length, take, drop, arith,
  length-take, length-drop,
}
use fsdiff.Status.{Result, ok, err, truncated}

-- `image` is what the source holds. A read inside the image returns its bytes, and no read returns
-- more or fewer bytes than it was asked for.
pub record Source : Type 0 where
  pub image : List ℕ
  pub read_at : ℕ → ℕ → Result (List ℕ)
  pub read_at_lem :
      (offset len : ℕ)
      → offset + len ≤ length image
      → read_at offset len ≡ ok (take len (drop offset image))
  pub read_at-length :
      (offset len : ℕ) {block : List ℕ} → read_at offset len ≡ ok block → length block ≡ len

-- `fsd_source_reader_read_at` with the mmap backend.
unfoldable pub mmap_read_at : List ℕ → ℕ → ℕ → Result (List ℕ)
mmap_read_at image offset len =
    if len == 0
    then ok (take 0 image)
    else if ltb (length image) offset || ltb (length image - offset) len
    then err truncated
    else ok (take len (drop offset image))

pub mmap_read_at_lem :
    (image : List ℕ) (offset len : ℕ)
    → offset + len ≤ length image
    → mmap_read_at image offset len ≡ ok (take len (drop offset image))
unfolding mmap_read_at
mmap_read_at_lem image offset len h = ground arith

pub mmap_read_at-length :
    (image : List ℕ) (offset len : ℕ) {block : List ℕ}
    → mmap_read_at image offset len ≡ ok block
    → length block ≡ len
unfolding mmap_read_at
mmap_read_at-length image offset len e =
    ground (arith, length-take len (drop offset image), length-drop offset image)

unfoldable pub mmap_source : List ℕ → Source
mmap_source image = record {
  image = image;
  read_at = mmap_read_at image;
  read_at_lem = mmap_read_at_lem image;
  read_at-length = mmap_read_at-length image;
}
