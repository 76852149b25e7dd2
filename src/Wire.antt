-- ===== src/Wire.antt =====
-- Little-endian integers: the byte writers of src/io/buffered_writer.c and
-- src/encoding/bkdf_header.c, and the reads that src/patch.c makes through `op_ptr`.
-- A pointer into a stream with the stream's end is the list of the bytes between them.
pub mod RoundTrip
use fsdiff.Prelude.{ℕ, ◌+◌, ◌*◌, ◌/◌, ◌%◌, ◌^◌, ◌<◌, List, [], ◌∷◌, bit_or}
use fsdiff.Status.{Result, ok, err, truncated}

-- `(uint8_t)x`, `(uint16_t)x`, `(uint32_t)x` and arithmetic in `uint64_t` or `size_t`.
abbrev pub u8 : ℕ → ℕ
u8 x = x % 2 ^ 8

abbrev pub u16 : ℕ → ℕ
u16 x = x % 2 ^ 16

abbrev pub u32 : ℕ → ℕ
u32 x = x % 2 ^ 32

abbrev pub u64 : ℕ → ℕ
u64 x = x % 2 ^ 64

-- `value >> k`, and `value & 0xFF`.
abbrev pub shr : ℕ → ℕ → ℕ
shr x k = x / 2 ^ k

abbrev pub low_byte : ℕ → ℕ
low_byte x = x % 256

abbrev pub IsByte : ℕ → Type 0
IsByte b = b < 256

-- The buffers that `fsd_writer_write_u16_le` and its siblings fill.
unfoldable pub u16_le : ℕ → List ℕ
u16_le v = low_byte v ∷ low_byte (shr v 8) ∷ []

unfoldable pub u32_le : ℕ → List ℕ
u32_le v = low_byte v ∷ low_byte (shr v 8) ∷ low_byte (shr v 16) ∷ low_byte (shr v 24) ∷ []

unfoldable pub u64_le : ℕ → List ℕ
u64_le v =
    low_byte v
    ∷ low_byte (shr v 8)
    ∷ low_byte (shr v 16)
    ∷ low_byte (shr v 24)
    ∷ low_byte (shr v 32)
    ∷ low_byte (shr v 40)
    ∷ low_byte (shr v 48)
    ∷ low_byte (shr v 56)
    ∷ []

-- `p[0] | (p[1] << 8)`, and so on.
pub le16 : ℕ → ℕ → ℕ
le16 a b = bit_or a (b * 2 ^ 8)

pub le24 : ℕ → ℕ → ℕ → ℕ
unfolding le16
le24 a b c = bit_or (le16 a b) (c * 2 ^ 16)

pub le32 : ℕ → ℕ → ℕ → ℕ → ℕ
unfolding le24
le32 a b c d = bit_or (le24 a b c) (d * 2 ^ 24)

-- Reads at the front of a stream, behind the check that the bytes are there.
unfoldable pub read_u8 : List ℕ → Result (ℕ × List ℕ)
read_u8 (a ∷ rest) = ok (a, rest)
read_u8 _ = err truncated

unfoldable pub read_u16 : List ℕ → Result (ℕ × List ℕ)
unfolding le16
read_u16 (a ∷ b ∷ rest) = ok (le16 a b, rest)
read_u16 _ = err truncated

unfoldable pub read_u24 : List ℕ → Result (ℕ × List ℕ)
unfolding le24
read_u24 (a ∷ b ∷ c ∷ rest) = ok (le24 a b c, rest)
read_u24 _ = err truncated

unfoldable pub read_u32 : List ℕ → Result (ℕ × List ℕ)
unfolding le32
read_u32 (a ∷ b ∷ c ∷ d ∷ rest) = ok (le32 a b c d, rest)
read_u32 _ = err truncated

-- `read_u64_le` of src/encoding/bkdf_header.c, at eight bytes of a buffer.
unfoldable pub read_u64_le : ℕ → ℕ → ℕ → ℕ → ℕ → ℕ → ℕ → ℕ → ℕ
unfolding le32
read_u64_le a b c d e f g h =
    bit_or (bit_or (bit_or (bit_or (le32 a b c d) (e * 2 ^ 32)) (f * 2 ^ 40)) (g * 2 ^ 48))
      (h * 2 ^ 56)
