-- ===== src/Wire/RoundTrip.antt =====
-- What the little-endian readers return, and that they read back what the writers wrote.
use fsdiff.Prelude.{length, refl, ℕ, ◌+◌, ◌*◌, ◌/◌, ◌%◌, ◌^◌, ◌<◌, ◌≡◌, List, ◌++◌, arith, bit_or}
use fsdiff.Prelude.Bits.{bit_or-shift}
use fsdiff.Status.{ok}
use fsdiff.Wire.{u16_le, u32_le, le16, le24, le32, read_u16, read_u32, read_u64_le, shr, low_byte}

pub le16_sum : (a b : ℕ) → a < 256 → le16 a b ≡ a + b * 256
unfolding le16
le16_sum a b h = omega (arith, bit_or-shift 8 a b h)

pub le24_sum : (a b c : ℕ) → a < 256 → b < 256 → le24 a b c ≡ a + b * 256 + c * 65536
unfolding le24
le24_sum a b c ha hb =
    omega (arith, le16_sum a b ha, bit_or-shift 16 (le16 a b) c (omega (arith, le16_sum a b ha)))

pub le32_sum :
    (a b c d : ℕ)
    → a < 256
    → b < 256
    → c < 256
    → le32 a b c d ≡ a + b * 256 + c * 65536 + d * 16777216
unfolding le32
le32_sum a b c d ha hb hc = omega (
  arith,
  le24_sum a b c ha hb,
  bit_or-shift 24 (le24 a b c) d (omega (arith, le24_sum a b c ha hb)),
)

pub u64_sum :
    (a b c d e f g h : ℕ)
    → a < 256
    → b < 256
    → c < 256
    → d < 256
    → e < 256
    → f < 256
    → g < 256
    → read_u64_le a b c d e f g h
      ≡ a + b * 2 ^ 8 + c * 2 ^ 16 + d * 2 ^ 24 + e * 2 ^ 32 + f * 2 ^ 40 + g * 2 ^ 48 + h * 2 ^ 56
unfolding read_u64_le
u64_sum a b c d e f g h ha hb hc hd he hf hg = omega (arith, e4, e5, e6, e7, e8)
  where
    e4 : le32 a b c d ≡ a + b * 256 + c * 65536 + d * 16777216
    e4 = le32_sum a b c d ha hb hc

    e5 : bit_or (le32 a b c d) (e * 2 ^ 32) ≡ le32 a b c d + e * 2 ^ 32
    e5 = bit_or-shift 32 _ e (omega (arith, e4))

    e6 :
        bit_or (bit_or (le32 a b c d) (e * 2 ^ 32)) (f * 2 ^ 40)
        ≡ bit_or (le32 a b c d) (e * 2 ^ 32) + f * 2 ^ 40
    e6 = bit_or-shift 40 _ f (omega (arith, e4, e5))

    e7 :
        bit_or (bit_or (bit_or (le32 a b c d) (e * 2 ^ 32)) (f * 2 ^ 40)) (g * 2 ^ 48)
        ≡ bit_or (bit_or (le32 a b c d) (e * 2 ^ 32)) (f * 2 ^ 40) + g * 2 ^ 48
    e7 = bit_or-shift 48 _ g (omega (arith, e4, e5, e6))

    e8 :
        bit_or
          (bit_or (bit_or (bit_or (le32 a b c d) (e * 2 ^ 32)) (f * 2 ^ 40)) (g * 2 ^ 48))
          (h * 2 ^ 56)
        ≡ bit_or (bit_or (bit_or (le32 a b c d) (e * 2 ^ 32)) (f * 2 ^ 40)) (g * 2 ^ 48)
          + h * 2 ^ 56
    e8 = bit_or-shift 56 _ h (omega (arith, e4, e5, e6, e7))

pub read_u16-u16_le :
    (v : ℕ) (rest : List ℕ) → v < 2 ^ 16 → read_u16 (u16_le v ++ rest) ≡ ok (v, rest)
unfolding read_u16 u16_le
read_u16-u16_le v rest h =
    let e : le16 (v % 256) (v / 2 ^ 8 % 256) ≡ v =
      omega (arith, le16_sum (v % 256) (v / 2 ^ 8 % 256) (omega arith)) in
    rw e

pub read_u32-u32_le :
    (v : ℕ) (rest : List ℕ) → v < 2 ^ 32 → read_u32 (u32_le v ++ rest) ≡ ok (v, rest)
unfolding read_u32 u32_le
read_u32-u32_le v rest h =
    let e : le32 (v % 256) (v / 2 ^ 8 % 256) (v / 2 ^ 16 % 256) (v / 2 ^ 24 % 256) ≡ v = omega (
      arith,
      le32_sum (v % 256) (v / 2 ^ 8 % 256) (v / 2 ^ 16 % 256) (v / 2 ^ 24 % 256) (omega arith)
          (omega arith) (omega arith),
    ) in
    rw e

-- `write_u64_le` and `read_u64_le` are inverse to each other on 64-bit numbers.
pub read_u64_le-u64_le :
    (v : ℕ)
    → v < 2 ^ 64
    → read_u64_le
        (low_byte v)
        (low_byte (shr v 8))
        (low_byte (shr v 16))
        (low_byte (shr v 24))
        (low_byte (shr v 32))
        (low_byte (shr v 40))
        (low_byte (shr v 48))
        (low_byte (shr v 56))
      ≡ v
read_u64_le-u64_le v h = omega (
  arith,
  u64_sum (v % 256) (v / 2 ^ 8 % 256) (v / 2 ^ 16 % 256) (v / 2 ^ 24 % 256) (v / 2 ^ 32 % 256)
      (v / 2 ^ 40 % 256) (v / 2 ^ 48 % 256) (v / 2 ^ 56 % 256) (omega arith) (omega arith)
      (omega arith) (omega arith) (omega arith) (omega arith) (omega arith),
)

pub length-u16_le : (v : ℕ) → length (u16_le v) ≡ 2
unfolding u16_le
length-u16_le v = refl

pub length-u32_le : (v : ℕ) → length (u32_le v) ≡ 4
unfolding u32_le
length-u32_le v = refl
