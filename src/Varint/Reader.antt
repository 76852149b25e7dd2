-- ===== src/Varint/Reader.antt =====
-- `read_varint` on any input, written by `encode_varint` or not.
use fsdiff.Prelude.{
  ℕ, zero, suc, ◌+◌, ◌*◌, ◌^◌, ◌≤◌, ◌<◌, ◌≡◌, List, [], ◌∷◌, ◌++◌, arith, All, length, take,
  bit_and, bit_or,
}
use fsdiff.Prelude.Bits.{top_bit}
use fsdiff.Status.{ok, err, corrupt_data}
use fsdiff.Wire.{IsByte, u64}
use fsdiff.Varint.{read_loop, read_varint}

abbrev next_value : ℕ → ℕ → ℕ → ℕ
next_value b value shift = bit_or value (u64 (bit_and b 0x7F * 2 ^ shift))

-- After `j` bytes the shift is 7 * j, and it never passes 63.
read_loop_takes :
    (stream : List ℕ) (value shift j v : ℕ) (rest : List ℕ)
    → shift ≡ 7 * j
    → j ≤ 9
    → read_loop stream value shift ≡ ok (v, rest)
    → (length rest < length stream) × (length stream + j ≤ length rest + 10)
unfolding read_loop
read_loop_takes [] value shift j v rest hs hj e = cc
read_loop_takes (b ∷ bs) value shift j v rest hs hj e =
    ground (arith, read_loop_takes bs (next_value b value shift) (shift + 7) (j + 1) v rest)

-- A successful `read_varint` takes 1 to 10 bytes.
pub read_varint_takes :
    (stream : List ℕ) (v : ℕ) (rest : List ℕ)
    → read_varint stream ≡ ok (v, rest)
    → (length rest < length stream) × (length stream ≤ length rest + 10)
unfolding read_varint
read_varint_takes stream v rest e = ground (arith, read_loop_takes stream 0 0 0 v rest)

abbrev pub IsFlagged : ℕ → Type 0
IsFlagged b = 128 ≤ b

-- With `k` bytes to go before the shift passes 63.
read_loop_corrupt :
    (stream : List ℕ) (value shift j k : ℕ)
    → shift ≡ 7 * j
    → j + k ≡ 9
    → All IsByte stream
    → read_loop stream value shift ≡ err corrupt_data
    → (suc k ≤ length stream) × All IsFlagged (take (suc k) stream)
unfolding read_loop
read_loop_corrupt [] value shift j k hs hj hb e = cc
read_loop_corrupt (b ∷ bs) value shift j zero hs hj hb e = ground (arith, top_bit b)
read_loop_corrupt (b ∷ bs) value shift j (suc k) hs hj hb e = ground (
  arith,
  top_bit b,
  read_loop_corrupt bs (next_value b value shift) (shift + 7) (j + 1) k (omega arith) (omega arith)
      hb.1,
)

-- On a stream of bytes, `read_varint` reports corrupt data only if the stream has ten bytes or more
-- and each of its first ten says that another follows.
pub read_varint_corrupt :
    (stream : List ℕ)
    → All IsByte stream
    → read_varint stream ≡ err corrupt_data
    → (10 ≤ length stream) × All IsFlagged (take 10 stream)
unfolding read_varint
read_varint_corrupt stream hb e = read_loop_corrupt stream 0 0 0 9 (omega arith) (omega arith) hb e

read_loop-append :
    (stream more : List ℕ) (value shift v : ℕ) (rest : List ℕ)
    → read_loop stream value shift ≡ ok (v, rest)
    → read_loop (stream ++ more) value shift ≡ ok (v, rest ++ more)
unfolding read_loop
read_loop-append [] more value shift v rest e = cc
read_loop-append (b ∷ bs) more value shift v rest e =
    ground (arith, read_loop-append bs more (next_value b value shift) (shift + 7) v rest)

-- `read_varint` does not look past the number: bytes added behind the input join the rest.
pub read_varint-append :
    (stream more : List ℕ) (v : ℕ) (rest : List ℕ)
    → read_varint stream ≡ ok (v, rest)
    → read_varint (stream ++ more) ≡ ok (v, rest ++ more)
unfolding read_varint
read_varint-append stream more = read_loop-append stream more 0 0
