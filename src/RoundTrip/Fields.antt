-- ===== src/RoundTrip/Fields.antt =====
-- The fields of OP_COPY_RELOCATE and OP_COPY_ADD behind their first byte: counts without an inline
-- form, block offsets with a sign, and byte offsets in two's complement.
use fsdiff.Prelude.{
  ℕ, ◌*◌, ◌/◌, ◌%◌, ◌^◌, ◌≤◌, ◌<◌, ◌≡◌, ap, ◌∙◌, arith, List, [], ◌∷◌, ◌++◌, leb, Bool-cases, inl,
  inr, tests, leb→le, length,
}
use native.Mathlib.Nat.{mod-lt}
use fsdiff.Prelude.Int.{ℤ, pos, negsuc, pos_part, neg_part}
use fsdiff.Status.{Result, ok}
use fsdiff.Wire.{u8, u16, u32, read_u8, read_u24, u16_le, u32_le, low_byte, shr, le24}
use fsdiff.Wire.RoundTrip.{read_u16-u16_le, read_u32-u32_le, le24_sum, length-u16_le, length-u32_le}
use fsdiff.Signed.{to_signed, of_signed, to_signed-of_signed, is_negative, abs}
use fsdiff.Sink.{Sink, Appends, Appends-bind}
use fsdiff.Encoder.Format.{less_one}
use fsdiff.Encoder.Count.{count_enc, write_count}
use fsdiff.Encoder.Emit.{
  block_offset_enc, diff_offset_enc, write_block_offset, write_diff_offset, bool_bit,
}
use fsdiff.Decoder.Reads.{read_count_as, read_block_offset, with_sign, read_diff_offset}
use fsdiff.RoundTrip.Counts.{read_count_as_lem}

-- A call that appended some bytes, and what a reader makes of them before any rest.
pub record Field {A : Type 0} (sink : Sink) (w : sink.W) (r : Result sink.W)
    (reader : List ℕ → Result (A × List ℕ)) (value : A) : Type 0 where
  pub bytes : List ℕ
  pub short : length bytes ≤ 4
  pub appends : Appends sink.written sink.ready w bytes r
  pub reads : (rest : List ℕ) → reader (bytes ++ rest) ≡ ok (value, rest)

pub count_enc-lt : (count : ℕ) → count_enc count < 3
unfolding count_enc
count_enc-lt count = ground arith

pub block_offset_enc-lt : (n : ℕ) → block_offset_enc n < 3
unfolding block_offset_enc
block_offset_enc-lt n = ground arith

pub diff_offset_enc-lt : (n : ℕ) → diff_offset_enc n < 3
unfolding diff_offset_enc
diff_offset_enc-lt n = ground arith

-- The two's complement patterns that the writer stores, as the reader's signed integers.
pattern_24 : (z : ℤ) → abs z ≤ 0x7FFFFF → of_signed (2 ^ 32) z % 2 ^ 24 ≡ of_signed (2 * 2 ^ 23) z
pattern_24 (pos n) h = omega arith
pattern_24 (negsuc n) h = omega arith

low_24 : (v : ℕ) → le24 (low_byte v) (low_byte (shr v 8)) (low_byte (shr v 16)) ≡ v % 2 ^ 24
low_24 v =
    omega
      (arith, le24_sum (v % 256) (v / 2 ^ 8 % 256) (v / 2 ^ 16 % 256) (omega arith) (omega arith))

abbrev three_bytes : ℕ → List ℕ
three_bytes v = low_byte v ∷ low_byte (shr v 8) ∷ low_byte (shr v 16) ∷ []

read_three_bytes :
    (z : ℤ) (rest : List ℕ)
    → abs z ≤ 0x7FFFFF
    → read_diff_offset 1 (three_bytes (of_signed (2 ^ 32) z) ++ rest) ≡ ok (z, rest)
unfolding read_diff_offset read_u24
read_three_bytes z rest h =
    ap (λ (t : ℤ). ok (t, rest))
      (ap (to_signed (2 ^ 23)) (low_24 (of_signed (2 ^ 32) z) ∙ pattern_24 z h)
        ∙ to_signed-of_signed (2 ^ 23) z (omega arith) (omega arith))

pattern_range : (m : ℕ) (z : ℤ) → 0 < m → of_signed m z < m
pattern_range m (pos n) h = mod-lt n h
pattern_range m (negsuc n) h = omega arith

module _ (sink : Sink) (w : sink.W) (ready : sink.ready w) where
  open sink use {W, written, write_byte_appends, write_appends}

  -- A count of OP_COPY_RELOCATE or OP_COPY_ADD, up to its low 32 bits.
  pub write_count-Field :
      (count : ℕ) (inline : Result (ℕ × List ℕ))
      → 1 ≤ count
      → count < 2 ^ 64
      → Field sink w (write_count sink w count) (read_count_as (count_enc count) inline) (u32 count)
  write_count-Field count inline lo hi = elim (Bool-cases (leb count 256)) [
    | inl byte ↦
        unfold write_count count_enc in
        rw byte (record {
          bytes = u8 (less_one count) ∷ [];
          short = omega arith;
          appends = write_byte_appends w _ ready;
          reads = λ rest. (read_count_as_lem count inline rest lo hi).0 (ground arith);
        })
    | inr h256 ↦ elim (Bool-cases (leb count 65536)) [
      | inl word ↦
          unfold write_count count_enc in
          rw (h256, word)
            (record {
              bytes = u16_le (u16 (less_one count));
              short = omega (arith, length-u16_le (u16 (less_one count)));
              appends = write_appends w _ ready;
              reads = λ rest. (read_count_as_lem count inline rest lo hi).1 (ground arith);
            })
      | inr large ↦
          unfold write_count count_enc in
          rw (h256, large)
            (record {
              bytes = u32_le (u32 count);
              short = omega (arith, length-u32_le (u32 count));
              appends = write_appends w _ ready;
              reads = λ rest. (read_count_as_lem count inline rest lo hi).2;
            })
    ]
  ]

  pub write_block_offset-Field :
      (n : ℕ)
      → n < 2 ^ 32
      → Field sink w (write_block_offset sink w n) (read_block_offset (block_offset_enc n)) n
  write_block_offset-Field n hn = elim (Bool-cases (leb n 0xFF)) [
    | inl byte ↦
        unfold write_block_offset block_offset_enc read_block_offset read_u8 in
        rw byte (record {
          bytes = u8 n ∷ [];
          short = omega arith;
          appends = write_byte_appends w _ ready;
          reads = λ rest. ap (λ (t : ℕ). ok (t, rest)) (ground arith);
        })
    | inr h ↦ elim (Bool-cases (leb n 0xFFFF)) [
      | inl word ↦
          unfold write_block_offset block_offset_enc read_block_offset in
          rw (h, word)
            (record {
              bytes = u16_le (u16 n);
              short = omega (arith, length-u16_le (u16 n));
              appends = write_appends w _ ready;
              reads = λ rest.
                  read_u16-u16_le (u16 n) rest (omega arith)
                  ∙ ap (λ (t : ℕ). ok (t, rest)) (ground arith);
            })
      | inr large ↦
          unfold write_block_offset block_offset_enc read_block_offset in
          rw (h, large)
            (record {
              bytes = u32_le (u32 n);
              short = omega (arith, length-u32_le (u32 n));
              appends = write_appends w _ ready;
              reads = λ rest.
                  read_u32-u32_le (u32 n) rest (omega arith)
                  ∙ ap (λ (t : ℕ). ok (t, rest)) (omega arith);
            })
    ]
  ]

  -- The byte offset of OP_COPY_ADD, in the range of `int32_t`.
  pub write_diff_offset-Field :
      (z : ℤ)
      → pos_part z < 2 ^ 31
      → neg_part z ≤ 2 ^ 31
      → Field sink w (write_diff_offset sink w z) (read_diff_offset (diff_offset_enc (abs z))) z
  write_diff_offset-Field z hp hn = elim (Bool-cases (leb (abs z) 0x7FFF)) [
    | inl two ↦
        unfold write_diff_offset diff_offset_enc read_diff_offset in
        rw two (record {
          bytes = u16_le (of_signed (2 ^ 16) z);
          short = omega (arith, length-u16_le (of_signed (2 ^ 16) z));
          appends = write_appends w _ ready;
          reads = λ rest.
              rw
                (read_u16-u16_le (of_signed (2 ^ 16) z) rest
                  (pattern_range (2 ^ 16) z (omega arith)))
                (ap (λ (t : ℤ). ok (t, rest))
                  (to_signed-of_signed (2 ^ 15) z (omega tests) (omega tests)));
        })
    | inr h ↦ elim (Bool-cases (leb (abs z) 0x7FFFFF)) [
      | inl three ↦
          unfold write_diff_offset diff_offset_enc in
          rw (h, three)
            (record {
              bytes = three_bytes (of_signed (2 ^ 32) z);
              short = omega arith;
              appends =
                  Appends-bind written sink.ready w (_ ∷ []) _ _ _ (write_byte_appends w _ ready)
                    λ v r.
                      Appends-bind written sink.ready v (_ ∷ []) _ _ _ (write_byte_appends v _ r)
                        λ v' r'. write_byte_appends v' _ r';
              reads = λ rest. read_three_bytes z rest (leb→le _ _ three);
            })
      | inr large ↦
          unfold write_diff_offset diff_offset_enc read_diff_offset in
          rw (h, large)
            (record {
              bytes = u32_le (of_signed (2 ^ 32) z);
              short = omega (arith, length-u32_le (of_signed (2 ^ 32) z));
              appends = write_appends w _ ready;
              reads = λ rest.
                  rw
                    (read_u32-u32_le (of_signed (2 ^ 32) z) rest
                      (pattern_range (2 ^ 32) z (omega arith)))
                    (ap (λ (t : ℤ). ok (t, rest)) (to_signed-of_signed (2 ^ 31) z hp hn));
            })
    ]
  ]

-- The sign bit of OP_COPY_RELOCATE.
pub with_sign-abs : (z : ℤ) → with_sign (bool_bit (is_negative z)) (abs z) ≡ z
with_sign-abs (pos n) = ground arith
with_sign-abs (negsuc n) = ground arith

-- For a byte offset that an `int32_t` holds, the offset bytes of OP_COPY_ADD, at most four, are written
-- by a writer that takes everything, and the reader with the offset's encoding takes them off the
-- front of any stream and returns the offset.
pub read_diff_offset-write_diff_offset :
    (sink : Sink) (w : sink.W) (offset : ℤ)
    → sink.ready w
    → pos_part offset < 2 ^ 31
    → neg_part offset ≤ 2 ^ 31
    → (bytes : List ℕ) × (final : sink.W) × (write_diff_offset sink w offset ≡ ok final)
      × (sink.written final ≡ sink.written w ++ bytes)
      × (length bytes ≤ 4)
      × ((rest : List ℕ)
          → read_diff_offset (diff_offset_enc (abs offset)) (bytes ++ rest) ≡ ok (offset, rest))
read_diff_offset-write_diff_offset sink w offset ready hp hn =
    let k = write_diff_offset-Field sink w ready offset hp hn in
    (k.bytes, k.appends.final, k.appends.returns, k.appends.contents, k.short, k.reads)

-- For a block offset whose absolute value is below 2^32, the offset bytes of OP_COPY_RELOCATE, at most
-- four, are written by a writer that takes everything, and the reader takes them off the front of
-- any stream; with the sign bit it has the offset again.
pub read_block_offset-write_block_offset :
    (sink : Sink) (w : sink.W) (offset : ℤ)
    → sink.ready w
    → abs offset < 2 ^ 32
    → (bytes : List ℕ) × (final : sink.W) × (write_block_offset sink w (abs offset) ≡ ok final)
      × (sink.written final ≡ sink.written w ++ bytes)
      × (length bytes ≤ 4)
      × ((rest : List ℕ)
          → read_block_offset (block_offset_enc (abs offset)) (bytes ++ rest)
            ≡ ok (abs offset, rest))
      × (with_sign (bool_bit (is_negative offset)) (abs offset) ≡ offset)
read_block_offset-write_block_offset sink w offset ready fits =
    let k = write_block_offset-Field sink w ready (abs offset) fits in
    (
      k.bytes,
      k.appends.final,
      k.appends.returns,
      k.appends.contents,
      k.short,
      k.reads,
      with_sign-abs offset,
    )
