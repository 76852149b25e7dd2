-- ===== src/RoundTrip/Counts.antt =====
-- The counts of operations: `read_count` of src/patch.c on what `encode_count` wrote.
use fsdiff.Prelude.{
  ℕ, ◌+◌, ◌*◌, ◌/◌, ◌^◌, ◌≤◌, ◌<◌, ◌≡◌, ap, ◌∙◌, arith, bit_or, bit_and, List, [], ◌∷◌, ◌++◌, leb,
  length, true, Bool-cases, inl, inr,
}
use fsdiff.Prelude.Bits.{bit_or-shift_left, bit_and_seven, bit_and_three}
use fsdiff.Status.{Result, ok, ◌>>=◌}
use fsdiff.Wire.{u8, u16, u32, read_u8, u16_le, u32_le}
use fsdiff.Wire.RoundTrip.{read_u16-u16_le, read_u32-u32_le, length-u16_le, length-u32_le}
use fsdiff.Sink.{Sink, Appends, Appends-bind}
use fsdiff.Encoder.Format.{less_one}
use fsdiff.Encoder.Count.{encode_count}
use fsdiff.Decoder.Reads.{op_type, count_field, read_count, read_count_as}

-- The first byte of an operation with the count's encoding `enc` and the low bits `low`.
count_byte :
    (op enc low : ℕ)
    → op < 8
    → enc < 4
    → low < 8
    → (op_type (op * 32 + enc * 8 + low) ≡ op)
      × (count_field (op * 32 + enc * 8 + low) ≡ enc)
      × (bit_and (op * 32 + enc * 8 + low) 0x7 ≡ low)
count_byte op enc low ho he hl = (
  omega (arith, bit_and_seven ((op * 32 + enc * 8 + low) / 2 ^ 5)),
  omega (arith, bit_and_three ((op * 32 + enc * 8 + low) / 2 ^ 3)),
  omega (arith, bit_and_seven (op * 32 + enc * 8 + low)),
)

enc_byte :
    (op enc : ℕ) → op < 8 → enc < 4 → u8 (bit_or (op * 2 ^ 5) (enc * 2 ^ 3)) ≡ op * 32 + enc * 8 + 0
enc_byte op enc ho he = omega (arith, bit_or-shift_left 5 (enc * 2 ^ 3) op (omega arith))

inline_byte :
    (op low : ℕ)
    → op < 8
    → low < 8
    → u8 (bit_or (bit_or (op * 2 ^ 5) (3 * 2 ^ 3)) low) ≡ op * 32 + 3 * 8 + low
inline_byte op low ho hl = omega (arith, e)
  where
    e : bit_or (bit_or (op * 2 ^ 5) (3 * 2 ^ 3)) low ≡ (op * 4 + 3) * 2 ^ 3 + low
    e =
        ap (λ (t : ℕ). bit_or t low) {x = bit_or (op * 2 ^ 5) (3 * 2 ^ 3)}
          {y = (op * 4 + 3) * 2 ^ 3}
          (omega (arith, bit_or-shift_left 5 (3 * 2 ^ 3) op (omega arith)))
        ∙ bit_or-shift_left 3 low (op * 4 + 3) (omega arith)

less_one_lem : (count : ℕ) → 1 ≤ count → count < 2 ^ 64 → less_one count + 1 ≡ count
less_one_lem count lo hi = omega arith

-- The bytes of a count behind its operation, and the count that the reader takes from them.
pub record Counted (sink : Sink) (w : sink.W) (op count : ℕ) (r : Result sink.W) : Type 0 where
  pub first : ℕ
  pub tail : List ℕ
  pub appends : Appends sink.written sink.ready w (first ∷ tail) r
  pub tail_short : length tail ≤ 4
  pub type : op_type first ≡ op
  pub reads : (rest : List ℕ) → read_count first (tail ++ rest) ≡ ok (u32 count, rest)

-- The reader on a first byte whose encoding is known.
read_inline :
    (op low : ℕ) (rest : List ℕ)
    → op < 8
    → low < 8
    → read_count (op * 32 + 3 * 8 + low) rest ≡ ok (low + 1, rest)
unfolding read_count
read_inline op low rest ho hl = ground (arith, count_byte op 3 low ho (omega arith) hl)

read_followed :
    (op enc count : ℕ) (tail rest : List ℕ)
    → op < 8
    → enc < 3
    → ((inline : Result (ℕ × List ℕ)) → read_count_as enc inline (tail ++ rest) ≡ ok (count, rest))
    → read_count (op * 32 + enc * 8 + 0) (tail ++ rest) ≡ ok (count, rest)
unfolding read_count
read_followed op enc count tail rest ho he h =
    rw ((count_byte op enc 0 ho (omega arith) (omega arith)).1) (h _)

-- The bytes of a count in each of the three encodings, and what the reader makes of them.
pub read_count_as_lem :
    (count : ℕ) (inline : Result (ℕ × List ℕ)) (rest : List ℕ)
    → 1 ≤ count
    → count < 2 ^ 64
    → (count ≤ 256
        → read_count_as 0 inline ((u8 (less_one count) ∷ []) ++ rest) ≡ ok (u32 count, rest))
      × (count ≤ 65536
          → read_count_as 1 inline (u16_le (u16 (less_one count)) ++ rest) ≡ ok (u32 count, rest))
      × (read_count_as 2 inline (u32_le (u32 count) ++ rest) ≡ ok (u32 count, rest))
unfolding read_count_as read_u8
read_count_as_lem count inline rest lo hi = (
  λ h. ap (λ (t : ℕ). ok (t, rest)) (omega arith),
  λ h.
      rw (read_u16-u16_le (u16 (less_one count)) rest (omega arith))
        (ap (λ (t : ℕ). ok (t, rest)) (omega arith)),
  read_u32-u32_le (u32 count) rest (omega arith),
)

module _ (sink : Sink) (w : sink.W) (op count : ℕ) (ready : sink.ready w) (ho : op < 8)
    (lo : 1 ≤ count) (hi : count < 2 ^ 64) where
  open sink use {W, written, write_byte_appends, write_appends}

  inline_count :
      leb count 8 ≡ true → Counted sink w op count (encode_count sink w (op * 2 ^ 5) count)
  unfolding encode_count
  inline_count h =
      let low : ℕ = bit_and (less_one count) 0x7 in
      let e : low + 1 ≡ u32 count = ground (arith, bit_and_seven (less_one count)) in
      let b : u8 (bit_or (bit_or (op * 2 ^ 5) (3 * 2 ^ 3)) low) ≡ op * 32 + 3 * 8 + low =
        inline_byte op low ho (omega (arith, bit_and_seven (less_one count))) in
      let hl : low < 8 = omega (arith, bit_and_seven (less_one count)) in
      record {
        first = u8 (bit_or (bit_or (op * 2 ^ 5) (3 * 2 ^ 3)) low);
        tail = [];
        tail_short = omega arith;
        appends = rw h (write_byte_appends w _ ready);
        type = ap op_type b ∙ (count_byte op 3 low ho (omega arith) hl).0;
        reads = λ rest.
            ap (λ (t : ℕ). read_count t rest) b
            ∙ read_inline op low rest ho hl
            ∙ ap (λ (t : ℕ). ok (t, rest)) e;
      }

  -- A first byte with one of the other encodings, then the bytes of the count.
  followed_count :
      (enc : ℕ) (tail : List ℕ) (write_tail : W → Result W)
      → enc < 3
      → length tail ≤ 4
      → ((v : W) → sink.ready v → Appends written sink.ready v tail (write_tail v))
      → ((inline : Result (ℕ × List ℕ)) (rest : List ℕ)
          → read_count_as enc inline (tail ++ rest) ≡ ok (u32 count, rest))
      → Counted sink w op count
          (sink.write_byte w (u8 (bit_or (op * 2 ^ 5) (enc * 2 ^ 3))) >>= write_tail)
  followed_count enc tail write_tail he short writes reads =
      let b : u8 (bit_or (op * 2 ^ 5) (enc * 2 ^ 3)) ≡ op * 32 + enc * 8 + 0 =
        enc_byte op enc ho (omega arith) in
      record {
        first = u8 (bit_or (op * 2 ^ 5) (enc * 2 ^ 3));
        tail = tail;
        tail_short = short;
        appends =
            Appends-bind written sink.ready w (_ ∷ []) tail _ write_tail
              (write_byte_appends w _ ready) writes;
        type = ap op_type b ∙ (count_byte op enc 0 ho (omega arith) (omega arith)).0;
        reads = λ rest.
            ap (λ (t : ℕ). read_count t (tail ++ rest)) b
            ∙ read_followed op enc (u32 count) tail rest ho he (λ inline. reads inline rest);
      }

  -- `read_count` returns the low 32 bits of the count that `encode_count` was given, and the
  -- operation's type is in the first byte.
  pub encode_count-Counted : Counted sink w op count (encode_count sink w (op * 2 ^ 5) count)
  encode_count-Counted = elim (Bool-cases (leb count 8)) [
    | inl small ↦ inline_count small
    | inr h8 ↦ elim (Bool-cases (leb count 256)) [
      | inl byte ↦
          unfold encode_count in
          rw (h8, byte)
            (followed_count 0 _ _ (omega arith) (omega arith) (λ v r. write_byte_appends v _ r)
              (λ inline rest. (read_count_as_lem count inline rest lo hi).0 (ground arith)))
      | inr h256 ↦ elim (Bool-cases (leb count 65536)) [
        | inl word ↦
            unfold encode_count in
            rw (h8, h256, word)
              (followed_count 1 _ _ (omega arith)
                (omega (arith, length-u16_le (u16 (less_one count)))) (λ v r. write_appends v _ r)
                (λ inline rest. (read_count_as_lem count inline rest lo hi).1 (ground arith)))
        | inr large ↦
            unfold encode_count in
            rw (h8, h256, large)
              (followed_count 2 _ _ (omega arith) (omega (arith, length-u32_le (u32 count)))
                (λ v r. write_appends v _ r)
                (λ inline rest. (read_count_as_lem count inline rest lo hi).2))
      ]
    ]
  ]

-- For an operation code below 8 and a count from 1 up to 2^64 - 1, `encode_count` on a writer that takes
-- everything returns and appends at least one byte, at most five. The operation is in the first byte,
-- and `read_count` on it takes the other bytes off the front of any stream and returns the low 32
-- bits of the count.
pub read_count-encode_count :
    (sink : Sink) (w : sink.W) (op count : ℕ)
    → sink.ready w
    → op < 8
    → 1 ≤ count
    → count < 2 ^ 64
    → (first : ℕ) × (tail : List ℕ) × (final : sink.W) × (encode_count sink w (op * 2 ^ 5) count
        ≡ ok final)
      × (sink.written final ≡ sink.written w ++ (first ∷ tail))
      × (length tail ≤ 4)
      × (op_type first ≡ op)
      × ((rest : List ℕ) → read_count first (tail ++ rest) ≡ ok (u32 count, rest))
read_count-encode_count sink w op count ready ho lo hi =
    let k = encode_count-Counted sink w op count ready ho lo hi in
    (
      k.first, k.tail, k.appends.final, k.appends.returns, k.appends.contents, k.tail_short, k.type,
      k.reads,
    )
