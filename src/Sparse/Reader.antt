-- ===== src/Sparse/Reader.antt =====
-- The reader of the sparse format on any diff data.
use fsdiff.Prelude.{
  ℕ, zero, suc, ◌+◌, ◌≡◌, List, [], ◌∷◌, ◌++◌, length, arith, leb, Bool-cases, inl, inr,
  length-append, length-take, length-drop, take, drop,
}
use fsdiff.Status.{Result, ok, Result-cases}
use fsdiff.Varint.{read_varint}
use fsdiff.Sparse.{apply_adds, after_add_run, apply_loop, apply_block}

length-apply_adds :
    (n : ℕ) (cursor buf : List ℕ)
    → length (apply_adds n cursor buf).0 + length (apply_adds n cursor buf).2 ≡ length buf
unfolding apply_adds
length-apply_adds zero cursor buf = omega arith
length-apply_adds (suc n) [] buf = omega arith
length-apply_adds (suc n) (d ∷ cursor) [] = length-apply_adds n cursor []
length-apply_adds (suc n) (d ∷ cursor) (b ∷ buf) = omega (arith, length-apply_adds n cursor buf)

after_length :
    (next : List ℕ → List ℕ → Result (List ℕ × List ℕ)) (add_len : ℕ)
    (done cursor buf out rest : List ℕ)
    → ((c b o r : List ℕ) → next c b ≡ ok (o, r) → length o ≡ length b)
    → after_add_run next add_len done cursor buf ≡ ok (out, rest)
    → length out ≡ length done + length buf
after_length next add_len done cursor [] out rest ih e = ground arith
after_length next add_len done cursor (b ∷ buf) out rest ih e =
    elim (Result-cases (read_varint cursor)) [
      | inr (x, e1) ↦ ground arith
      | inl ((n, c), e1) ↦ elim (Result-cases (next c (drop n (b ∷ buf)))) [
        | inr (x, e2) ↦ ground arith
        | inl ((o, r), e2) ↦ ground (
          arith,
          ih c (drop n (b ∷ buf)) o r e2,
          length-append done (take n (b ∷ buf) ++ o),
          length-append (take n (b ∷ buf)) o,
          length-take n (b ∷ buf),
          length-drop n (b ∷ buf),
        )
      ]
    ]

apply_loop-length :
    (fuel : ℕ) (cursor buf out rest : List ℕ)
    → apply_loop fuel cursor buf ≡ ok (out, rest)
    → length out ≡ length buf
unfolding apply_loop
apply_loop-length fuel cursor [] out rest e = ground arith
apply_loop-length zero cursor (b ∷ buf) out rest e = cc
apply_loop-length (suc fuel) cursor (b ∷ buf) out rest e =
    elim (Result-cases (read_varint cursor)) [
      | inr (x, e1) ↦ ground arith
      | inl ((n, c), e1) ↦ elim (Bool-cases (leb n (length c))) [
        | inr long ↦ ground arith
        | inl fits ↦
            let (done, c', buf') = apply_adds n c (b ∷ buf) in
            omega (
              arith,
              length-apply_adds n c (b ∷ buf),
              after_length (apply_loop fuel) n done c' buf' out rest (apply_loop-length fuel)
                  (rw (e1, fits) at e),
            )
      ]
    ]

-- Whatever the diff data, a block that the reader accepts has the size of the source block.
pub apply_block-length :
    (cursor buf out rest : List ℕ)
    → apply_block cursor buf ≡ ok (out, rest)
    → length out ≡ length buf
unfolding apply_block
apply_block-length cursor buf = apply_loop-length (length buf) cursor buf
