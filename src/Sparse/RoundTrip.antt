-- ===== src/Sparse/RoundTrip.antt =====
-- The reader applies what the writer wrote.
use fsdiff.Prelude.{
  ℕ, zero, suc, ◌+◌, ◌^◌, ◌≤◌, ◌<◌, ◌≡◌, refl, sym, ap, ap₂, ◌∙◌, List, [], ◌∷◌, ◌++◌, length, take,
  drop, replicate, All, arith, length-append, length-replicate, append_assoc, append-nil, All-drop,
  length-drop,
}
use fsdiff.Status.{Result, ok}
use fsdiff.Wire.{u8, IsByte}
use fsdiff.Varint.{encode_varint}
use fsdiff.Varint.RoundTrip.{read_varint-encode_varint}
use fsdiff.Sparse.{
  add_run, copy_run, after_adds, write_loop, write_block, apply_adds, after_add_run, apply_loop,
  apply_block, add_diffs,
}

-- What the writer's two inner loops split off is the front of the block.
add_run_split : (ds : List ℕ) → (add_run ds).0 ++ (add_run ds).1 ≡ ds
unfolding add_run
add_run_split [] = refl
add_run_split (d ∷ ds) = ground (arith, add_run_split ds)

copy_run_split : (ds : List ℕ) → replicate (copy_run ds).0 0 ++ (copy_run ds).1 ≡ ds
unfolding copy_run
copy_run_split [] = refl
copy_run_split (d ∷ ds) = ground (arith, copy_run_split ds)

-- After a copy-add run stands a zero, so the copy run that follows takes a byte at least.
abbrev pub StartsZero : List ℕ → Type 0
StartsZero [] = Unit
StartsZero (d ∷ _) = d ≡ 0

pub add_run_stops : (ds : List ℕ) → StartsZero (add_run ds).1
unfolding add_run
add_run_stops [] = tt
add_run_stops (d ∷ ds) = ground (arith, add_run_stops ds)

pub copy_run_takes : (d : ℕ) (ds : List ℕ) → d ≡ 0 → 0 < (copy_run (d ∷ ds)).0
unfolding copy_run
copy_run_takes d ds h = ground arith

-- The reader's loop over a copy-add run consumes it, on a block long enough.
apply_adds_run :
    (run cursor buf : List ℕ)
    → length run ≤ length buf
    → apply_adds (length run) (run ++ cursor) buf
      ≡ (add_diffs (take (length run) buf) run, cursor, drop (length run) buf)
unfolding apply_adds add_diffs
apply_adds_run [] cursor buf h = refl
apply_adds_run (d ∷ run) cursor [] h = absurd (omega arith)
apply_adds_run (d ∷ run) cursor (b ∷ buf) h =
    ground (arith, apply_adds_run run cursor buf (omega arith))

-- Adding the diffs in two parts.
add_diffs-append :
    (buf run rest : List ℕ)
    → length run ≤ length buf
    → add_diffs buf (run ++ rest)
      ≡ add_diffs (take (length run) buf) run ++ add_diffs (drop (length run) buf) rest
unfolding add_diffs
add_diffs-append buf [] rest h = refl
add_diffs-append [] (d ∷ run) rest h = absurd (omega arith)
add_diffs-append (b ∷ buf) (d ∷ run) rest h =
    ap (λ t. u8 (b + d) ∷ t) (add_diffs-append buf run rest (omega arith))

-- Zeros leave a byte as it is.
add_diffs-replicate :
    (n : ℕ) (buf rest : List ℕ)
    → n ≤ length buf
    → All IsByte buf
    → add_diffs buf (replicate n 0 ++ rest) ≡ take n buf ++ add_diffs (drop n buf) rest
unfolding add_diffs
add_diffs-replicate zero buf rest h hb = refl
add_diffs-replicate (suc n) [] rest h hb = absurd (omega arith)
add_diffs-replicate (suc n) (b ∷ buf) rest h hb =
    ap₂ ◌∷◌ (omega arith) (add_diffs-replicate n buf rest (omega arith) hb.1)

-- What one call of the rest of the two loops promises, on blocks shorter than the present one.
abbrev Agrees : (List ℕ → List ℕ) → (List ℕ → List ℕ → Result (List ℕ × List ℕ)) → ℕ → Type 0
Agrees writer reader size =
    (ds buf cursor : List ℕ)
    → length ds ≤ size
    → length ds ≡ length buf
    → All IsByte buf
    → reader (writer ds ++ cursor) buf ≡ ok (add_diffs buf ds, cursor)

pub copy_run-length : (ds : List ℕ) → (copy_run ds).0 + length (copy_run ds).1 ≡ length ds
copy_run-length ds = omega (
  arith,
  ap length (copy_run_split ds),
  length-append (replicate (copy_run ds).0 0) (copy_run ds).1,
  length-replicate {A = ℕ} (copy_run ds).0 0,
)

pub length-add_run : (ds : List ℕ) → length (add_run ds).0 + length (add_run ds).1 ≡ length ds
length-add_run ds =
    omega (arith, ap length (add_run_split ds), length-append (add_run ds).0 (add_run ds).1)

-- A copy run of `n > 0` bytes, read where the writer wrote it.
copy_round :
    (writer : List ℕ → List ℕ) (reader : List ℕ → List ℕ → Result (List ℕ × List ℕ)) (size : ℕ)
    (add_len n : ℕ) (rest done cursor buf : List ℕ) (b : ℕ)
    → Agrees writer reader size
    → 0 < n
    → n + length rest ≡ suc (length buf)
    → length rest ≤ size
    → n < 2 ^ 64
    → All IsByte (b ∷ buf)
    → after_add_run reader add_len done ((encode_varint n ++ writer rest) ++ cursor) (b ∷ buf)
      ≡ ok (done ++ (take n (b ∷ buf) ++ add_diffs (drop n (b ∷ buf)) rest), cursor)
copy_round writer reader size add_len n rest done cursor buf b ih pos len small n64 hb =
    rw (append_assoc, read_varint-encode_varint n (writer rest ++ cursor) n64)
      (ground (
        arith,
        ih rest (drop n (b ∷ buf)) cursor small (omega (arith, length-drop n (b ∷ buf)))
            (All-drop IsByte n (b ∷ buf) hb),
      ))

after_round :
    (writer : List ℕ → List ℕ) (reader : List ℕ → List ℕ → Result (List ℕ × List ℕ)) (size : ℕ)
    (add_len : ℕ) (rest done cursor buf : List ℕ)
    → Agrees writer reader size
    → StartsZero rest
    → length rest ≡ length buf
    → length rest ≤ suc size
    → length rest < 2 ^ 64
    → All IsByte buf
    → after_add_run reader add_len done (after_adds writer rest ++ cursor) buf
      ≡ ok (done ++ add_diffs buf rest, cursor)
after_round writer reader size add_len [] done cursor [] ih z len small n64 hb =
    unfold add_diffs in rw append-nil
after_round writer reader size add_len [] done cursor (b ∷ buf) ih z len small n64 hb =
    absurd (omega arith)
after_round writer reader size add_len (d ∷ ds) done cursor [] ih z len small n64 hb =
    absurd (omega arith)
after_round writer reader size add_len (d ∷ ds) done cursor (b ∷ buf) ih z len small n64 hb =
    copy_round writer reader size add_len n (copy_run (d ∷ ds)).1 done cursor buf b ih pos
      (omega (arith, copy_run-length (d ∷ ds))) (omega (arith, copy_run-length (d ∷ ds), pos))
      (omega (arith, copy_run-length (d ∷ ds))) hb
    ∙ ap (λ t. ok (done ++ t, cursor))
        (sym (
            add_diffs-replicate n (b ∷ buf) (copy_run (d ∷ ds)).1
              (omega (arith, copy_run-length (d ∷ ds))) hb)
          ∙ ap (add_diffs (b ∷ buf)) (copy_run_split (d ∷ ds)))
  where
    n : ℕ
    n = (copy_run (d ∷ ds)).0

    pos : 0 < n
    pos = copy_run_takes d ds z

-- A copy-add run and what follows it, read where the writer wrote them.
add_round :
    (gas : ℕ) (run tail cursor buf out : List ℕ) (b : ℕ)
    → length run ≤ suc (length buf)
    → length run < 2 ^ 64
    → after_add_run
        (apply_loop gas)
        (length run)
        (add_diffs (take (length run) (b ∷ buf)) run)
        (tail ++ cursor)
        (drop (length run) (b ∷ buf))
      ≡ ok (out, cursor)
    → apply_loop (suc gas) ((encode_varint (length run) ++ (run ++ tail)) ++ cursor) (b ∷ buf)
      ≡ ok (out, cursor)
unfolding apply_loop
add_round gas run tail cursor buf out b fits n64 after =
    rw
      (
        append_assoc (encode_varint (length run)) (run ++ tail) cursor,
        append_assoc run tail cursor,
        read_varint-encode_varint (length run) (run ++ (tail ++ cursor)) n64,
      )
      (ground (
        arith,
        length-append run (tail ++ cursor),
        apply_adds_run run (tail ++ cursor) (b ∷ buf) fits,
        after,
      ))

-- One round on a block that is not empty.
whole_round :
    (fuel gas : ℕ) (d b : ℕ) (ds buf cursor : List ℕ)
    → Agrees (write_loop fuel) (apply_loop gas) fuel
    → length (d ∷ ds) ≤ suc fuel
    → length ds ≡ length buf
    → length (d ∷ ds) < 2 ^ 64
    → All IsByte (b ∷ buf)
    → apply_loop (suc gas) (write_loop (suc fuel) (d ∷ ds) ++ cursor) (b ∷ buf)
      ≡ ok (add_diffs (b ∷ buf) (d ∷ ds), cursor)
unfolding write_loop
whole_round fuel gas d b ds buf cursor ih small len n64 hb =
    add_round gas run (after_adds (write_loop fuel) rest) cursor buf _ b (omega (arith, lens))
      (omega (arith, lens))
      (after_round (write_loop fuel) (apply_loop gas) fuel (length run) rest
          (add_diffs (take (length run) (b ∷ buf)) run) cursor (drop (length run) (b ∷ buf)) ih
          (add_run_stops (d ∷ ds)) (omega (arith, lens, length-drop (length run) (b ∷ buf)))
          (omega (arith, lens)) (omega (arith, lens)) (All-drop IsByte (length run) (b ∷ buf) hb)
        ∙ ap (λ t. ok (t, cursor))
            (sym (add_diffs-append (b ∷ buf) run rest (omega (arith, lens)))
              ∙ ap (add_diffs (b ∷ buf)) (add_run_split (d ∷ ds))))
  where
    run : List ℕ
    run = (add_run (d ∷ ds)).0

    rest : List ℕ
    rest = (add_run (d ∷ ds)).1

    lens : length run + length rest ≡ suc (length ds)
    lens = length-add_run (d ∷ ds)

apply_loop-write_loop :
    (fuel gas : ℕ) (ds buf cursor : List ℕ)
    → length ds ≤ fuel
    → fuel ≤ gas
    → length ds ≡ length buf
    → fuel < 2 ^ 64
    → All IsByte buf
    → apply_loop gas (write_loop fuel ds ++ cursor) buf ≡ ok (add_diffs buf ds, cursor)
apply_loop-write_loop fuel gas [] [] cursor small enough len n64 hb =
    unfold write_loop apply_loop add_diffs in refl
apply_loop-write_loop fuel gas [] (b ∷ buf) cursor small enough len n64 hb = absurd (omega arith)
apply_loop-write_loop fuel gas (d ∷ ds) [] cursor small enough len n64 hb = absurd (omega arith)
apply_loop-write_loop zero gas (d ∷ ds) (b ∷ buf) cursor small enough len n64 hb =
    absurd (omega arith)
apply_loop-write_loop (suc fuel) zero (d ∷ ds) (b ∷ buf) cursor small enough len n64 hb =
    absurd (omega arith)
apply_loop-write_loop (suc fuel) (suc gas) (d ∷ ds) (b ∷ buf) cursor small enough len n64 hb =
    whole_round fuel gas d b ds buf cursor
      (λ ds' buf' cursor' s l h.
        apply_loop-write_loop fuel gas ds' buf' cursor' s (omega arith) l (omega arith) h)
      small (omega arith) (omega arith) hb

-- The reader applies the sparse diff data that the writer wrote for a block: on a source block of
-- bytes of the same size, below 2^64, it returns the source bytes plus the diffs, and leaves the
-- data that follows.
pub apply_block-write_block :
    (ds buf cursor : List ℕ)
    → length ds ≡ length buf
    → length buf < 2 ^ 64
    → All IsByte buf
    → apply_block (write_block ds ++ cursor) buf ≡ ok (add_diffs buf ds, cursor)
unfolding apply_block write_block
apply_block-write_block ds buf cursor len n64 hb =
    apply_loop-write_loop (length ds) (length buf) ds buf cursor (omega arith) (omega arith) len
      (omega arith) hb
