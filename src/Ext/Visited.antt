-- ===== src/Ext/Visited.antt =====
-- The bits of `visited` in `fsd_extfs_walk` of src/fs/ext_reader.c, and the inodes that have none yet.
use fsdiff.Prelude.{
  ℕ, zero, suc, ◌/◌, ◌%◌, ◌^◌, ◌<◌, ◌≤◌, ◌≡◌, ◌≢◌, true, false, List, ◌==◌, length, get_or, bit_or,
  arith, refl, inl, inr, Bool-cases, if◌then◌else◌, get_or-set_self, get_or-set_ne, ap,
}
use fsdiff.Prelude.Digits.{bit, bit-le, bit-bit_or, bit-pow_self, bit-pow_ne}
use fsdiff.Tracker.Bitmap.{is_set}
use fsdiff.Ext.Walk.{is_visited, visit}

is_visited-bit :
    (visited : List ℕ) (ino : ℕ)
    → is_visited visited ino ≡ (bit (get_or visited (ino / 8) 0) (ino % 8) == 1)
unfolding is_visited
is_visited-bit visited ino = is_set (ino % 8) (get_or visited (ino / 8) 0)

is_visited-visit_self :
    (visited : List ℕ) (ino : ℕ)
    → ino / 8 < length visited
    → is_visited (visit visited ino) ino ≡ true
unfolding visit
is_visited-visit_self visited ino inside =
    let k = ino % 8 in
    let w = get_or visited (ino / 8) 0 in
    let z : bit (bit_or w (2 ^ k)) k ≡ 1 =
      omega (arith, bit-bit_or k w (2 ^ k), bit-pow_self k, bit-le k w) in
    rw
      (
        is_visited-bit (visit visited ino) ino,
        get_or-set_self visited (ino / 8) (bit_or w (2 ^ k)) 0 inside,
        z,
      )
      refl

is_visited-visit_ne :
    (visited : List ℕ) (ino other : ℕ)
    → ino / 8 < length visited
    → ino ≢ other
    → is_visited (visit visited ino) other ≡ is_visited visited other
unfolding visit
is_visited-visit_ne visited ino other inside ne =
    let k = other % 8 in
    let w = get_or visited (ino / 8) 0 in
    let v = bit_or w (2 ^ (ino % 8)) in
    rw (is_visited-bit (visit visited ino) other, is_visited-bit visited other)
      (elim (Bool-cases (ino / 8 == other / 8)) [
        | inl same ↦
            let e : ino / 8 ≡ other / 8 = ground (arith, same) in
            let apart : ino % 8 ≢ k = λ e'. ne (omega (arith, e, e')) in
            let z : bit v k ≡ bit w k =
              omega (arith, bit-bit_or k w (2 ^ (ino % 8)), bit-pow_ne (ino % 8) k apart) in
            rw (← e, get_or-set_self visited (ino / 8) v 0 inside, z) refl
        | inr differ ↦
            let apart : ino / 8 ≢ other / 8 = λ e. ground (arith, differ, e) in
            rw (get_or-set_ne visited (ino / 8) (other / 8) v 0 apart) refl
      ])

-- The inodes below `n` that are not visited.
unfoldable pub unvisited : List ℕ → ℕ → ℕ
unvisited visited zero = 0
unvisited visited (suc n) =
    if is_visited visited n then unvisited visited n else suc (unvisited visited n)

unvisited-visit_above :
    (visited : List ℕ) (ino n : ℕ)
    → ino / 8 < length visited
    → n ≤ ino
    → unvisited (visit visited ino) n ≡ unvisited visited n
unfolding unvisited
unvisited-visit_above visited ino zero inside above = refl
unvisited-visit_above visited ino (suc n) inside above =
    rw (is_visited-visit_ne visited ino n inside (λ e. omega (arith, e, above)))
      (rw (unvisited-visit_above visited ino n inside (omega arith)) refl)

-- A visit of an inode leaves one fewer.
pub unvisited-visit :
    (visited : List ℕ) (ino n : ℕ)
    → ino / 8 < length visited
    → ino < n
    → is_visited visited ino ≡ false
    → suc (unvisited (visit visited ino) n) ≡ unvisited visited n
unfolding unvisited
unvisited-visit visited ino zero inside below new = absurd (omega arith)
unvisited-visit visited ino (suc n) inside below new = elim (Bool-cases (ino == n)) [
  | inl last ↦
      let e : ino ≡ n = ground (arith, last) in
      rw (← e) (
        rw
          (
            is_visited-visit_self visited ino inside,
            new,
            unvisited-visit_above visited ino ino inside (omega arith),
          )
          refl)
  | inr earlier ↦
      let apart : ino ≢ n = λ e. ground (arith, earlier, e) in
      let ih = unvisited-visit visited ino n inside (omega (arith, apart)) new in
      rw (is_visited-visit_ne visited ino n inside apart)
        (elim (Bool-cases (is_visited visited n)) [
          | inl marked ↦ rw marked ih
          | inr clear ↦ rw clear (ap suc ih)
        ])
]

pub unvisited-le : (visited : List ℕ) (n : ℕ) → unvisited visited n ≤ n
unfolding unvisited
unvisited-le visited zero = omega arith
unvisited-le visited (suc n) =
    let k = unvisited-le visited n in
    elim (Bool-cases (is_visited visited n)) [
      | inl marked ↦ rw marked (omega (arith, k))
      | inr clear ↦ rw clear (omega (arith, k))
    ]
