-- ===== src/Status.antt =====
-- include/fsdiff/error.h: the error codes, and the results of functions that return one.
use fsdiff.Prelude.{◌≡◌, refl, ap, Bool, true, false, ◌⊎◌, inl, inr}

-- `fsd_error_t` without FSD_SUCCESS, which is the constructor `ok` below.
pub data Error : Type 0 where
  invalid_arg out_of_memory io corrupt_data bad_magic bad_version bad_block_size : Error
  size_mismatch not_initialized cancelled file_not_found permission mmap_failed : Error
  truncated bad_operation : Error

-- An `fsd_error_t` with what the function hands back through its pointers.
pub data Result {ℓ} (A : Type ℓ) : Type ℓ where
  ok : A → Result A
  err : Error → Result A

-- The value of a result, or another one.
abbrev pub from {ℓ} : {A : Type ℓ} → A → Result A → A
from a (ok b) = b
from a (err e) = a

pub ok_injective {ℓ} : {A : Type ℓ} {a b : A} → ok a ≡ ok b → a ≡ b
ok_injective {a} h = ap (from a) h

-- `if (!b) return e;`
abbrev pub guard : Bool → Error → Result (Unit {0})
guard false code = err code
guard true code = ok tt

-- The next call, unless the last one failed.
infixl 5 ◌>>=◌ ◌>>◌
abbrev pub ◌>>=◌ {κ ℓ} : {B : Type κ} {A : Type ℓ} → Result A → (A → Result B) → Result B
err code >>= next = err code
ok a >>= next = next a

abbrev pub ◌>>◌ {κ} : {B : Type κ} → Result (Unit {0}) → Result B → Result B
first >> next = first >>= λ _. next

-- Inversion of a successful bind.
pub >>=-eq-ok {ℓ κ} :
    {A : Type ℓ} {B : Type κ} (first : Result A) (next : A → Result B) {b : B}
    → (first >>= next) ≡ ok b
    → (a : A) × (first ≡ ok a) × (next a ≡ ok b)
>>=-eq-ok (err code) next h = cc
>>=-eq-ok (ok a) next h = (a, refl, h)

-- To split on a computed result and keep the equation.
pub Result-cases {ℓ} :
    {A : Type ℓ} (r : Result A) → ((a : A) × (r ≡ ok a)) ⊎ ((e : Error) × (r ≡ err e))
Result-cases (ok a) = inl (a, refl)
Result-cases (err e) = inr (e, refl)

pub guard-true : (b : Bool) (e : Error) (u : Unit {0}) → guard b e ≡ ok u → b ≡ true
guard-true true e u h = refl
guard-true false e u h = cc
