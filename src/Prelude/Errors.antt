-- ===== src/Prelude/Errors.antt =====
-- Go's `(value, error)`, a panic, and fallible code that also changes a state.
use Prim.Native.String.{String}
use mathlib.Core.Path.{◌≡◌, refl}
use mathlib.Core.Option.{Option, none, some}
use mathlib.Core.Logic.{◌⊎◌, inl, inr}

-- The errors that the program tells apart. `service` is any failure of a call that leaves the
-- program (a driver, the file system, the broker, an expired context); `wrapped` is `fmt.Errorf`
-- with `%w`.
pub data Error : Type 0 where
  service : Error
  no_rows : Error
  check_violation : Error
  text : String → Error
  wrapped : String → Error → Error

pub data Result {ℓ} (A : Type ℓ) : Type ℓ where
  ok : A → Result A
  err : Error → Result A

pub Result-cases {ℓ} :
    {A : Type ℓ} (r : Result A) → ((a : A) × (r ≡ ok a)) ⊎ ((e : Error) × (r ≡ err e))
Result-cases (ok a) = inl (a, refl)
Result-cases (err e) = inr (e, refl)

-- A pointer and an error: the error, nil without an error, or a value.
pub pointer_cases {ℓ} :
    {A : Type ℓ} (r : Result (Option A))
    → ((e : Error) × (r ≡ err e)) ⊎ ((r ≡ ok none) ⊎ ((a : A) × (r ≡ ok (some a))))
pointer_cases (err e) = inl (e, refl)
pointer_cases (ok none) = inr (inl refl)
pointer_cases (ok (some a)) = inr (inr (a, refl))

-- `panics` is a run-time panic: an index out of range or a nil pointer that is followed.
pub data Outcome {ℓ} (A : Type ℓ) : Type ℓ where
  returns : A → Outcome A
  panics : Outcome A

-- Code that changes a state `S` and may return an error. The state is kept on an error.
abbrev pub M : Type 0 → Type 0 → Type 0
M S A = S → Result A × S

abbrev pub pure : {S A : Type 0} → A → M S A
pure a s = (ok a, s)

abbrev pub fail : {S A : Type 0} → Error → M S A
fail e s = (err e, s)

-- What follows a call: `if err != nil { return err }`.
abbrev pub and_then : {S A B : Type 0} → Result A → S → (A → M S B) → Result B × S
and_then (ok a) s f = f a s
and_then (err e) s f = (err e, s)

infixl 5 ◌>>=◌ ◌>>◌
abbrev pub ◌>>=◌ : {S A B : Type 0} → M S A → (A → M S B) → M S B
◌>>=◌ m f s = let (r, s') = m s in and_then r s' f

abbrev pub ◌>>◌ : {S B : Type 0} → M S (Unit {0}) → M S B → M S B
m >> k = m >>= λ _. k

pub Outcome-cases {ℓ} : {A : Type ℓ} (o : Outcome A) → (o ≡ panics) ⊎ ((a : A) × (o ≡ returns a))
Outcome-cases panics = inl refl
Outcome-cases (returns a) = inr (a, refl)

pub pair_cases :
    {A B : Type 0} (r : Result (A × B))
    → ((e : Error) × (r ≡ err e)) ⊎ ((a : A) × (b : B) × (r ≡ ok (a, b)))
pair_cases (err e) = inl (e, refl)
pair_cases (ok (a, b)) = inr (a, b, refl)
