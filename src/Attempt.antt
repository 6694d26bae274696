-- ===== src/Attempt.antt =====
-- Go's pair of a value and an `error`: a value, or an error and no value that is read. Of an error
-- the program reads its text, by `%s`, and whether `apierrors.IsNotFound` holds of it.
use observability_ui_operato.Base.{String, Bool, false, ◌≡◌, refl, ◌⊎◌, inl, inr}

pub record Error : Type 0 where
  pub message : String
  pub not_found : Bool

-- `fmt.Errorf` and `errors.Errorf` of github.com/pkg/errors.
abbrev pub errorf : String → Error
errorf message = record { message = message; not_found = false }

pub data Attempt {ℓ} (A : Type ℓ) : Type ℓ where
  ok : A → Attempt A
  err : Error → Attempt A

pub Attempt-cases {ℓ} :
    {A : Type ℓ} (a : Attempt A) → ((e : Error) × (a ≡ err e)) ⊎ ((x : A) × (a ≡ ok x))
Attempt-cases (ok x) = inr (x, refl)
Attempt-cases (err e) = inl (e, refl)
