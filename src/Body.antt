-- ===== src/Body.antt =====
-- The body of a sub-reconciler: it reads and changes the world, and may return early.
pub mod Laws
pub mod Fated
use observability_ui_operato.Base.{Bool, true, false, none, some, if◌then◌else◌}
use observability_ui_operato.Attempt.{Error, Attempt, ok, err}
use observability_ui_operato.Subreconciler.{SubResult, should_halt_or_requeue, requeue_with_error}

-- Where a body stands after a statement: it goes on with a value, or has returned.
pub data Flow {ℓ} (A : Type ℓ) : Type ℓ where
  proceed : A → Flow A
  return : SubResult → Flow A

abbrev pub Body : Type 0 → Type 0 → Type 0
Body S A = S → Flow A × S

-- A call into the world.
abbrev pub Call : Type 0 → Type 0 → Type 0
Call S A = S → Attempt A × S

abbrev pub result_of : Flow SubResult → SubResult
result_of (proceed r) = r
result_of (return r) = r

module _ {S : Type 0} where
  infixl 5 ◌>>=◌ ◌>>◌
  abbrev pub ◌>>=◌ : {A B : Type 0} → Body S A → (A → Body S B) → Body S B
  ◌>>=◌ m f s = let (w, t) = m s in elim w [ proceed a ↦ f a t | return r ↦ (return r, t) ]

  abbrev pub ◌>>◌ : {B : Type 0} → Body S (Unit {0}) → Body S B → Body S B
  m >> k = m >>= λ _. k

  abbrev pub pure : {A : Type 0} → A → Body S A
  pure a s = (proceed a, s)

  -- `return r`
  abbrev pub exit : {A : Type 0} → SubResult → Body S A
  exit r s = (return r, s)

  -- `if r, err := …; subreconciler.ShouldHaltOrRequeue(r, err) { return r, err }`
  abbrev pub unless_halted : SubResult → Body S (Unit {0})
  unless_halted r s = elim (should_halt_or_requeue r) [
    | true ↦ (return r, s)
    | false ↦ (proceed tt, s)
  ]

  -- `if err != nil { return … }`
  abbrev pub or_return : {A : Type 0} → Attempt A → (Error → SubResult) → Body S A
  or_return (ok a) k s = (proceed a, s)
  or_return (err e) k s = (return (k e), s)

  -- The call, with its error kept as a value.
  abbrev pub call : {A : Type 0} → Call S A → Body S (Attempt A)
  call c s = let (a, t) = c s in (proceed a, t)

  -- The call, followed by `if err != nil { return … }`.
  abbrev pub try : {A : Type 0} → Call S A → (Error → SubResult) → Body S A
  try c k = call c >>= λ a. or_return a k

  -- The sub-reconciler that a body makes.
  abbrev pub returned : Body S SubResult → S → SubResult × S
  returned m s = let (r, t) = m s in (result_of r, t)

  -- `if err != nil { … }`, where the block need not return.
  abbrev pub on_error : {A : Type 0} → Attempt A → (Error → Body S (Unit {0})) → Body S (Unit {0})
  on_error (ok a) k = pure tt
  on_error (err e) k = k e

  -- A statement that only changes the world.
  abbrev pub act : (S → S) → Body S (Unit {0})
  act f s = (proceed tt, f s)

  -- `if b { … }`
  abbrev pub when : Bool → Body S (Unit {0}) → Body S (Unit {0})
  when true m = m
  when false m = pure tt

  -- `if err != nil && apierrors.IsNotFound(err) { … } else if err != nil { return
  -- subreconciler.RequeueWithError(err) }`, after a `Get`.
  abbrev pub when_absent : {A : Type 0} → Attempt A → Body S (Unit {0}) → Body S (Unit {0})
  when_absent (ok found) m = pure tt
  when_absent (err e) m = if e.not_found then m else exit (requeue_with_error e)

-- The variable that a call was given, after the call.
abbrev pub value_after : {A : Type 0} → A → Attempt A → A
value_after a (ok b) = b
value_after a (err e) = a
