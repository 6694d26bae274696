-- ===== src/Body/Laws.antt =====
-- Invariants of bodies: a rule for each way to build one, as a set for `search`.
use observability_ui_operato.Base.{Bool, true, false, if◌then◌else◌}
use observability_ui_operato.Attempt.{Error, Attempt, ok, err}
use observability_ui_operato.Subreconciler.{SubResult, requeue_with_error}
use observability_ui_operato.Body.{
  Flow, proceed, return, Body, Call, ◌>>=◌, pure, exit, or_return, call, on_error, when_absent,
  returned, when, act, try,
}

-- The body keeps `P`, whether it returns early or goes on.
pub record BodyKeeps {S A : Type 0} (P : S → Type 0) (m : Body S A) : Type 0 where
  pub at : (s : S) → P s → P (m s).1

module _ {S A : Type 0} {P : S → Type 0} where
  pub BodyKeeps-pure : (a : A) → BodyKeeps P (pure a)
  BodyKeeps-pure a = record { at = λ s p. p }

  pub BodyKeeps-exit : (r : SubResult) → BodyKeeps P (exit {A = A} r)
  BodyKeeps-exit r = record { at = λ s p. p }

  pub BodyKeeps-or_return : (a : Attempt A) (k : Error → SubResult) → BodyKeeps P (or_return a k)
  BodyKeeps-or_return (ok a) k = record { at = λ s p. p }
  BodyKeeps-or_return (err e) k = record { at = λ s p. p }

  pub BodyKeeps-on_error :
      (a : Attempt A) (k : Error → Body S (Unit {0}))
      → ((e : Error) → BodyKeeps P (k e))
      → BodyKeeps P (on_error a k)
  BodyKeeps-on_error (ok a) k h = record { at = λ s p. p }
  BodyKeeps-on_error (err e) k h = h e

  pub BodyKeeps-when_absent :
      (a : Attempt A) (m : Body S (Unit {0})) → BodyKeeps P m → BodyKeeps P (when_absent a m)
  BodyKeeps-when_absent (ok a) m h = record { at = λ s p. p }
  BodyKeeps-when_absent (err e) m h = absent e.not_found
    where
      absent : (b : Bool) → BodyKeeps P (if b then m else exit (requeue_with_error e))
      absent true = h
      absent false = record { at = λ s p. p }

  pub BodyKeeps-call : (c : Call S A) → ((s : S) → P s → P (c s).1) → BodyKeeps P (call c)
  BodyKeeps-call c h = record { at = h }

  pub BodyKeeps-try :
      (c : Call S A) (k : Error → SubResult) → ((s : S) → P s → P (c s).1) → BodyKeeps P (try c k)
  BodyKeeps-try c k h = record { at = λ s p. tried (c s).0 (c s).1 (h s p) }
    where
      tried : (a : Attempt A) (t : S) → P t → P (or_return a k t).1
      tried (ok a) t p = p
      tried (err e) t p = p

module _ {S : Type 0} {P : S → Type 0} where
  pub BodyKeeps-when : (b : Bool) (m : Body S (Unit {0})) → BodyKeeps P m → BodyKeeps P (when b m)
  BodyKeeps-when true m h = h
  BodyKeeps-when false m h = record { at = λ s p. p }

  pub BodyKeeps-act : (f : S → S) → ((s : S) → P s → P (f s)) → BodyKeeps P (act f)
  BodyKeeps-act f h = record { at = h }

module _ {S A B : Type 0} {P : S → Type 0} where
  continue_keeps :
      (w : Flow A) (t : S) (f : A → Body S B)
      → P t
      → ((a : A) → BodyKeeps P (f a))
      → P (((λ s. (w, t)) >>= f) t).1
  continue_keeps (proceed a) t f p h = (h a).at t p
  continue_keeps (return r) t f p h = p

  pub BodyKeeps-bind :
      (m : Body S A) (f : A → Body S B)
      → BodyKeeps P m
      → ((a : A) → BodyKeeps P (f a))
      → BodyKeeps P (m >>= f)
  BodyKeeps-bind m f km kf = record { at = λ s p. continue_keeps (m s).0 (m s).1 f (km.at s p) kf }

pub Keeps-returned :
    {S : Type 0} {P : S → Type 0} {m : Body S SubResult}
    → BodyKeeps P m
    → (s : S) → P s
    → P (returned m s).1
Keeps-returned k s p = k.at s p

-- The sub-reconciler that a body makes keeps `P`.
pub record SubKeeps {S : Type 0} (P : S → Type 0) (f : S → SubResult × S) : Type 0 where
  pub at : (s : S) → P s → P (f s).1

pub SubKeeps-returned :
    {S : Type 0} {P : S → Type 0} (m : Body S SubResult) → BodyKeeps P m → SubKeeps P (returned m)
SubKeeps-returned m k = record { at = k.at }

pub ruleset body_rules = (
  SubKeeps-returned, BodyKeeps-pure, BodyKeeps-exit, BodyKeeps-or_return, BodyKeeps-on_error,
  BodyKeeps-when_absent, BodyKeeps-call, BodyKeeps-when, BodyKeeps-act, BodyKeeps-try,
  BodyKeeps-bind,
)
