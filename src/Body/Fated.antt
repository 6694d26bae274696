-- ===== src/Body/Fated.antt =====
-- Bodies that do on a client whose calls are all answered what they do on the wrapped client: a rule
-- for each way to build one, as a set for `search`.
use observability_ui_operato.Base.{Bool, true, false, if◌then◌else◌, [], ◌≡◌, ◌∙◌, refl, ap}
use observability_ui_operato.Attempt.{Error, Attempt, ok, err}
use observability_ui_operato.Subreconciler.{SubResult, requeue_with_error}
use observability_ui_operato.Body.{
  Flow, proceed, return, Body, Call, ◌>>=◌, pure, exit, or_return, call, on_error, when_absent,
  returned, when, act, try,
}
use observability_ui_operato.Trace.Faults.{Fated, fated}

-- What is answered on the wrapped client, and the state that is left, with no fates.
abbrev pub unfated : {S A : Type 0} → A × S → A × Fated S
unfated (a, s) = (a, (s, []))

-- `m` does on a state with no fates what `n` does.
pub record SameBody {S A : Type 0} (m : Body (Fated S) A) (n : Body S A) : Type 0 where
  pub at : (s : S) → m (s, []) ≡ unfated (n s)

module _ {S A : Type 0} where
  pub SameBody-pure : (a : A) → SameBody {S = S} (pure a) (pure a)
  SameBody-pure a = record { at = λ s. refl }

  pub SameBody-exit : (r : SubResult) → SameBody {S = S} (exit {A = A} r) (exit {A = A} r)
  SameBody-exit r = record { at = λ s. refl }

  pub SameBody-or_return :
      (a : Attempt A) (k : Error → SubResult) → SameBody {S = S} (or_return a k) (or_return a k)
  SameBody-or_return (ok a) k = record { at = λ s. refl }
  SameBody-or_return (err e) k = record { at = λ s. refl }

  pub SameBody-on_error :
      (a : Attempt A) (k : Error → Body (Fated S) (Unit {0})) (l : Error → Body S (Unit {0}))
      → ((e : Error) → SameBody (k e) (l e))
      → SameBody (on_error a k) (on_error a l)
  SameBody-on_error (ok a) k l h = record { at = λ s. refl }
  SameBody-on_error (err e) k l h = h e

  pub SameBody-when_absent :
      (a : Attempt A) (m : Body (Fated S) (Unit {0})) (n : Body S (Unit {0}))
      → SameBody m n
      → SameBody (when_absent a m) (when_absent a n)
  SameBody-when_absent (ok a) m n h = record { at = λ s. refl }
  SameBody-when_absent (err e) m n h = absent e.not_found
    where
      absent :
          (b : Bool)
          → SameBody
              (if b then m else exit (requeue_with_error e))
              (if b then n else exit (requeue_with_error e))
      absent true = h
      absent false = record { at = λ s. refl }

  pub SameBody-call : (c : Call S A) → SameBody (call (fated c)) (call c)
  SameBody-call c = record { at = λ s. refl }

  pub SameBody-try : (c : Call S A) (k : Error → SubResult) → SameBody (try (fated c) k) (try c k)
  SameBody-try c k = record { at = λ s. tried (c s).0 (c s).1 }
    where
      tried : (a : Attempt A) (t : S) → or_return a k (t, []) ≡ unfated (or_return a k t)
      tried (ok a) t = refl
      tried (err e) t = refl

module _ {S : Type 0} where
  pub SameBody-when :
      (b : Bool) (m : Body (Fated S) (Unit {0})) (n : Body S (Unit {0}))
      → SameBody m n
      → SameBody (when b m) (when b n)
  SameBody-when true m n h = h
  SameBody-when false m n h = record { at = λ s. refl }

  pub SameBody-act :
      (f : Fated S → Fated S) (g : S → S)
      → ((s : S) → f (s, []) ≡ (g s, []))
      → SameBody (act f) (act g)
  SameBody-act f g h = record { at = λ s. ap (λ t. (proceed tt, t)) (h s) }

module _ {S A B : Type 0} where
  continued :
      (w : Flow A) (t : S) (f : A → Body (Fated S) B) (g : A → Body S B)
      → ((a : A) → SameBody (f a) (g a))
      → ((λ s. (w, s)) >>= f) (t, []) ≡ unfated (((λ s. (w, s)) >>= g) t)
  continued (proceed a) t f g h = (h a).at t
  continued (return r) t f g h = refl

  pub SameBody-bind :
      (m : Body (Fated S) A) (n : Body S A) (f : A → Body (Fated S) B) (g : A → Body S B)
      → SameBody m n
      → ((a : A) → SameBody (f a) (g a))
      → SameBody (m >>= f) (n >>= g)
  SameBody-bind m n f g h k = record {
    at = λ s. ap (λ x. ((λ s. (x.0, s)) >>= f) x.1) (h.at s) ∙ continued (n s).0 (n s).1 f g k;
  }

-- So does a sub-reconciler.
pub record SameSub {S : Type 0} (f : Fated S → SubResult × Fated S) (g : S → SubResult × S)
    : Type 0 where
  pub at : (s : S) → f (s, []) ≡ unfated (g s)

pub SameSub-returned :
    {S : Type 0} (m : Body (Fated S) SubResult) (n : Body S SubResult)
    → SameBody m n
    → SameSub (returned m) (returned n)
SameSub-returned m n h = record { at = λ s. ap (λ x. returned (λ t. x) x.1) (h.at s) }

pub ruleset fated_rules = (
  SameSub-returned, SameBody-pure, SameBody-exit, SameBody-or_return, SameBody-on_error,
  SameBody-when_absent, SameBody-call, SameBody-when, SameBody-act, SameBody-try, SameBody-bind,
)
