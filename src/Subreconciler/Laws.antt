-- ===== src/Subreconciler/Laws.antt =====
-- Which pairs halt a reconciliation, what the loop over sub-reconcilers returns, and that over
-- well-formed sub-reconcilers it does not panic.
use observability_ui_operato.Base.{
  true, none, some, List, [], ◌∷◌, ◌≡◌, ◌≢◌, ◌↔◌, refl, arith, is_some, false, subst, Bool-cases,
  inl, inr,
}
use observability_ui_operato.Api.{Request}
use observability_ui_operato.Subreconciler.{
  SubResult, Outcome, evaluate, continue_reconciling, should_halt_or_requeue, should_continue,
  FnWithRequest, run_subreconcilers, empty_result,
}

-- A sub-reconciler's pair lets the next one run exactly when it is `(nil, nil)`.
should_continue_iff : (r : SubResult) → (should_continue r ≡ true) ↔ (r ≡ continue_reconciling)
unfolding should_continue continue_reconciling
should_continue_iff r = ground arith

pub should_halt-continue_reconciling : should_halt_or_requeue continue_reconciling ≡ false
unfolding should_halt_or_requeue continue_reconciling
should_halt-continue_reconciling = refl

continues : (r : SubResult) → should_halt_or_requeue r ≡ false → r ≡ continue_reconciling
unfolding should_halt_or_requeue continue_reconciling
continues r h = ground arith

-- A pair with an error has a result that `Evaluate` can read.
abbrev pub IsWellFormed : SubResult → Type 0
IsWellFormed r = is_some r.1 ≡ true → is_some r.0 ≡ true

-- Every sub-reconciler of a list returns pairs with a property.
infixr 20 ◌▹◌
pub data AllReturn {S : Type 0} (P : SubResult → Type 0) : List (FnWithRequest S) → Type 0 where
  done : AllReturn P []
  ◌▹◌ :
      {f : FnWithRequest S} {fs : List (FnWithRequest S)}
      → ((req : Request) (s : S) → P (f req s).0)
      → AllReturn P fs
      → AllReturn P (f ∷ fs)

pub AllReturn-map :
    {S : Type 0} {P Q : SubResult → Type 0} {fs : List (FnWithRequest S)}
    → ((r : SubResult) → P r → Q r)
    → AllReturn P fs
    → AllReturn Q fs
AllReturn-map h done = done
AllReturn-map h (p ▹ ps) = (λ req s. h _ (p req s)) ▹ AllReturn-map h ps

-- What a pass over the sub-reconcilers does, as a relation: they run in order, each from the state
-- that the one before it left, up to the first that does not return `(nil, nil)`.
pub data Runs {S : Type 0} (req : Request)
    : List (FnWithRequest S) → S → SubResult → S → Type 0 where
  finished : {s : S} → Runs req [] s continue_reconciling s
  halted :
      {f : FnWithRequest S} {fs : List (FnWithRequest S)} {s t : S} {r : SubResult}
      → f req s ≡ (r, t)
      → r ≢ continue_reconciling
      → Runs req (f ∷ fs) s r t
  passed :
      {f : FnWithRequest S} {fs : List (FnWithRequest S)} {s t u : S} {r : SubResult}
      → f req s ≡ (continue_reconciling, t)
      → Runs req fs t r u
      → Runs req (f ∷ fs) s r u

-- What `Reconcile` returns for the pair on which the pass ended.
abbrev pub outcome_of : SubResult → Outcome
outcome_of (none, e) = (empty_result, e)
outcome_of (some r, e) = (r, e)

evaluate-outcome_of :
    (r : SubResult)
    → IsWellFormed r
    → should_halt_or_requeue r ≡ true
    → evaluate r ≡ some (outcome_of r)
unfolding evaluate should_halt_or_requeue
evaluate-outcome_of r w h = ground arith

halts : (r : SubResult) → should_halt_or_requeue r ≡ true → r ≢ continue_reconciling
unfolding should_halt_or_requeue continue_reconciling
halts r h = ground arith

must_halt : (r : SubResult) → r ≢ continue_reconciling → should_halt_or_requeue r ≡ true
must_halt r h = elim (Bool-cases (should_halt_or_requeue r)) [
  | inl e ↦ e
  | inr e ↦ absurd (h (continues r e))
]

module _ {S : Type 0} (req : Request) where
  -- Over sub-reconcilers whose pairs with an error have a result, the loop of `Reconcile` ends without
  -- a panic: there is a pass of the relation `Runs`, and the loop returns its state and what its pair
  -- stands for.
  pub run_subreconcilers-Runs :
      (fs : List (FnWithRequest S)) (s : S)
      → AllReturn IsWellFormed fs
      → (r : SubResult) × (t : S) × Runs req fs s r t
        × (run_subreconcilers fs req s ≡ (some (outcome_of r), t))
  unfolding run_subreconcilers continue_reconciling
  run_subreconcilers-Runs [] s done = (continue_reconciling, s, finished, refl)
  run_subreconcilers-Runs (f ∷ fs) s (w ▹ ws) =
      elim (Bool-cases (should_halt_or_requeue (f req s).0)) [
        | inl h ↦ (
          (f req s).0,
          (f req s).1,
          halted refl (halts _ h),
          rw (h, evaluate-outcome_of (f req s).0 (w req s) h),
        )
        | inr h ↦
            let (r, t, runs, e) = run_subreconcilers-Runs fs (f req s).1 ws in
            (r, t, passed (cc (continues _ h)) runs, rw h e)
      ]

  -- Over such sub-reconcilers the loop returns, for every pass of the relation `Runs`, the state of that
  -- pass and what its pair stands for: the relation has no other pass than the loop's.
  pub Runs-run_subreconcilers :
      {fs : List (FnWithRequest S)} {s t : S} {r : SubResult}
      → AllReturn IsWellFormed fs
      → Runs req fs s r t
      → run_subreconcilers fs req s ≡ (some (outcome_of r), t)
  unfolding run_subreconcilers continue_reconciling
  Runs-run_subreconcilers done finished = refl
  Runs-run_subreconcilers {s} (w ▹ ws) (halted {r = r} e h) =
      rw (e, must_halt r h) (rw (evaluate-outcome_of r (rw e at (w req s)) (must_halt r h)))
  Runs-run_subreconcilers (w ▹ ws) (passed e runs) =
      rw (e, should_halt-continue_reconciling) (Runs-run_subreconcilers ws runs)

-- What all pairs have, and `(nil, nil)` too, the pair has on which the pass ends.
pub Runs-AllReturn :
    {S : Type 0} {P : SubResult → Type 0} {req : Request} {fs : List (FnWithRequest S)} {s t : S}
    {r : SubResult}
    → P continue_reconciling
    → AllReturn P fs
    → Runs req fs s r t
    → P r
Runs-AllReturn p done finished = p
Runs-AllReturn {P} {req} {s} p (q ▹ qs) (halted e h) = subst (λ x. P x.0) e (q req s)
Runs-AllReturn p (q ▹ qs) (passed e runs) = Runs-AllReturn p qs runs
