-- ===== src/Subreconciler.antt =====
-- internal/subreconciler/subreconciler.go, and the loop over sub-reconcilers that the `Reconcile`
-- of both controllers ends with. A `*ctrl.Result` that may be `nil` is an option.
pub mod Laws
pub mod Keeps
pub mod Success
pub mod Fated
use observability_ui_operato.Base.{
  ℕ, Bool, true, false, not, ◌&&◌, ◌||◌, Option, none, some, List, [], ◌∷◌, is_some, if◌then◌else◌,
}
use observability_ui_operato.Base.Time.{nat_eq}
use observability_ui_operato.Attempt.{Error}
use observability_ui_operato.Api.{Request}

-- `reconcile.Result`; `requeue_after` is a `time.Duration`, in nanoseconds.
pub record Result : Type 0 where
  pub requeue : Bool
  pub requeue_after : ℕ

-- `ctrl.Result{}`
abbrev pub empty_result : Result
empty_result = record { requeue = false; requeue_after = 0 }

-- What a sub-reconciler returns: `(*ctrl.Result, error)`.
abbrev pub SubResult : Type 0
SubResult = Option Result × Option Error

-- What a reconciler returns: `(ctrl.Result, error)`.
abbrev pub Outcome : Type 0
Outcome = Result × Option Error

-- `none` stands for the panic of `*r` at a `nil` pointer.
unfoldable pub evaluate : SubResult → Option Outcome
evaluate (none, e) = none
evaluate (some r, e) = some (r, e)

unfoldable pub continue_reconciling : SubResult
continue_reconciling = (none, none)

unfoldable pub do_not_requeue : SubResult
do_not_requeue = (some (record { requeue = false; requeue_after = 0 }), none)

unfoldable pub requeue_with_error : Error → SubResult
requeue_with_error e = (some (record { requeue = true; requeue_after = 0 }), some e)

unfoldable pub requeue : SubResult
requeue = (some (record { requeue = true; requeue_after = 0 }), none)

unfoldable pub requeue_with_delay : ℕ → SubResult
requeue_with_delay dur = (some (record { requeue = true; requeue_after = dur }), none)

unfoldable pub requeue_with_delay_and_error : ℕ → Error → SubResult
requeue_with_delay_and_error dur e = (some (record { requeue = true; requeue_after = dur }), some e)

-- `(*Result).IsZero` of controller-runtime, in the vendored pkg/reconcile/reconcile.go.
unfoldable pub is_zero : Option Result → Bool
is_zero none = true
is_zero (some r) = not r.requeue && nat_eq r.requeue_after 0

-- `res.Requeue`, where a `nil` or empty `r` has been replaced by an empty result.
requeues : Option Result → Bool
requeues none = false
requeues (some r) = r.requeue

unfoldable pub should_requeue : SubResult → Bool
unfolding is_zero requeues
should_requeue (r, e) =
    let res = if is_zero r then some empty_result else r in requeues res || is_some e

unfoldable pub should_halt_or_requeue : SubResult → Bool
unfolding should_requeue
should_halt_or_requeue (r, e) = is_some r || should_requeue (r, e)

unfoldable pub should_continue : SubResult → Bool
unfolding should_halt_or_requeue
should_continue r = not (should_halt_or_requeue r)

-- `FnWithRequest`, over the state of the world that its calls read and change.
abbrev pub FnWithRequest : Type 0 → Type 0
FnWithRequest S = Request → S → SubResult × S

-- The loop of `Reconcile`. The rest runs only if the first sub-reconciler says to go on.
unfoldable pub run_subreconcilers :
    {S : Type 0} → List (FnWithRequest S) → Request → S → Option Outcome × S
run_subreconcilers [] req s = (some (empty_result, none), s)
run_subreconcilers (f ∷ fs) req s =
    let (r, s') = f req s in
    let rest = run_subreconcilers fs req s' in
    if should_halt_or_requeue r then (evaluate r, s') else rest
