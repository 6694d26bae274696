-- ===== src/Operator.antt =====
-- controllers/operator/observabilityui_controller.go: reading the custom resource, its status and
-- its deletion. The sub-reconcilers for the resources are in `Resources`, the registration with the
-- console in `Register`, and `Reconcile` itself in `Reconcile`.
pub mod Fated
pub mod Resources
pub mod Register
pub mod Reconcile
pub mod Converge
use observability_ui_operato.Base.{
  String, ◌<>◌, Bool, true, false, none, some, [], ◌∷◌, is_some, if◌then◌else◌,
}
use observability_ui_operato.Attempt.{ok, err}
use observability_ui_operato.Api.{
  Request, Condition, condition_true, condition_false, condition_unknown, ConditionStatus,
  ObservabilityUi, empty_obs_ui,
}
use observability_ui_operato.Common.{type_available_observability_ui}
use observability_ui_operato.Subreconciler.{
  SubResult, continue_reconciling, do_not_requeue, requeue_with_error,
}
use observability_ui_operato.Body.{
  Body, ◌>>=◌, ◌>>◌, pure, exit, when, unless_halted, try, call, returned,
}
use observability_ui_operato.Client.{Client}

-- `metav1.Condition{Type: common.TypeAvailableObservabilityUI, Status: …, Reason: "Reconciling",
-- Message: …}`
abbrev pub available : ConditionStatus → String → Condition
available status message = record {
  type = type_available_observability_ui;
  status = status;
  reason = "Reconciling";
  message = message;
}

abbrev pub has_no_conditions : ObservabilityUi → Bool
has_no_conditions obs_ui = elim obs_ui.status.conditions [ [] ↦ true | c ∷ cs ↦ false ]

module _ (C : Client) where
  -- The pair that it returns, with the object that it was given to fill.
  unfoldable pub get_latest_obs_ui :
      Request → ObservabilityUi → C.State → (SubResult × ObservabilityUi) × C.State
  get_latest_obs_ui req obs_ui s =
      let (got, t) = C.get_obs_ui req s in
      elim got [
        | ok latest ↦ ((continue_reconciling, latest), t)
        | err e ↦
            if e.not_found
            then ((do_not_requeue, obs_ui), t)
            else ((requeue_with_error e, obs_ui), t)
      ]

  -- `if r, err := r.getLatestObsUI(ctx, req, obsUI); … { return r, err }`
  unfoldable pub latest : Request → ObservabilityUi → Body C.State ObservabilityUi
  unfolding get_latest_obs_ui
  latest req obs_ui s =
      let ((r, filled), t) = get_latest_obs_ui req obs_ui s in (unless_halted r >> pure filled) t

  -- `meta.SetStatusCondition(&obsUI.Status.Conditions, c)`
  abbrev pub set_condition : ObservabilityUi → Condition → Body C.State ObservabilityUi
  set_condition obs_ui c s =
      pure
        (record obs_ui {
          status = record { conditions = C.set_status_condition obs_ui.status.conditions c s };
        })
        s

  unfoldable pub set_status_to_unknown : Request → C.State → SubResult × C.State
  set_status_to_unknown req = returned do
    obs_ui ← latest req empty_obs_ui
    when (has_no_conditions obs_ui) do
      obs_ui' ← set_condition obs_ui (available condition_unknown "Starting reconciliation")
      _ ← try (C.update_obs_ui_status obs_ui') requeue_with_error
      pure tt
    pure continue_reconciling

  unfoldable pub handle_delete : Request → C.State → SubResult × C.State
  handle_delete req = returned do
    obs_ui ← latest req empty_obs_ui
    let is_obs_ui_marked_to_be_deleted = is_some obs_ui.meta.deletion_timestamp
    when is_obs_ui_marked_to_be_deleted (exit do_not_requeue)
    pure continue_reconciling

  unfoldable pub update_status : Request → C.State → SubResult × C.State
  update_status req = returned do
    obs_ui ← latest req empty_obs_ui
    obs_ui' ← set_condition obs_ui (
        available condition_true
          ("Resources for custom resource (" <> obs_ui.meta.name <> ") created successfully"))
    _ ← try (C.update_obs_ui_status obs_ui') requeue_with_error
    pure do_not_requeue

  -- What follows a failed call of `Create` or `Patch`: the condition is set on the object in hand,
  -- which is read anew and written back.
  unfoldable pub report_failure : Request → ObservabilityUi → String → Body C.State (Unit {0})
  report_failure req obs_ui message = do
    obs_ui' ← set_condition obs_ui (available condition_false message)
    obs_ui'' ← latest req obs_ui'
    _ ← try (C.update_obs_ui_status obs_ui'') requeue_with_error
    pure tt
