-- ===== src/Plugins.antt =====
-- controllers/plugins/observabilityuiplugin_controller.go: reading the custom resource, its status
-- and its finalizer. Deletion is in `Delete`, the sub-reconcilers for the resources in `Resources`,
-- the registration with the console in `Register`, and `Reconcile` itself in `Reconcile`.
pub mod Fated
pub mod Resources
pub mod Register
pub mod Delete
pub mod Reconcile
pub mod Converge
use observability_ui_operato.Base.{
  String, ◌<>◌, Bool, true, false, not, List, [], ◌∷◌, if◌then◌else◌,
}
use observability_ui_operato.Base.Time.{second}
use observability_ui_operato.Attempt.{ok, err}
use observability_ui_operato.Api.{
  Request, Condition, condition_true, condition_false, condition_unknown, ConditionStatus,
  ObservabilityUiPlugin, empty_obs_ui_plugin,
}
use observability_ui_operato.Common.{type_available_observability_ui, observability_ui_finalizer}
use observability_ui_operato.Subreconciler.{
  SubResult, continue_reconciling, do_not_requeue, requeue_with_error, requeue_with_delay_and_error,
  requeue,
}
use observability_ui_operato.Body.{
  Body, ◌>>=◌, ◌>>◌, pure, exit, when, unless_halted, try, returned,
}
use observability_ui_operato.Client.{Client}

abbrev pub plugin_condition : String → ConditionStatus → String → String → Condition
plugin_condition type status reason message = record {
  type = type;
  status = status;
  reason = reason;
  message = message;
}

-- `metav1.Condition{Type: common.TypeAvailableObservabilityUI, Status: …, Reason: "Reconciling",
-- Message: …}`
abbrev pub available : ConditionStatus → String → Condition
available status message =
    plugin_condition type_available_observability_ui status "Reconciling" message

abbrev pub has_no_conditions : ObservabilityUiPlugin → Bool
has_no_conditions plugin = elim plugin.status.conditions [ [] ↦ true | c ∷ cs ↦ false ]

module _ (C : Client) where
  -- The pair that it returns, with the object that it was given to fill.
  unfoldable pub get_latest_obs_ui :
      Request → ObservabilityUiPlugin → C.State → (SubResult × ObservabilityUiPlugin) × C.State
  get_latest_obs_ui req plugin s =
      let (got, t) = C.get_obs_ui_plugin req s in
      elim got [
        | ok latest ↦ ((continue_reconciling, latest), t)
        | err e ↦
            if e.not_found
            then ((do_not_requeue, plugin), t)
            else ((requeue_with_delay_and_error second e, plugin), t)
      ]

  -- `if r, err := r.getLatestObsUI(ctx, req, obsUIPlugin); … { return r, err }`
  unfoldable pub latest : Request → ObservabilityUiPlugin → Body C.State ObservabilityUiPlugin
  unfolding get_latest_obs_ui
  latest req plugin s =
      let ((r, filled), t) = get_latest_obs_ui req plugin s in (unless_halted r >> pure filled) t

  -- `meta.SetStatusCondition(&obsUIPlugin.Status.Conditions, c)`
  abbrev pub set_condition : ObservabilityUiPlugin → Condition → Body C.State ObservabilityUiPlugin
  set_condition plugin c s =
      pure
        (record plugin {
          status = record { conditions = C.set_status_condition plugin.status.conditions c s };
        })
        s

  -- The object after `controllerutil.AddFinalizer`, or with other finalizers.
  abbrev pub with_finalizers : ObservabilityUiPlugin → List String → ObservabilityUiPlugin
  with_finalizers plugin finalizers = record plugin {
    meta = record plugin.meta { finalizers = finalizers };
  }

  unfoldable pub update_status : Request → C.State → SubResult × C.State
  update_status req = returned do
    plugin ← latest req empty_obs_ui_plugin
    plugin' ← set_condition plugin (
        available condition_true
          ("Resources for custom resource (" <> plugin.meta.name <> ") created successfully"))
    _ ← try (C.update_obs_ui_plugin_status plugin') requeue_with_error
    pure continue_reconciling

  unfoldable pub set_status_to_unknown : Request → C.State → SubResult × C.State
  set_status_to_unknown req = returned do
    plugin ← latest req empty_obs_ui_plugin
    when (has_no_conditions plugin) do
      plugin' ← set_condition plugin (available condition_unknown "Starting reconciliation")
      _ ← try (C.update_obs_ui_plugin_status plugin') (requeue_with_delay_and_error second)
      pure tt
    pure continue_reconciling

  unfoldable pub add_finalizer : Request → C.State → SubResult × C.State
  add_finalizer req = returned do
    plugin ← latest req empty_obs_ui_plugin
    when (not (C.contains_finalizer plugin.meta.finalizers observability_ui_finalizer)) do
      let (finalizers, added) = C.add_finalizer plugin.meta.finalizers observability_ui_finalizer
      when (not added) (exit requeue)
      plugin' ← latest req (with_finalizers plugin finalizers)
      _ ← try (C.update_obs_ui_plugin plugin') (requeue_with_delay_and_error second)
      pure tt
    pure continue_reconciling

  -- What follows a failed call of `Create` or `Patch`: the condition is set on the object in hand,
  -- and written.
  unfoldable pub report_failure : ObservabilityUiPlugin → String → Body C.State (Unit {0})
  report_failure plugin message = do
    plugin' ← set_condition plugin (available condition_false message)
    _ ← try (C.update_obs_ui_plugin_status plugin') (requeue_with_delay_and_error second)
    pure tt
