-- ===== src/Plugins/Delete.antt =====
-- controllers/plugins/observabilityuiplugin_controller.go: `handleDelete` and
-- `doFinalizerOperationsForObservabilityUI`.
use observability_ui_operato.Base.{◌<>◌, not, none, some, is_some, index_of, elements}
use observability_ui_operato.Base.Time.{second}
use observability_ui_operato.Attempt.{ok, err}
use observability_ui_operato.Api.{
  Request, condition_true, condition_unknown, ObservabilityUiPlugin, empty_obs_ui_plugin,
}
use observability_ui_operato.Common.{
  get_observability_ui_namespace, observability_ui_finalizer, type_degraded_observability_ui,
}
use observability_ui_operato.ConsolePlugin.{from_obs_ui_plugin, console_plugin_name}
use observability_ui_operato.Subreconciler.{
  SubResult, continue_reconciling, do_not_requeue, requeue_with_error, requeue,
  requeue_with_delay_and_error,
}
use observability_ui_operato.Body.{◌>>=◌, ◌>>◌, pure, exit, when, act, try, returned}
use observability_ui_operato.Client.{Client}
use observability_ui_operato.Patches.{cluster_console, disable_patches}
use observability_ui_operato.Plugins.{latest, plugin_condition, set_condition, with_finalizers}

-- The event that a recorder is given.
abbrev pub record_deleting : (C : Client) → ObservabilityUiPlugin → C.State → C.State
record_deleting C plugin s = elim C.recorder [
  | none ↦ s
  | some event ↦
      event plugin "Warning" "Deleting"
        ("custom resource " <> plugin.meta.name <> " is being deleted") s
]

module _ (C : Client) where
  -- It returns nothing: a failure is logged, and the deletion goes on.
  unfoldable pub do_finalizer_operations : ObservabilityUiPlugin → C.State → C.State
  do_finalizer_operations plugin s =
      let s₁ = record_deleting C plugin s in
      elim (from_obs_ui_plugin plugin get_observability_ui_namespace) [
        | err e ↦ s₁
        | ok builder ↦
            let (got, s₂) = C.get_console cluster_console s₁ in
            elim got [
              | err e ↦ s₂
              | ok console ↦
                  elim (index_of (elements console.plugins) (console_plugin_name builder)) [
                    | none ↦ s₂
                    | some index ↦ elim (C.marshal (disable_patches console index)) [
                      | err e ↦ s₂
                      | ok patch_bytes ↦ (C.patch_console cluster_console patch_bytes s₂).1
                    ]
                  ]
            ]
      ]

  unfoldable pub handle_delete : Request → C.State → SubResult × C.State
  handle_delete req = returned do
    plugin ← latest C req empty_obs_ui_plugin
    let is_obs_ui_plugin_marked_to_be_deleted = is_some plugin.meta.deletion_timestamp
    when is_obs_ui_plugin_marked_to_be_deleted do
      when (C.contains_finalizer plugin.meta.finalizers observability_ui_finalizer) do
        plugin ← set_condition C plugin (
            plugin_condition type_degraded_observability_ui condition_unknown "Finalizing" (
              "performing finalizer operations for the custom resource: " <> plugin.meta.name
              <> " "))
        plugin ← try (C.update_obs_ui_plugin_status plugin) requeue_with_error
        act (do_finalizer_operations plugin)
        plugin ← try (C.get_obs_ui_plugin req) requeue_with_error
        plugin ← set_condition C plugin (
            plugin_condition type_degraded_observability_ui condition_true "Finalizing" (
              "finalizer operations for custom resource " <> plugin.meta.name
              <> " name were successfully accomplished"))
        plugin ← try (C.update_obs_ui_plugin_status plugin) (requeue_with_delay_and_error second)
        let (finalizers, removed) =
            C.remove_finalizer plugin.meta.finalizers observability_ui_finalizer
        when (not removed) (exit requeue)
        _ ← try (C.update_obs_ui_plugin (with_finalizers C plugin finalizers)) requeue_with_error
        pure tt
      exit do_not_requeue
    pure continue_reconciling
