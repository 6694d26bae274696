-- ===== src/Plugins/Resources.antt =====
-- controllers/plugins/observabilityuiplugin_controller.go: the sub-reconcilers that create a
-- resource where `Get` does not find it.
use observability_ui_operato.Base.{◌<>◌}
use observability_ui_operato.Api.{Request, empty_obs_ui_plugin}
use observability_ui_operato.Api.Objects.{
  service, deployment, console_plugin_v1_alpha1, service_kind, deployment_kind, console_plugin_kind,
}
use observability_ui_operato.Common.{get_observability_ui_namespace}
use observability_ui_operato.ConsolePlugin.{
  from_obs_ui_plugin, service_name, deployment_name, console_plugin_name,
}
use observability_ui_operato.ConsolePlugin.Objects.{
  get_service, get_deployment, get_console_plugin_v1_alpha1,
}
use observability_ui_operato.Subreconciler.{SubResult, continue_reconciling, requeue_with_error}
use observability_ui_operato.Body.{
  ◌>>=◌, ◌>>◌, pure, exit, call, or_return, on_error, when_absent, returned,
}
use observability_ui_operato.Client.{Client, owner_ui_plugin, controlled_by}
use observability_ui_operato.Plugins.{latest, report_failure}

module _ (C : Client) where
  unfoldable pub reconcile_deployment : Request → C.State → SubResult × C.State
  reconcile_deployment req = returned do
    plugin ← latest C req empty_obs_ui_plugin
    let default_namespace = get_observability_ui_namespace
    builder ← or_return (from_obs_ui_plugin plugin default_namespace) requeue_with_error
    found ← call (
        C.get deployment_kind
          (record { namespace = default_namespace; name = deployment_name builder }))
    when_absent found do
      let dep = deployment (get_deployment builder)
      dep ← or_return (controlled_by C (owner_ui_plugin plugin) dep) requeue_with_error
      created ← call (C.create dep)
      on_error created λ e. do
        plugin ← latest C req plugin
        report_failure C plugin
            ("failed to create deployment for (" <> plugin.meta.name <> "): (" <> e.message <> ")")
        exit (requeue_with_error e)
    pure continue_reconciling

  unfoldable pub reconcile_service : Request → C.State → SubResult × C.State
  reconcile_service req = returned do
    plugin ← latest C req empty_obs_ui_plugin
    let default_namespace = get_observability_ui_namespace
    builder ← or_return (from_obs_ui_plugin plugin default_namespace) requeue_with_error
    found ←
        call (
          C.get service_kind
            (record { namespace = default_namespace; name = service_name builder }))
    when_absent found do
      let ser = service (get_service builder)
      ser ← or_return (controlled_by C (owner_ui_plugin plugin) ser) requeue_with_error
      created ← call (C.create ser)
      on_error created λ e. do
        report_failure C plugin (
            "failed to create service for the custom resource " <> plugin.meta.name <> ": "
            <> e.message)
        exit (requeue_with_error e)
    pure continue_reconciling

  unfoldable pub reconcile_console_plugin : Request → C.State → SubResult × C.State
  reconcile_console_plugin req = returned do
    plugin ← latest C req empty_obs_ui_plugin
    let default_namespace = get_observability_ui_namespace
    builder ← or_return (from_obs_ui_plugin plugin default_namespace) requeue_with_error
    found ←
        call (
          C.get console_plugin_kind (record { namespace = ""; name = console_plugin_name builder }))
    when_absent found do
      let cp = console_plugin_v1_alpha1 (get_console_plugin_v1_alpha1 builder)
      cp ← or_return (controlled_by C (owner_ui_plugin plugin) cp) requeue_with_error
      created ← call (C.create cp)
      on_error created λ e. do
        report_failure C plugin (
            "failed to create Builder for the custom resource console plugin " <> plugin.meta.name
            <> ": " <> e.message)
        exit (requeue_with_error e)
    pure continue_reconciling
