-- ===== src/Plugins/Register.antt =====
-- controllers/plugins/observabilityuiplugin_controller.go: `registerPluginInConsole`.
use observability_ui_operato.Base.{◌<>◌, contains, elements}
use observability_ui_operato.Base.Time.{minute}
use observability_ui_operato.Api.{Request, empty_obs_ui_plugin}
use observability_ui_operato.Common.{get_observability_ui_namespace}
use observability_ui_operato.ConsolePlugin.{from_obs_ui_plugin, console_plugin_name}
use observability_ui_operato.Subreconciler.{
  SubResult, continue_reconciling, do_not_requeue, requeue_with_error, requeue_with_delay_and_error,
}
use observability_ui_operato.Body.{
  ◌>>=◌, ◌>>◌, pure, exit, when, call, try, or_return, on_error, returned,
}
use observability_ui_operato.Client.{Client}
use observability_ui_operato.Patches.{cluster_console, enable_patches}
use observability_ui_operato.Plugins.{latest, report_failure}

module _ (C : Client) where
  unfoldable pub register_plugin_in_console : Request → C.State → SubResult × C.State
  register_plugin_in_console req = returned do
    plugin ← latest C req empty_obs_ui_plugin
    let default_namespace = get_observability_ui_namespace
    builder ← or_return (from_obs_ui_plugin plugin default_namespace) requeue_with_error
    let name = console_plugin_name builder
    console ← try (C.get_console cluster_console) (requeue_with_delay_and_error minute)
    when (contains (elements console.plugins) name) (exit continue_reconciling)
    patch_bytes ← or_return (C.marshal (enable_patches console name)) (λ _. do_not_requeue)
    patched ← call (C.patch_console cluster_console patch_bytes)
    on_error patched λ e. do
      report_failure C plugin (
          "failed to register console-plugin " <> plugin.meta.name <> " with console "
          <> cluster_console <> ": " <> e.message)
      exit (requeue_with_error e)
    pure continue_reconciling
