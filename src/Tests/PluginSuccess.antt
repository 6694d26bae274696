-- ===== src/Tests/PluginSuccess.antt =====
-- What a run of the controller of plugins that succeeds has found or created, in the cluster in
-- memory.
use observability_ui_operato.Base.{
  ◌≡◌, refl, false, some, none, [], Option, arith, is_some, contains,
}
use observability_ui_operato.Attempt.{Error, ok, err}
use observability_ui_operato.Api.{ObservabilityUiPlugin}
use observability_ui_operato.Api.Objects.{deployment_kind, service_kind, console_plugin_kind}
use observability_ui_operato.Subreconciler.{
  Outcome, empty_result, run_subreconcilers, continue_reconciling, do_not_requeue, evaluate,
  should_halt_or_requeue, requeue,
}
use observability_ui_operato.Plugins.{
  add_finalizer, report_failure, latest, set_status_to_unknown, update_status,
}
use observability_ui_operato.Plugins.Delete.{handle_delete}
use observability_ui_operato.Plugins.Resources.{
  reconcile_service, reconcile_deployment, reconcile_console_plugin,
}
use observability_ui_operato.Plugins.Register.{register_plugin_in_console}
use observability_ui_operato.Common.{get_observability_ui_namespace}
use observability_ui_operato.ConsolePlugin.{
  from_obs_ui_plugin, get_plugin_image_from_type, console_plugin_name, deployment_name,
  service_name,
}
use observability_ui_operato.ConsolePlugin.Objects.{
  get_service, get_deployment, get_console_plugin_v1,
}
use observability_ui_operato.Patches.{enable_patches}
use observability_ui_operato.Plugins.Reconcile.{reconcile}
use observability_ui_operato.Plugins.Reconcile.Success.{plugins_success_confirmed}
use observability_ui_operato.Trace.Confirmed.{confirming, Has, Noted}
use observability_ui_operato.Tests.Cluster.{Memory, empty_memory, cluster, setting, request}

plugin_there :
    (s : Memory) (e : Error)
    → ((cluster setting).get_obs_ui_plugin request s).0 ≡ err e
    → e.not_found ≡ false
plugin_there s e h = cc h

plugin_alive :
    (s : Memory) (o : ObservabilityUiPlugin)
    → ((cluster setting).get_obs_ui_plugin request s).0 ≡ ok o
    → is_some o.meta.deletion_timestamp ≡ false
plugin_alive s o h = ground (arith, h)

plugin_run : Option Outcome × Noted Memory
unfolding reconcile run_subreconcilers should_halt_or_requeue continue_reconciling do_not_requeue
    requeue evaluate set_status_to_unknown latest add_finalizer handle_delete update_status
    report_failure reconcile_service reconcile_deployment reconcile_console_plugin
    register_plugin_in_console from_obs_ui_plugin get_plugin_image_from_type
    get_observability_ui_namespace console_plugin_name deployment_name service_name get_service
    get_deployment get_console_plugin_v1 enable_patches contains
plugin_run = reconcile (confirming (cluster setting)) request (empty_memory, [])

plugin_run_returns :
    (reconcile (confirming (cluster setting)) request (empty_memory, [])).0
    ≡ some (empty_result, none)
unfolding plugin_run
plugin_run_returns = refl

plugins_success_confirmed_example :
    Has deployment_kind (reconcile (confirming (cluster setting)) request (empty_memory, [])).1.1
    × Has service_kind (reconcile (confirming (cluster setting)) request (empty_memory, [])).1.1
    × Has console_plugin_kind
        (reconcile (confirming (cluster setting)) request (empty_memory, [])).1.1
plugins_success_confirmed_example =
    plugins_success_confirmed (cluster setting) request plugin_there plugin_alive empty_memory
      plugin_run_returns
