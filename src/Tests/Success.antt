-- ===== src/Tests/Success.antt =====
-- What runs that succeed have found or created, in the cluster in memory.
use observability_ui_operato.Base.{
  ◌≡◌, refl, false, some, none, [], Option, arith, is_some, contains,
}
use observability_ui_operato.Attempt.{Error, ok, err}
use observability_ui_operato.Api.{ObservabilityUi}
use observability_ui_operato.Api.Objects.{
  deployment_kind, service_kind, service_account_kind, cluster_role_kind, cluster_role_binding_kind,
}
use observability_ui_operato.Subreconciler.{
  Outcome, empty_result, run_subreconcilers, continue_reconciling, do_not_requeue, evaluate,
  should_halt_or_requeue,
}
use observability_ui_operato.Operator.{
  handle_delete, report_failure, latest, set_status_to_unknown, update_status,
}
use observability_ui_operato.Operator.Resources.{
  reconcile_service_account, reconcile_cluster_role, reconcile_cluster_role_binding,
  reconcile_service, reconcile_deployment, reconcile_console_plugin,
}
use observability_ui_operato.Operator.Register.{register_plugin_in_console}
use observability_ui_operato.Common.{get_observability_ui_namespace}
use observability_ui_operato.ConsolePlugin.{
  from_obs_ui, console_plugin_name, deployment_name, service_name,
}
use observability_ui_operato.ConsolePlugin.Objects.{
  get_service, get_deployment, get_console_plugin_v1,
}
use observability_ui_operato.Patches.{enable_patches}
use observability_ui_operato.Operator.Reconcile.{reconcile}
use observability_ui_operato.Operator.Reconcile.Success.{success_confirmed}
use observability_ui_operato.Trace.Confirmed.{confirming, Has, Noted}
use observability_ui_operato.Tests.Cluster.{Memory, empty_memory, cluster, refusing, request}

hub_there :
    (s : Memory) (e : Error)
    → ((cluster refusing).get_obs_ui request s).0 ≡ err e
    → e.not_found ≡ false
hub_there s e h = cc h

hub_alive :
    (s : Memory) (o : ObservabilityUi)
    → ((cluster refusing).get_obs_ui request s).0 ≡ ok o
    → is_some o.meta.deletion_timestamp ≡ false
hub_alive s o h = ground (arith, h)

-- A cluster that refuses the console plugin.
refusing_run : Option Outcome × Noted Memory
unfolding reconcile run_subreconcilers should_halt_or_requeue continue_reconciling do_not_requeue
    evaluate set_status_to_unknown latest handle_delete update_status report_failure
    reconcile_service_account reconcile_cluster_role reconcile_cluster_role_binding
    reconcile_service reconcile_deployment reconcile_console_plugin register_plugin_in_console
    from_obs_ui get_observability_ui_namespace console_plugin_name deployment_name service_name
    get_service get_deployment get_console_plugin_v1 enable_patches contains
refusing_run = reconcile (confirming (cluster refusing)) request (empty_memory, [])

refusing_run_returns :
    (reconcile (confirming (cluster refusing)) request (empty_memory, [])).0
    ≡ some (empty_result, none)
unfolding refusing_run
refusing_run_returns = refl

success_confirmed_example :
    Has service_account_kind
      (reconcile (confirming (cluster refusing)) request (empty_memory, [])).1.1
    × Has cluster_role_kind
        (reconcile (confirming (cluster refusing)) request (empty_memory, [])).1.1
    × Has cluster_role_binding_kind
        (reconcile (confirming (cluster refusing)) request (empty_memory, [])).1.1
    × Has service_kind (reconcile (confirming (cluster refusing)) request (empty_memory, [])).1.1
    × Has deployment_kind (reconcile (confirming (cluster refusing)) request (empty_memory, [])).1.1
success_confirmed_example =
    success_confirmed (cluster refusing) request hub_there hub_alive empty_memory
      refusing_run_returns
