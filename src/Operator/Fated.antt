-- ===== src/Operator/Fated.antt =====
-- The sub-reconcilers of the hub controller do on a client whose calls are all answered what they do
-- on the wrapped client.
use observability_ui_operato.Base.{String, arith, refl}
use observability_ui_operato.Api.{Request, ObservabilityUi, Condition}
use observability_ui_operato.Subreconciler.{
  should_halt_or_requeue, continue_reconciling, do_not_requeue, requeue_with_error,
}
use observability_ui_operato.Body.Fated.{SameBody, SameSub, fated_rules}
use observability_ui_operato.Client.{Client}
use observability_ui_operato.Operator.{
  latest, set_condition, report_failure, set_status_to_unknown, handle_delete, update_status,
}
use observability_ui_operato.Operator.Resources.{
  reconcile_service_account, reconcile_cluster_role, reconcile_cluster_role_binding,
  reconcile_service, reconcile_deployment, reconcile_console_plugin, console_plugin_body,
}
use observability_ui_operato.Operator.Register.{register_plugin_in_console}
use observability_ui_operato.Trace.Faults.{faulty}

module _ (C : Client) (req : Request) where
  same_latest : (o : ObservabilityUi) → SameBody (latest (faulty C) req o) (latest C req o)
  unfolding latest should_halt_or_requeue continue_reconciling do_not_requeue requeue_with_error
  same_latest o = record { at = λ s. ground arith }

  same_set_condition :
      (o : ObservabilityUi) (c : Condition)
      → SameBody (set_condition (faulty C) o c) (set_condition C o c)
  same_set_condition o c = record { at = λ s. refl }

  same_report_failure :
      (o : ObservabilityUi) (message : String)
      → SameBody (report_failure (faulty C) req o message) (report_failure C req o message)
  unfolding report_failure
  same_report_failure o message = search (fated_rules, same_latest, same_set_condition) depth 12

  pub same_set_status_to_unknown :
      SameSub (set_status_to_unknown (faulty C) req) (set_status_to_unknown C req)
  unfolding set_status_to_unknown
  same_set_status_to_unknown = search (fated_rules, same_latest, same_set_condition) depth 24

  pub same_handle_delete : SameSub (handle_delete (faulty C) req) (handle_delete C req)
  unfolding handle_delete
  same_handle_delete = search (fated_rules, same_latest) depth 24

  pub same_reconcile_service_account :
      SameSub (reconcile_service_account (faulty C) req) (reconcile_service_account C req)
  unfolding reconcile_service_account
  same_reconcile_service_account = search (fated_rules, same_latest, same_report_failure) depth 24

  pub same_reconcile_cluster_role :
      SameSub (reconcile_cluster_role (faulty C) req) (reconcile_cluster_role C req)
  unfolding reconcile_cluster_role
  same_reconcile_cluster_role = search (fated_rules, same_latest, same_report_failure) depth 24

  pub same_reconcile_cluster_role_binding :
      SameSub (reconcile_cluster_role_binding (faulty C) req) (reconcile_cluster_role_binding C req)
  unfolding reconcile_cluster_role_binding
  same_reconcile_cluster_role_binding =
      search (fated_rules, same_latest, same_report_failure) depth 24

  pub same_reconcile_service : SameSub (reconcile_service (faulty C) req) (reconcile_service C req)
  unfolding reconcile_service
  same_reconcile_service = search (fated_rules, same_latest, same_report_failure) depth 24

  pub same_reconcile_deployment :
      SameSub (reconcile_deployment (faulty C) req) (reconcile_deployment C req)
  unfolding reconcile_deployment
  same_reconcile_deployment = search (fated_rules, same_latest, same_report_failure) depth 24

  pub same_reconcile_console_plugin :
      SameSub (reconcile_console_plugin (faulty C) req) (reconcile_console_plugin C req)
  unfolding reconcile_console_plugin console_plugin_body
  same_reconcile_console_plugin = search (fated_rules, same_latest, same_report_failure) depth 24

  pub same_register_plugin_in_console :
      SameSub (register_plugin_in_console (faulty C) req) (register_plugin_in_console C req)
  unfolding register_plugin_in_console
  same_register_plugin_in_console = search (fated_rules, same_latest, same_report_failure) depth 24

  pub same_update_status : SameSub (update_status (faulty C) req) (update_status C req)
  unfolding update_status
  same_update_status = search (fated_rules, same_latest, same_set_condition) depth 24
