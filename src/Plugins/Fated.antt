-- ===== src/Plugins/Fated.antt =====
-- The sub-reconcilers of the controller of plugins do on a client whose calls are all answered what
-- they do on the wrapped client.
use observability_ui_operato.Base.{String, arith, refl, [], ◌≡◌, Option-cases, inl, inr}
use observability_ui_operato.Api.{Request, ObservabilityUiPlugin, Condition}
use observability_ui_operato.Subreconciler.{
  should_halt_or_requeue, continue_reconciling, do_not_requeue, requeue_with_delay_and_error,
}
use observability_ui_operato.Body.Fated.{SameBody, SameSub, fated_rules}
use observability_ui_operato.Client.{Client}
use observability_ui_operato.Plugins.{
  latest, set_condition, report_failure, set_status_to_unknown, add_finalizer, update_status,
}
use observability_ui_operato.Plugins.Delete.{
  record_deleting, do_finalizer_operations, handle_delete,
}
use observability_ui_operato.Plugins.Resources.{
  reconcile_service, reconcile_deployment, reconcile_console_plugin,
}
use observability_ui_operato.Plugins.Register.{register_plugin_in_console}
use observability_ui_operato.Trace.Faults.{faulty}

module _ (C : Client) (req : Request) where
  same_latest : (o : ObservabilityUiPlugin) → SameBody (latest (faulty C) req o) (latest C req o)
  unfolding latest should_halt_or_requeue continue_reconciling do_not_requeue
      requeue_with_delay_and_error
  same_latest o = record { at = λ s. ground arith }

  same_set_condition :
      (o : ObservabilityUiPlugin) (c : Condition)
      → SameBody (set_condition (faulty C) o c) (set_condition C o c)
  same_set_condition o c = record { at = λ s. refl }

  same_report_failure :
      (o : ObservabilityUiPlugin) (message : String)
      → SameBody (report_failure (faulty C) o message) (report_failure C o message)
  unfolding report_failure
  same_report_failure o message = search (fated_rules, same_set_condition) depth 12

  same_record_deleting :
      (o : ObservabilityUiPlugin) (s : C.State)
      → record_deleting (faulty C) o (s, []) ≡ (record_deleting C o s, [])
  same_record_deleting o s = elim (Option-cases C.recorder) [
    | inl absent ↦ rw absent refl
    | inr (event, there) ↦ rw there refl
  ]

  same_do_finalizer_operations :
      (o : ObservabilityUiPlugin) (s : C.State)
      → do_finalizer_operations (faulty C) o (s, []) ≡ (do_finalizer_operations C o s, [])
  unfolding do_finalizer_operations
  same_do_finalizer_operations o s = ground (arith, same_record_deleting o s)

  pub same_set_status_to_unknown :
      SameSub (set_status_to_unknown (faulty C) req) (set_status_to_unknown C req)
  unfolding set_status_to_unknown
  same_set_status_to_unknown = search (fated_rules, same_latest, same_set_condition) depth 24

  pub same_add_finalizer : SameSub (add_finalizer (faulty C) req) (add_finalizer C req)
  unfolding add_finalizer
  same_add_finalizer = search (fated_rules, same_latest) depth 24

  pub same_handle_delete : SameSub (handle_delete (faulty C) req) (handle_delete C req)
  unfolding handle_delete
  same_handle_delete =
      search (fated_rules, same_latest, same_set_condition, same_do_finalizer_operations) depth 24

  pub same_reconcile_deployment :
      SameSub (reconcile_deployment (faulty C) req) (reconcile_deployment C req)
  unfolding reconcile_deployment
  same_reconcile_deployment = search (fated_rules, same_latest, same_report_failure) depth 24

  pub same_reconcile_service : SameSub (reconcile_service (faulty C) req) (reconcile_service C req)
  unfolding reconcile_service
  same_reconcile_service = search (fated_rules, same_latest, same_report_failure) depth 24

  pub same_reconcile_console_plugin :
      SameSub (reconcile_console_plugin (faulty C) req) (reconcile_console_plugin C req)
  unfolding reconcile_console_plugin
  same_reconcile_console_plugin = search (fated_rules, same_latest, same_report_failure) depth 24

  pub same_register_plugin_in_console :
      SameSub (register_plugin_in_console (faulty C) req) (register_plugin_in_console C req)
  unfolding register_plugin_in_console
  same_register_plugin_in_console = search (fated_rules, same_latest, same_report_failure) depth 24

  pub same_update_status : SameSub (update_status (faulty C) req) (update_status C req)
  unfolding update_status
  same_update_status = search (fated_rules, same_latest, same_set_condition) depth 24
