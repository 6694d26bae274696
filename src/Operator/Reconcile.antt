-- ===== src/Operator/Reconcile.antt =====
-- controllers/operator/observabilityui_controller.go: `Reconcile`.
pub mod Safety
pub mod Order
pub mod Deletion
pub mod Status
pub mod Swallowed
pub mod Success
use observability_ui_operato.Base.{Option, some, List, [], ◌∷◌}
use observability_ui_operato.Attempt.{ok, err, errorf}
use observability_ui_operato.Api.{Request}
use observability_ui_operato.Subreconciler.{
  Outcome, FnWithRequest, empty_result, run_subreconcilers,
}
use observability_ui_operato.Client.{Client}
use observability_ui_operato.Operator.{set_status_to_unknown, handle_delete, update_status}
use observability_ui_operato.Operator.Resources.{
  reconcile_service_account, reconcile_cluster_role, reconcile_cluster_role_binding,
  reconcile_service, reconcile_deployment, reconcile_console_plugin,
}
use observability_ui_operato.Operator.Register.{register_plugin_in_console}

module _ (C : Client) where
  abbrev pub subreconcilers : List (FnWithRequest C.State)
  subreconcilers =
      set_status_to_unknown C
      ∷ handle_delete C
      ∷ reconcile_service_account C
      ∷ reconcile_cluster_role C
      ∷ reconcile_cluster_role_binding C
      ∷ reconcile_service C
      ∷ reconcile_deployment C
      ∷ reconcile_console_plugin C
      ∷ register_plugin_in_console C
      ∷ update_status C
      ∷ []

  -- `none` is a panic.
  unfoldable pub reconcile : Request → C.State → Option Outcome × C.State
  reconcile req s =
      let (client, t) = C.new_for_config s in
      elim client [
        | err e ↦ (some (empty_result, some (errorf "creating openshift operator client")), t)
        | ok osopclient ↦ run_subreconcilers subreconcilers req t
      ]
