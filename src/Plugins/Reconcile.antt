-- ===== src/Plugins/Reconcile.antt =====
-- controllers/plugins/observabilityuiplugin_controller.go: `Reconcile`.
pub mod Safety
pub mod Order
pub mod Finalizer
pub mod Success
use observability_ui_operato.Base.{Option, some, List, [], ◌∷◌}
use observability_ui_operato.Attempt.{ok, err, errorf}
use observability_ui_operato.Api.{Request}
use observability_ui_operato.Subreconciler.{
  Outcome, FnWithRequest, empty_result, run_subreconcilers,
}
use observability_ui_operato.Client.{Client}
use observability_ui_operato.Plugins.{set_status_to_unknown, add_finalizer, update_status}
use observability_ui_operato.Plugins.Delete.{handle_delete}
use observability_ui_operato.Plugins.Resources.{
  reconcile_deployment, reconcile_service, reconcile_console_plugin,
}
use observability_ui_operato.Plugins.Register.{register_plugin_in_console}

module _ (C : Client) where
  abbrev pub subreconcilers : List (FnWithRequest C.State)
  subreconcilers =
      set_status_to_unknown C
      ∷ add_finalizer C
      ∷ handle_delete C
      ∷ reconcile_deployment C
      ∷ reconcile_service C
      ∷ reconcile_console_plugin C
      ∷ register_plugin_in_console C
      ∷ update_status C
      ∷ []

  -- `none` is a panic.
  unfoldable pub reconcile : Request → C.State → Option Outcome × C.State
  reconcile req s =
      let (client, t) = C.new_for_config s in
      elim client [
        | err e ↦ (some (empty_result, some (errorf "creating openshift operator client")), t)
        | ok osopclient ↦ run_subreconcilers subreconcilers req t
      ]
