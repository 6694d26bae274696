-- ===== src/Plugins/Reconcile/Order.antt =====
-- In which order the controller of plugins writes its resources.
use mathlib.Core.List.{Sublistᴰ, reverse}
use observability_ui_operato.Base.{◌≡◌, String, arith, ◌⊎◌, inl, inr, List, [], ◌∷◌}
use observability_ui_operato.Attempt.{Attempt-cases}
use observability_ui_operato.Api.{Request, ObservabilityUiPlugin, empty_obs_ui_plugin}
use observability_ui_operato.Api.Objects.{service_kind, deployment_kind, console_plugin_kind}
use observability_ui_operato.Client.{Client}
use observability_ui_operato.Plugins.{
  latest, set_status_to_unknown, add_finalizer, update_status, report_failure,
}
use observability_ui_operato.Plugins.Delete.{do_finalizer_operations, handle_delete}
use observability_ui_operato.Plugins.Resources.{
  reconcile_deployment, reconcile_service, reconcile_console_plugin,
}
use observability_ui_operato.Plugins.Register.{register_plugin_in_console}
use observability_ui_operato.Plugins.Reconcile.{reconcile, subreconcilers}
use observability_ui_operato.Trace.Order.{
  Quiet, AtMost, MayWrite, done, ◌▹◌, ◌▸◌, run_in_order, none-Sublistᴰ,
}
use observability_ui_operato.Trace.{recording, Logged, Write, creates, patches, writes}

-- The patch that removes the plugin of a deleted resource, the resources in the order in which they
-- are created, and the patch that registers the plugin.
abbrev pub write_order : List Write
write_order =
    patches
    ∷ creates deployment_kind
    ∷ creates service_kind
    ∷ creates console_plugin_kind
    ∷ patches
    ∷ []

module _ (C : Client) where
  pub log-latest :
      (req : Request) (o : ObservabilityUiPlugin) (s : Logged C.State)
      → (latest (recording C) req o s).1.1 ≡ s.1
  unfolding latest
  log-latest req o s = ground arith

  writes-report_failure :
      (o : ObservabilityUiPlugin) (message : String) (s : Logged C.State)
      → writes (report_failure (recording C) o message s).1.1 ≡ writes s.1
  unfolding report_failure
  writes-report_failure o message s = ground arith

  do_finalizer_operations_at_most :
      (o : ObservabilityUiPlugin) (s : Logged C.State)
      → (writes (do_finalizer_operations (recording C) o s).1 ≡ writes s.1)
        ⊎ (writes (do_finalizer_operations (recording C) o s).1 ≡ patches ∷ writes s.1)
  unfolding do_finalizer_operations
  do_finalizer_operations_at_most o s = ground arith

  pub set_status_to_unknown-Quiet : Quiet (set_status_to_unknown (recording C))
  unfolding set_status_to_unknown
  set_status_to_unknown-Quiet req s =
      grind (arith, log-latest req empty_obs_ui_plugin s, log-latest)

  pub add_finalizer-Quiet : Quiet (add_finalizer (recording C))
  unfolding add_finalizer
  add_finalizer-Quiet req s = grind (arith, log-latest req empty_obs_ui_plugin s, log-latest)

  update_status-Quiet : Quiet (update_status (recording C))
  unfolding update_status
  update_status-Quiet req s = grind (arith, log-latest req empty_obs_ui_plugin s, log-latest)

  handle_delete-AtMost : AtMost patches (handle_delete (recording C))
  unfolding handle_delete
  handle_delete-AtMost req s =
      grind (arith, log-latest req empty_obs_ui_plugin s, do_finalizer_operations_at_most)

  reconcile_deployment-AtMost :
      AtMost (creates deployment_kind) (reconcile_deployment (recording C))
  unfolding reconcile_deployment
  reconcile_deployment-AtMost req s =
      grind (arith, log-latest req empty_obs_ui_plugin s, log-latest, writes-report_failure)

  reconcile_service-AtMost : AtMost (creates service_kind) (reconcile_service (recording C))
  unfolding reconcile_service
  reconcile_service-AtMost req s =
      grind (arith, log-latest req empty_obs_ui_plugin s, log-latest, writes-report_failure)

  reconcile_console_plugin-AtMost :
      AtMost (creates console_plugin_kind) (reconcile_console_plugin (recording C))
  unfolding reconcile_console_plugin
  reconcile_console_plugin-AtMost req s =
      grind (arith, log-latest req empty_obs_ui_plugin s, log-latest, writes-report_failure)

  register_plugin_in_console-AtMost : AtMost patches (register_plugin_in_console (recording C))
  unfolding register_plugin_in_console
  register_plugin_in_console-AtMost req s =
      grind (arith, log-latest req empty_obs_ui_plugin s, log-latest, writes-report_failure)

  may_write : MayWrite (subreconcilers (recording C)) write_order
  may_write =
      set_status_to_unknown-Quiet ▹ add_finalizer-Quiet ▹ handle_delete-AtMost
      ▸ reconcile_deployment-AtMost ▸ reconcile_service-AtMost ▸ reconcile_console_plugin-AtMost
      ▸ register_plugin_in_console-AtMost ▸ update_status-Quiet ▹ done

  -- Whatever the world answers, one run of the plugins' reconciler asks for at most one patch of the
  -- console for a deletion, then at most once each for a deployment, a service and a console plugin,
  -- and last for at most one more patch of the console, in this order. It asks for no other.
  pub plugins_reconcile_in_order :
      (req : Request) (s : C.State)
      → (made : List Write) × (writes (reconcile (recording C) req (s, [])).1.1 ≡ reverse made)
        × Sublistᴰ made write_order
  unfolding reconcile
  plugins_reconcile_in_order req s = elim (Attempt-cases (C.new_for_config s).0) [
    | inl (e, failed) ↦ ([], rw (failed, reconcile), none-Sublistᴰ write_order)
    | inr (_, made) ↦ rw (made, reconcile) (run_in_order may_write req ((C.new_for_config s).1, []))
  ]
