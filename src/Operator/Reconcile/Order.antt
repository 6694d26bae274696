-- ===== src/Operator/Reconcile/Order.antt =====
-- In which order the operator creates its resources.
use mathlib.Core.List.{Sublistᴰ, reverse}
use observability_ui_operato.Base.{◌≡◌, String, arith, inl, inr, List, [], ◌∷◌}
use observability_ui_operato.Attempt.{Attempt-cases}
use observability_ui_operato.Api.{Request, ObservabilityUi, empty_obs_ui}
use observability_ui_operato.Api.Objects.{
  service_account_kind, cluster_role_kind, cluster_role_binding_kind, service_kind, deployment_kind,
  console_plugin_kind,
}
use observability_ui_operato.ConsolePlugin.{from_obs_ui}
use observability_ui_operato.Client.{Client}
use observability_ui_operato.Operator.{
  latest, set_status_to_unknown, handle_delete, update_status, report_failure,
}
use observability_ui_operato.Operator.Resources.{
  reconcile_service_account, reconcile_cluster_role, reconcile_cluster_role_binding,
  reconcile_service, reconcile_deployment, reconcile_console_plugin,
}
use observability_ui_operato.Operator.Register.{register_plugin_in_console}
use observability_ui_operato.Operator.Reconcile.{reconcile, subreconcilers}
use observability_ui_operato.Trace.Order.{
  Quiet, AtMost, MayWrite, done, ◌▹◌, ◌▸◌, run_in_order, none-Sublistᴰ,
}
use observability_ui_operato.Trace.{recording, Logged, Write, creates, patches, writes}

-- The resources in the order in which they are created, and then the registration.
abbrev pub creation_order : List Write
creation_order =
    creates service_account_kind
    ∷ creates cluster_role_kind
    ∷ creates cluster_role_binding_kind
    ∷ creates service_kind
    ∷ creates deployment_kind
    ∷ creates console_plugin_kind
    ∷ patches
    ∷ []

module _ (C : Client) where
  pub log-latest :
      (req : Request) (o : ObservabilityUi) (s : Logged C.State)
      → (latest (recording C) req o s).1.1 ≡ s.1
  unfolding latest
  log-latest req o s = ground arith

  writes-report_failure :
      (req : Request) (o : ObservabilityUi) (message : String) (s : Logged C.State)
      → writes (report_failure (recording C) req o message s).1.1 ≡ writes s.1
  unfolding report_failure latest
  writes-report_failure req o message s = ground arith

  pub set_status_to_unknown-Quiet : Quiet (set_status_to_unknown (recording C))
  unfolding set_status_to_unknown
  set_status_to_unknown-Quiet req s = grind (arith, log-latest req empty_obs_ui s)

  pub handle_delete-Quiet : Quiet (handle_delete (recording C))
  unfolding handle_delete
  handle_delete-Quiet req s = grind (arith, log-latest req empty_obs_ui s)

  update_status-Quiet : Quiet (update_status (recording C))
  unfolding update_status
  update_status-Quiet req s = grind (arith, log-latest req empty_obs_ui s)

  reconcile_service_account-AtMost :
      AtMost (creates service_account_kind) (reconcile_service_account (recording C))
  unfolding reconcile_service_account from_obs_ui
  reconcile_service_account-AtMost req s =
      grind (arith, log-latest req empty_obs_ui s, writes-report_failure)

  reconcile_cluster_role-AtMost :
      AtMost (creates cluster_role_kind) (reconcile_cluster_role (recording C))
  unfolding reconcile_cluster_role
  reconcile_cluster_role-AtMost req s =
      grind (arith, log-latest req empty_obs_ui s, writes-report_failure)

  reconcile_cluster_role_binding-AtMost :
      AtMost (creates cluster_role_binding_kind) (reconcile_cluster_role_binding (recording C))
  unfolding reconcile_cluster_role_binding from_obs_ui
  reconcile_cluster_role_binding-AtMost req s =
      grind (arith, log-latest req empty_obs_ui s, writes-report_failure)

  reconcile_service-AtMost : AtMost (creates service_kind) (reconcile_service (recording C))
  unfolding reconcile_service from_obs_ui
  reconcile_service-AtMost req s =
      grind (arith, log-latest req empty_obs_ui s, writes-report_failure)

  reconcile_deployment-AtMost :
      AtMost (creates deployment_kind) (reconcile_deployment (recording C))
  unfolding reconcile_deployment from_obs_ui
  reconcile_deployment-AtMost req s =
      grind (arith, log-latest req empty_obs_ui s, writes-report_failure)

  reconcile_console_plugin-AtMost :
      AtMost (creates console_plugin_kind) (reconcile_console_plugin (recording C))
  unfolding reconcile_console_plugin from_obs_ui
  reconcile_console_plugin-AtMost req s =
      grind (arith, log-latest req empty_obs_ui s, writes-report_failure)

  register_plugin_in_console-AtMost : AtMost patches (register_plugin_in_console (recording C))
  unfolding register_plugin_in_console from_obs_ui
  register_plugin_in_console-AtMost req s =
      grind (arith, log-latest req empty_obs_ui s, writes-report_failure)

  may_write : MayWrite (subreconcilers (recording C)) creation_order
  may_write =
      set_status_to_unknown-Quiet ▹ handle_delete-Quiet ▹ reconcile_service_account-AtMost
      ▸ reconcile_cluster_role-AtMost ▸ reconcile_cluster_role_binding-AtMost
      ▸ reconcile_service-AtMost ▸ reconcile_deployment-AtMost ▸ reconcile_console_plugin-AtMost
      ▸ register_plugin_in_console-AtMost ▸ update_status-Quiet ▹ done

  -- Whatever the world answers, one run of the hub's reconciler asks for each of the resources at
  -- most once, in a fixed order: service account, cluster role, cluster role binding, service,
  -- deployment, console plugin, and last the patch of the console. It asks for no other.
  pub reconcile_in_order :
      (req : Request) (s : C.State)
      → (made : List Write) × (writes (reconcile (recording C) req (s, [])).1.1 ≡ reverse made)
        × Sublistᴰ made creation_order
  unfolding reconcile
  reconcile_in_order req s = elim (Attempt-cases (C.new_for_config s).0) [
    | inl (e, failed) ↦ ([], rw (failed, reconcile), none-Sublistᴰ creation_order)
    | inr (_, made) ↦ rw (made, reconcile) (run_in_order may_write req ((C.new_for_config s).1, []))
  ]
