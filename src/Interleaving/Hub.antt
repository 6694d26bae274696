-- ===== src/Interleaving/Hub.antt =====
-- The sub-reconcilers of the hub controller keep what the calls keep.
use observability_ui_operato.Base.{String, inl, inr}
use observability_ui_operato.Api.{Request, ObservabilityUi, Condition}
use observability_ui_operato.Attempt.{Error, Attempt-cases}
use observability_ui_operato.Api.{ObjectMeta}
use observability_ui_operato.Api.Objects.{Object, with_meta}
use observability_ui_operato.Subreconciler.{SubResult}
use observability_ui_operato.Body.{Body, ◌>>=◌, or_return}
use observability_ui_operato.Subreconciler.Keeps.{AllKeep, done, ◌▹◌, run_keeps}
use observability_ui_operato.Body.Laws.{BodyKeeps, SubKeeps, body_rules}
use observability_ui_operato.Client.{Client, Owner, controlled_by}
use observability_ui_operato.Operator.{
  latest, set_condition, report_failure, set_status_to_unknown, handle_delete, update_status,
}
use observability_ui_operato.Operator.Resources.{
  reconcile_service_account, reconcile_cluster_role, reconcile_cluster_role_binding,
  reconcile_service, reconcile_deployment, reconcile_console_plugin, console_plugin_body,
}
use observability_ui_operato.Operator.Register.{register_plugin_in_console}
use observability_ui_operato.Operator.Reconcile.{reconcile, subreconcilers}
use observability_ui_operato.Interleaving.Calls.{
  HubCallsKeep, hub_latest_keeps, register_by_keeps, BodyKeeps-controlled_by,
}

module _ (C : Client) (P : C.State → Type 0) (K : HubCallsKeep C P) where
  controlled :
      {A : Type 0} (w : Owner) (x : Object) (k : Error → SubResult) (f : Object → Body C.State A)
      → ((m : ObjectMeta) → BodyKeeps P (f (with_meta x m)))
      → BodyKeeps P (or_return (controlled_by C w x) k >>= f)
  controlled = BodyKeeps-controlled_by C P

  latest_keeps : (req : Request) (o : ObservabilityUi) → BodyKeeps P (latest C req o)
  latest_keeps = hub_latest_keeps C P K

  set_condition_keeps : (o : ObservabilityUi) (c : Condition) → BodyKeeps P (set_condition C o c)
  set_condition_keeps o c = record { at = λ s p. p }

  report_failure_keeps :
      (req : Request) (o : ObservabilityUi) (message : String)
      → BodyKeeps P (report_failure C req o message)
  unfolding report_failure
  report_failure_keeps req o message =
      search (body_rules, latest_keeps, set_condition_keeps, K.update_obs_ui_status) depth 12

  set_status_to_unknown-SubKeeps : (req : Request) → SubKeeps P (set_status_to_unknown C req)
  unfolding set_status_to_unknown
  set_status_to_unknown-SubKeeps req =
      search (body_rules, latest_keeps, set_condition_keeps, K.update_obs_ui_status) depth 24

  handle_delete-SubKeeps : (req : Request) → SubKeeps P (handle_delete C req)
  unfolding handle_delete
  handle_delete-SubKeeps req = search (body_rules, latest_keeps) depth 24

  reconcile_service_account-SubKeeps :
      (req : Request) → SubKeeps P (reconcile_service_account C req)
  unfolding reconcile_service_account
  reconcile_service_account-SubKeeps req =
      search
        (controlled, body_rules, latest_keeps, report_failure_keeps, K.shared.get, K.shared.create)
        depth 24

  reconcile_cluster_role-SubKeeps : (req : Request) → SubKeeps P (reconcile_cluster_role C req)
  unfolding reconcile_cluster_role
  reconcile_cluster_role-SubKeeps req =
      search
        (controlled, body_rules, latest_keeps, report_failure_keeps, K.shared.get, K.shared.create)
        depth 24

  reconcile_cluster_role_binding-SubKeeps :
      (req : Request) → SubKeeps P (reconcile_cluster_role_binding C req)
  unfolding reconcile_cluster_role_binding
  reconcile_cluster_role_binding-SubKeeps req =
      search
        (controlled, body_rules, latest_keeps, report_failure_keeps, K.shared.get, K.shared.create)
        depth 24

  reconcile_service-SubKeeps : (req : Request) → SubKeeps P (reconcile_service C req)
  unfolding reconcile_service
  reconcile_service-SubKeeps req =
      search
        (controlled, body_rules, latest_keeps, report_failure_keeps, K.shared.get, K.shared.create)
        depth 24

  reconcile_deployment-SubKeeps : (req : Request) → SubKeeps P (reconcile_deployment C req)
  unfolding reconcile_deployment
  reconcile_deployment-SubKeeps req =
      search
        (controlled, body_rules, latest_keeps, report_failure_keeps, K.shared.get, K.shared.create)
        depth 24

  reconcile_console_plugin-SubKeeps : (req : Request) → SubKeeps P (reconcile_console_plugin C req)
  unfolding reconcile_console_plugin console_plugin_body
  reconcile_console_plugin-SubKeeps req =
      search
        (controlled, body_rules, latest_keeps, report_failure_keeps, K.shared.get, K.shared.create)
        depth 24

  register_plugin_in_console-SubKeeps :
      (req : Request) → SubKeeps P (register_plugin_in_console C req)
  unfolding register_plugin_in_console
  register_plugin_in_console-SubKeeps req =
      search (body_rules, latest_keeps, report_failure_keeps, register_by_keeps C P K.shared) depth
        24

  update_status-SubKeeps : (req : Request) → SubKeeps P (update_status C req)
  unfolding update_status
  update_status-SubKeeps req =
      search (body_rules, latest_keeps, set_condition_keeps, K.update_obs_ui_status) depth 24

  pub hub_keeps : AllKeep P (subreconcilers C)
  hub_keeps =
      (λ req. (set_status_to_unknown-SubKeeps req).at)
      ▹ (λ req. (handle_delete-SubKeeps req).at)
      ▹ (λ req. (reconcile_service_account-SubKeeps req).at)
      ▹ (λ req. (reconcile_cluster_role-SubKeeps req).at)
      ▹ (λ req. (reconcile_cluster_role_binding-SubKeeps req).at)
      ▹ (λ req. (reconcile_service-SubKeeps req).at)
      ▹ (λ req. (reconcile_deployment-SubKeeps req).at)
      ▹ (λ req. (reconcile_console_plugin-SubKeeps req).at)
      ▹ (λ req. (register_plugin_in_console-SubKeeps req).at)
      ▹ (λ req. (update_status-SubKeeps req).at)
      ▹ done

  -- A run keeps it from the first call on.
  pub hub_run_keeps :
      (req : Request) (s : C.State) → P (C.new_for_config s).1 → P (reconcile C req s).1
  unfolding reconcile
  hub_run_keeps req s p = elim (Attempt-cases (C.new_for_config s).0) [
    | inl (e, failed) ↦ rw (failed, reconcile) p
    | inr (_, made) ↦
        rw (made, reconcile) (run_keeps {P = P} hub_keeps req (C.new_for_config s).1 p)
  ]
