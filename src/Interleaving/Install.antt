-- ===== src/Interleaving/Install.antt =====
-- The sub-reconcilers by which the controller of plugins installs a plugin keep what their calls keep.
use observability_ui_operato.Base.{String}
use observability_ui_operato.Api.{Request, ObservabilityUiPlugin, Condition}
use observability_ui_operato.Attempt.{Error}
use observability_ui_operato.Api.{ObjectMeta}
use observability_ui_operato.Api.Objects.{Object, with_meta}
use observability_ui_operato.Subreconciler.{SubResult}
use observability_ui_operato.Body.{Body, ◌>>=◌, or_return}
use observability_ui_operato.Body.Laws.{BodyKeeps, SubKeeps, body_rules}
use observability_ui_operato.Client.{Client, Owner, controlled_by}
use observability_ui_operato.Plugins.{
  latest, set_condition, report_failure, set_status_to_unknown, update_status,
}
use observability_ui_operato.Plugins.Resources.{
  reconcile_service, reconcile_deployment, reconcile_console_plugin,
}
use observability_ui_operato.Plugins.Register.{register_plugin_in_console}
use observability_ui_operato.Interleaving.Calls.{
  InstallCallsKeep, plugin_latest_keeps, register_by_keeps, BodyKeeps-controlled_by,
}

module _ (C : Client) (P : C.State → Type 0) (K : InstallCallsKeep C P) where
  controlled :
      {A : Type 0} (w : Owner) (x : Object) (k : Error → SubResult) (f : Object → Body C.State A)
      → ((m : ObjectMeta) → BodyKeeps P (f (with_meta x m)))
      → BodyKeeps P (or_return (controlled_by C w x) k >>= f)
  controlled = BodyKeeps-controlled_by C P

  pub latest_keeps : (req : Request) (o : ObservabilityUiPlugin) → BodyKeeps P (latest C req o)
  latest_keeps = plugin_latest_keeps C P K

  pub set_condition_keeps :
      (o : ObservabilityUiPlugin) (c : Condition) → BodyKeeps P (set_condition C o c)
  set_condition_keeps o c = record { at = λ s p. p }

  report_failure_keeps :
      (o : ObservabilityUiPlugin) (message : String) → BodyKeeps P (report_failure C o message)
  unfolding report_failure
  report_failure_keeps o message =
      search (body_rules, set_condition_keeps, K.update_obs_ui_plugin_status) depth 12

  pub set_status_to_unknown-SubKeeps : (req : Request) → SubKeeps P (set_status_to_unknown C req)
  unfolding set_status_to_unknown
  set_status_to_unknown-SubKeeps req =
      search (body_rules, latest_keeps, set_condition_keeps, K.update_obs_ui_plugin_status) depth 24

  pub reconcile_deployment-SubKeeps : (req : Request) → SubKeeps P (reconcile_deployment C req)
  unfolding reconcile_deployment
  reconcile_deployment-SubKeeps req =
      search
        (controlled, body_rules, latest_keeps, report_failure_keeps, K.shared.get, K.shared.create)
        depth 24

  pub reconcile_service-SubKeeps : (req : Request) → SubKeeps P (reconcile_service C req)
  unfolding reconcile_service
  reconcile_service-SubKeeps req =
      search
        (controlled, body_rules, latest_keeps, report_failure_keeps, K.shared.get, K.shared.create)
        depth 24

  pub reconcile_console_plugin-SubKeeps :
      (req : Request) → SubKeeps P (reconcile_console_plugin C req)
  unfolding reconcile_console_plugin
  reconcile_console_plugin-SubKeeps req =
      search
        (controlled, body_rules, latest_keeps, report_failure_keeps, K.shared.get, K.shared.create)
        depth 24

  pub register_plugin_in_console-SubKeeps :
      (req : Request) → SubKeeps P (register_plugin_in_console C req)
  unfolding register_plugin_in_console
  register_plugin_in_console-SubKeeps req =
      search (body_rules, latest_keeps, report_failure_keeps, register_by_keeps C P K.shared) depth
        24

  pub update_status-SubKeeps : (req : Request) → SubKeeps P (update_status C req)
  unfolding update_status
  update_status-SubKeeps req =
      search (body_rules, latest_keeps, set_condition_keeps, K.update_obs_ui_plugin_status) depth 24
