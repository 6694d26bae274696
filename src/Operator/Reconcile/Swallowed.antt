-- ===== src/Operator/Reconcile/Swallowed.antt =====
-- What becomes of a failed `Create` of the console plugin of the hub.
use observability_ui_operato.Base.{String, ◌<>◌, ◌≡◌, arith, true, inl, inr}
use observability_ui_operato.Attempt.{ok, err, Error, Attempt-cases}
use observability_ui_operato.Api.{
  Request, NamespacedName, ObjectMeta, ObservabilityUi, empty_obs_ui,
}
use observability_ui_operato.Api.Objects.{
  console_plugin_kind, console_plugin_v1, meta_of, with_meta,
}
use observability_ui_operato.ConsolePlugin.Objects.{get_console_plugin_v1}
use observability_ui_operato.Operator.Converge.Hub.{hub_builder, hub_name, cluster_wide}
use observability_ui_operato.Subreconciler.{continue_reconciling, should_halt_or_requeue}
use observability_ui_operato.Body.{proceed}
use observability_ui_operato.Client.{Client, Owner, owner_ui}
use observability_ui_operato.Operator.{latest, report_failure}
use observability_ui_operato.Operator.Resources.{reconcile_console_plugin, console_plugin_body}

module _ (C : Client) (req : Request) (read : C.State → ObservabilityUi)
    (reads : (s : C.State) → (C.get_obs_ui req s).0 ≡ ok (read s))
    (written : ObservabilityUi → C.State → ObservabilityUi)
    (updates : (o : ObservabilityUi) (s : C.State)
      → (C.update_obs_ui_status o s).0 ≡ ok (written o s))
    (owned : Owner → ObjectMeta → ObjectMeta)
    (owns : (w : Owner) (m : ObjectMeta) → C.set_controller_reference w m ≡ ok (owned w m))
    (finds : (n : NamespacedName) (s : C.State) (e : Error)
      → (C.get console_plugin_kind n s).0 ≡ err e
      → e.not_found ≡ true) where
  latest_proceeds : (o : ObservabilityUi) (s : C.State) → (latest C req o s).0 ≡ proceed (read s)
  unfolding latest continue_reconciling should_halt_or_requeue
  latest_proceeds o s = ground (arith, reads s)

  report_failure_proceeds :
      (o : ObservabilityUi) (message : String) (s : C.State)
      → (report_failure C req o message s).0 ≡ proceed tt
  unfolding report_failure
  report_failure_proceeds o message s = grind (arith, latest_proceeds, updates)

  -- Where the hub resource can be read and its status written, the owner can be set, and the console
  -- plugin is found or is not there, the run goes on after the sub-reconciler of the console plugin,
  -- whatever `Create` answers: a failure of `Create` neither ends the run nor asks for another one.
  pub create_failure_swallowed :
      (s : C.State) → (reconcile_console_plugin C req s).0 ≡ continue_reconciling
  unfolding reconcile_console_plugin console_plugin_body
  create_failure_swallowed s =
      let B = hub_builder (read s) in
      let there = latest_proceeds empty_obs_ui s in
      let t = (latest C req empty_obs_ui s).1 in
      let cp = console_plugin_v1 (get_console_plugin_v1 B.builder) in
      let u = (C.get console_plugin_kind (cluster_wide hub_name) t).1 in
      let cp' = with_meta cp (owned (owner_ui (read s)) (meta_of cp)) in
      let mine = owns (owner_ui (read s)) (meta_of cp) in
      elim (Attempt-cases (C.get console_plugin_kind (cluster_wide hub_name) t).0) [
        | inr (x, found) ↦ ground (arith, there, B.built, B.name, found)
        | inl (e, absent) ↦ elim (Attempt-cases (C.create cp' u).0) [
          | inr (x, made) ↦
              ground (arith, there, B.built, B.name, absent, finds _ _ _ absent, mine, made)
          | inl (e', failed) ↦ ground (
            arith,
            there,
            B.built,
            B.name,
            absent,
            finds _ _ _ absent,
            mine,
            failed,
            report_failure_proceeds (read s)
                ("failed to create the console plugin " <> (read s).meta.name <> ": " <> e'.message)
                (C.create cp' u).1,
          )
        ]
      ]
