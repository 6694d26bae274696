-- ===== src/Interleaving/Plugins.antt =====
-- The sub-reconcilers of the controller of plugins keep what the calls keep.
use observability_ui_operato.Base.{
  ◌≡◌, sym, subst, arith, inl, inr, elements, Option-cases, index_of,
}
use observability_ui_operato.Attempt.{Attempt-cases}
use observability_ui_operato.Api.{Request, ObservabilityUiPlugin}
use observability_ui_operato.Common.{get_observability_ui_namespace}
use observability_ui_operato.ConsolePlugin.{from_obs_ui_plugin, console_plugin_name}
use observability_ui_operato.Subreconciler.Keeps.{AllKeep, done, ◌▹◌, run_keeps}
use observability_ui_operato.Body.Laws.{SubKeeps, body_rules}
use observability_ui_operato.Client.{Client}
use observability_ui_operato.Patches.{cluster_console, disable_patches}
use observability_ui_operato.Plugins.{add_finalizer}
use observability_ui_operato.Plugins.Delete.{
  record_deleting, do_finalizer_operations, handle_delete,
}
use observability_ui_operato.Plugins.Reconcile.{reconcile, subreconcilers}
use observability_ui_operato.Interleaving.Install.{
  latest_keeps, set_condition_keeps, set_status_to_unknown-SubKeeps, reconcile_deployment-SubKeeps,
  reconcile_service-SubKeeps, reconcile_console_plugin-SubKeeps,
  register_plugin_in_console-SubKeeps, update_status-SubKeeps,
}
use observability_ui_operato.Interleaving.Calls.{PluginCallsKeep}

module _ (C : Client) (P : C.State → Type 0) (K : PluginCallsKeep C P) where
  record_deleting_keeps :
      (o : ObservabilityUiPlugin) (s : C.State) → P s → P (record_deleting C o s)
  record_deleting_keeps o s p = elim (Option-cases C.recorder) [
    | inl none_set ↦ rw none_set p
    | inr (event, e) ↦ rw e (K.recorded event e o "Warning" "Deleting" _ s p)
  ]

  -- The operations leave a state that keeps `P` where they read nothing, find nothing or send nothing.
  read_only :
      (o : ObservabilityUiPlugin) (s : C.State)
      → P s
      → do_finalizer_operations C o s ≡ (C.get_console cluster_console (record_deleting C o s)).1
      → P (do_finalizer_operations C o s)
  read_only o s p e =
      subst P (sym e)
        (K.install.shared.get_console (record_deleting C o s) (record_deleting_keeps o s p))

  do_finalizer_operations_keep :
      (o : ObservabilityUiPlugin) (s : C.State) → P s → P (do_finalizer_operations C o s)
  unfolding do_finalizer_operations console_plugin_name
  do_finalizer_operations_keep o s p =
      let t = record_deleting C o s in
      let q = record_deleting_keeps o s p in
      elim (Attempt-cases (from_obs_ui_plugin o get_observability_ui_namespace)) [
        | inl (e, unknown) ↦ subst P (sym (ground (arith, unknown))) q
        | inr (b, built) ↦ elim (Attempt-cases (C.get_console cluster_console t).0) [
          | inl (e, failed) ↦ read_only o s p (ground (arith, built, failed))
          | inr (console, got) ↦
              elim (Option-cases (index_of (elements console.plugins) b.plugin_name)) [
                | inl nowhere ↦ read_only o s p (ground (arith, built, got, nowhere))
                | inr (i, found) ↦ elim (Attempt-cases (C.marshal (disable_patches console i))) [
                  | inl (e, failed) ↦ read_only o s p (ground (arith, built, got, found, failed))
                  | inr (bytes, made) ↦
                      subst P (sym (ground (arith, built, got, found, made)))
                        (K.disabled t o b console i bytes q built got found made)
                ]
              ]
        ]
      ]

  add_finalizer-SubKeeps : (req : Request) → SubKeeps P (add_finalizer C req)
  unfolding add_finalizer
  add_finalizer-SubKeeps req =
      search (body_rules, latest_keeps C P K.install, K.update_obs_ui_plugin) depth 24

  handle_delete-SubKeeps : (req : Request) → SubKeeps P (handle_delete C req)
  unfolding handle_delete
  handle_delete-SubKeeps req =
      search
        (
          body_rules,
          latest_keeps C P K.install,
          set_condition_keeps C P K.install,
          do_finalizer_operations_keep,
          K.install.update_obs_ui_plugin_status,
          K.update_obs_ui_plugin,
          K.install.get_obs_ui_plugin,
        )
        depth 40

  pub plugins_keep : AllKeep P (subreconcilers C)
  plugins_keep =
      (λ req. (set_status_to_unknown-SubKeeps C P K.install req).at)
      ▹ (λ req. (add_finalizer-SubKeeps req).at)
      ▹ (λ req. (handle_delete-SubKeeps req).at)
      ▹ (λ req. (reconcile_deployment-SubKeeps C P K.install req).at)
      ▹ (λ req. (reconcile_service-SubKeeps C P K.install req).at)
      ▹ (λ req. (reconcile_console_plugin-SubKeeps C P K.install req).at)
      ▹ (λ req. (register_plugin_in_console-SubKeeps C P K.install req).at)
      ▹ (λ req. (update_status-SubKeeps C P K.install req).at)
      ▹ done

  -- A run keeps it from the first call on.
  pub plugins_run_keeps :
      (req : Request) (s : C.State) → P (C.new_for_config s).1 → P (reconcile C req s).1
  unfolding reconcile
  plugins_run_keeps req s p = elim (Attempt-cases (C.new_for_config s).0) [
    | inl (e, failed) ↦ rw (failed, reconcile) p
    | inr (_, made) ↦
        rw (made, reconcile) (run_keeps {P = P} plugins_keep req (C.new_for_config s).1 p)
  ]
