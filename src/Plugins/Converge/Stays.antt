-- ===== src/Plugins/Converge/Stays.antt =====
-- A plugin resource that is to stay, through runs of the controller of plugins in a reliable cluster of
-- which some calls fail.
use observability_ui_operato.Base.{
  ◌≡◌, ◌∙◌, refl, ap, sym, subst, arith, is_some, false, some, inl, inr,
}
use observability_ui_operato.Attempt.{Error, ok, Attempt-cases}
use observability_ui_operato.Api.{Request, ObservabilityUiPlugin}
use observability_ui_operato.ConsolePlugin.{ConsolePluginBuilder}
use observability_ui_operato.Subreconciler.{
  SubResult, should_halt_or_requeue, continue_reconciling, do_not_requeue,
  requeue_with_delay_and_error,
}
use observability_ui_operato.Subreconciler.Keeps.{finished, ◌◃◌, run_keeps_for}
use observability_ui_operato.Body.{Body, ◌>>=◌, try}
use observability_ui_operato.Body.Laws.{BodyKeeps, SubKeeps, body_rules}
use observability_ui_operato.Client.{Client}
use observability_ui_operato.Plugins.{latest, add_finalizer}
use observability_ui_operato.Plugins.Delete.{handle_delete}
use observability_ui_operato.Plugins.Reconcile.{reconcile}
use observability_ui_operato.Plugins.Converge.{Built, Built-spec}
use observability_ui_operato.Reliable.{IsReliable}
use observability_ui_operato.Interleaving.Apart.{shared_same}
use observability_ui_operato.Interleaving.Calls.{InstallCallsKeep}
use observability_ui_operato.Interleaving.Install.{
  latest_keeps, set_status_to_unknown-SubKeeps, reconcile_deployment-SubKeeps,
  reconcile_service-SubKeeps, reconcile_console_plugin-SubKeeps,
  register_plugin_in_console-SubKeeps, update_status-SubKeeps,
}
use observability_ui_operato.Trace.Faults.{faulty, Fated}
use observability_ui_operato.Trace.Kept.{install_kept, made_or_lost, answers}

module _ (C : Client) (R : IsReliable C) (req : Request) (b : ConsolePluginBuilder) where
  -- The resource is there, not marked for deletion, and has the builder.
  abbrev pub IsThere : C.State → Type 0
  IsThere s =
      (o : ObservabilityUiPlugin) × (R.plugins s req ≡ some o)
      × (is_some o.meta.deletion_timestamp ≡ false)
      × Built o b

  installing : InstallCallsKeep C IsThere
  installing = record {
    shared =
        shared_same C R R.plugins
          (λ ps.
            (o : ObservabilityUiPlugin) × (ps req ≡ some o)
            × (is_some o.meta.deletion_timestamp ≡ false)
            × Built o b)
          R.create_plugins R.patched_plugins;
    get_obs_ui_plugin = λ n s h. rw (R.get_obs_ui_plugin n s) h;
    update_obs_ui_plugin_status = λ o s (p, there, alive, built).
        let (q, still, mark, spec) = R.update_obs_ui_plugin_status_stays s o p req there in
        (q, still, ap is_some mark ∙ alive, Built-spec p q b spec built);
  }

  abbrev D : Client
  D = faulty C

  abbrev IsThereD : Fated C.State → Type 0
  IsThereD s = IsThere s.0

  K : InstallCallsKeep D IsThereD
  K = install_kept C IsThere installing

  -- What a read shows is in the state, and the read leaves it.
  shown :
      (s : Fated C.State) (o : ObservabilityUiPlugin)
      → (D.get_obs_ui_plugin req s).0 ≡ ok o
      → (R.plugins s.0 req ≡ some o) × ((D.get_obs_ui_plugin req s).1.0 ≡ s.0)
  shown s o got =
      let (really, state) = answers IsThere (C.get_obs_ui_plugin req) s o got in
      let read = R.get_obs_ui_plugin req s.0 in
      (ground (arith, really, read), state ∙ ap (λ x. x.1) read)

  -- An update by the object that a read has shown keeps it.
  update_keeps :
      (s : Fated C.State) (o : ObservabilityUiPlugin)
      → IsThereD s
      → R.plugins s.0 req ≡ some o
      → IsThereD (D.update_obs_ui_plugin o s).1
  update_keeps s o (p, there, alive, built) here =
      let same : p ≡ o = cc (there, here) in
      let key = R.keyed_plugin req s.0 o here in
      let at_key = subst (λ n. R.plugins s.0 n ≡ some o) (sym key) here in
      let unmarked = subst (λ x. is_some x.meta.deletion_timestamp ≡ false) same alive in
      let (_, stays, _) = R.update_obs_ui_plugin s.0 o o at_key refl in
      let (stored, _, spec, mark, _) = stays unmarked in
      made_or_lost IsThere (C.update_obs_ui_plugin o) s (p, there, alive, built)
        (
          R.stored_resource s.0 o,
          subst (λ n. R.plugins (C.update_obs_ui_plugin o s.0).1 n ≡ some (R.stored_resource s.0 o))
              key stored,
          ap is_some mark ∙ unmarked,
          Built-spec p (R.stored_resource s.0 o) b (spec ∙ ap (λ x. x.spec) (sym same)) built,
        )

  read_and_update :
      {B : Type 0} (x : ObservabilityUiPlugin) (k : Error → SubResult)
      (f : ObservabilityUiPlugin → Body D.State B) (s : Fated C.State)
      → ((a : ObservabilityUiPlugin) → BodyKeeps IsThereD (f a))
      → IsThereD s
      → IsThereD ((latest D req x >>= λ o. try (D.update_obs_ui_plugin o) k >>= f) s).1
  unfolding latest should_halt_or_requeue continue_reconciling do_not_requeue
      requeue_with_delay_and_error
  read_and_update x k f s h p =
      let m : Body D.State _ = latest D req x >>= λ o. try (D.update_obs_ui_plugin o) k >>= f in
      let t = (D.get_obs_ui_plugin req s).1 in
      let q = K.get_obs_ui_plugin req s p in
      elim (Attempt-cases (D.get_obs_ui_plugin req s).0) [
        | inl (e, failed) ↦
            let same : (m s).1 ≡ t = ground (arith, failed) in subst IsThereD (sym same) q
        | inr (o, got) ↦
            let (here, state) = shown s o got in
            let u = (D.update_obs_ui_plugin o t).1 in
            let r = update_keeps t o q (ap (λ c. R.plugins c req) state ∙ here) in
            elim (Attempt-cases (D.update_obs_ui_plugin o t).0) [
              | inl (e, failed) ↦
                  let same : (m s).1 ≡ u = ground (arith, got, failed) in
                  subst IsThereD (sym same) r
              | inr (o', updated) ↦
                  let same : m s ≡ f o' u = ground (arith, got, updated) in
                  subst (λ y. IsThereD y.1) (sym same) ((h o').at u r)
            ]
      ]

  updated :
      {B : Type 0} (x : ObservabilityUiPlugin) (k : Error → SubResult)
      (f : ObservabilityUiPlugin → Body D.State B)
      → ((a : ObservabilityUiPlugin) → BodyKeeps IsThereD (f a))
      → BodyKeeps IsThereD (latest D req x >>= λ o. try (D.update_obs_ui_plugin o) k >>= f)
  updated x k f h = record { at = λ s p. read_and_update x k f s h p }

  add_finalizer-SubKeeps : SubKeeps IsThereD (add_finalizer D req)
  unfolding add_finalizer
  add_finalizer-SubKeeps = search (updated, body_rules, latest_keeps D IsThereD K) depth 24

  -- The deletion is not for it.
  handle_delete-SubKeeps : SubKeeps IsThereD (handle_delete D req)
  unfolding handle_delete latest should_halt_or_requeue continue_reconciling do_not_requeue
      requeue_with_delay_and_error
  handle_delete-SubKeeps = record {
    at = λ s (p, there, alive, built).
        let t = (D.get_obs_ui_plugin req s).1 in
        let q = K.get_obs_ui_plugin req s (p, there, alive, built) in
        elim (Attempt-cases (D.get_obs_ui_plugin req s).0) [
          | inl (e, failed) ↦
              let same : (handle_delete D req s).1 ≡ t = ground (arith, failed) in
              subst IsThereD (sym same) q
          | inr (o, got) ↦
              let (here, _) = shown s o got in
              let eq : p ≡ o = cc (there, here) in
              let unmarked : is_some o.meta.deletion_timestamp ≡ false =
                subst (λ x. is_some x.meta.deletion_timestamp ≡ false) eq alive in
              let same : (handle_delete D req s).1 ≡ t = ground (arith, got, unmarked) in
              subst IsThereD (sym same) q
        ];
  }

  pub IsThere-after : (s : Fated C.State) → IsThere s.0 → IsThere (reconcile (faulty C) req s).1.0
  unfolding reconcile
  IsThere-after s p = elim (Attempt-cases (D.new_for_config s).0) [
    | inl (e, failed) ↦ rw (failed, reconcile) (K.shared.new_for_config s p)
    | inr (_, made) ↦
        rw (made, reconcile)
          (run_keeps_for {P = IsThereD}
            ((set_status_to_unknown-SubKeeps D IsThereD K req).at
              ◃ add_finalizer-SubKeeps.at
              ◃ handle_delete-SubKeeps.at
              ◃ (reconcile_deployment-SubKeeps D IsThereD K req).at
              ◃ (reconcile_service-SubKeeps D IsThereD K req).at
              ◃ (reconcile_console_plugin-SubKeeps D IsThereD K req).at
              ◃ (register_plugin_in_console-SubKeeps D IsThereD K req).at
              ◃ (update_status-SubKeeps D IsThereD K req).at
              ◃ finished)
            (D.new_for_config s).1 (K.shared.new_for_config s p))
  ]
