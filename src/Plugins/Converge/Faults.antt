-- ===== src/Plugins/Converge/Faults.antt =====
-- Runs of the controller of plugins in a reliable cluster of which finitely many calls fail.
use observability_ui_operato.Base.{
  true, ℕ, ◌≡◌, ◌∙◌, refl, ap, sym, subst, is_some, false, some, none, List, [], inl, inr, length,
}
use Prim.Native.Nat.{suc}
use observability_ui_operato.Attempt.{Attempt-cases}
use observability_ui_operato.Api.{Request, ObservabilityUiPlugin}
use observability_ui_operato.Subreconciler.{empty_result}
use observability_ui_operato.Subreconciler.Fated.{AllSame, done, ◌▸◌, run_same}
use observability_ui_operato.Body.Fated.{unfated}
use observability_ui_operato.Client.{Client}
use observability_ui_operato.Plugins.Fated.{
  same_set_status_to_unknown, same_add_finalizer, same_handle_delete, same_reconcile_deployment,
  same_reconcile_service, same_reconcile_console_plugin, same_register_plugin_in_console,
  same_update_status,
}
use observability_ui_operato.Plugins.Reconcile.{reconcile, subreconcilers}
use observability_ui_operato.Plugins.Converge.{Built}
use observability_ui_operato.ConsolePlugin.{ConsolePluginBuilder}
use observability_ui_operato.Plugins.Converge.Whole.{Converged, plugins_reconcile_converges}
use observability_ui_operato.Interleaving.Plugins.{plugins_run_keeps}
use observability_ui_operato.Plugins.Converge.Stays.{IsThere, IsThere-after}
use observability_ui_operato.Trace.Worker.{is_last, worker, worker_done, repeated_keeps}
use observability_ui_operato.Reliable.{IsReliable}
use observability_ui_operato.Trace.Faults.{faulty, Fated, Fate}
use observability_ui_operato.Trace.Spent.{
  AtMost, AtMost-length, AtMost-used, fates_keep, repeated, repeated-spent,
}

module _ (C : Client) (req : Request) where
  all_same : AllSame req (subreconcilers (faulty C)) (subreconcilers C)
  all_same =
      same_set_status_to_unknown C req
      ▸ same_add_finalizer C req
      ▸ same_handle_delete C req
      ▸ same_reconcile_deployment C req
      ▸ same_reconcile_service C req
      ▸ same_reconcile_console_plugin C req
      ▸ same_register_plugin_in_console C req
      ▸ same_update_status C req
      ▸ done

  pub reconcile_same :
      (s : C.State) → reconcile (faulty C) req (s, []) ≡ unfated (reconcile C req s)
  unfolding reconcile
  reconcile_same s = elim (Attempt-cases (C.new_for_config s).0) [
    | inl (e, failed) ↦ rw (failed, reconcile) refl
    | inr (_, made) ↦ rw (made, reconcile) (run_same req all_same (C.new_for_config s).1)
  ]

  reconcile-used :
      (n : ℕ) (s : Fated C.State) → AtMost (suc n) s.1 → AtMost n (reconcile (faulty C) req s).1.1
  reconcile-used n s h =
      plugins_run_keeps (faulty C) (λ t. AtMost n t.1) (fates_keep C n).plugins req s
        (AtMost-used C.new_for_config n s h)

  -- The state after as many runs as there are fates of calls.
  abbrev pub after_faults : List Fate → C.State → Fated C.State
  after_faults fates s = repeated (length fates) (reconcile (faulty C) req) (s, fates)

  no_fates_left : (fates : List Fate) (s : C.State) → (after_faults fates s).1 ≡ []
  no_fates_left fates s =
      repeated-spent (reconcile (faulty C) req) reconcile-used (length fates) (s, fates)
        (AtMost-length fates)

  -- So the run after them does what it does in the wrapped cluster.
  after_faults_same :
      (fates : List Fate) (s : C.State)
      → reconcile (faulty C) req (after_faults fates s)
        ≡ unfated (reconcile C req (after_faults fates s).0)
  after_faults_same fates s =
      ap (λ l. reconcile (faulty C) req ((after_faults fates s).0, l)) (no_fates_left fates s)
      ∙ reconcile_same (after_faults fates s).0

  -- In a reliable cluster in which some calls fail, each with any error and with or without having
  -- taken effect, take as many runs for a plugin resource that is there, not marked for deletion and
  -- of a type that has a builder as there are calls whose fate is given. The next run ends with no
  -- error and asks for no other run, and leaves what a run in the reliable cluster leaves: the
  -- deployment, the service and the console plugin, the entry of the plugin in the list of the
  -- console's plugins, which is otherwise as the runs before left it, and Available=True in the
  -- status.
  pub plugins_faults_overcome :
      (R : IsReliable C) (fates : List Fate) (s : C.State) (b : ConsolePluginBuilder)
      (o : ObservabilityUiPlugin)
      → R.plugins s req ≡ some o
      → is_some o.meta.deletion_timestamp ≡ false
      → Built o b
      → ((reconcile (faulty C) req (after_faults fates s)).0 ≡ some (empty_result, none))
        × Converged C R req b
            (after_faults fates s).0
            (reconcile (faulty C) req (after_faults fates s)).1.0
  plugins_faults_overcome R fates s b o here alive built =
      let t = (after_faults fates s).0 in
      let same = after_faults_same fates s in
      let (p, there, unmarked, builds) =
        repeated_keeps (λ t. IsThere C R req b t.0) (reconcile (faulty C) req)
          (IsThere-after C R req b) (length fates) (s, fates) (o, here, alive, built) in
      let (ends, converged) = plugins_reconcile_converges C R req b p t there unmarked builds in
      (ap (λ x. x.0) same ∙ ends, subst (λ x. Converged C R req b t x.1.0) (sym same) converged)

  -- In a reliable cluster in which finitely many calls fail, the worker that runs the controller of
  -- plugins for a resource that is there, not marked for deletion and of a type that has a builder is
  -- done after at most one run more than there are calls whose fate is given.
  plugins_worker_stops :
      (R : IsReliable C) (fates : List Fate) (s : C.State) (b : ConsolePluginBuilder)
      (o : ObservabilityUiPlugin)
      → R.plugins s req ≡ some o
      → is_some o.meta.deletion_timestamp ≡ false
      → Built o b
      → is_some (worker (suc (length fates)) (reconcile (faulty C) req) (s, fates)) ≡ true
  plugins_worker_stops R fates s b o here alive built =
      let last : (t : C.State)
          → IsThere C R req b t
          → is_last (reconcile (faulty C) req (t, [])).0 ≡ true =
        λ t (p, there, unmarked, builds).
          ap (λ x. is_last x.0) (reconcile_same t)
          ∙ ap is_last (plugins_reconcile_converges C R req b p t there unmarked builds).0 in
      worker_done (IsThere C R req b) (reconcile (faulty C) req) reconcile-used
        (IsThere-after C R req b) last (length fates) (s, fates) (AtMost-length fates)
        (o, here, alive, built)
