-- ===== src/Plugins/Converge/Whole.antt =====
-- A whole run of the controller of plugins in a reliable cluster, for a resource that is to stay.
use observability_ui_operato.Base.{
  ◌≡◌, ◌∙◌, refl, ap, arith, is_some, false, some, none, List, [], ◌∷◌,
}
use observability_ui_operato.Api.{Request, NamespacedName, ObservabilityUiPlugin, condition_true}
use observability_ui_operato.Api.Objects.{Kind, service_kind, deployment_kind, console_plugin_kind}
use observability_ui_operato.Common.{type_available_observability_ui}
use observability_ui_operato.ConsolePlugin.{ConsolePluginBuilder}
use observability_ui_operato.Subreconciler.{FnWithRequest, run_subreconcilers, empty_result}
use observability_ui_operato.Client.{Client}
use observability_ui_operato.Plugins.{update_status}
use observability_ui_operato.Plugins.Register.{register_plugin_in_console}
use observability_ui_operato.Plugins.Reconcile.{reconcile, subreconcilers}
use observability_ui_operato.Reliable.{IsReliable, status_of}
use observability_ui_operato.Reliable.Ensures.{Ensures}
use observability_ui_operato.Reliable.Stages.{
  passes, ends, Stage, Present, Present-same, ensured, passed, begin,
}
use observability_ui_operato.Reliable.Registered.{
  with_plugin, contains-with_plugin, registered, registered-Registered,
}
use observability_ui_operato.Plugins.Converge.{Built, namespaced_key, cluster_key}
use observability_ui_operato.Plugins.Converge.Resources.{
  deployment_ensured, service_ensured, console_plugin_ensured,
}
use observability_ui_operato.Plugins.Converge.Statuses.{
  Ready, Alive, Ready-same, Ready-Step, set_status_to_unknown_keeps, add_finalizer_keeps,
  handle_delete_keeps, update_status_lem,
}
use observability_ui_operato.Plugins.Converge.Registration.{register_plugin_in_console_lem}

-- The keys of the resources that the controller creates for a plugin, the last first.
abbrev pub plugin_keys : ConsolePluginBuilder → List (Kind × NamespacedName)
plugin_keys b =
    (console_plugin_kind, cluster_key b)
    ∷ (service_kind, namespaced_key b)
    ∷ (deployment_kind, namespaced_key b)
    ∷ []

pub reconcile_lem :
    (C : Client) (R : IsReliable C) (req : Request) (s : C.State)
    → reconcile C req s ≡ run_subreconcilers (subreconcilers C) req s
unfolding reconcile
reconcile_lem C R req s = ground (arith, R.new_for_config s)

module _ (C : Client) (R : IsReliable C) (req : Request) (b : ConsolePluginBuilder) where
  -- What a run from one state leaves in another.
  pub record Converged (s t : C.State) : Type 0 where
    pub present : Present C R (plugin_keys b) t
    pub console : R.console t ≡ with_plugin (R.console s) b.plugin_name
    pub stored : ObservabilityUiPlugin
    pub here : R.plugins t req ≡ some stored
    pub alive : is_some stored.meta.deletion_timestamp ≡ false
    pub built : Built stored b
    pub available :
        status_of type_available_observability_ui stored.status.conditions ≡ some condition_true
    pub settled : Present C R (plugin_keys b) s → R.objects t ≡ R.objects s

  -- How far a run has come, for what is left of it.
  abbrev PluginStage :
      C.State → List (FnWithRequest C.State) → List (Kind × NamespacedName) → Type 0
  PluginStage = Stage C R req (subreconcilers C) (Ready C R req Alive b)

  leaves :
      {start : C.State} {f : FnWithRequest C.State} {fs : List (FnWithRequest C.State)}
      {ks : List (Kind × NamespacedName)} {k : Kind} {n : NamespacedName}
      → ((o : ObservabilityUiPlugin)
          → Built o b
          → (s : C.State) → R.plugins s req ≡ some o
          → Ensures C R k n s (f req s))
      → PluginStage start (f ∷ fs) ks
      → PluginStage start fs ((k, n) ∷ ks)
  leaves h =
      ensured C R req (subreconcilers C) (Ready C R req Alive b) (Ready-Step C R req Alive b)
        (λ s r. h r.plugin r.built s r.here)

  created :
      (s : C.State)
      → Ready C R req Alive b s
      → PluginStage s (register_plugin_in_console C ∷ update_status C ∷ []) (plugin_keys b)
  created s ready =
      leaves (λ o h. console_plugin_ensured C R req o b h)
        (leaves (λ o h. service_ensured C R req o b h)
          (leaves (λ o h. deployment_ensured C R req o b h)
            (passed C R req _ _ (handle_delete_keeps C R req b) (
              passed C R req _ _ (add_finalizer_keeps C R req b) (
                passed C R req _ _ (set_status_to_unknown_keeps C R req Alive b)
                  (begin C R req _ _ s ready))))))

  finish :
      (s : C.State)
      → PluginStage s (register_plugin_in_console C ∷ update_status C ∷ []) (plugin_keys b)
      → (t : C.State) × (run_subreconcilers (subreconcilers C) req s
          ≡ (some (empty_result, none), t))
        × Converged s t
  finish s p =
      let m = registered C R b.plugin_name p.now in
      let goes_on =
        register_plugin_in_console_lem C R req p.ready.plugin b p.now p.ready.built p.ready.here in
      let done = registered-Registered C R b.plugin_name p.now in
      let r = Ready-same C R req Alive b p.now m done.plugins p.ready in
      let (last, (r', available), same_objects, same_console) =
        update_status_lem C R req Alive b m r in
      (
        (update_status C req m).1,
        p.runs
            ∙ passes (register_plugin_in_console C) (update_status C ∷ []) req p.now
                (ap (λ x. x.0) goes_on)
            ∙ ap (λ x. run_subreconcilers (update_status C ∷ []) req x.1) goes_on
            ∙ passes (update_status C) [] req m last
            ∙ ends req (update_status C req m).1,
        record {
          present =
              Present-same C R (plugin_keys b) m _ same_objects
                (Present-same C R (plugin_keys b) p.now m done.objects p.present);
          console = rw (same_console, done.console, p.console);
          stored = r'.plugin;
          here = r'.here;
          alive = r'.kept;
          built = r'.built;
          settled = λ there. same_objects ∙ done.objects ∙ p.settled there;
          available = available;
        },
      )

  -- In a reliable cluster, one run for a plugin resource that is there, not marked for deletion and
  -- of a type that has a builder ends with no error and asks for no other run. After it the
  -- deployment, the service and the console plugin of the builder are there, the console has the
  -- plugin in its list, at the end if it was not in it, and nothing else of the list has changed;
  -- the resource is there, and its status says Available=True.
  pub plugins_reconcile_converges :
      (o : ObservabilityUiPlugin) (s : C.State)
      → R.plugins s req ≡ some o
      → is_some o.meta.deletion_timestamp ≡ false
      → Built o b
      → ((reconcile C req s).0 ≡ some (empty_result, none)) × Converged s (reconcile C req s).1
  plugins_reconcile_converges o s here alive built =
      let ready : Ready C R req Alive b s = record {
        plugin = o;
        here = here;
        kept = alive;
        built = built;
      } in
      let (t, run, converged) = finish s (created s ready) in
      rw (reconcile_lem C R req s ∙ run) (refl, converged)

  -- In a reliable cluster, where a run for a plugin resource that is there, not marked for deletion
  -- and of a type that has a builder is followed by another one, the second ends with no error and
  -- asks for no other run, and it leaves the objects and the plugins of the console as the first one
  -- left them.
  pub plugins_reconcile_twice :
      (o : ObservabilityUiPlugin) (s : C.State)
      → R.plugins s req ≡ some o
      → is_some o.meta.deletion_timestamp ≡ false
      → Built o b
      → ((reconcile C req (reconcile C req s).1).0 ≡ some (empty_result, none))
        × (R.objects (reconcile C req (reconcile C req s).1).1 ≡ R.objects (reconcile C req s).1)
        × (R.console (reconcile C req (reconcile C req s).1).1 ≡ R.console (reconcile C req s).1)
  plugins_reconcile_twice o s here alive built =
      let (_, first) = plugins_reconcile_converges o s here alive built in
      let (ends, second) =
        plugins_reconcile_converges first.stored _ first.here first.alive first.built in
      (
        ends,
        second.settled first.present,
        second.console ∙ rw (first.console, contains-with_plugin (R.console s) b.plugin_name),
      )
