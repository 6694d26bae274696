-- ===== src/Interleaving/Apart.antt =====
-- What a run of either controller leaves as it is of what the other works on, in a reliable cluster.
use observability_ui_operato.Base.{
  ◌≡◌, ◌∙◌, ap, refl, sym, subst, some, is_some, false, Option, List, [], ◌∷◌, Slice,
}
use observability_ui_operato.Api.{Request, NamespacedName, ObservabilityUi, ObservabilityUiPlugin}
use observability_ui_operato.Api.Objects.{Kind, Object}
use observability_ui_operato.Client.{Client, JsonPatch}
use observability_ui_operato.Patches.Laws.{enable_patches-Patches, disable_patches-apply}
use observability_ui_operato.Reliable.{IsReliable}
use observability_ui_operato.Reliable.Stages.{AllThere, Present}
use observability_ui_operato.Operator.Reconcile
use observability_ui_operato.Plugins.Reconcile as PluginsReconcile
use observability_ui_operato.Interleaving.Calls.{
  SharedCallsKeep, HubCallsKeep, PluginCallsKeep, CallsKeep,
}
use observability_ui_operato.Interleaving.Cluster.{patched_state, seen, cluster_keeps}
use observability_ui_operato.Interleaving.Hub.{hub_run_keeps}
use observability_ui_operato.Interleaving.Plugins.{plugins_run_keeps}

module _ (C : Client) (R : IsReliable C) where
  -- What is said of a part of the state that neither a creation nor a patch changes is kept by the
  -- calls that both controllers make.
  pub shared_same :
      {A : Type 0} (f : C.State → A) (Q : A → Type 0)
      → ((s : C.State) (x : Object) → f (C.create x s).1 ≡ f s)
      → ((s : C.State) (ps : Slice JsonPatch) → f (R.patched s ps) ≡ f s)
      → SharedCallsKeep C (λ s. Q (f s))
  shared_same f Q created patched = record {
    new_for_config = λ s h. rw (R.new_for_config s) h;
    get = λ k n s h. rw (R.get k n s) h;
    create = λ x s made h. subst Q (sym (created s x)) h;
    get_console = λ s h. rw (R.get_console s) h;
    enabled = λ s console name bytes h got absent made.
        let e = seen C R s console got in
        let (state, _) =
          patched_state C R s _ bytes _ (rw e at made)
            (enable_patches-Patches (R.console s) name) in
        subst Q (sym (ap f state ∙ patched s _)) h;
  }

  hub_leaves_plugins :
      (ps : NamespacedName → Option ObservabilityUiPlugin) → HubCallsKeep C (λ s. R.plugins s ≡ ps)
  hub_leaves_plugins ps = record {
    shared = shared_same R.plugins (λ ps'. ps' ≡ ps) R.create_plugins R.patched_plugins;
    get_obs_ui = λ n s h. rw (R.get_obs_ui n s) h;
    update_obs_ui_status = λ o s h. R.update_obs_ui_status_plugins s o ∙ h;
  }

  -- The hub resource is there, and not marked for deletion.
  abbrev pub IsThere : Request → (NamespacedName → Option ObservabilityUi) → Type 0
  IsThere req os =
      (o : ObservabilityUi) × (os req ≡ some o) × (is_some o.meta.deletion_timestamp ≡ false)

  pub hub_stays-IsThere : (req : Request) → HubCallsKeep C (λ s. IsThere req (R.obs_uis s))
  hub_stays-IsThere req = record {
    shared = shared_same R.obs_uis (IsThere req) R.create_obs_uis R.patched_obs_uis;
    get_obs_ui = λ n s h. rw (R.get_obs_ui n s) h;
    update_obs_ui_status = λ o s (p, there, alive).
        let (q, still, same) = R.update_obs_ui_status_stays s o p req there in
        (q, still, ap is_some same ∙ alive);
  }

  plugins_leave_obs_uis :
      (os : NamespacedName → Option ObservabilityUi) → PluginCallsKeep C (λ s. R.obs_uis s ≡ os)
  plugins_leave_obs_uis os = record {
    install = record {
      shared = shared_same R.obs_uis (λ os'. os' ≡ os) R.create_obs_uis R.patched_obs_uis;
      get_obs_ui_plugin = λ n s h. rw (R.get_obs_ui_plugin n s) h;
      update_obs_ui_plugin_status = λ o s h. R.update_obs_ui_plugin_status_obs_uis s o ∙ h;
    };
    update_obs_ui_plugin = λ o s h. R.update_obs_ui_plugin_obs_uis s o ∙ h;
    disabled = λ s o b console i bytes h built got found made.
        let e = seen C R s console got in
        let (state, _) =
          patched_state C R s _ bytes _ (rw e at made)
            (disable_patches-apply (R.console s) b.plugin_name i (rw e at found)) in
        ap R.obs_uis state ∙ R.patched_obs_uis s _ ∙ h;
    recorded =
        λ event e o kind reason message s h. R.recorded_obs_uis event e o kind reason message s ∙ h;
  }

  AllThere-create :
      (ks : List (Kind × NamespacedName)) (x : Object) (s : C.State)
      → AllThere ks (R.objects s)
      → AllThere ks (R.objects (C.create x s).1)
  AllThere-create [] x s h = tt
  AllThere-create ((k, n) ∷ ks) x s (h, hs) =
      (R.create_objects s x k n h, AllThere-create ks x s hs)

  -- Neither removes an object.
  objects_stay : (ks : List (Kind × NamespacedName)) → CallsKeep C (Present C R ks)
  objects_stay ks =
      cluster_keeps C R (λ ps os. AllThere ks os) (λ ps os name absent h. h)
        (λ ps os name i plugin found h. h) (λ x s h. AllThere-create ks x s h)

  -- A run of the hub controller keeps what its calls keep, and so does one of the other.
  hub_run :
      (P : C.State → Type 0)
      → HubCallsKeep C P
      → (req : Request) (s : C.State) → P s
      → P (Reconcile.reconcile C req s).1
  hub_run P K req s p = hub_run_keeps C P K req s (K.shared.new_for_config s p)

  plugin_run :
      (P : C.State → Type 0)
      → PluginCallsKeep C P
      → (req : Request) (s : C.State) → P s
      → P (PluginsReconcile.reconcile C req s).1
  plugin_run P K req s p = plugins_run_keeps C P K req s (K.install.shared.new_for_config s p)

  module _ (req : Request) (s : C.State) where
    pub hub_run_plugins : R.plugins (Reconcile.reconcile C req s).1 ≡ R.plugins s
    hub_run_plugins =
        hub_run (λ t. R.plugins t ≡ R.plugins s) (hub_leaves_plugins (R.plugins s)) req s refl

    pub plugin_run_obs_uis : R.obs_uis (PluginsReconcile.reconcile C req s).1 ≡ R.obs_uis s
    plugin_run_obs_uis =
        plugin_run (λ t. R.obs_uis t ≡ R.obs_uis s) (plugins_leave_obs_uis (R.obs_uis s)) req s refl

    pub hub_run-Present :
        (ks : List (Kind × NamespacedName))
        → Present C R ks s
        → Present C R ks (Reconcile.reconcile C req s).1
    hub_run-Present ks = hub_run (Present C R ks) (objects_stay ks).hub req s

    pub plugin_run-Present :
        (ks : List (Kind × NamespacedName))
        → Present C R ks s
        → Present C R ks (PluginsReconcile.reconcile C req s).1
    plugin_run-Present ks = plugin_run (Present C R ks) (objects_stay ks).plugins req s
