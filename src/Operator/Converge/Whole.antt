-- ===== src/Operator/Converge/Whole.antt =====
-- A whole run of the operator in a reliable cluster.
use observability_ui_operato.Base.{
  ◌≡◌, ◌∙◌, refl, ap, arith, is_some, false, some, none, List, [], ◌∷◌,
}
use observability_ui_operato.Api.{Request, NamespacedName, ObservabilityUi, condition_true}
use observability_ui_operato.Api.Objects.{
  Kind, service_account_kind, cluster_role_kind, cluster_role_binding_kind, service_kind,
  deployment_kind, console_plugin_kind,
}
use observability_ui_operato.Common.{type_available_observability_ui}
use observability_ui_operato.Subreconciler.{FnWithRequest, run_subreconcilers, empty_result}
use observability_ui_operato.Client.{Client}
use observability_ui_operato.Operator.{update_status, available}
use observability_ui_operato.Operator.Resources.{plugin_role}
use observability_ui_operato.Operator.Register.{register_plugin_in_console}
use observability_ui_operato.Operator.Reconcile.{reconcile, subreconcilers}
use observability_ui_operato.Operator.Converge.Hub.{hub_name, namespaced, cluster_wide, hub_builder}
use observability_ui_operato.Operator.Converge.Resources.{
  service_account_ensured, cluster_role_ensured, cluster_role_binding_ensured, service_ensured,
  deployment_ensured, console_plugin_ensured,
}
use observability_ui_operato.Reliable.{IsReliable, status_of}
use observability_ui_operato.Reliable.Ensures.{Ensures}
use observability_ui_operato.Reliable.Stages.{
  passes, stops, Stage, Present, Present-same, ensured, passed, begin,
}
use observability_ui_operato.Reliable.Registered.{
  with_plugin, contains-with_plugin, registered, registered-Registered,
}
use observability_ui_operato.Operator.Converge.Run.{
  Ready, Ready-same, Ready-Step, handle_delete_keeps,
}
use observability_ui_operato.Operator.Converge.Statuses.{
  set_status_to_unknown_keeps, update_status_lem,
}
use observability_ui_operato.Operator.Converge.Registration.{register_plugin_in_console_lem}

-- The keys of the resources that the operator creates, the last first.
abbrev pub hub_keys : List (Kind × NamespacedName)
hub_keys =
    (console_plugin_kind, cluster_wide hub_name)
    ∷ (deployment_kind, namespaced hub_name)
    ∷ (service_kind, namespaced hub_name)
    ∷ (cluster_role_binding_kind, cluster_wide hub_name)
    ∷ (cluster_role_kind, cluster_wide plugin_role)
    ∷ (service_account_kind, namespaced hub_name)
    ∷ []

module _ (C : Client) (R : IsReliable C) (req : Request) where
  -- What a run from one state leaves in another.
  pub record Converged (s t : C.State) : Type 0 where
    pub present : Present C R hub_keys t
    pub console : R.console t ≡ with_plugin (R.console s) hub_name
    pub stored : ObservabilityUi
    pub here : R.obs_uis t req ≡ some stored
    pub alive : is_some stored.meta.deletion_timestamp ≡ false
    pub available :
        status_of type_available_observability_ui stored.status.conditions ≡ some condition_true
    pub settled : Present C R hub_keys s → R.objects t ≡ R.objects s

  -- How far a run has come, for what is left of it.
  abbrev HubStage : C.State → List (FnWithRequest C.State) → List (Kind × NamespacedName) → Type 0
  HubStage = Stage C R req (subreconcilers C) (Ready C R req)

  leaves :
      {start : C.State} {f : FnWithRequest C.State} {fs : List (FnWithRequest C.State)}
      {ks : List (Kind × NamespacedName)} {k : Kind} {n : NamespacedName}
      → ((o : ObservabilityUi) (s : C.State)
          → R.obs_uis s req ≡ some o
          → Ensures C R k n s (f req s))
      → HubStage start (f ∷ fs) ks
      → HubStage start fs ((k, n) ∷ ks)
  leaves h =
      ensured C R req (subreconcilers C) (Ready C R req) (Ready-Step C R req)
        (λ s r. h r.obs_ui s r.here)

  created :
      (s : C.State)
      → Ready C R req s
      → HubStage s (register_plugin_in_console C ∷ update_status C ∷ []) hub_keys
  created s ready =
      leaves (λ o s h. console_plugin_ensured C R req o s h (hub_builder o))
        (leaves (λ o s h. deployment_ensured C R req o s h (hub_builder o))
          (leaves (λ o s h. service_ensured C R req o s h (hub_builder o))
            (leaves (λ o s h. cluster_role_binding_ensured C R req o s h (hub_builder o))
              (leaves (λ o s h. cluster_role_ensured C R req o s h (hub_builder o))
                (leaves (λ o s h. service_account_ensured C R req o s h (hub_builder o))
                  (passed C R req _ _ (handle_delete_keeps C R req) (
                    passed C R req _ _ (set_status_to_unknown_keeps C R req)
                      (begin C R req _ _ s ready))))))))

  finish :
      (s : C.State)
      → HubStage s (register_plugin_in_console C ∷ update_status C ∷ []) hub_keys
      → (t : C.State) × (run_subreconcilers (subreconcilers C) req s
          ≡ (some (empty_result, none), t))
        × Converged s t
  finish s p =
      let m = registered C R hub_name p.now in
      let goes_on = register_plugin_in_console_lem C R req p.ready.obs_ui p.now p.ready.here in
      let done = registered-Registered C R hub_name p.now in
      let r = Ready-same C R req p.now m done.obs_uis p.ready in
      let (ends, o', here', alive', available, same_objects', same_console) =
        update_status_lem C R req r.obs_ui m r.here r.alive in
      (
        (update_status C req m).1,
        p.runs
            ∙ passes (register_plugin_in_console C) (update_status C ∷ []) req p.now
                (ap (λ x. x.0) goes_on)
            ∙ ap (λ x. run_subreconcilers (update_status C ∷ []) req x.1) goes_on
            ∙ stops (update_status C) [] req m ends,
        record {
          present =
              Present-same C R hub_keys m _ same_objects'
                (Present-same C R hub_keys p.now m done.objects p.present);
          console = rw (same_console, done.console, p.console);
          stored = o';
          here = here';
          alive = alive';
          settled = λ there. same_objects' ∙ done.objects ∙ p.settled there;
          available = available;
        },
      )

  pub reconcile_lem :
      (s : C.State) → reconcile C req s ≡ run_subreconcilers (subreconcilers C) req s
  unfolding reconcile
  reconcile_lem s = ground (arith, R.new_for_config s)

  -- In a reliable cluster, one run for a hub resource that is there and not marked for deletion ends
  -- with no error and asks for no other run. After it each of the six resources of the hub is there,
  -- the console has the hub among its plugins, at the end of the list if it was not in it, and
  -- nothing else of the list has changed; and the status of the hub resource says Available=True.
  pub reconcile_converges :
      (o : ObservabilityUi) (s : C.State)
      → R.obs_uis s req ≡ some o
      → is_some o.meta.deletion_timestamp ≡ false
      → ((reconcile C req s).0 ≡ some (empty_result, none)) × Converged s (reconcile C req s).1
  reconcile_converges o s here alive =
      let (t, run, converged) =
        finish s (created s (record { obs_ui = o; here = here; alive = alive })) in
      rw (reconcile_lem s ∙ run) (refl, converged)

  -- In a reliable cluster, where a run for a hub resource that is there and not marked for deletion is
  -- followed by another one, the second ends with no error and asks for no other run, and it leaves
  -- the objects and the plugins of the console as the first one left them.
  pub reconcile_twice :
      (o : ObservabilityUi) (s : C.State)
      → R.obs_uis s req ≡ some o
      → is_some o.meta.deletion_timestamp ≡ false
      → ((reconcile C req (reconcile C req s).1).0 ≡ some (empty_result, none))
        × (R.objects (reconcile C req (reconcile C req s).1).1 ≡ R.objects (reconcile C req s).1)
        × (R.console (reconcile C req (reconcile C req s).1).1 ≡ R.console (reconcile C req s).1)
  reconcile_twice o s here alive =
      let (_, first) = reconcile_converges o s here alive in
      let (ends, second) = reconcile_converges first.stored _ first.here first.alive in
      (
        ends,
        second.settled first.present,
        second.console ∙ rw (first.console, contains-with_plugin (R.console s) hub_name),
      )
