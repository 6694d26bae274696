-- ===== src/Operator/Converge/Faults.antt =====
-- Runs of the hub controller in a reliable cluster of which finitely many calls fail.
use observability_ui_operato.Base.{
  ℕ, ◌≡◌, ◌∙◌, refl, ap, sym, subst, is_some, false, some, none, List, [], inl, inr, length,
}
use Prim.Native.Nat.{suc}
use observability_ui_operato.Attempt.{Attempt-cases}
use observability_ui_operato.Api.{Request, ObservabilityUi}
use observability_ui_operato.Subreconciler.{empty_result}
use observability_ui_operato.Subreconciler.Fated.{AllSame, done, ◌▸◌, run_same}
use observability_ui_operato.Body.Fated.{unfated}
use observability_ui_operato.Client.{Client}
use observability_ui_operato.Operator.Fated.{
  same_set_status_to_unknown, same_handle_delete, same_reconcile_service_account,
  same_reconcile_cluster_role, same_reconcile_cluster_role_binding, same_reconcile_service,
  same_reconcile_deployment, same_reconcile_console_plugin, same_register_plugin_in_console,
  same_update_status,
}
use observability_ui_operato.Operator.Reconcile.{reconcile, subreconcilers}
use observability_ui_operato.Operator.Converge.Whole.{Converged, reconcile_converges}
use observability_ui_operato.Interleaving.Hub.{hub_run_keeps}
use observability_ui_operato.Interleaving.Apart.{IsThere, hub_stays-IsThere}
use observability_ui_operato.Reliable.{IsReliable}
use observability_ui_operato.Trace.Kept.{hub_kept}
use observability_ui_operato.Trace.Worker.{repeated_keeps}
use observability_ui_operato.Trace.Faults.{faulty, Fated, Fate}
use observability_ui_operato.Trace.Spent.{
  AtMost, AtMost-length, AtMost-used, fates_keep, repeated, repeated-spent,
}

module _ (C : Client) (req : Request) where
  all_same : AllSame req (subreconcilers (faulty C)) (subreconcilers C)
  all_same =
      same_set_status_to_unknown C req
      ▸ same_handle_delete C req
      ▸ same_reconcile_service_account C req
      ▸ same_reconcile_cluster_role C req
      ▸ same_reconcile_cluster_role_binding C req
      ▸ same_reconcile_service C req
      ▸ same_reconcile_deployment C req
      ▸ same_reconcile_console_plugin C req
      ▸ same_register_plugin_in_console C req
      ▸ same_update_status C req
      ▸ done

  pub reconcile_same :
      (s : C.State) → reconcile (faulty C) req (s, []) ≡ unfated (reconcile C req s)
  unfolding reconcile
  reconcile_same s = elim (Attempt-cases (C.new_for_config s).0) [
    | inl (e, failed) ↦ rw (failed, reconcile) refl
    | inr (_, made) ↦ rw (made, reconcile) (run_same req all_same (C.new_for_config s).1)
  ]

  pub reconcile-used :
      (n : ℕ) (s : Fated C.State) → AtMost (suc n) s.1 → AtMost n (reconcile (faulty C) req s).1.1
  reconcile-used n s h =
      hub_run_keeps (faulty C) (λ t. AtMost n t.1) (fates_keep C n).hub req s
        (AtMost-used C.new_for_config n s h)

  -- The state after as many runs as there are fates of calls.
  abbrev pub after_faults : List Fate → C.State → Fated C.State
  after_faults fates s = repeated (length fates) (reconcile (faulty C) req) (s, fates)

  no_fates_left : (fates : List Fate) (s : C.State) → (after_faults fates s).1 ≡ []
  no_fates_left fates s =
      repeated-spent (reconcile (faulty C) req) reconcile-used (length fates) (s, fates)
        (AtMost-length fates)

  -- So the run after them does what it does in the wrapped cluster.
  after_faults_same :
      (fates : List Fate) (s : C.State)
      → reconcile (faulty C) req (after_faults fates s)
        ≡ unfated (reconcile C req (after_faults fates s).0)
  after_faults_same fates s =
      ap (λ l. reconcile (faulty C) req ((after_faults fates s).0, l)) (no_fates_left fates s)
      ∙ reconcile_same (after_faults fates s).0

  -- The hub resource stays there in a run, unmarked.
  pub IsThere-after :
      (R : IsReliable C) (s : Fated C.State)
      → IsThere C R req (R.obs_uis s.0)
      → IsThere C R req (R.obs_uis (reconcile (faulty C) req s).1.0)
  IsThere-after R s h =
      let K = hub_kept C (λ t. IsThere C R req (R.obs_uis t)) (hub_stays-IsThere C R req) in
      hub_run_keeps (faulty C) (λ t. IsThere C R req (R.obs_uis t.0)) K req s
        (K.shared.new_for_config s h)

  -- In a reliable cluster in which some calls fail, each with any error and with or without having
  -- taken effect, take as many runs for a hub resource that is there and not marked for deletion as
  -- there are calls whose fate is given. The next run ends with no error and asks for no other run,
  -- and leaves what a run in the reliable cluster leaves: the six resources, the entry of the hub in
  -- the list of the console's plugins, which is otherwise as the runs before left it, and
  -- Available=True in the status.
  pub faults_overcome :
      (R : IsReliable C) (fates : List Fate) (s : C.State) (o : ObservabilityUi)
      → R.obs_uis s req ≡ some o
      → is_some o.meta.deletion_timestamp ≡ false
      → ((reconcile (faulty C) req (after_faults fates s)).0 ≡ some (empty_result, none))
        × Converged C R req
            (after_faults fates s).0
            (reconcile (faulty C) req (after_faults fates s)).1.0
  faults_overcome R fates s o here alive =
      let t = (after_faults fates s).0 in
      let same = after_faults_same fates s in
      let (p, there, unmarked) =
        repeated_keeps (λ t. IsThere C R req (R.obs_uis t.0)) (reconcile (faulty C) req)
          (IsThere-after R) (length fates) (s, fates) (o, here, alive) in
      let (ends, converged) = reconcile_converges C R req p t there unmarked in
      (ap (λ x. x.0) same ∙ ends, subst (λ x. Converged C R req t x.1.0) (sym same) converged)
