-- ===== src/Operator/Reconcile/Success.antt =====
-- What a run of the hub controller that ends with neither an error nor a wish for another run
-- says of the resources, whatever calls fail in it.
use observability_ui_operato.Base.{
  ℕ, ◌≡◌, refl, arith, is_some, false, some, none, [], ◌∷◌, List, inl, inr,
}
use observability_ui_operato.Attempt.{Error, ok, err, Attempt-cases}
use observability_ui_operato.Api.{Request, ObservabilityUi}
use observability_ui_operato.Api.Heap.{at}
use observability_ui_operato.Api.Objects.{
  Kind, deployment_kind, service_kind, service_account_kind, cluster_role_kind,
  cluster_role_binding_kind,
}
use observability_ui_operato.Subreconciler.{
  SubResult, FnWithRequest, run_subreconcilers, empty_result, continue_reconciling, do_not_requeue,
  requeue, requeue_with_error, requeue_with_delay_and_error, should_halt_or_requeue,
}
use observability_ui_operato.Subreconciler.Success.{AllGoOn, GoesOnOrRequeues, success_leaves}
use observability_ui_operato.Client.{Client}
use observability_ui_operato.ConsolePlugin.{from_obs_ui}
use observability_ui_operato.Operator.{
  latest, set_status_to_unknown, handle_delete, update_status, report_failure,
}
use observability_ui_operato.Operator.Resources.{
  reconcile_service_account, reconcile_cluster_role, reconcile_cluster_role_binding,
  reconcile_service, reconcile_deployment, reconcile_console_plugin,
}
use observability_ui_operato.Operator.Register.{register_plugin_in_console}
use observability_ui_operato.Operator.Reconcile.{reconcile, subreconcilers}
use observability_ui_operato.Interleaving.Hub.{hub_keeps}
use observability_ui_operato.Trace.Confirmed.{confirming, confirming_keeps, Has, Noted}

-- The pairs that a sub-reconciler is built from, and the reads in it.
results : SubResult → SubResult
unfolding continue_reconciling do_not_requeue requeue_with_error requeue_with_delay_and_error
    requeue should_halt_or_requeue latest
results r = r

module _ (C : Client) (req : Request)
    (there : (s : C.State) (e : Error) → (C.get_obs_ui req s).0 ≡ err e → e.not_found ≡ false)
    (alive : (s : C.State) (o : ObservabilityUi)
      → (C.get_obs_ui req s).0 ≡ ok o
      → is_some o.meta.deletion_timestamp ≡ false) where
  abbrev D : Client
  D = confirming C

  set_status_to_unknown_goes_on :
      (s : Noted C.State) → GoesOnOrRequeues (set_status_to_unknown D req s).0
  unfolding set_status_to_unknown results
  set_status_to_unknown_goes_on s = grind (arith, there)

  handle_delete_goes_on : (s : Noted C.State) → GoesOnOrRequeues (handle_delete D req s).0
  unfolding handle_delete results
  handle_delete_goes_on s = grind (arith, there, alive)

  reconcile_service_account_goes_on :
      (s : Noted C.State) → GoesOnOrRequeues (reconcile_service_account D req s).0
  unfolding reconcile_service_account report_failure from_obs_ui results
  reconcile_service_account_goes_on s = grind (arith, there)

  reconcile_cluster_role_goes_on :
      (s : Noted C.State) → GoesOnOrRequeues (reconcile_cluster_role D req s).0
  unfolding reconcile_cluster_role report_failure results
  reconcile_cluster_role_goes_on s = grind (arith, there)

  reconcile_cluster_role_binding_goes_on :
      (s : Noted C.State) → GoesOnOrRequeues (reconcile_cluster_role_binding D req s).0
  unfolding reconcile_cluster_role_binding report_failure from_obs_ui results
  reconcile_cluster_role_binding_goes_on s = grind (arith, there)

  reconcile_service_goes_on : (s : Noted C.State) → GoesOnOrRequeues (reconcile_service D req s).0
  unfolding reconcile_service report_failure from_obs_ui results
  reconcile_service_goes_on s = grind (arith, there)

  reconcile_deployment_goes_on :
      (s : Noted C.State) → GoesOnOrRequeues (reconcile_deployment D req s).0
  unfolding reconcile_deployment report_failure from_obs_ui results
  reconcile_deployment_goes_on s = grind (arith, there)

  reconcile_service_account_confirms :
      (s : Noted C.State)
      → (reconcile_service_account D req s).0 ≡ continue_reconciling
      → Has service_account_kind (reconcile_service_account D req s).1.1
  unfolding reconcile_service_account report_failure from_obs_ui results
  reconcile_service_account_confirms s h = ground arith

  reconcile_cluster_role_confirms :
      (s : Noted C.State)
      → (reconcile_cluster_role D req s).0 ≡ continue_reconciling
      → Has cluster_role_kind (reconcile_cluster_role D req s).1.1
  unfolding reconcile_cluster_role report_failure results
  reconcile_cluster_role_confirms s h = ground arith

  reconcile_cluster_role_binding_confirms :
      (s : Noted C.State)
      → (reconcile_cluster_role_binding D req s).0 ≡ continue_reconciling
      → Has cluster_role_binding_kind (reconcile_cluster_role_binding D req s).1.1
  unfolding reconcile_cluster_role_binding report_failure from_obs_ui results
  reconcile_cluster_role_binding_confirms s h = ground arith

  reconcile_service_confirms :
      (s : Noted C.State)
      → (reconcile_service D req s).0 ≡ continue_reconciling
      → Has service_kind (reconcile_service D req s).1.1
  unfolding reconcile_service report_failure from_obs_ui results
  reconcile_service_confirms s h = ground arith

  reconcile_deployment_confirms :
      (s : Noted C.State)
      → (reconcile_deployment D req s).0 ≡ continue_reconciling
      → Has deployment_kind (reconcile_deployment D req s).1.1
  unfolding reconcile_deployment report_failure from_obs_ui results
  reconcile_deployment_confirms s h = ground arith

  -- The sub-reconcilers up to the last that creates a resource, and the others.
  abbrev first_ones : List (FnWithRequest (Noted C.State))
  first_ones =
      set_status_to_unknown D
      ∷ handle_delete D
      ∷ reconcile_service_account D
      ∷ reconcile_cluster_role D
      ∷ reconcile_cluster_role_binding D
      ∷ reconcile_service D
      ∷ reconcile_deployment D
      ∷ []

  abbrev others : List (FnWithRequest (Noted C.State))
  others = reconcile_console_plugin D ∷ register_plugin_in_console D ∷ update_status D ∷ []

  all_go_on : AllGoOn req first_ones
  all_go_on = (
    set_status_to_unknown_goes_on,
    (
      handle_delete_goes_on,
      (
        reconcile_service_account_goes_on,
        (
          reconcile_cluster_role_goes_on,
          (
            reconcile_cluster_role_binding_goes_on,
            (reconcile_service_goes_on, (reconcile_deployment_goes_on, tt)),
          ),
        ),
      ),
    ),
  )

  confirmed :
      (k : Kind) (i : ℕ) (f : FnWithRequest (Noted C.State))
      → at first_ones i ≡ some f
      → ((s : Noted C.State) → (f req s).0 ≡ continue_reconciling → Has k (f req s).1.1)
      → (s : Noted C.State)
      → (run_subreconcilers (subreconcilers D) req s).0 ≡ some (empty_result, none)
      → Has k (run_subreconcilers (subreconcilers D) req s).1.1
  confirmed k i f stands leaves s h =
      success_leaves req {P = λ s. Has k s.1} first_ones others i f s all_go_on
        (hub_keeps D (λ s. Has k s.1) (confirming_keeps C k).hub) stands leaves h

  -- Where the hub resource of the request is there and unmarked whenever it is read, a run that ends
  -- with neither an error nor a wish for another run has found or created a service account, a cluster
  -- role, a cluster role binding, a service and a deployment, whatever other calls fail: for each of
  -- the five kinds, `Get` or `Create` has answered without an error in that run.
  pub success_confirmed :
      (s : C.State)
      → (reconcile (confirming C) req (s, [])).0 ≡ some (empty_result, none)
      → Has service_account_kind (reconcile (confirming C) req (s, [])).1.1
        × Has cluster_role_kind (reconcile (confirming C) req (s, [])).1.1
        × Has cluster_role_binding_kind (reconcile (confirming C) req (s, [])).1.1
        × Has service_kind (reconcile (confirming C) req (s, [])).1.1
        × Has deployment_kind (reconcile (confirming C) req (s, [])).1.1
  unfolding reconcile
  success_confirmed s h = elim (Attempt-cases (C.new_for_config s).0) [
    | inl (e, failed) ↦ cc (rw (failed, reconcile) at h)
    | inr (_, made) ↦
        let t : Noted C.State = ((C.new_for_config s).1, []) in
        let h' : (run_subreconcilers (subreconcilers D) req t).0 ≡ some (empty_result, none) =
          rw (made, reconcile) at h in
        rw (made, reconcile)
          (
            confirmed service_account_kind 2 _ refl reconcile_service_account_confirms t h',
            confirmed cluster_role_kind 3 _ refl reconcile_cluster_role_confirms t h',
            confirmed cluster_role_binding_kind 4 _ refl reconcile_cluster_role_binding_confirms t
                h',
            confirmed service_kind 5 _ refl reconcile_service_confirms t h',
            confirmed deployment_kind 6 _ refl reconcile_deployment_confirms t h',
          )
  ]
