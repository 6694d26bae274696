-- ===== src/Operator/Reconcile/Safety.antt =====
-- What the sub-reconcilers of the operator return, whatever the world answers.
use observability_ui_operato.Base.{◌≡◌, arith, is_some, some, none, ◌⊎◌, inl, inr, refl, ap}
use observability_ui_operato.Attempt.{err, errorf, Attempt-cases, Error}
use observability_ui_operato.Api.{Request}
use observability_ui_operato.ConsolePlugin.{from_obs_ui}
use observability_ui_operato.Subreconciler.{
  run_subreconcilers, Outcome, SubResult, continue_reconciling, do_not_requeue, requeue_with_error,
  requeue_with_delay_and_error, should_halt_or_requeue, empty_result,
}
use observability_ui_operato.Subreconciler.Laws.{
  IsWellFormed, AllReturn, AllReturn-map, done, ◌▹◌, outcome_of, run_subreconcilers-Runs,
  Runs-AllReturn,
}
use observability_ui_operato.Client.{Client}
use observability_ui_operato.Operator.{
  latest, set_status_to_unknown, handle_delete, update_status, report_failure,
}
use observability_ui_operato.Operator.Resources.{
  reconcile_service_account, reconcile_cluster_role, reconcile_cluster_role_binding,
  reconcile_service, reconcile_deployment, reconcile_console_plugin,
}
use observability_ui_operato.Operator.Register.{register_plugin_in_console}
use observability_ui_operato.Operator.Reconcile.{reconcile, subreconcilers}

-- An error comes with a result that asks for another run, and nothing else does.
abbrev pub RequeuesOnError : SubResult → Type 0
RequeuesOnError (none, e) = e ≡ none
RequeuesOnError (some r, e) = r.requeue ≡ is_some e

IsWellFormed-of_RequeuesOnError : (r : SubResult) → RequeuesOnError r → IsWellFormed r
IsWellFormed-of_RequeuesOnError r h = ground arith

-- The pairs that a sub-reconciler is built from.
results : SubResult → SubResult
unfolding continue_reconciling do_not_requeue requeue_with_error requeue_with_delay_and_error
    should_halt_or_requeue latest
results r = r

module _ (C : Client) (req : Request) (s : C.State) where
  set_status_to_unknown_requeues : RequeuesOnError (set_status_to_unknown C req s).0
  unfolding set_status_to_unknown results
  set_status_to_unknown_requeues = ground arith

  handle_delete_requeues : RequeuesOnError (handle_delete C req s).0
  unfolding handle_delete results
  handle_delete_requeues = ground arith

  reconcile_service_account_requeues : RequeuesOnError (reconcile_service_account C req s).0
  unfolding reconcile_service_account report_failure from_obs_ui results
  reconcile_service_account_requeues = ground arith

  reconcile_cluster_role_requeues : RequeuesOnError (reconcile_cluster_role C req s).0
  unfolding reconcile_cluster_role report_failure results
  reconcile_cluster_role_requeues = ground arith

  reconcile_cluster_role_binding_requeues :
      RequeuesOnError (reconcile_cluster_role_binding C req s).0
  unfolding reconcile_cluster_role_binding report_failure from_obs_ui results
  reconcile_cluster_role_binding_requeues = ground arith

  reconcile_service_requeues : RequeuesOnError (reconcile_service C req s).0
  unfolding reconcile_service report_failure from_obs_ui results
  reconcile_service_requeues = ground arith

  reconcile_deployment_requeues : RequeuesOnError (reconcile_deployment C req s).0
  unfolding reconcile_deployment report_failure from_obs_ui results
  reconcile_deployment_requeues = ground arith

  reconcile_console_plugin_requeues : RequeuesOnError (reconcile_console_plugin C req s).0
  unfolding reconcile_console_plugin report_failure from_obs_ui results
  reconcile_console_plugin_requeues = ground arith

  register_plugin_in_console_requeues : RequeuesOnError (register_plugin_in_console C req s).0
  unfolding register_plugin_in_console report_failure from_obs_ui results
  register_plugin_in_console_requeues = ground arith

  update_status_requeues : RequeuesOnError (update_status C req s).0
  unfolding update_status results
  update_status_requeues = ground arith

module _ (C : Client) where
  all_requeue : AllReturn RequeuesOnError (subreconcilers C)
  all_requeue =
      set_status_to_unknown_requeues C
      ▹ handle_delete_requeues C
      ▹ reconcile_service_account_requeues C
      ▹ reconcile_cluster_role_requeues C
      ▹ reconcile_cluster_role_binding_requeues C
      ▹ reconcile_service_requeues C
      ▹ reconcile_deployment_requeues C
      ▹ reconcile_console_plugin_requeues C
      ▹ register_plugin_in_console_requeues C
      ▹ update_status_requeues C
      ▹ done

  RequeuesOnError-outcome_of :
      (r : SubResult) → RequeuesOnError r → (outcome_of r).0.requeue ≡ is_some (outcome_of r).1
  RequeuesOnError-outcome_of r h = ground arith

  run_requeues :
      (req : Request) (s : C.State)
      → (o : Outcome) × ((run_subreconcilers (subreconcilers C) req s).0 ≡ some o)
        × (o.0.requeue ≡ is_some o.1)
  unfolding continue_reconciling
  run_requeues req s =
      let (r, t, runs, e) =
        run_subreconcilers-Runs req (subreconcilers C) s
          (AllReturn-map IsWellFormed-of_RequeuesOnError all_requeue) in
      (
        outcome_of r,
        ap (λ x. x.0) e,
        RequeuesOnError-outcome_of r (Runs-AllReturn refl all_requeue runs),
      )

  -- The reconciler of the hub does not panic, whatever the world answers. It asks for another run
  -- exactly when it returns an error, but for the one case in which the client of the console
  -- operator cannot be made: then it returns that error with an empty result.
  pub reconcile_returns :
      (req : Request) (s : C.State)
      → (o : Outcome) × ((reconcile C req s).0 ≡ some o)
        × ((o.0.requeue ≡ is_some o.1)
            ⊎ ((e : Error) × ((C.new_for_config s).0 ≡ err e)
                × (o ≡ (empty_result, some (errorf "creating openshift operator client")))))
  unfolding reconcile
  reconcile_returns req s = elim (Attempt-cases (C.new_for_config s).0) [
    | inl (e, failed) ↦ (
      (empty_result, some (errorf "creating openshift operator client")),
      rw (failed, reconcile),
      inr (e, failed, refl),
    )
    | inr (_, made) ↦
        let (o, runs, requeues) = run_requeues req (C.new_for_config s).1 in
        (o, rw (made, reconcile) runs, inl requeues)
  ]
