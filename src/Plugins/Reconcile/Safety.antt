-- ===== src/Plugins/Reconcile/Safety.antt =====
-- What the sub-reconcilers of the plugins return, whatever the world answers.
use observability_ui_operato.Base.{◌≡◌, arith, is_some, true, some, none, ◌⊎◌, inl, inr, refl, ap}
use observability_ui_operato.Attempt.{err, errorf, Attempt-cases, Error}
use observability_ui_operato.Api.{Request}
use observability_ui_operato.Subreconciler.{
  run_subreconcilers, Outcome, SubResult, continue_reconciling, do_not_requeue, requeue_with_error,
  requeue, requeue_with_delay_and_error, should_halt_or_requeue, empty_result,
}
use observability_ui_operato.Subreconciler.Laws.{
  IsWellFormed, AllReturn, AllReturn-map, done, ◌▹◌, outcome_of, run_subreconcilers-Runs,
  Runs-AllReturn,
}
use observability_ui_operato.Client.{Client}
use observability_ui_operato.Plugins.{
  latest, set_status_to_unknown, add_finalizer, update_status, report_failure,
}
use observability_ui_operato.Plugins.Delete.{handle_delete}
use observability_ui_operato.Plugins.Resources.{
  reconcile_deployment, reconcile_service, reconcile_console_plugin,
}
use observability_ui_operato.Plugins.Register.{register_plugin_in_console}
use observability_ui_operato.Plugins.Reconcile.{reconcile, subreconcilers}

-- An error comes with a result that asks for another run.
abbrev pub RequeuesErrors : SubResult → Type 0
RequeuesErrors (none, e) = e ≡ none
RequeuesErrors (some r, e) = is_some e ≡ true → r.requeue ≡ true

IsWellFormed-of_RequeuesErrors : (r : SubResult) → RequeuesErrors r → IsWellFormed r
IsWellFormed-of_RequeuesErrors r h = ground arith

-- The pairs that a sub-reconciler is built from.
results : SubResult → SubResult
unfolding continue_reconciling do_not_requeue requeue_with_error requeue_with_delay_and_error
    requeue should_halt_or_requeue latest
results r = r

module _ (C : Client) (req : Request) (s : C.State) where
  set_status_to_unknown_requeues : RequeuesErrors (set_status_to_unknown C req s).0
  unfolding set_status_to_unknown results
  set_status_to_unknown_requeues = ground arith

  add_finalizer_requeues : RequeuesErrors (add_finalizer C req s).0
  unfolding add_finalizer results
  add_finalizer_requeues = ground arith

  handle_delete_requeues : RequeuesErrors (handle_delete C req s).0
  unfolding handle_delete results
  handle_delete_requeues = ground arith

  reconcile_deployment_requeues : RequeuesErrors (reconcile_deployment C req s).0
  unfolding reconcile_deployment report_failure results
  reconcile_deployment_requeues = ground arith

  reconcile_service_requeues : RequeuesErrors (reconcile_service C req s).0
  unfolding reconcile_service report_failure results
  reconcile_service_requeues = ground arith

  reconcile_console_plugin_requeues : RequeuesErrors (reconcile_console_plugin C req s).0
  unfolding reconcile_console_plugin report_failure results
  reconcile_console_plugin_requeues = ground arith

  register_plugin_in_console_requeues : RequeuesErrors (register_plugin_in_console C req s).0
  unfolding register_plugin_in_console report_failure results
  register_plugin_in_console_requeues = ground arith

  update_status_requeues : RequeuesErrors (update_status C req s).0
  unfolding update_status results
  update_status_requeues = ground arith

module _ (C : Client) where
  all_requeue : AllReturn RequeuesErrors (subreconcilers C)
  all_requeue =
      set_status_to_unknown_requeues C
      ▹ add_finalizer_requeues C
      ▹ handle_delete_requeues C
      ▹ reconcile_deployment_requeues C
      ▹ reconcile_service_requeues C
      ▹ reconcile_console_plugin_requeues C
      ▹ register_plugin_in_console_requeues C
      ▹ update_status_requeues C
      ▹ done

  RequeuesErrors-outcome_of :
      (r : SubResult)
      → RequeuesErrors r
      → is_some (outcome_of r).1 ≡ true
      → (outcome_of r).0.requeue ≡ true
  RequeuesErrors-outcome_of r h = ground arith

  run_requeues :
      (req : Request) (s : C.State)
      → (o : Outcome) × ((run_subreconcilers (subreconcilers C) req s).0 ≡ some o)
        × (is_some o.1 ≡ true → o.0.requeue ≡ true)
  unfolding continue_reconciling
  run_requeues req s =
      let (r, t, runs, e) =
        run_subreconcilers-Runs req (subreconcilers C) s
          (AllReturn-map IsWellFormed-of_RequeuesErrors all_requeue) in
      (
        outcome_of r,
        ap (λ x. x.0) e,
        RequeuesErrors-outcome_of r (Runs-AllReturn refl all_requeue runs),
      )

  -- The reconciler of the plugins does not panic, whatever the world answers. With an error it
  -- asks for another run, but for the one case in which the client of the console operator cannot
  -- be made: then it returns that error with an empty result.
  pub plugins_reconcile_returns :
      (req : Request) (s : C.State)
      → (o : Outcome) × ((reconcile C req s).0 ≡ some o)
        × ((is_some o.1 ≡ true → o.0.requeue ≡ true)
            ⊎ ((e : Error) × ((C.new_for_config s).0 ≡ err e)
                × (o ≡ (empty_result, some (errorf "creating openshift operator client")))))
  unfolding reconcile
  plugins_reconcile_returns req s = elim (Attempt-cases (C.new_for_config s).0) [
    | inl (e, failed) ↦ (
      (empty_result, some (errorf "creating openshift operator client")),
      rw (failed, reconcile),
      inr (e, failed, refl),
    )
    | inr (_, made) ↦
        let (o, runs, requeues) = run_requeues req (C.new_for_config s).1 in
        (o, rw (made, reconcile) runs, inl requeues)
  ]
