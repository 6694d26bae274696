-- ===== src/Plugins/Reconcile/Success.antt =====
-- What a run of the controller of plugins that ends with neither an error nor a wish for another run
-- says of the resources, whatever calls fail in it.
use observability_ui_operato.Base.{
  ℕ, ◌≡◌, refl, arith, is_some, false, some, none, [], ◌∷◌, List, inl, inr,
}
use observability_ui_operato.Attempt.{Error, ok, err, Attempt-cases}
use observability_ui_operato.Api.{Request, ObservabilityUiPlugin}
use observability_ui_operato.Api.Heap.{at}
use observability_ui_operato.Api.Objects.{Kind, deployment_kind, service_kind, console_plugin_kind}
use observability_ui_operato.Subreconciler.{
  SubResult, FnWithRequest, run_subreconcilers, empty_result, continue_reconciling, do_not_requeue,
  requeue, requeue_with_error, requeue_with_delay_and_error, should_halt_or_requeue,
}
use observability_ui_operato.Subreconciler.Success.{AllGoOn, GoesOnOrRequeues, success_leaves}
use observability_ui_operato.Client.{Client}
use observability_ui_operato.Plugins.{
  latest, set_status_to_unknown, add_finalizer, update_status, report_failure,
}
use observability_ui_operato.Plugins.Delete.{handle_delete}
use observability_ui_operato.Plugins.Resources.{
  reconcile_deployment, reconcile_service, reconcile_console_plugin,
}
use observability_ui_operato.Plugins.Register.{register_plugin_in_console}
use observability_ui_operato.Plugins.Reconcile.{reconcile, subreconcilers}
use observability_ui_operato.Interleaving.Plugins.{plugins_keep}
use observability_ui_operato.Trace.Confirmed.{confirming, confirming_keeps, Has, Noted}

-- The pairs that a sub-reconciler is built from, and the reads in it.
results : SubResult → SubResult
unfolding continue_reconciling do_not_requeue requeue_with_error requeue_with_delay_and_error
    requeue should_halt_or_requeue latest
results r = r

module _ (C : Client) (req : Request)
    (there : (s : C.State) (e : Error)
      → (C.get_obs_ui_plugin req s).0 ≡ err e
      → e.not_found ≡ false)
    (alive : (s : C.State) (o : ObservabilityUiPlugin)
      → (C.get_obs_ui_plugin req s).0 ≡ ok o
      → is_some o.meta.deletion_timestamp ≡ false) where
  abbrev D : Client
  D = confirming C

  set_status_to_unknown_goes_on :
      (s : Noted C.State) → GoesOnOrRequeues (set_status_to_unknown D req s).0
  unfolding set_status_to_unknown results
  set_status_to_unknown_goes_on s = grind (arith, there)

  add_finalizer_goes_on : (s : Noted C.State) → GoesOnOrRequeues (add_finalizer D req s).0
  unfolding add_finalizer results
  add_finalizer_goes_on s = grind (arith, there)

  handle_delete_goes_on : (s : Noted C.State) → GoesOnOrRequeues (handle_delete D req s).0
  unfolding handle_delete results
  handle_delete_goes_on s = grind (arith, there, alive)

  reconcile_deployment_goes_on :
      (s : Noted C.State) → GoesOnOrRequeues (reconcile_deployment D req s).0
  unfolding reconcile_deployment report_failure results
  reconcile_deployment_goes_on s = grind (arith, there)

  reconcile_service_goes_on : (s : Noted C.State) → GoesOnOrRequeues (reconcile_service D req s).0
  unfolding reconcile_service report_failure results
  reconcile_service_goes_on s = grind (arith, there)

  reconcile_console_plugin_goes_on :
      (s : Noted C.State) → GoesOnOrRequeues (reconcile_console_plugin D req s).0
  unfolding reconcile_console_plugin report_failure results
  reconcile_console_plugin_goes_on s = grind (arith, there)

  reconcile_deployment_confirms :
      (s : Noted C.State)
      → (reconcile_deployment D req s).0 ≡ continue_reconciling
      → Has deployment_kind (reconcile_deployment D req s).1.1
  unfolding reconcile_deployment report_failure results
  reconcile_deployment_confirms s h = ground arith

  reconcile_service_confirms :
      (s : Noted C.State)
      → (reconcile_service D req s).0 ≡ continue_reconciling
      → Has service_kind (reconcile_service D req s).1.1
  unfolding reconcile_service report_failure results
  reconcile_service_confirms s h = ground arith

  reconcile_console_plugin_confirms :
      (s : Noted C.State)
      → (reconcile_console_plugin D req s).0 ≡ continue_reconciling
      → Has console_plugin_kind (reconcile_console_plugin D req s).1.1
  unfolding reconcile_console_plugin report_failure results
  reconcile_console_plugin_confirms s h = ground arith

  -- The sub-reconcilers up to the last that creates a resource, and the others.
  abbrev first_ones : List (FnWithRequest (Noted C.State))
  first_ones =
      set_status_to_unknown D
      ∷ add_finalizer D
      ∷ handle_delete D
      ∷ reconcile_deployment D
      ∷ reconcile_service D
      ∷ reconcile_console_plugin D
      ∷ []

  abbrev others : List (FnWithRequest (Noted C.State))
  others = register_plugin_in_console D ∷ update_status D ∷ []

  all_go_on : AllGoOn req first_ones
  all_go_on = (
    set_status_to_unknown_goes_on,
    (
      add_finalizer_goes_on,
      (
        handle_delete_goes_on,
        (
          reconcile_deployment_goes_on,
          (reconcile_service_goes_on, (reconcile_console_plugin_goes_on, tt)),
        ),
      ),
    ),
  )

  confirmed :
      (k : Kind) (i : ℕ) (f : FnWithRequest (Noted C.State))
      → at first_ones i ≡ some f
      → ((s : Noted C.State) → (f req s).0 ≡ continue_reconciling → Has k (f req s).1.1)
      → (s : Noted C.State)
      → (run_subreconcilers (subreconcilers D) req s).0 ≡ some (empty_result, none)
      → Has k (run_subreconcilers (subreconcilers D) req s).1.1
  confirmed k i f stands leaves s h =
      success_leaves req {P = λ s. Has k s.1} first_ones others i f s all_go_on
        (plugins_keep D (λ s. Has k s.1) (confirming_keeps C k).plugins) stands leaves h

  -- Where the plugin resource of the request is there and unmarked whenever it is read, a run that ends
  -- with neither an error nor a wish for another run has found or created a deployment, a service and
  -- a console plugin, whatever other calls fail: for each of the three kinds, `Get` or `Create` has
  -- answered without an error in that run.
  pub plugins_success_confirmed :
      (s : C.State)
      → (reconcile (confirming C) req (s, [])).0 ≡ some (empty_result, none)
      → Has deployment_kind (reconcile (confirming C) req (s, [])).1.1
        × Has service_kind (reconcile (confirming C) req (s, [])).1.1
        × Has console_plugin_kind (reconcile (confirming C) req (s, [])).1.1
  unfolding reconcile
  plugins_success_confirmed s h = elim (Attempt-cases (C.new_for_config s).0) [
    | inl (e, failed) ↦ cc (rw (failed, reconcile) at h)
    | inr (_, made) ↦
        let t : Noted C.State = ((C.new_for_config s).1, []) in
        let h' : (run_subreconcilers (subreconcilers D) req t).0 ≡ some (empty_result, none) =
          rw (made, reconcile) at h in
        rw (made, reconcile)
          (
            confirmed deployment_kind 3 _ refl reconcile_deployment_confirms t h',
            confirmed service_kind 4 _ refl reconcile_service_confirms t h',
            confirmed console_plugin_kind 5 _ refl reconcile_console_plugin_confirms t h',
          )
  ]
