-- ===== src/Plugins/Reconcile/Finalizer.antt =====
-- Which finalizers the controller of plugins writes. `addFinalizer` adds the finalizer to an object
-- that is read anew before it is written.
use observability_ui_operato.Base.{
  ◌≡◌, String, arith, inl, inr, List, [], ◌∷◌, true, false, is_some,
}
use observability_ui_operato.Attempt.{ok, Attempt-cases}
use observability_ui_operato.Api.{Request, ObservabilityUiPlugin, empty_obs_ui_plugin}
use observability_ui_operato.Common.{observability_ui_finalizer}
use observability_ui_operato.Subreconciler.{
  should_halt_or_requeue, continue_reconciling, do_not_requeue, requeue_with_delay_and_error,
}
use observability_ui_operato.Subreconciler.Keeps.{Keeps, AllKeep, done, ◌▹◌, run_keeps}
use observability_ui_operato.Body.{proceed}
use observability_ui_operato.Client.{Client}
use observability_ui_operato.Plugins.{
  latest, set_status_to_unknown, add_finalizer, update_status, report_failure,
}
use observability_ui_operato.Plugins.Delete.{handle_delete}
use observability_ui_operato.Plugins.Resources.{
  reconcile_deployment, reconcile_service, reconcile_console_plugin,
}
use observability_ui_operato.Plugins.Register.{register_plugin_in_console}
use observability_ui_operato.Plugins.Reconcile.{reconcile, subreconcilers}
use observability_ui_operato.Plugins.Reconcile.Order.{
  log-latest, set_status_to_unknown-Quiet, add_finalizer-Quiet,
}
use observability_ui_operato.Trace.{recording, Logged, Event, plugin_update, writes}
use observability_ui_operato.Trace.Order.{Quiet, QuietPass-cons, QuietPass-of_halts}

latest-proceed :
    (C : Client) (req : Request) (o o' : ObservabilityUiPlugin) (s : Logged C.State)
    → (latest (recording C) req o s).0 ≡ proceed o'
    → (C.get_obs_ui_plugin req s.0).0 ≡ ok o'
unfolding latest should_halt_or_requeue continue_reconciling do_not_requeue
    requeue_with_delay_and_error
latest-proceed C req o o' s e = ground arith

-- Every plugin resource that a read returns lacks the finalizer.
abbrev pub ReadsUnfinalized : Client → Type 0
ReadsUnfinalized C =
    (req : Request) (s : C.State) (o : ObservabilityUiPlugin)
    → (C.get_obs_ui_plugin req s).0 ≡ ok o
    → C.contains_finalizer o.meta.finalizers observability_ui_finalizer ≡ false

-- No update of a plugin resource in the log writes the finalizer.
abbrev pub NoneFinalized : (C : Client) → List Event → Type 0
NoneFinalized C [] = Unit
NoneFinalized C (plugin_update o ∷ log) =
    (C.contains_finalizer o.meta.finalizers observability_ui_finalizer ≡ false)
    × NoneFinalized C log
NoneFinalized C (_ ∷ log) = NoneFinalized C log

module _ (C : Client) (reads : ReadsUnfinalized C) where
  abbrev LogNoneFinalized : Logged C.State → Type 0
  LogNoneFinalized s = NoneFinalized C s.1

  latest_unfinalized :
      (req : Request) (o o' : ObservabilityUiPlugin) (s : Logged C.State)
      → (latest (recording C) req o s).0 ≡ proceed o'
      → C.contains_finalizer o'.meta.finalizers observability_ui_finalizer ≡ false
  latest_unfinalized req o o' s e = reads req s.0 o' (latest-proceed C req o o' s e)

  report_failure_keeps :
      (o : ObservabilityUiPlugin) (message : String) (s : Logged C.State)
      → NoneFinalized C s.1
      → NoneFinalized C (report_failure (recording C) o message s).1.1
  unfolding report_failure
  report_failure_keeps o message s h = ground arith

  set_status_to_unknown-Keeps : Keeps LogNoneFinalized (set_status_to_unknown (recording C))
  unfolding set_status_to_unknown
  set_status_to_unknown-Keeps req s h = grind (arith, log-latest C req empty_obs_ui_plugin s)

  add_finalizer-Keeps : Keeps LogNoneFinalized (add_finalizer (recording C))
  unfolding add_finalizer
  add_finalizer-Keeps req s h = grind (arith, log-latest C, latest_unfinalized)

  handle_delete-Keeps : Keeps LogNoneFinalized (handle_delete (recording C))
  unfolding handle_delete
  handle_delete-Keeps req s h =
      grind
        (arith, log-latest C req empty_obs_ui_plugin s, latest_unfinalized req empty_obs_ui_plugin)

  update_status-Keeps : Keeps LogNoneFinalized (update_status (recording C))
  unfolding update_status
  update_status-Keeps req s h = grind (arith, log-latest C req empty_obs_ui_plugin s)

  reconcile_deployment-Keeps : Keeps LogNoneFinalized (reconcile_deployment (recording C))
  unfolding reconcile_deployment
  reconcile_deployment-Keeps req s h = grind (arith, log-latest C, report_failure_keeps)

  reconcile_service-Keeps : Keeps LogNoneFinalized (reconcile_service (recording C))
  unfolding reconcile_service
  reconcile_service-Keeps req s h = grind (arith, log-latest C, report_failure_keeps)

  reconcile_console_plugin-Keeps : Keeps LogNoneFinalized (reconcile_console_plugin (recording C))
  unfolding reconcile_console_plugin
  reconcile_console_plugin-Keeps req s h = grind (arith, log-latest C, report_failure_keeps)

  register_plugin_in_console-Keeps :
      Keeps LogNoneFinalized (register_plugin_in_console (recording C))
  unfolding register_plugin_in_console
  register_plugin_in_console-Keeps req s h = grind (arith, log-latest C, report_failure_keeps)

  all_keep : AllKeep LogNoneFinalized (subreconcilers (recording C))
  all_keep =
      set_status_to_unknown-Keeps ▹ add_finalizer-Keeps ▹ handle_delete-Keeps
      ▹ reconcile_deployment-Keeps ▹ reconcile_service-Keeps ▹ reconcile_console_plugin-Keeps
      ▹ register_plugin_in_console-Keeps ▹ update_status-Keeps ▹ done

  -- Where the reads of plugin resources show them without the finalizer, no update of a plugin resource
  -- that a run of the reconciler asks for, outside of the status, has the finalizer.
  pub finalizer_never_added :
      (req : Request) (s : C.State) → NoneFinalized C (reconcile (recording C) req (s, [])).1.1
  unfolding reconcile
  finalizer_never_added req s = elim (Attempt-cases (C.new_for_config s).0) [
    | inl (e, failed) ↦ rw (failed, reconcile) tt
    | inr (_, made) ↦
        rw (made, reconcile)
          (run_keeps {P = LogNoneFinalized} all_keep req ((C.new_for_config s).1, []) tt)
  ]

-- Every plugin resource that a read returns is marked for deletion.
abbrev pub ReadsMarked : Client → Type 0
ReadsMarked C =
    (req : Request) (s : C.State) (o : ObservabilityUiPlugin)
    → (C.get_obs_ui_plugin req s).0 ≡ ok o
    → is_some o.meta.deletion_timestamp ≡ true

module _ (C : Client) (reads : ReadsUnfinalized C) (marked : ReadsMarked C) where
  handle_delete_halts :
      (req : Request) (s : Logged C.State)
      → should_halt_or_requeue (handle_delete (recording C) req s).0 ≡ true
  unfolding handle_delete latest should_halt_or_requeue continue_reconciling do_not_requeue
      requeue_with_delay_and_error
  handle_delete_halts req s = elim (Attempt-cases (C.get_obs_ui_plugin req s.0).0) [
    | inl (e, failed) ↦ ground arith
    | inr (o, got) ↦ ground (arith, marked req s.0 o got, reads req s.0 o got)
  ]

  handle_delete-Quiet : Quiet (handle_delete (recording C))
  unfolding handle_delete latest should_halt_or_requeue continue_reconciling do_not_requeue
      requeue_with_delay_and_error
  handle_delete-Quiet req s = elim (Attempt-cases (C.get_obs_ui_plugin req s.0).0) [
    | inl (e, failed) ↦ ground arith
    | inr (o, got) ↦ ground (arith, marked req s.0 o got, reads req s.0 o got)
  ]

  -- Where the reads of plugin resources show them marked for deletion and without the finalizer, a run
  -- of the reconciler asks for no patch of the console and for no creation of a resource.
  pub unfinalized_deletion_cleans_nothing :
      (req : Request) (s : C.State) → writes (reconcile (recording C) req (s, [])).1.1 ≡ []
  unfolding reconcile
  unfinalized_deletion_cleans_nothing req s = elim (Attempt-cases (C.new_for_config s).0) [
    | inl (e, failed) ↦ rw (failed, reconcile)
    | inr (_, made) ↦
        rw (made, reconcile)
          (QuietPass-cons _ _ (set_status_to_unknown-Quiet C)
            (QuietPass-cons _ _ (add_finalizer-Quiet C)
              (QuietPass-of_halts _ _ handle_delete-Quiet handle_delete_halts))
            req ((C.new_for_config s).1, []))
  ]
