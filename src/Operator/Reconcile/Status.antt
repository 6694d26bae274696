-- ===== src/Operator/Reconcile/Status.antt =====
-- Which statuses the operator writes. The condition that it sets after a failed call is set on an
-- object that is read anew before the write.
use observability_ui_operato.Base.{◌≡◌, ◌≢◌, String, arith, inl, inr, List, [], ◌∷◌}
use observability_ui_operato.Attempt.{ok, Attempt-cases}
use observability_ui_operato.Api.{
  Request, ObservabilityUi, empty_obs_ui, Condition, condition_false,
}
use observability_ui_operato.ConsolePlugin.{from_obs_ui}
use observability_ui_operato.Subreconciler.{
  should_halt_or_requeue, continue_reconciling, do_not_requeue, requeue_with_error,
}
use observability_ui_operato.Subreconciler.Keeps.{Keeps, AllKeep, done, ◌▹◌, run_keeps}
use observability_ui_operato.Body.Laws.{BodyKeeps, body_rules}
use observability_ui_operato.Body.{proceed}
use observability_ui_operato.Client.{Client}
use observability_ui_operato.Operator.{
  latest, set_status_to_unknown, handle_delete, update_status, report_failure,
}
use observability_ui_operato.Operator.Resources.{
  reconcile_service_account, reconcile_cluster_role, reconcile_cluster_role_binding,
  reconcile_service, reconcile_deployment, reconcile_console_plugin, console_plugin_body,
}
use observability_ui_operato.Operator.Register.{register_plugin_in_console}
use observability_ui_operato.Operator.Reconcile.{reconcile, subreconcilers}
use observability_ui_operato.Operator.Reconcile.Order.{log-latest}
use observability_ui_operato.Trace.{recording, Logged, Event, obs_ui_status}

-- Neither what the report of a failure leaves of the world nor how it ends depends on the message or
-- on the object on which the condition was set.
pub report_failure_forgets :
    (C : Client) (req : Request) (o o' : ObservabilityUi) (message message' : String) (s : C.State)
    → report_failure C req o message s ≡ report_failure C req o' message' s
unfolding report_failure latest should_halt_or_requeue continue_reconciling do_not_requeue
    requeue_with_error
report_failure_forgets C req o o' message message' s = ground arith

latest-proceed :
    (C : Client) (req : Request) (o o' : ObservabilityUi) (s : Logged C.State)
    → (latest (recording C) req o s).0 ≡ proceed o'
    → (C.get_obs_ui req s.0).0 ≡ ok o'
unfolding latest should_halt_or_requeue continue_reconciling do_not_requeue requeue_with_error
latest-proceed C req o o' s e = ground arith

-- No condition says that the resource is not available.
abbrev pub NotFailed : List Condition → Type 0
NotFailed [] = Unit
NotFailed (c ∷ cs) = (c.status ≢ condition_false) × NotFailed cs

-- No status of the log does.
abbrev pub NoneFailed : List Event → Type 0
NoneFailed [] = Unit
NoneFailed (obs_ui_status o ∷ log) = NotFailed o.status.conditions × NoneFailed log
NoneFailed (_ ∷ log) = NoneFailed log

abbrev LogNoneFailed : {S : Type 0} → Logged S → Type 0
LogNoneFailed s = NoneFailed s.1

module _ (C : Client)
    -- The reads of the custom resource show none.
    (reads : (req : Request) (s : C.State) (o : ObservabilityUi)
      → (C.get_obs_ui req s).0 ≡ ok o
      → NotFailed o.status.conditions)
    -- `meta.SetStatusCondition` changes no other status than the one it is given.
    (sets : (cs : List Condition) (c : Condition) (s : C.State)
      → NotFailed cs
      → c.status ≢ condition_false
      → NotFailed (C.set_status_condition cs c s)) where
  latest-NotFailed :
      (req : Request) (o o' : ObservabilityUi) (s : Logged C.State)
      → (latest (recording C) req o s).0 ≡ proceed o'
      → NotFailed o'.status.conditions
  latest-NotFailed req o o' s e = reads req s.0 o' (latest-proceed C req o o' s e)

  set_status_to_unknown-Keeps : Keeps LogNoneFailed (set_status_to_unknown (recording C))
  unfolding set_status_to_unknown
  set_status_to_unknown-Keeps req s h =
      grind (arith, log-latest C req empty_obs_ui s, latest-NotFailed req empty_obs_ui, sets)

  report_failure_keeps :
      (req : Request) (o : ObservabilityUi) (message : String) (s : Logged C.State)
      → NoneFailed s.1
      → NoneFailed (report_failure (recording C) req o message s).1.1
  unfolding report_failure latest
  report_failure_keeps req o message s h = grind (arith, log-latest C, latest-NotFailed)

  handle_delete-Keeps : Keeps LogNoneFailed (handle_delete (recording C))
  unfolding handle_delete
  handle_delete-Keeps req s h =
      grind (arith, log-latest C req empty_obs_ui s, latest-NotFailed req empty_obs_ui, sets)

  update_status-Keeps : Keeps LogNoneFailed (update_status (recording C))
  unfolding update_status
  update_status-Keeps req s h =
      grind (arith, log-latest C req empty_obs_ui s, latest-NotFailed req empty_obs_ui, sets)

  reconcile_service_account-Keeps : Keeps LogNoneFailed (reconcile_service_account (recording C))
  unfolding reconcile_service_account from_obs_ui
  reconcile_service_account-Keeps req s h =
      grind (arith, log-latest C req empty_obs_ui s, report_failure_keeps)

  reconcile_cluster_role-Keeps : Keeps LogNoneFailed (reconcile_cluster_role (recording C))
  unfolding reconcile_cluster_role
  reconcile_cluster_role-Keeps req s h =
      grind (arith, log-latest C req empty_obs_ui s, report_failure_keeps)

  reconcile_cluster_role_binding-Keeps :
      Keeps LogNoneFailed (reconcile_cluster_role_binding (recording C))
  unfolding reconcile_cluster_role_binding from_obs_ui
  reconcile_cluster_role_binding-Keeps req s h =
      grind (arith, log-latest C req empty_obs_ui s, report_failure_keeps)

  reconcile_service-Keeps : Keeps LogNoneFailed (reconcile_service (recording C))
  unfolding reconcile_service from_obs_ui
  reconcile_service-Keeps req s h =
      grind (arith, log-latest C req empty_obs_ui s, report_failure_keeps)

  reconcile_deployment-Keeps : Keeps LogNoneFailed (reconcile_deployment (recording C))
  unfolding reconcile_deployment from_obs_ui
  reconcile_deployment-Keeps req s h =
      grind (arith, log-latest C req empty_obs_ui s, report_failure_keeps)

  latest_keeps :
      (req : Request) (o : ObservabilityUi) → BodyKeeps LogNoneFailed (latest (recording C) req o)
  latest_keeps req o = record { at = λ s h. rw (log-latest C req o s) h }

  report_failure-BodyKeeps :
      (req : Request) (o : ObservabilityUi) (message : String)
      → BodyKeeps LogNoneFailed (report_failure (recording C) req o message)
  report_failure-BodyKeeps req o message = record { at = report_failure_keeps req o message }

  console_plugin_body_keeps :
      (req : Request) → BodyKeeps LogNoneFailed (console_plugin_body (recording C) req)
  unfolding console_plugin_body
  console_plugin_body_keeps req =
      search (body_rules, latest_keeps, report_failure-BodyKeeps) depth 12

  reconcile_console_plugin-Keeps : Keeps LogNoneFailed (reconcile_console_plugin (recording C))
  unfolding reconcile_console_plugin
  reconcile_console_plugin-Keeps req s h = (console_plugin_body_keeps req).at s h

  register_plugin_in_console-Keeps : Keeps LogNoneFailed (register_plugin_in_console (recording C))
  unfolding register_plugin_in_console from_obs_ui
  register_plugin_in_console-Keeps req s h =
      grind (arith, log-latest C req empty_obs_ui s, report_failure_keeps)

  all_keep : AllKeep LogNoneFailed (subreconcilers (recording C))
  all_keep =
      set_status_to_unknown-Keeps ▹ handle_delete-Keeps ▹ reconcile_service_account-Keeps
      ▹ reconcile_cluster_role-Keeps ▹ reconcile_cluster_role_binding-Keeps
      ▹ reconcile_service-Keeps ▹ reconcile_deployment-Keeps ▹ reconcile_console_plugin-Keeps
      ▹ register_plugin_in_console-Keeps ▹ update_status-Keeps ▹ done

  -- Where the reads of hub resources show no condition with the status False, and where
  -- `meta.SetStatusCondition` makes no status False that it is not given, no run of the reconciler
  -- writes a status with such a condition, whatever call fails in it: the failures that it means to
  -- report in the status are never reported.
  pub no_failure_reported :
      (req : Request) (s : C.State) → NoneFailed (reconcile (recording C) req (s, [])).1.1
  unfolding reconcile
  no_failure_reported req s = elim (Attempt-cases (C.new_for_config s).0) [
    | inl (e, failed) ↦ rw (failed, reconcile) tt
    | inr (_, made) ↦
        rw (made, reconcile)
          (run_keeps {P = LogNoneFailed} all_keep req ((C.new_for_config s).1, []) tt)
  ]
