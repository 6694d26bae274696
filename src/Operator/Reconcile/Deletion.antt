-- ===== src/Operator/Reconcile/Deletion.antt =====
-- The operator leaves a resource alone that is marked for deletion.
use observability_ui_operato.Base.{◌≡◌, arith, inl, inr, [], true, is_some}
use observability_ui_operato.Attempt.{ok, Attempt-cases}
use observability_ui_operato.Api.{Request, ObservabilityUi}
use observability_ui_operato.Subreconciler.{
  should_halt_or_requeue, continue_reconciling, do_not_requeue, requeue_with_error,
}
use observability_ui_operato.Client.{Client}
use observability_ui_operato.Operator.{latest, handle_delete}
use observability_ui_operato.Operator.Reconcile.{reconcile}
use observability_ui_operato.Operator.Reconcile.Order.{
  set_status_to_unknown-Quiet, handle_delete-Quiet,
}
use observability_ui_operato.Trace.{recording, Logged, writes}
use observability_ui_operato.Trace.Order.{QuietPass-cons, QuietPass-of_halts}

-- Every custom resource that a read returns is marked for deletion.
abbrev pub ReadsMarked : Client → Type 0
ReadsMarked C =
    (req : Request) (s : C.State) (o : ObservabilityUi)
    → (C.get_obs_ui req s).0 ≡ ok o
    → is_some o.meta.deletion_timestamp ≡ true

module _ (C : Client) (marked : ReadsMarked C) where
  handle_delete_halts :
      (req : Request) (s : Logged C.State)
      → should_halt_or_requeue (handle_delete (recording C) req s).0 ≡ true
  unfolding handle_delete latest should_halt_or_requeue continue_reconciling do_not_requeue
      requeue_with_error
  handle_delete_halts req s = elim (Attempt-cases (C.get_obs_ui req s.0).0) [
    | inl (e, failed) ↦ ground arith
    | inr (o, got) ↦ ground (arith, marked req s.0 o got)
  ]

  -- A hub resource that every read shows as marked for deletion gets nothing created or patched: a
  -- run of the reconciler asks for no creation of a resource and for no patch of the console.
  pub deleted_writes_nothing :
      (req : Request) (s : C.State) → writes (reconcile (recording C) req (s, [])).1.1 ≡ []
  unfolding reconcile
  deleted_writes_nothing req s = elim (Attempt-cases (C.new_for_config s).0) [
    | inl (e, failed) ↦ rw (failed, reconcile)
    | inr (_, made) ↦
        rw (made, reconcile)
          (QuietPass-cons _ _ (set_status_to_unknown-Quiet C)
            (QuietPass-of_halts _ _ (handle_delete-Quiet C) handle_delete_halts) req
            ((C.new_for_config s).1, []))
  ]
