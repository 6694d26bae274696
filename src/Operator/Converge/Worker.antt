-- ===== src/Operator/Converge/Worker.antt =====
-- The worker that runs the hub controller, in a reliable cluster of which finitely many calls fail.
use Prim.Native.Nat.{suc}
use observability_ui_operato.Base.{◌≡◌, ap, is_some, false, true, some, List, [], length, ◌∙◌}
use observability_ui_operato.Api.{Request, ObservabilityUi}
use observability_ui_operato.Client.{Client}
use observability_ui_operato.Operator.Reconcile.{reconcile}
use observability_ui_operato.Operator.Converge.Whole.{reconcile_converges}
use observability_ui_operato.Operator.Converge.Faults.{
  reconcile_same, reconcile-used, IsThere-after,
}
use observability_ui_operato.Interleaving.Apart.{IsThere}
use observability_ui_operato.Reliable.{IsReliable}
use observability_ui_operato.Trace.Faults.{faulty, Fate}
use observability_ui_operato.Trace.Spent.{AtMost-length}
use observability_ui_operato.Trace.Worker.{is_last, worker, worker_done}

module _ (C : Client) (R : IsReliable C) (req : Request) where
  -- With no fate left, the run is the last.
  last :
      (s : C.State)
      → IsThere C R req (R.obs_uis s)
      → is_last (reconcile (faulty C) req (s, [])).0 ≡ true
  last s (o, here, alive) =
      let (ends, _) = reconcile_converges C R req o s here alive in
      ap (λ x. is_last x.0) (reconcile_same C req s) ∙ ap is_last ends

  -- In a reliable cluster in which finitely many calls fail, each with any error and with or without
  -- having taken effect, the worker that runs the hub controller for a resource that is there and not
  -- marked for deletion, again after every run with an error or a wish for another run, is done after
  -- at most one run more than there are calls whose fate is given.
  pub worker_stops :
      (fates : List Fate) (s : C.State) (o : ObservabilityUi)
      → R.obs_uis s req ≡ some o
      → is_some o.meta.deletion_timestamp ≡ false
      → is_some (worker (suc (length fates)) (reconcile (faulty C) req) (s, fates)) ≡ true
  worker_stops fates s o here alive =
      worker_done (λ t. IsThere C R req (R.obs_uis t)) (reconcile (faulty C) req)
        (reconcile-used C req) (IsThere-after C req R) last (length fates) (s, fates)
        (AtMost-length fates) (o, here, alive)
