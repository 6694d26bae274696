-- ===== src/Tests/Plugins.antt =====
-- The reconciler of plugins in the cluster in memory.
use mathlib.Core.List.{Sublistᴰ, reverse}
use observability_ui_operato.Base.{◌≡◌, ◌⊎◌, some, List, [], is_some, true, arith}
use observability_ui_operato.Attempt.{Error, err, errorf}
use observability_ui_operato.Subreconciler.{Outcome, empty_result}
use observability_ui_operato.Plugins.Reconcile.{reconcile}
use observability_ui_operato.Plugins.Reconcile.Safety.{plugins_reconcile_returns}
use observability_ui_operato.Plugins.Reconcile.Order.{plugins_reconcile_in_order, write_order}
use observability_ui_operato.Plugins.Reconcile.Finalizer.{
  ReadsUnfinalized, ReadsMarked, NoneFinalized, finalizer_never_added,
  unfinalized_deletion_cleans_nothing,
}
use observability_ui_operato.Trace.{recording, Write, writes}
use observability_ui_operato.Tests.Cluster.{empty_memory, cluster, setting, deleting, request}

plugins_reconcile_returns_example :
    (o : Outcome) × ((reconcile (cluster setting) request empty_memory).0 ≡ some o)
    × ((is_some o.1 ≡ true → o.0.requeue ≡ true)
        ⊎ ((e : Error) × (((cluster setting).new_for_config empty_memory).0 ≡ err e)
            × (o ≡ (empty_result, some (errorf "creating openshift operator client")))))
plugins_reconcile_returns_example = plugins_reconcile_returns (cluster setting) request empty_memory

plugins_reconcile_in_order_example :
    (made : List Write) × (writes
        (reconcile (recording (cluster setting)) request (empty_memory, [])).1.1
      ≡ reverse made)
    × Sublistᴰ made write_order
plugins_reconcile_in_order_example =
    plugins_reconcile_in_order (cluster setting) request empty_memory

setting-ReadsUnfinalized : ReadsUnfinalized (cluster setting)
setting-ReadsUnfinalized req s o e = ground (arith, e)

finalizer_never_added_example :
    NoneFinalized
      (cluster setting)
      (reconcile (recording (cluster setting)) request (empty_memory, [])).1.1
finalizer_never_added_example =
    finalizer_never_added (cluster setting) setting-ReadsUnfinalized request empty_memory

deleting-ReadsUnfinalized : ReadsUnfinalized (cluster deleting)
deleting-ReadsUnfinalized req s o e = ground (arith, e)

deleting-ReadsMarked : ReadsMarked (cluster deleting)
deleting-ReadsMarked req s o e = ground (arith, e)

unfinalized_deletion_cleans_nothing_example :
    writes (reconcile (recording (cluster deleting)) request (empty_memory, [])).1.1 ≡ []
unfinalized_deletion_cleans_nothing_example =
    unfinalized_deletion_cleans_nothing (cluster deleting) deleting-ReadsUnfinalized
      deleting-ReadsMarked request empty_memory
