-- ===== src/Tests/Faults.antt =====
-- Runs of the hub controller in the cluster that stores all, where some calls are not answered.
use observability_ui_operato.Base.{is_some, true, length, ◌≡◌, refl, some, none, List, [], ◌∷◌}
use observability_ui_operato.Attempt.{errorf}
use observability_ui_operato.Subreconciler.{empty_result}
use observability_ui_operato.Operator.Reconcile.{reconcile}
use observability_ui_operato.Operator.Converge.Whole.{Converged}
use Prim.Native.Nat.{suc}
use observability_ui_operato.Operator.Converge.Worker.{worker_stops}
use observability_ui_operato.Trace.Worker.{worker}
use observability_ui_operato.Operator.Converge.Faults.{after_faults, faults_overcome}
use observability_ui_operato.Trace.Faults.{Fate, answered, lost, unanswered, faulty}
use observability_ui_operato.Tests.Cluster.{request, hub}
use observability_ui_operato.Tests.Store.{store_client, hub_store}
use observability_ui_operato.Tests.Reliable.{reliable_store, hub_stored}

abbrev fates : List Fate
fates =
    answered ∷ lost (errorf "timeout") ∷ answered ∷ answered ∷ unanswered (errorf "conflict") ∷ []

-- The worker for the hub resource.
worker_stops_example :
    is_some
      (worker (suc (length fates)) (reconcile (faulty store_client) request) (hub_store, fates))
    ≡ true
worker_stops_example =
    worker_stops store_client reliable_store request fates hub_store hub hub_stored refl

faults_overcome_example :
    ((reconcile (faulty store_client) request (after_faults store_client request fates hub_store)).0
      ≡ some (empty_result, none))
    × Converged store_client reliable_store request
        (after_faults store_client request fates hub_store).0
        (reconcile
          (faulty store_client)
          request
          (after_faults store_client request fates hub_store)).1.0
faults_overcome_example =
    faults_overcome store_client request reliable_store fates hub_store hub hub_stored refl
