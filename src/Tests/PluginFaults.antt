-- ===== src/Tests/PluginFaults.antt =====
-- Runs of the controller of plugins in the cluster that stores all, where some calls are not
-- answered.
use observability_ui_operato.Base.{◌≡◌, refl, some, none, List, [], ◌∷◌}
use observability_ui_operato.Attempt.{errorf}
use observability_ui_operato.Subreconciler.{empty_result}
use observability_ui_operato.Plugins.Reconcile.{reconcile}
use observability_ui_operato.Plugins.Converge.Whole.{Converged}
use observability_ui_operato.Plugins.Converge.Faults.{after_faults, plugins_faults_overcome}
use observability_ui_operato.Trace.Faults.{Fate, answered, lost, unanswered, faulty}
use observability_ui_operato.Tests.Cluster.{logging}
use observability_ui_operato.Tests.Store.{store_client, hub_store, logging_request}
use observability_ui_operato.Tests.Reliable.{reliable_store, logging_stored}
use observability_ui_operato.Tests.PluginRuns.{logging_builder, logging-Built}

abbrev fates : List Fate
fates =
    answered ∷ lost (errorf "timeout") ∷ answered ∷ answered ∷ unanswered (errorf "conflict") ∷ []

plugins_faults_overcome_example :
    ((reconcile
        (faulty store_client)
        logging_request
        (after_faults store_client logging_request fates hub_store)).0
      ≡ some (empty_result, none))
    × Converged store_client reliable_store logging_request logging_builder
        (after_faults store_client logging_request fates hub_store).0
        (reconcile
          (faulty store_client)
          logging_request
          (after_faults store_client logging_request fates hub_store)).1.0
plugins_faults_overcome_example =
    plugins_faults_overcome store_client logging_request reliable_store fates hub_store
      logging_builder logging logging_stored refl logging-Built
