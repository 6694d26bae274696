-- ===== src/Tests/PluginRuns.antt =====
-- The runs of the controller of plugins in the cluster that stores all.
use observability_ui_operato.Base.{contains, elements, false, ◌∷◌, [], ◌≡◌, refl, some, none}
use observability_ui_operato.Common.{get_observability_ui_namespace}
use observability_ui_operato.ConsolePlugin.{
  ConsolePluginBuilder, from_obs_ui_plugin, get_plugin_image_from_type,
}
use observability_ui_operato.Subreconciler.{empty_result}
use observability_ui_operato.Plugins.Reconcile.{reconcile}
use observability_ui_operato.Plugins.Converge.{Built}
use observability_ui_operato.Plugins.Converge.Whole.{
  Converged, plugins_reconcile_converges, plugins_reconcile_twice,
}
use observability_ui_operato.Plugins.Converge.Deletion.{Deleted, plugins_deletion_completes}
use observability_ui_operato.Plugins.Converge.Drift.{spec_change_ignored, deletion_unregisters_type}
use observability_ui_operato.Tests.Cluster.{logging}
use observability_ui_operato.Tests.Store.{
  Store, store_client, hub_store, deleting_store, finalized_logging, newer_logging, logging_request,
}
use observability_ui_operato.Tests.Reliable.{
  reliable_store, logging_stored, finalized_stored, newer_stored, deleting_store-NoDuplicates,
}
use observability_ui_operato.Base.Format.{pos}

abbrev pub logging_builder : ConsolePluginBuilder
logging_builder = record {
  namespace = get_observability_ui_namespace;
  plugin_name = "logging-view-plugin";
  plugin_version = "v1";
  display_name = "Logging";
  port = pos 9443;
  services = logging.spec.services;
  replicas = none;
  image = "quay.io/openshift-observability-ui/logging-view-plugin:v1";
  service_account_name = "";
}

pub logging-Built : Built logging logging_builder
unfolding from_obs_ui_plugin get_plugin_image_from_type
logging-Built = refl

finalized-Built : Built finalized_logging logging_builder
unfolding from_obs_ui_plugin get_plugin_image_from_type
finalized-Built = refl

plugins_reconcile_converges_example :
    ((reconcile store_client logging_request hub_store).0 ≡ some (empty_result, none))
    × Converged store_client reliable_store logging_request logging_builder hub_store
        (reconcile store_client logging_request hub_store).1
plugins_reconcile_converges_example =
    plugins_reconcile_converges store_client reliable_store logging_request logging_builder logging
      hub_store logging_stored refl logging-Built

abbrev converged_store : Store
converged_store = (reconcile store_client logging_request hub_store).1

plugins_reconcile_twice_example :
    ((reconcile store_client logging_request converged_store).0 ≡ some (empty_result, none))
    × (reliable_store.objects (reconcile store_client logging_request converged_store).1
        ≡ reliable_store.objects converged_store)
    × (reliable_store.console (reconcile store_client logging_request converged_store).1
        ≡ reliable_store.console converged_store)
plugins_reconcile_twice_example =
    plugins_reconcile_twice store_client reliable_store logging_request logging_builder logging
      hub_store logging_stored refl logging-Built

plugins_deletion_completes_example :
    ((reconcile store_client logging_request deleting_store).0 ≡ some (empty_result, none))
    × Deleted store_client reliable_store logging_request "logging-view-plugin" deleting_store
        (reconcile store_client logging_request deleting_store).1
plugins_deletion_completes_example =
    plugins_deletion_completes store_client reliable_store logging_request logging_builder
      finalized_logging deleting_store finalized_stored (refl, refl, refl) finalized-Built

abbrev newer_builder : ConsolePluginBuilder
newer_builder = record logging_builder {
  plugin_version = "v2";
  image = "quay.io/openshift-observability-ui/logging-view-plugin:v2";
}

newer-Built : Built newer_logging newer_builder
unfolding from_obs_ui_plugin get_plugin_image_from_type
newer-Built = refl

-- After the first run the user changes the version.
abbrev newer_store : Store
newer_store = record converged_store { plugins = newer_logging ∷ [] }

spec_change_ignored_example :
    reliable_store.objects (reconcile store_client logging_request newer_store).1
    ≡ reliable_store.objects converged_store
spec_change_ignored_example =
    spec_change_ignored store_client reliable_store logging_request logging newer_logging
      logging_builder newer_builder hub_store newer_store logging_stored refl logging-Built
      (newer_stored converged_store).0 (newer_stored converged_store).1 refl newer-Built refl

deletion_unregisters_type_example :
    contains
      (elements (reliable_store.console (reconcile store_client logging_request deleting_store).1))
      "logging-view-plugin"
    ≡ false
deletion_unregisters_type_example =
    deletion_unregisters_type store_client reliable_store logging_request finalized_logging
      newer_logging logging_builder newer_builder deleting_store finalized_stored (refl, refl, refl)
      finalized-Built newer-Built refl deleting_store-NoDuplicates
