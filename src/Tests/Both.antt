-- ===== src/Tests/Both.antt =====
-- A run of each controller in the store, in either order.
use observability_ui_operato.Base.{◌≡◌, refl}
use observability_ui_operato.Interleaving.Listed.{listed}
use observability_ui_operato.Interleaving.Both.{BothInstalled, hub_run, plugin_run, both_orders}
use observability_ui_operato.Tests.Cluster.{request, hub, logging}
use observability_ui_operato.Tests.Store.{Store, store_client, hub_store, logging_request}
use observability_ui_operato.Tests.Reliable.{reliable_store, hub_stored, logging_stored}
use observability_ui_operato.Tests.PluginRuns.{logging_builder, logging-Built}

abbrev hub_then_plugin : Store
hub_then_plugin = plugin_run store_client logging_request (hub_run store_client request hub_store)

abbrev plugin_then_hub : Store
plugin_then_hub = hub_run store_client request (plugin_run store_client logging_request hub_store)

both_orders_example :
    BothInstalled store_client reliable_store request logging_request logging_builder
      hub_then_plugin
    × BothInstalled store_client reliable_store request logging_request logging_builder
        plugin_then_hub
    × (listed (reliable_store.console hub_then_plugin)
        ≡ listed (reliable_store.console plugin_then_hub))
both_orders_example =
    both_orders store_client reliable_store request logging_request logging_builder hub logging
      hub_store hub_stored refl logging_stored refl logging-Built
