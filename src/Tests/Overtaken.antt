-- ===== src/Tests/Overtaken.antt =====
-- A registration overtaken by the other one in the store, without and with a list of plugins.
use observability_ui_operato.Base.{◌≡◌, refl, some, none, false, [], ◌∷◌, contains}
use observability_ui_operato.Interleaving.Overtaken.{
  register_hub, register_plugin, hub_after_plugin, plugin_after_hub, Leaves,
  overtaken_registration_lost, overtaken_registration_kept,
}
use observability_ui_operato.Tests.Cluster.{request, hub, logging}
use observability_ui_operato.Tests.Store.{store_client, hub_store, unlisted_store, logging_request}
use observability_ui_operato.Tests.Reliable.{
  reliable_store, hub_stored, logging_stored, hub_store-console, unlisted_hub, unlisted_logging,
  unlisted_console,
}
use observability_ui_operato.Tests.PluginRuns.{logging_builder, logging-Built}

overtaken_registration_lost_example :
    (reliable_store.console
        (register_hub store_client reliable_store request logging_request unlisted_store)
      ≡ some ("observability-ui-hub" ∷ []))
    × Leaves store_client reliable_store request logging_request
        (plugin_after_hub store_client reliable_store request logging_request unlisted_store)
        ("logging-view-plugin" ∷ [])
    × (contains ("logging-view-plugin" ∷ []) "observability-ui-hub" ≡ false)
    × (reliable_store.console
          (register_plugin store_client reliable_store request logging_request unlisted_store)
        ≡ some ("logging-view-plugin" ∷ []))
    × Leaves store_client reliable_store request logging_request
        (hub_after_plugin store_client reliable_store request logging_request unlisted_store)
        ("observability-ui-hub" ∷ [])
    × (contains ("observability-ui-hub" ∷ []) "logging-view-plugin" ≡ false)
overtaken_registration_lost_example =
    overtaken_registration_lost store_client reliable_store request logging_request hub logging
      logging_builder unlisted_store unlisted_hub unlisted_logging logging-Built unlisted_console

overtaken_registration_kept_example :
    Leaves store_client reliable_store request logging_request
      (plugin_after_hub store_client reliable_store request logging_request hub_store)
      ("other" ∷ "observability-ui-hub" ∷ "logging-view-plugin" ∷ [])
    × Leaves store_client reliable_store request logging_request
        (hub_after_plugin store_client reliable_store request logging_request hub_store)
        ("other" ∷ "logging-view-plugin" ∷ "observability-ui-hub" ∷ [])
unfolding observability_ui_operato.Base.contains
overtaken_registration_kept_example =
    overtaken_registration_kept store_client reliable_store request logging_request hub logging
      logging_builder hub_store hub_stored logging_stored logging-Built ("other" ∷ [])
      hub_store-console refl refl
