-- ===== src/Interleaving/Both.antt =====
-- A run of each of the two controllers, one after the other, in either order.
use observability_ui_operato.Base.{◌≡◌, ◌∙◌, ap, sym, some, is_some, false}
use observability_ui_operato.Api.{Request, ObservabilityUi, ObservabilityUiPlugin, condition_true}
use observability_ui_operato.Common.{type_available_observability_ui}
use observability_ui_operato.ConsolePlugin.{ConsolePluginBuilder}
use observability_ui_operato.Client.{Client}
use observability_ui_operato.Reliable.{IsReliable, status_of}
use observability_ui_operato.Reliable.Stages.{Present}
use observability_ui_operato.Reliable.Registered.{with_plugin}
use observability_ui_operato.Operator.Reconcile
use observability_ui_operato.Operator.Converge.Hub.{hub_name}
use observability_ui_operato.Operator.Converge.Whole.{hub_keys, reconcile_converges}
use observability_ui_operato.Plugins.Reconcile as PluginsReconcile
use observability_ui_operato.Plugins.Converge.{Built}
use observability_ui_operato.Plugins.Converge.Whole.{plugin_keys, plugins_reconcile_converges}
use observability_ui_operato.Interleaving.Listed.{listed, listed_comm}
use observability_ui_operato.Interleaving.Apart.{
  hub_run_plugins, plugin_run_obs_uis, hub_run-Present, plugin_run-Present,
}

abbrev pub hub_run : (C : Client) → Request → C.State → C.State
hub_run C req s = (Reconcile.reconcile C req s).1

abbrev pub plugin_run : (C : Client) → Request → C.State → C.State
plugin_run C req s = (PluginsReconcile.reconcile C req s).1

module _ (C : Client) (R : IsReliable C) (hub_req plugin_req : Request)
    (b : ConsolePluginBuilder) where
  -- The resources of the hub and of the plugin are there, and both custom resources say so.
  pub record BothInstalled (t : C.State) : Type 0 where
    pub hub_objects : Present C R hub_keys t
    pub plugin_objects : Present C R (plugin_keys b) t
    pub hub : ObservabilityUi
    pub hub_there : R.obs_uis t hub_req ≡ some hub
    pub hub_available :
        status_of type_available_observability_ui hub.status.conditions ≡ some condition_true
    pub plugin : ObservabilityUiPlugin
    pub plugin_there : R.plugins t plugin_req ≡ some plugin
    pub plugin_available :
        status_of type_available_observability_ui plugin.status.conditions ≡ some condition_true

  module _ (o : ObservabilityUi) (p : ObservabilityUiPlugin) (s : C.State)
      (hub_there : R.obs_uis s hub_req ≡ some o)
      (hub_alive : is_some o.meta.deletion_timestamp ≡ false)
      (plugin_there : R.plugins s plugin_req ≡ some p)
      (plugin_alive : is_some p.meta.deletion_timestamp ≡ false) (built : Built p b) where
    hub_first :
        BothInstalled (plugin_run C plugin_req (hub_run C hub_req s))
        × (R.console (plugin_run C plugin_req (hub_run C hub_req s))
            ≡ with_plugin (with_plugin (R.console s) hub_name) b.plugin_name)
    hub_first =
        let t = hub_run C hub_req s in
        let (_, h) = reconcile_converges C R hub_req o s hub_there hub_alive in
        let there : R.plugins t plugin_req ≡ some p =
          ap (λ f. f plugin_req) (hub_run_plugins C R hub_req s) ∙ plugin_there in
        let (_, q) = plugins_reconcile_converges C R plugin_req b p t there plugin_alive built in
        (
          record {
            hub_objects = plugin_run-Present C R plugin_req t hub_keys h.present;
            plugin_objects = q.present;
            hub = h.stored;
            hub_there = ap (λ f. f hub_req) (plugin_run_obs_uis C R plugin_req t) ∙ h.here;
            hub_available = h.available;
            plugin = q.stored;
            plugin_there = q.here;
            plugin_available = q.available;
          },
          q.console ∙ ap (λ ps. with_plugin ps b.plugin_name) h.console,
        )

    plugin_first :
        BothInstalled (hub_run C hub_req (plugin_run C plugin_req s))
        × (R.console (hub_run C hub_req (plugin_run C plugin_req s))
            ≡ with_plugin (with_plugin (R.console s) b.plugin_name) hub_name)
    plugin_first =
        let t = plugin_run C plugin_req s in
        let (_, q) =
          plugins_reconcile_converges C R plugin_req b p s plugin_there plugin_alive built in
        let there : R.obs_uis t hub_req ≡ some o =
          ap (λ f. f hub_req) (plugin_run_obs_uis C R plugin_req s) ∙ hub_there in
        let (_, h) = reconcile_converges C R hub_req o t there hub_alive in
        (
          record {
            hub_objects = h.present;
            plugin_objects = hub_run-Present C R hub_req t (plugin_keys b) q.present;
            hub = h.stored;
            hub_there = h.here;
            hub_available = h.available;
            plugin = q.stored;
            plugin_there = ap (λ f. f plugin_req) (hub_run_plugins C R hub_req t) ∙ q.here;
            plugin_available = q.available;
          },
          h.console ∙ ap (λ ps. with_plugin ps hub_name) q.console,
        )

    -- In a reliable cluster with a hub resource and a plugin resource of a type that has a builder,
    -- neither of them marked for deletion, a run of each controller, in either order, leaves the
    -- resources of the hub and of the plugin, and both custom resources with Available=True. The list
    -- of the console's plugins has the same entries, as often, in either order.
    pub both_orders :
        BothInstalled (plugin_run C plugin_req (hub_run C hub_req s))
        × BothInstalled (hub_run C hub_req (plugin_run C plugin_req s))
        × (listed (R.console (plugin_run C plugin_req (hub_run C hub_req s)))
            ≡ listed (R.console (hub_run C hub_req (plugin_run C plugin_req s))))
    both_orders = (
      hub_first.0,
      plugin_first.0,
      ap listed hub_first.1
          ∙ listed_comm (R.console s) hub_name b.plugin_name
          ∙ ap listed (sym plugin_first.1),
    )
