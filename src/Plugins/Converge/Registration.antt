-- ===== src/Plugins/Converge/Registration.antt =====
-- The registration of a plugin in the console of a reliable cluster.
use observability_ui_operato.Base.{◌≡◌, arith, some}
use observability_ui_operato.Api.{Request, ObservabilityUiPlugin, empty_obs_ui_plugin}
use observability_ui_operato.ConsolePlugin.{ConsolePluginBuilder, console_plugin_name}
use observability_ui_operato.Subreconciler.{continue_reconciling}
use observability_ui_operato.Client.{Client}
use observability_ui_operato.Patches.{enable_patches}
use observability_ui_operato.Patches.Laws.{enable_patches-Patches}
use observability_ui_operato.Plugins.Register.{register_plugin_in_console}
use observability_ui_operato.Plugins.Converge.{Built, latest-reliable}
use observability_ui_operato.Reliable.Registered.{registered}
use observability_ui_operato.Reliable.{IsReliable}

module _ (C : Client) (R : IsReliable C) (req : Request) where
  -- It goes on, and leaves the plugin registered under the name of its builder.
  pub register_plugin_in_console_lem :
      (o : ObservabilityUiPlugin) (b : ConsolePluginBuilder) (s : C.State)
      → Built o b
      → R.plugins s req ≡ some o
      → register_plugin_in_console C req s ≡ (continue_reconciling, registered C R b.plugin_name s)
  unfolding register_plugin_in_console console_plugin_name
  register_plugin_in_console_lem o b s built here =
      let read = latest-reliable C R req o empty_obs_ui_plugin s here in
      let ps = enable_patches (record { plugins = R.console s }) b.plugin_name in
      let (c, done, _) =
        R.patch_console s ps _ (enable_patches-Patches (R.console s) b.plugin_name) in
      ground (arith, read, built, R.get_console s, R.marshal ps, done)
