-- ===== src/Operator/Converge/Registration.antt =====
-- The registration of the hub in the console of a reliable cluster.
use observability_ui_operato.Base.{◌≡◌, arith, some}
use observability_ui_operato.Api.{Request, ObservabilityUi, empty_obs_ui}
use observability_ui_operato.Subreconciler.{continue_reconciling}
use observability_ui_operato.Client.{Client}
use observability_ui_operato.Patches.Laws.{enable_patches-Patches}
use observability_ui_operato.Patches.{enable_patches}
use observability_ui_operato.Operator.Register.{register_plugin_in_console}
use observability_ui_operato.Operator.Converge.{latest-reliable}
use observability_ui_operato.Operator.Converge.Hub.{hub_name, hub_builder}
use observability_ui_operato.Reliable.Registered.{registered}
use observability_ui_operato.Reliable.{IsReliable}

module _ (C : Client) (R : IsReliable C) (req : Request) where
  -- It goes on, and leaves the hub registered.
  pub register_plugin_in_console_lem :
      (o : ObservabilityUi) (s : C.State)
      → R.obs_uis s req ≡ some o
      → register_plugin_in_console C req s ≡ (continue_reconciling, registered C R hub_name s)
  unfolding register_plugin_in_console
  register_plugin_in_console_lem o s here =
      let B = hub_builder o in
      let read = latest-reliable C R req o empty_obs_ui s here in
      let ps = enable_patches (record { plugins = R.console s }) hub_name in
      let (c, done, _) = R.patch_console s ps _ (enable_patches-Patches (R.console s) hub_name) in
      ground (arith, read, B.built, B.name, R.get_console s, R.marshal ps, done)
