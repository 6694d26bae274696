-- ===== src/Plugins/Converge.antt =====
-- The sub-reconcilers of the controller of plugins in a reliable cluster: what they do of each
-- resource in `Resources`, of the custom resource in `Statuses`, and of the console in
-- `Registration`. The run for a resource that is to stay is in `Whole`, and the one for a resource
-- that is marked for deletion in `Deletion`; `Stays` and `Faults` have runs of which some calls fail,
-- and `Drift` what the runs mean for a change of a resource and for two resources of one type.
pub mod Resources
pub mod Statuses
pub mod Registration
pub mod Whole
pub mod Stays
pub mod Faults
pub mod Deletion
pub mod Drift
use observability_ui_operato.Base.{◌≡◌, refl, ap, arith, Option, some}
use observability_ui_operato.Attempt.{Attempt, ok}
use observability_ui_operato.Api.{Request, NamespacedName, ObservabilityUiPlugin}
use observability_ui_operato.Common.{get_observability_ui_namespace}
use observability_ui_operato.ConsolePlugin.{
  from_obs_ui_plugin, get_plugin_image_from_type, ConsolePluginBuilder,
}
use observability_ui_operato.ConsolePlugin.Objects.{
  get_service, get_deployment, get_console_plugin_v1_alpha1,
}
use observability_ui_operato.Subreconciler.{should_halt_or_requeue, continue_reconciling}
use observability_ui_operato.Body.{proceed}
use observability_ui_operato.Client.{Client}
use observability_ui_operato.Plugins.{latest}
use observability_ui_operato.Reliable.{IsReliable, key_of}

-- A resource has a builder, by which its objects are made.
abbrev pub Built : ObservabilityUiPlugin → ConsolePluginBuilder → Type 0
Built o b = from_obs_ui_plugin o get_observability_ui_namespace ≡ ok b

-- It depends on the specification alone.
pub Built-spec :
    (o p : ObservabilityUiPlugin) (b : ConsolePluginBuilder)
    → p.spec ≡ o.spec
    → Built o b
    → Built p b
unfolding from_obs_ui_plugin
Built-spec o p b same h = rw same h

-- The keys of the objects of a builder.
abbrev pub namespaced_key : ConsolePluginBuilder → NamespacedName
namespaced_key b = record { namespace = get_observability_ui_namespace; name = b.plugin_name }

abbrev pub cluster_key : ConsolePluginBuilder → NamespacedName
cluster_key b = record { namespace = ""; name = b.plugin_name }

module _ (C : Client) (R : IsReliable C) where
  pub latest-reliable :
      (req : Request) (o p : ObservabilityUiPlugin) (s : C.State)
      → R.plugins s req ≡ some o
      → latest C req p s ≡ (proceed o, s)
  unfolding latest should_halt_or_requeue continue_reconciling
  latest-reliable req o p s h = ground (arith, R.get_obs_ui_plugin req s)
