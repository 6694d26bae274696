-- ===== src/Plugins/Converge/Resources.antt =====
-- In a reliable cluster each of the sub-reconcilers of the controller of plugins leaves its resource
-- in place.
use observability_ui_operato.Base.{◌≡◌, refl, ap, arith, some}
use observability_ui_operato.Api.{Request, ObservabilityUiPlugin, empty_obs_ui_plugin}
use observability_ui_operato.Api.Objects.{
  service, deployment, console_plugin_v1_alpha1, service_kind, deployment_kind, console_plugin_kind,
  meta_of,
}
use observability_ui_operato.Common.{get_observability_ui_namespace}
use observability_ui_operato.ConsolePlugin.{
  ConsolePluginBuilder, from_obs_ui_plugin, get_plugin_image_from_type, service_name,
  deployment_name, console_plugin_name,
}
use observability_ui_operato.ConsolePlugin.Objects.{
  get_service, get_deployment, get_console_plugin_v1_alpha1,
}
use observability_ui_operato.Client.{Client, owner_ui_plugin}
use observability_ui_operato.Plugins.Resources.{
  reconcile_deployment, reconcile_service, reconcile_console_plugin,
}
use observability_ui_operato.Plugins.Converge.{Built, namespaced_key, cluster_key, latest-reliable}
use observability_ui_operato.Reliable.Ensures.{Ensures, Ensures-of_cases}
use observability_ui_operato.Reliable.{IsReliable}

-- The builder of a plugin is made for the namespace of the operator.
pub Built-namespace :
    (o : ObservabilityUiPlugin) (b : ConsolePluginBuilder)
    → Built o b
    → b.namespace ≡ get_observability_ui_namespace
unfolding from_obs_ui_plugin get_plugin_image_from_type
Built-namespace o b h = ground (arith, h)

module _ (C : Client) (R : IsReliable C) (req : Request) (o : ObservabilityUiPlugin)
    (b : ConsolePluginBuilder) (built : Built o b) (s : C.State)
    (here : R.plugins s req ≡ some o) where
  pub deployment_ensured :
      Ensures C R deployment_kind (namespaced_key b) s (reconcile_deployment C req s)
  unfolding reconcile_deployment get_deployment deployment_name
  deployment_ensured =
      Ensures-of_cases C R (reconcile_deployment C req) (owner_ui_plugin o)
        (deployment (get_deployment b)) (namespaced_key b) s
        (ap (λ n. record { namespace = n; name = b.plugin_name }) (Built-namespace o b built))
        (λ y e. ground (
          arith,
          latest-reliable C R req o empty_obs_ui_plugin s here,
          built,
          R.get deployment_kind (namespaced_key b) s,
        ))
        (λ e made. ground (
          arith,
          latest-reliable C R req o empty_obs_ui_plugin s here,
          built,
          R.get deployment_kind (namespaced_key b) s,
          R.missing_not_found,
          R.set_controller_reference (owner_ui_plugin o) (meta_of (deployment (get_deployment b))),
        ))

  pub service_ensured : Ensures C R service_kind (namespaced_key b) s (reconcile_service C req s)
  unfolding reconcile_service get_service service_name
  service_ensured =
      Ensures-of_cases C R (reconcile_service C req) (owner_ui_plugin o) (service (get_service b))
        (namespaced_key b) s
        (ap (λ n. record { namespace = n; name = b.plugin_name }) (Built-namespace o b built))
        (λ y e. ground (
          arith,
          latest-reliable C R req o empty_obs_ui_plugin s here,
          built,
          R.get service_kind (namespaced_key b) s,
        ))
        (λ e made. ground (
          arith,
          latest-reliable C R req o empty_obs_ui_plugin s here,
          built,
          R.get service_kind (namespaced_key b) s,
          R.missing_not_found,
          R.set_controller_reference (owner_ui_plugin o) (meta_of (service (get_service b))),
        ))

  pub console_plugin_ensured :
      Ensures C R console_plugin_kind (cluster_key b) s (reconcile_console_plugin C req s)
  unfolding reconcile_console_plugin get_console_plugin_v1_alpha1 console_plugin_name
  console_plugin_ensured =
      Ensures-of_cases C R (reconcile_console_plugin C req) (owner_ui_plugin o)
        (console_plugin_v1_alpha1 (get_console_plugin_v1_alpha1 b)) (cluster_key b) s refl
        (λ y e. ground (
          arith,
          latest-reliable C R req o empty_obs_ui_plugin s here,
          built,
          R.get console_plugin_kind (cluster_key b) s,
        ))
        (λ e made. ground (
          arith,
          latest-reliable C R req o empty_obs_ui_plugin s here,
          built,
          R.get console_plugin_kind (cluster_key b) s,
          R.missing_not_found,
          R.set_controller_reference (owner_ui_plugin o)
              (meta_of (console_plugin_v1_alpha1 (get_console_plugin_v1_alpha1 b))),
        ))
