-- ===== src/ConsolePlugin.antt =====
-- internal/consoleplugin/console_plugin_objects.go: from a custom resource to a builder. The
-- objects that a builder describes are in the module `Objects` below.
pub mod Objects
pub mod Builders
use observability_ui_operato.Base.{String, ◌<>◌, ◌==◌, Option, none, List, [], ◌∷◌, if◌then◌else◌}
use observability_ui_operato.Base.Format.{ℤ, pos}
use observability_ui_operato.Attempt.{Attempt, ok, err, errorf}
use observability_ui_operato.Api.{
  ObservabilityUi, ObservabilityUiPlugin, ObservabilityUiPluginService,
}

pub record ConsolePluginBuilder : Type 0 where
  pub namespace : String
  pub plugin_name : String
  pub plugin_version : String
  pub display_name : String
  pub port : ℤ
  pub services : List ObservabilityUiPluginService
  pub replicas : Option ℤ
  pub image : String
  pub service_account_name : String

pub record PluginImageName : Type 0 where
  pub image : String
  pub name : String

unfoldable pub get_plugin_image_from_type : String → String → Attempt PluginImageName
get_plugin_image_from_type plugin_type version =
    if plugin_type == "logs"
    then ok (record {
      image = "quay.io/openshift-observability-ui/logging-view-plugin:" <> version;
      name = "logging-view-plugin";
    })
    else if plugin_type == "dashboards"
    then ok (record {
      image = "quay.io/openshift-observability-ui/dashboards-console-plugin:" <> version;
      name = "dashboards-console-plugin";
    })
    else err (errorf ("invalid plugin type: " <> plugin_type))

-- The builder for a plugin, from its image and name.
plugin_builder :
    ObservabilityUiPlugin → String → Attempt PluginImageName → Attempt ConsolePluginBuilder
plugin_builder obs_ui_plugin namespace (err e) = err e
plugin_builder obs_ui_plugin namespace (ok plugin_info) = ok (record {
  namespace = namespace;
  plugin_name = plugin_info.name;
  plugin_version = obs_ui_plugin.spec.version;
  display_name = obs_ui_plugin.spec.display_name;
  port = pos 9443;
  services = obs_ui_plugin.spec.services;
  replicas = none;
  image = plugin_info.image;
  service_account_name = "";
})

unfoldable pub from_obs_ui_plugin : ObservabilityUiPlugin → String → Attempt ConsolePluginBuilder
unfolding plugin_builder get_plugin_image_from_type
from_obs_ui_plugin obs_ui_plugin namespace =
    plugin_builder obs_ui_plugin namespace
      (get_plugin_image_from_type obs_ui_plugin.spec.type obs_ui_plugin.spec.version)

unfoldable pub from_obs_ui : ObservabilityUi → String → Attempt ConsolePluginBuilder
from_obs_ui obs_ui namespace =
    let version : String = "dev" in
    let plugin_name : String = "observability-ui-hub" in
    let image = "quay.io/openshift-observability-ui/observability-ui-hub:" <> version in
    ok (record {
      namespace = namespace;
      plugin_name = plugin_name;
      plugin_version = version;
      display_name = "Observability UI Hub";
      port = obs_ui.spec.deployment.port;
      services =
          record {
            alias = "backend";
            name = plugin_name;
            namespace = namespace;
            port = obs_ui.spec.deployment.port;
          }
          ∷ [];
      replicas = none;
      image = image;
      service_account_name = plugin_name;
    })

unfoldable pub service_name : ConsolePluginBuilder → String
service_name b = b.plugin_name

unfoldable pub deployment_name : ConsolePluginBuilder → String
deployment_name b = b.plugin_name

unfoldable pub console_plugin_name : ConsolePluginBuilder → String
console_plugin_name b = b.plugin_name

unfoldable pub get_secret_name : ConsolePluginBuilder → String
get_secret_name b = b.plugin_name <> "-secret"

unfoldable pub get_instance_name : ConsolePluginBuilder → String
get_instance_name b = b.plugin_name <> "-" <> b.plugin_version
