-- ===== src/ConsolePlugin/Objects.antt =====
-- internal/consoleplugin/console_plugin_objects.go: the objects that a builder describes.
pub mod Laws
use observability_ui_operato.Base.{
  String, ◌<>◌, Bool, true, false, Option, none, some, List, [], ◌∷◌, Slice, append, if◌then◌else◌,
}
use observability_ui_operato.Base.Format.{pos, format_int}
use observability_ui_operato.Api.{object_meta, Labels, ObservabilityUiPluginService}
use observability_ui_operato.Api.Objects.{
  Service, Deployment, ProxyV1Alpha1, ConsolePluginV1Alpha1, ProxyV1, ConsolePluginV1,
}
use observability_ui_operato.ConsolePlugin.{
  ConsolePluginBuilder, deployment_name, get_secret_name, get_instance_name,
}

-- One round of the loop over the services.
abbrev proxy_v1_alpha1 : ObservabilityUiPluginService → ProxyV1Alpha1
proxy_v1_alpha1 service = record {
  type = "Service";
  alias = service.alias;
  authorize = true;
  service = record { name = service.name; namespace = service.namespace; port = service.port };
}

proxies_v1_alpha1 : Slice ProxyV1Alpha1 → List ObservabilityUiPluginService → Slice ProxyV1Alpha1
proxies_v1_alpha1 proxies [] = proxies
proxies_v1_alpha1 proxies (service ∷ services) =
    proxies_v1_alpha1 (append proxies (proxy_v1_alpha1 service)) services

unfoldable pub get_console_plugin_v1_alpha1 : ConsolePluginBuilder → ConsolePluginV1Alpha1
unfolding proxies_v1_alpha1
get_console_plugin_v1_alpha1 b =
    let proxies = proxies_v1_alpha1 none b.services in
    record {
      meta = object_meta b.plugin_name "";
      display_name = b.display_name;
      service = record {
        name = b.plugin_name;
        namespace = b.namespace;
        port = b.port;
        base_path = "/";
      };
      proxy = proxies;
    }

unfoldable pub get_service : ConsolePluginBuilder → Service
unfolding get_secret_name get_instance_name
get_service b =
    let labels : Labels =
      ("app.kubernetes.io/name", b.plugin_name)
      ∷ ("app.kubernetes.io/instance", get_instance_name b)
      ∷ ("app.kubernetes.io/version", b.plugin_version)
      ∷ ("app.kubernetes.io/part-of", b.plugin_name)
      ∷ ("app.kubernetes.io/created-by", "ui-plugin-controller-manager")
      ∷ ("app.kubernetes.io/managed-by", "observability-ui-operator")
      ∷ ("app", b.plugin_name)
      ∷ [] in
    let annotations : Labels =
      ("service.alpha.openshift.io/serving-cert-secret-name", get_secret_name b) ∷ [] in
    record {
      meta = record (object_meta b.plugin_name b.namespace) {
        labels = labels;
        annotations = annotations;
      };
      type = "ClusterIP";
      ports = record { name = "http"; port = b.port; protocol = "TCP"; target_port = b.port } ∷ [];
      selector = labels;
    }

abbrev proxy_v1 : ObservabilityUiPluginService → ProxyV1
proxy_v1 service = record {
  alias = service.alias;
  authorization = "UserToken";
  endpoint = record {
    type = "Service";
    service =
        some (record { name = service.name; namespace = service.namespace; port = service.port });
  };
}

proxies_v1 : Slice ProxyV1 → List ObservabilityUiPluginService → Slice ProxyV1
proxies_v1 proxies [] = proxies
proxies_v1 proxies (service ∷ services) = proxies_v1 (append proxies (proxy_v1 service)) services

-- `len(services) == 0`
is_empty : List ObservabilityUiPluginService → Bool
is_empty [] = true
is_empty (_ ∷ _) = false

unfoldable pub get_console_plugin_v1 : ConsolePluginBuilder → ConsolePluginV1
unfolding proxies_v1 is_empty
get_console_plugin_v1 b =
    let proxies = proxies_v1 none b.services in
    let proxies = if is_empty b.services then none else proxies in
    record {
      meta = object_meta b.plugin_name "";
      display_name = b.display_name;
      backend = record {
        type = "Service";
        service = some (record {
          name = b.plugin_name;
          namespace = b.namespace;
          port = b.port;
          base_path = "/";
        });
      };
      proxy = proxies;
    }

unfoldable pub get_deployment : ConsolePluginBuilder → Deployment
unfolding deployment_name get_secret_name get_instance_name format_int
get_deployment b =
    let labels : Labels =
      ("app.kubernetes.io/name", deployment_name b)
      ∷ ("app.kubernetes.io/instance", get_instance_name b)
      ∷ ("app.kubernetes.io/version", b.plugin_version)
      ∷ ("app.kubernetes.io/part-of", b.plugin_name)
      ∷ ("app.kubernetes.io/created-by", "ui-plugin-controller-manager")
      ∷ ("app.kubernetes.io/managed-by", "observability-ui-operator")
      ∷ ("app", b.plugin_name)
      ∷ [] in
    record {
      meta = record (object_meta (deployment_name b) b.namespace) { labels = labels };
      replicas = b.replicas;
      match_labels = labels;
      template = record {
        labels = labels;
        spec = record {
          containers =
              record {
                image = b.image;
                name = b.plugin_name;
                image_pull_policy = "IfNotPresent";
                security_context = record {
                  run_as_non_root = some true;
                  allow_privilege_escalation = some false;
                  dropped_capabilities = "ALL" ∷ [];
                };
                ports = record { container_port = b.port; name = "web" } ∷ [];
                volume_mounts =
                    record {
                      name = "serving-cert";
                      read_only = true;
                      mount_path = "/var/serving-cert";
                    }
                    ∷ [];
                args =
                    ("-port=" <> format_int b.port)
                    ∷ "-cert=/var/serving-cert/tls.crt"
                    ∷ "-key=/var/serving-cert/tls.key"
                    ∷ [];
              }
              ∷ [];
          volumes =
              record {
                name = "serving-cert";
                secret_name = get_secret_name b;
                default_mode = some (pos 420);
              }
              ∷ [];
          restart_policy = "Always";
          dns_policy = "ClusterFirst";
          service_account_name = b.service_account_name;
        };
      };
    }
