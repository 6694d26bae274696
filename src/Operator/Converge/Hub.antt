-- ===== src/Operator/Converge/Hub.antt =====
-- The keys of the resources of the hub, the templates that no builder describes, and its builder.
use observability_ui_operato.Base.{String, ◌≡◌, refl, [], ◌∷◌}
use observability_ui_operato.Attempt.{ok}
use observability_ui_operato.Api.{NamespacedName, ObservabilityUi, object_meta}
use observability_ui_operato.Api.Objects.{
  Object, service_account, cluster_role, cluster_role_binding,
}
use observability_ui_operato.Common.{get_observability_ui_namespace}
use observability_ui_operato.ConsolePlugin.{
  from_obs_ui, service_name, deployment_name, console_plugin_name, ConsolePluginBuilder,
}
use observability_ui_operato.ConsolePlugin.Objects.{
  get_service, get_deployment, get_console_plugin_v1,
}
use observability_ui_operato.Operator.Resources.{plugin_role}
use observability_ui_operato.Reliable.{key_of}

abbrev pub hub_name : String
hub_name = "observability-ui-hub"

abbrev pub namespaced : String → NamespacedName
namespaced name = record { namespace = get_observability_ui_namespace; name = name }

abbrev pub cluster_wide : String → NamespacedName
cluster_wide name = record { namespace = ""; name = name }

-- What the sub-reconcilers create that no builder describes.
abbrev pub hub_service_account : Object
hub_service_account = service_account (record {
  meta = record (object_meta hub_name get_observability_ui_namespace) {
    labels = ("app", hub_name) ∷ [];
  };
})

abbrev pub hub_cluster_role : Object
hub_cluster_role = cluster_role (record {
  meta = object_meta plugin_role "";
  rules =
      record {
        api_groups = "observability-ui.openshift.io" ∷ [];
        verbs = "list" ∷ "get" ∷ "watch" ∷ "create" ∷ "patch" ∷ "update" ∷ "delete" ∷ [];
        resources = "observabilityuiplugins" ∷ [];
      }
      ∷ [];
})

abbrev pub hub_cluster_role_binding : Object
hub_cluster_role_binding = cluster_role_binding (record {
  meta = record (object_meta hub_name "") { labels = ("app", hub_name) ∷ [] };
  role_ref = record {
    api_group = "rbac.authorization.k8s.io";
    kind = "ClusterRole";
    name = plugin_role;
  };
  subjects =
      record {
        kind = "ServiceAccount";
        name = hub_name;
        namespace = get_observability_ui_namespace;
      }
      ∷ [];
})

-- The builder of the hub, by what its keys depend on.
pub record HubBuilder (o : ObservabilityUi) : Type 0 where
  pub builder : ConsolePluginBuilder
  pub built : from_obs_ui o get_observability_ui_namespace ≡ ok builder
  pub name : console_plugin_name builder ≡ hub_name
  pub service_named : service_name builder ≡ hub_name
  pub deployment_named : deployment_name builder ≡ hub_name
  pub service_key : key_of (get_service builder).meta ≡ namespaced hub_name
  pub deployment_key : key_of (get_deployment builder).meta ≡ namespaced hub_name
  pub console_plugin_key : key_of (get_console_plugin_v1 builder).meta ≡ cluster_wide hub_name

pub hub_builder : (o : ObservabilityUi) → HubBuilder o
unfolding from_obs_ui console_plugin_name service_name deployment_name get_service get_deployment
    get_console_plugin_v1
hub_builder o = record {
  builder = _;
  built = refl;
  name = refl;
  service_named = refl;
  deployment_named = refl;
  service_key = refl;
  deployment_key = refl;
  console_plugin_key = refl;
}
