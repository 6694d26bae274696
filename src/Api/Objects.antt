-- ===== src/Api/Objects.antt =====
-- The objects that the program creates in a cluster, by the fields that it sets. The types are
-- those of k8s.io/api and github.com/openshift/api; a field that the program leaves at its zero
-- value is left out.
use observability_ui_operato.Base.{String, Option, List, Bool, Slice}
use observability_ui_operato.Base.Format.{ℤ}
use observability_ui_operato.Api.{ObjectMeta, Labels}

pub record ServiceAccount : Type 0 where
  pub meta : ObjectMeta

pub record PolicyRule : Type 0 where
  pub api_groups : List String
  pub verbs : List String
  pub resources : List String

pub record ClusterRole : Type 0 where
  pub meta : ObjectMeta
  pub rules : List PolicyRule

pub record RoleRef : Type 0 where
  pub api_group : String
  pub kind : String
  pub name : String

pub record Subject : Type 0 where
  pub kind : String
  pub name : String
  pub namespace : String

pub record ClusterRoleBinding : Type 0 where
  pub meta : ObjectMeta
  pub role_ref : RoleRef
  pub subjects : List Subject

pub record ServicePort : Type 0 where
  pub name : String
  pub port : ℤ
  pub protocol : String
  pub target_port : ℤ

pub record Service : Type 0 where
  pub meta : ObjectMeta
  pub type : String
  pub ports : List ServicePort
  pub selector : Labels

pub record SecurityContext : Type 0 where
  pub run_as_non_root : Option Bool
  pub allow_privilege_escalation : Option Bool
  pub dropped_capabilities : List String

pub record ContainerPort : Type 0 where
  pub container_port : ℤ
  pub name : String

pub record VolumeMount : Type 0 where
  pub name : String
  pub read_only : Bool
  pub mount_path : String

pub record Container : Type 0 where
  pub image : String
  pub name : String
  pub image_pull_policy : String
  pub security_context : SecurityContext
  pub ports : List ContainerPort
  pub volume_mounts : List VolumeMount
  pub args : List String

-- A volume whose source is a secret.
pub record Volume : Type 0 where
  pub name : String
  pub secret_name : String
  pub default_mode : Option ℤ

pub record PodSpec : Type 0 where
  pub containers : List Container
  pub volumes : List Volume
  pub restart_policy : String
  pub dns_policy : String
  pub service_account_name : String

pub record PodTemplateSpec : Type 0 where
  pub labels : Labels
  pub spec : PodSpec

pub record Deployment : Type 0 where
  pub meta : ObjectMeta
  pub replicas : Option ℤ
  pub match_labels : Labels
  pub template : PodTemplateSpec

pub record ConsolePluginService : Type 0 where
  pub name : String
  pub namespace : String
  pub port : ℤ
  pub base_path : String

pub record ProxyService : Type 0 where
  pub name : String
  pub namespace : String
  pub port : ℤ

-- Version v1alpha1 of the console's plugin resource.
pub record ProxyV1Alpha1 : Type 0 where
  pub type : String
  pub alias : String
  pub authorize : Bool
  pub service : ProxyService

pub record ConsolePluginV1Alpha1 : Type 0 where
  pub meta : ObjectMeta
  pub display_name : String
  pub service : ConsolePluginService
  pub proxy : Slice ProxyV1Alpha1

-- Version v1.
pub record ProxyEndpoint : Type 0 where
  pub type : String
  pub service : Option ProxyService

pub record ProxyV1 : Type 0 where
  pub alias : String
  pub authorization : String
  pub endpoint : ProxyEndpoint

pub record ConsolePluginBackend : Type 0 where
  pub type : String
  pub service : Option ConsolePluginService

pub record ConsolePluginV1 : Type 0 where
  pub meta : ObjectMeta
  pub display_name : String
  pub backend : ConsolePluginBackend
  pub proxy : Slice ProxyV1

-- What `Create` is given.
pub data Object : Type 0 where
  service_account : ServiceAccount → Object
  cluster_role : ClusterRole → Object
  cluster_role_binding : ClusterRoleBinding → Object
  service : Service → Object
  deployment : Deployment → Object
  console_plugin_v1_alpha1 : ConsolePluginV1Alpha1 → Object
  console_plugin_v1 : ConsolePluginV1 → Object

-- The type of the object that `Get` is given.
pub data Kind : Type 0 where
  service_account_kind cluster_role_kind cluster_role_binding_kind : Kind
  service_kind deployment_kind console_plugin_kind : Kind

-- The API serves both versions of a console plugin as one resource.
abbrev pub kind_of : Object → Kind
kind_of (service_account _) = service_account_kind
kind_of (cluster_role _) = cluster_role_kind
kind_of (cluster_role_binding _) = cluster_role_binding_kind
kind_of (service _) = service_kind
kind_of (deployment _) = deployment_kind
kind_of (console_plugin_v1_alpha1 _) = console_plugin_kind
kind_of (console_plugin_v1 _) = console_plugin_kind

abbrev pub meta_of : Object → ObjectMeta
meta_of (service_account o) = o.meta
meta_of (cluster_role o) = o.meta
meta_of (cluster_role_binding o) = o.meta
meta_of (service o) = o.meta
meta_of (deployment o) = o.meta
meta_of (console_plugin_v1_alpha1 o) = o.meta
meta_of (console_plugin_v1 o) = o.meta

abbrev pub with_meta : Object → ObjectMeta → Object
with_meta (service_account o) m = service_account (record { meta = m })
with_meta (cluster_role o) m = cluster_role (record o { meta = m })
with_meta (cluster_role_binding o) m = cluster_role_binding (record o { meta = m })
with_meta (service o) m = service (record o { meta = m })
with_meta (deployment o) m = deployment (record o { meta = m })
with_meta (console_plugin_v1_alpha1 o) m = console_plugin_v1_alpha1 (record o { meta = m })
with_meta (console_plugin_v1 o) m = console_plugin_v1 (record o { meta = m })
