-- ===== src/Api.antt =====
-- The custom resources of api/v1alpha1 and the parts of Kubernetes' metadata that the program
-- reads or writes. A slice is a list; what `nil` means beside an empty slice never matters here.
pub mod Objects
pub mod Scheme
pub mod Heap
pub mod DeepCopy
use observability_ui_operato.Base.{String, Bool, Option, none, List, [], ℕ}
use observability_ui_operato.Base.Format.{ℤ, pos}

-- `types.NamespacedName`; `ctrl.Request` is one.
pub record NamespacedName : Type 0 where
  pub namespace : String
  pub name : String

abbrev pub Request : Type 0
Request = NamespacedName

-- `map[string]string`, by its entries.
abbrev pub Labels : Type 0
Labels = List (String × String)

-- `metav1.OwnerReference`
pub record OwnerReference : Type 0 where
  pub kind : String
  pub name : String
  pub controller : Bool

-- `metav1.ObjectMeta`
pub record ObjectMeta : Type 0 where
  pub name : String
  pub namespace : String
  pub labels : Labels
  pub annotations : Labels
  pub owner_references : List OwnerReference
  pub finalizers : List String
  pub deletion_timestamp : Option ℕ
  pub resource_version : String

-- `metav1.ObjectMeta{Name: name, Namespace: namespace}`
abbrev pub object_meta : String → String → ObjectMeta
object_meta name namespace = record {
  name = name;
  namespace = namespace;
  labels = [];
  annotations = [];
  owner_references = [];
  finalizers = [];
  deletion_timestamp = none;
  resource_version = "";
}

pub data ConditionStatus : Type 0 where
  condition_true condition_false condition_unknown : ConditionStatus

-- `metav1.Condition`, by the fields that the program sets.
pub record Condition : Type 0 where
  pub type : String
  pub status : ConditionStatus
  pub reason : String
  pub message : String

pub record ObservabilityUiDeployment : Type 0 where
  pub port : ℤ

pub record ObservabilityUiSpec : Type 0 where
  pub deployment : ObservabilityUiDeployment

pub record ObservabilityUiStatus : Type 0 where
  pub conditions : List Condition

pub record ObservabilityUi : Type 0 where
  pub meta : ObjectMeta
  pub spec : ObservabilityUiSpec
  pub status : ObservabilityUiStatus

pub record ObservabilityUiPluginService : Type 0 where
  pub alias : String
  pub name : String
  pub namespace : String
  pub port : ℤ

pub record ObservabilityUiPluginSpec : Type 0 where
  pub display_name : String
  pub version : String
  pub type : String
  pub services : List ObservabilityUiPluginService
  pub config : Labels

pub record ObservabilityUiPluginStatus : Type 0 where
  pub conditions : List Condition

pub record ObservabilityUiPlugin : Type 0 where
  pub meta : ObjectMeta
  pub spec : ObservabilityUiPluginSpec
  pub status : ObservabilityUiPluginStatus

-- `&v1alpha1.ObservabilityUi{}`
abbrev pub empty_obs_ui : ObservabilityUi
empty_obs_ui = record {
  meta = object_meta "" "";
  spec = record { deployment = record { port = pos 0 } };
  status = record { conditions = [] };
}

-- `&v1alpha1.ObservabilityUiPlugin{}`
abbrev pub empty_obs_ui_plugin : ObservabilityUiPlugin
empty_obs_ui_plugin = record {
  meta = object_meta "" "";
  spec = record { display_name = ""; version = ""; type = ""; services = []; config = [] };
  status = record { conditions = [] };
}
