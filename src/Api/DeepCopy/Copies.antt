-- ===== src/Api/DeepCopy/Copies.antt =====
-- api/v1alpha1/zz_generated.deepcopy.go: `DeepCopy` and `DeepCopyObject` of each type.
use observability_ui_operato.Base.{Option, none, some}
use observability_ui_operato.Api.{
  ObservabilityUiDeployment, ObservabilityUiSpec, ObservabilityUiPluginService,
}
use observability_ui_operato.Api.DeepCopy.{
  StatusValue, PluginSpecValue, UiValue, PluginValue, ListValue, Library, Heap, deployment_into,
  ui_spec_into, service_into, status_into, plugin_status_into, plugin_spec_into, ui_into,
  plugin_into, ui_list_into, plugin_list_into, deep_copy,
}

module _ (L : Library) where
  -- `runtime.Object`, by the types of this package that it may hold.
  pub data RuntimeObject : Type 0 where
    ui_object : UiValue L.Meta → RuntimeObject
    plugin_object : PluginValue L.Meta → RuntimeObject
    ui_list_object : ListValue L.Meta L.ListMeta → RuntimeObject
    plugin_list_object : ListValue L.Meta L.ListMeta → RuntimeObject

  -- `if c := in.DeepCopy(); c != nil { return c }; return nil`
  abbrev as_object :
      {A : Type 0} → (A → RuntimeObject) → Option A × Heap L → Option RuntimeObject × Heap L
  as_object object (none, h) = (none, h)
  as_object object (some c, h) = (some (object c), h)

  abbrev pub copy_deployment :
      Option ObservabilityUiDeployment → Heap L → Option ObservabilityUiDeployment × Heap L
  copy_deployment = deep_copy L (deployment_into L)

  abbrev pub copy_ui_spec :
      Option ObservabilityUiSpec → Heap L → Option ObservabilityUiSpec × Heap L
  copy_ui_spec = deep_copy L (ui_spec_into L)

  abbrev pub copy_service :
      Option ObservabilityUiPluginService → Heap L → Option ObservabilityUiPluginService × Heap L
  copy_service = deep_copy L (service_into L)

  abbrev pub copy_ui_status : Option StatusValue → Heap L → Option StatusValue × Heap L
  copy_ui_status = deep_copy L (status_into L)

  abbrev pub copy_plugin_status : Option StatusValue → Heap L → Option StatusValue × Heap L
  copy_plugin_status = deep_copy L (plugin_status_into L)

  abbrev pub copy_plugin_spec : Option PluginSpecValue → Heap L → Option PluginSpecValue × Heap L
  copy_plugin_spec = deep_copy L (plugin_spec_into L)

  abbrev pub copy_ui : Option (UiValue L.Meta) → Heap L → Option (UiValue L.Meta) × Heap L
  copy_ui = deep_copy L (ui_into L)

  abbrev pub copy_ui_object : Option (UiValue L.Meta) → Heap L → Option RuntimeObject × Heap L
  copy_ui_object x h = as_object ui_object (copy_ui x h)

  abbrev pub copy_plugin :
      Option (PluginValue L.Meta) → Heap L → Option (PluginValue L.Meta) × Heap L
  copy_plugin = deep_copy L (plugin_into L)

  abbrev pub copy_plugin_object :
      Option (PluginValue L.Meta) → Heap L → Option RuntimeObject × Heap L
  copy_plugin_object x h = as_object plugin_object (copy_plugin x h)

  abbrev pub copy_ui_list :
      Option (ListValue L.Meta L.ListMeta) → Heap L → Option (ListValue L.Meta L.ListMeta) × Heap L
  copy_ui_list = deep_copy L (ui_list_into L)

  abbrev pub copy_ui_list_object :
      Option (ListValue L.Meta L.ListMeta) → Heap L → Option RuntimeObject × Heap L
  copy_ui_list_object x h = as_object ui_list_object (copy_ui_list x h)

  abbrev pub copy_plugin_list :
      Option (ListValue L.Meta L.ListMeta) → Heap L → Option (ListValue L.Meta L.ListMeta) × Heap L
  copy_plugin_list = deep_copy L (plugin_list_into L)

  abbrev pub copy_plugin_list_object :
      Option (ListValue L.Meta L.ListMeta) → Heap L → Option RuntimeObject × Heap L
  copy_plugin_list_object x h = as_object plugin_list_object (copy_plugin_list x h)
