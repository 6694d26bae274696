-- ===== src/Api/DeepCopy.antt =====
-- api/v1alpha1/zz_generated.deepcopy.go: the deep copies of the custom resources. A value holds its
-- slices and maps by their addresses in a heap, `none` for `nil`; `new(T)` gives a value of its own.
-- The copies of Kubernetes' metadata and conditions are parameters, the `Library`. The array of a
-- slice is allocated when its elements have been copied; in the source it is allocated before, and
-- nothing reads it in between.
pub mod Copies
pub mod Laws
pub mod Resources
use observability_ui_operato.Base.{
  String, ℕ, ◌≡◌, Option, none, some, List, [], ◌∷◌, ◌++◌, length, Slice,
}
use observability_ui_operato.Api.{
  Condition, Labels, ObservabilityUiDeployment, ObservabilityUiSpec, ObservabilityUiPluginService,
}
use observability_ui_operato.Api.Heap.{at, copy_all}

-- `metav1.TypeMeta`
pub record TypeMeta : Type 0 where
  pub kind : String
  pub api_version : String

-- The structs, with their references.
pub record StatusValue : Type 0 where
  pub conditions : Option ℕ

pub record PluginSpecValue : Type 0 where
  pub display_name : String
  pub version : String
  pub type : String
  pub services : Option ℕ
  pub config : Option ℕ

module _ (Meta : Type 0) where
  pub record UiValue : Type 0 where
    pub type_meta : TypeMeta
    pub meta : Meta
    pub spec : ObservabilityUiSpec
    pub status : StatusValue

  pub record PluginValue : Type 0 where
    pub type_meta : TypeMeta
    pub meta : Meta
    pub spec : PluginSpecValue
    pub status : StatusValue

  -- `ObservabilityUIList` and `ObservabilityUIPluginList`
  pub record ListValue (ListMeta : Type 0) : Type 0 where
    pub type_meta : TypeMeta
    pub meta : ListMeta
    pub items : Option ℕ

-- What an address may hold: the array of a slice, a map, or something of the library's.
pub data Cell (Meta Other : Type 0) : Type 0 where
  conditions_cell : List Condition → Cell Meta Other
  services_cell : List ObservabilityUiPluginService → Cell Meta Other
  config_cell : Labels → Cell Meta Other
  uis_cell : List (UiValue Meta) → Cell Meta Other
  plugins_cell : List (PluginValue Meta) → Cell Meta Other
  other_cell : Other → Cell Meta Other

-- The values of the library and their copies.
pub record Library : Type 1 where
  pub Meta : Type 0
  pub ListMeta : Type 0
  pub Other : Type 0
  pub copy_meta : Meta → List (Cell Meta Other) → Meta × List (Cell Meta Other)
  pub copy_list_meta : ListMeta → List (Cell Meta Other) → ListMeta × List (Cell Meta Other)
  pub copy_condition : Condition → List (Cell Meta Other) → Condition × List (Cell Meta Other)

module _ (L : Library) where
  abbrev pub Heap : Type 0
  Heap = List (Cell L.Meta L.Other)

  abbrev pub conditions_of : Cell L.Meta L.Other → Option (List Condition)
  conditions_of (conditions_cell cs) = some cs
  conditions_of _ = none

  abbrev pub services_of : Cell L.Meta L.Other → Option (List ObservabilityUiPluginService)
  services_of (services_cell ss) = some ss
  services_of _ = none

  abbrev pub config_of : Cell L.Meta L.Other → Option Labels
  config_of (config_cell es) = some es
  config_of _ = none

  abbrev pub uis_of : Cell L.Meta L.Other → Option (List (UiValue L.Meta))
  uis_of (uis_cell us) = some us
  uis_of _ = none

  abbrev pub plugins_of : Cell L.Meta L.Other → Option (List (PluginValue L.Meta))
  plugins_of (plugins_cell ps) = some ps
  plugins_of _ = none

  -- A value without references.
  abbrev pub copy_value : {A : Type 0} → A → Heap → A × Heap
  copy_value x h = (x, h)

  -- `if in.F != nil { …; *out = make(…, len(*in)); … }`
  module _ {A : Type 0} (elements_of : Cell L.Meta L.Other → Option (List A))
      (cell : List A → Cell L.Meta L.Other) (copy : A → Heap → A × Heap) where
    abbrev pub copy_slice : Option ℕ → Heap → Option ℕ × Heap
    copy_slice none h = (none, h)
    copy_slice (some a) h = elim (at h a) [
      | none ↦ (some a, h)
      | some c ↦ elim (elements_of c) [
        | none ↦ (some a, h)
        | some xs ↦ let (ys, g) = copy_all copy xs h in (some (length g), g ++ cell ys ∷ [])
      ]
    ]

  unfoldable pub deployment_into :
      ObservabilityUiDeployment → Heap → ObservabilityUiDeployment × Heap
  deployment_into x h = (x, h)

  unfoldable pub ui_spec_into : ObservabilityUiSpec → Heap → ObservabilityUiSpec × Heap
  ui_spec_into x h = (record x { deployment = x.deployment }, h)

  unfoldable pub service_into :
      ObservabilityUiPluginService → Heap → ObservabilityUiPluginService × Heap
  service_into x h = (x, h)

  unfoldable pub status_into : StatusValue → Heap → StatusValue × Heap
  status_into x h =
      let (conditions, g) =
        copy_slice conditions_of conditions_cell L.copy_condition x.conditions h in
      (record x { conditions = conditions }, g)

  -- The status of a plugin has the same field.
  abbrev pub plugin_status_into : StatusValue → Heap → StatusValue × Heap
  plugin_status_into = status_into

  unfoldable pub plugin_spec_into : PluginSpecValue → Heap → PluginSpecValue × Heap
  plugin_spec_into x h =
      let (services, g) = copy_slice services_of services_cell copy_value x.services h in
      let (config, k) = copy_slice config_of config_cell copy_value x.config g in
      (record x { services = services; config = config }, k)

  unfoldable pub ui_into : UiValue L.Meta → Heap → UiValue L.Meta × Heap
  unfolding status_into
  ui_into x h =
      let (meta, g) = L.copy_meta x.meta h in
      let (status, k) = status_into x.status g in
      (record x { type_meta = x.type_meta; meta = meta; spec = x.spec; status = status }, k)

  unfoldable pub plugin_into : PluginValue L.Meta → Heap → PluginValue L.Meta × Heap
  unfolding status_into plugin_spec_into
  plugin_into x h =
      let (meta, g) = L.copy_meta x.meta h in
      let (spec, j) = plugin_spec_into x.spec g in
      let (status, k) = plugin_status_into x.status j in
      (record x { type_meta = x.type_meta; meta = meta; spec = spec; status = status }, k)

  unfoldable pub ui_list_into :
      ListValue L.Meta L.ListMeta → Heap → ListValue L.Meta L.ListMeta × Heap
  unfolding ui_into
  ui_list_into x h =
      let (meta, g) = L.copy_list_meta x.meta h in
      let (items, k) = copy_slice uis_of uis_cell ui_into x.items g in
      (record x { type_meta = x.type_meta; meta = meta; items = items }, k)

  unfoldable pub plugin_list_into :
      ListValue L.Meta L.ListMeta → Heap → ListValue L.Meta L.ListMeta × Heap
  unfolding plugin_into
  plugin_list_into x h =
      let (meta, g) = L.copy_list_meta x.meta h in
      let (items, k) = copy_slice plugins_of plugins_cell plugin_into x.items g in
      (record x { type_meta = x.type_meta; meta = meta; items = items }, k)

  -- `DeepCopy`, by the `DeepCopyInto` of the type: `nil` for `nil`.
  unfoldable pub deep_copy :
      {A : Type 0} → (A → Heap → A × Heap) → Option A → Heap → Option A × Heap
  deep_copy into none h = (none, h)
  deep_copy into (some x) h = let (y, g) = into x h in (some y, g)
