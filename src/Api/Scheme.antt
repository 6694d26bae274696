-- ===== src/Api/Scheme.antt =====
-- api/v1alpha1/groupversion_info.go, and what the `init` functions of the two files of types
-- register with the scheme builder, in the order of the file names.
use observability_ui_operato.Base.{String, List, [], ◌∷◌, ◌++◌}

pub record GroupVersion : Type 0 where
  pub group : String
  pub version : String

abbrev pub group_version : GroupVersion
group_version = record { group = "observability-ui.openshift.io"; version = "v1alpha1" }

-- The types that a builder is given.
pub data SchemeType : Type 0 where
  observability_ui observability_ui_list : SchemeType
  observability_ui_plugin observability_ui_plugin_list : SchemeType

-- `scheme.Builder`, by its group version and by what has been registered with it.
pub record SchemeBuilder : Type 0 where
  pub group_version : GroupVersion
  pub registered : List SchemeType

-- `SchemeBuilder.Register(objects...)`
abbrev register : List SchemeType → SchemeBuilder → SchemeBuilder
register types b = record b { registered = b.registered ++ types }

-- `init` of observabilityui_types.go
abbrev pub register_obs_ui : SchemeBuilder → SchemeBuilder
register_obs_ui = register (observability_ui ∷ observability_ui_list ∷ [])

-- `init` of observabilityuiplugin_types.go
abbrev pub register_obs_ui_plugin : SchemeBuilder → SchemeBuilder
register_obs_ui_plugin = register (observability_ui_plugin ∷ observability_ui_plugin_list ∷ [])

-- `SchemeBuilder` when `main` begins.
abbrev pub scheme_builder : SchemeBuilder
scheme_builder =
    register_obs_ui_plugin
      (register_obs_ui (record { group_version = group_version; registered = [] }))
