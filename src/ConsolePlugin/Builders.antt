-- ===== src/ConsolePlugin/Builders.antt =====
-- Which custom resources have a builder, and how the names of what it builds depend on them.
use observability_ui_operato.Base.{
  String, ◌<>◌, ◌≡◌, ◌↔◌, ◌⊎◌, inl, inr, arith, eq_iff, ◌==◌, Bool-cases, ◌≢◌, ap,
}
use observability_ui_operato.Attempt.{ok, err, errorf}
use observability_ui_operato.Api.{ObservabilityUiPlugin}
use observability_ui_operato.ConsolePlugin.{
  ConsolePluginBuilder, get_plugin_image_from_type, plugin_builder, from_obs_ui_plugin,
  console_plugin_name,
}

-- The types of plugin that the program can build.
abbrev pub IsSupported : String → Type 0
IsSupported type = (type ≡ "logs") ⊎ (type ≡ "dashboards")

-- What `getPluginImageFromType` answers.
data ImageCase (type version : String) : Type 0 where
  logs_image :
      type ≡ "logs"
      → get_plugin_image_from_type type version
        ≡ ok (record {
          image = "quay.io/openshift-observability-ui/logging-view-plugin:" <> version;
          name = "logging-view-plugin";
        })
      → ImageCase type version
  dashboards_image :
      type ≡ "dashboards"
      → get_plugin_image_from_type type version
        ≡ ok (record {
          image = "quay.io/openshift-observability-ui/dashboards-console-plugin:" <> version;
          name = "dashboards-console-plugin";
        })
      → ImageCase type version
  no_image :
      ¬ IsSupported type
      → get_plugin_image_from_type type version ≡ err (errorf ("invalid plugin type: " <> type))
      → ImageCase type version

image_cases : (type version : String) → ImageCase type version
unfolding get_plugin_image_from_type
image_cases type version = elim (Bool-cases (type == "logs")) [
  | inl logs ↦ logs_image ((eq_iff type "logs").0 logs) (rw logs)
  | inr other ↦ elim (Bool-cases (type == "dashboards")) [
    | inl dashboards ↦
        dashboards_image ((eq_iff type "dashboards").0 dashboards) (rw (other, dashboards))
    | inr neither ↦
        no_image
          (elim [
            | inl e ↦ cc ((eq_iff type "logs").1 e)
            | inr e ↦ cc ((eq_iff type "dashboards").1 e)
          ])
          (rw (other, neither))
  ]
]

-- A plugin resource has a builder exactly where its type is one of the two supported ones; with
-- any other type the error names the type.
pub from_obs_ui_plugin_iff :
    (p : ObservabilityUiPlugin) (namespace : String)
    → (((b : ConsolePluginBuilder) × (from_obs_ui_plugin p namespace ≡ ok b))
        ↔ IsSupported p.spec.type)
      × (¬ IsSupported p.spec.type
          → from_obs_ui_plugin p namespace ≡ err (errorf ("invalid plugin type: " <> p.spec.type)))
unfolding from_obs_ui_plugin
from_obs_ui_plugin_iff p namespace = elim (image_cases p.spec.type p.spec.version) [
  | logs_image e found ↦ (
    (λ _. inl e, λ _. (_, ap (plugin_builder p namespace) found)),
    λ no_type. absurd (no_type (inl e)),
  )
  | dashboards_image e found ↦ (
    (λ _. inr e, λ _. (_, ap (plugin_builder p namespace) found)),
    λ no_type. absurd (no_type (inr e)),
  )
  | no_image no_type found ↦ (
    (
      λ built. cc (ap (plugin_builder p namespace) found, built.1),
      λ supported. absurd (no_type supported),
    ),
    λ _. ap (plugin_builder p namespace) found,
  )
]

-- The name that goes with a supported type.
pub name_cases :
    (p : ObservabilityUiPlugin) (namespace : String) (b : ConsolePluginBuilder)
    → from_obs_ui_plugin p namespace ≡ ok b
    → ((p.spec.type ≡ "logs") × (b.plugin_name ≡ "logging-view-plugin"))
      ⊎ ((p.spec.type ≡ "dashboards") × (b.plugin_name ≡ "dashboards-console-plugin"))
unfolding from_obs_ui_plugin
name_cases p namespace b h = elim (image_cases p.spec.type p.spec.version) [
  | logs_image e found ↦ inl (e, ground (arith, ap (plugin_builder p namespace) found))
  | dashboards_image e found ↦ inr (e, ground (arith, ap (plugin_builder p namespace) found))
  | no_image no_type found ↦ cc (ap (plugin_builder p namespace) found, h)
]

names_differ : ◌≢◌ {A = String} "logging-view-plugin" "dashboards-console-plugin"
names_differ = ground (arith, eq_iff "logging-view-plugin" "dashboards-console-plugin")

types_differ : ◌≢◌ {A = String} "logs" "dashboards"
types_differ = ground (arith, eq_iff "logs" "dashboards")

-- Two plugin resources that have builders in one namespace get the same name for their console plugins
-- exactly where they have the same type.
pub names_by_type :
    (p q : ObservabilityUiPlugin) (namespace : String) (b c : ConsolePluginBuilder)
    → from_obs_ui_plugin p namespace ≡ ok b
    → from_obs_ui_plugin q namespace ≡ ok c
    → (console_plugin_name b ≡ console_plugin_name c) ↔ (p.spec.type ≡ q.spec.type)
unfolding console_plugin_name
names_by_type p q namespace b c hb hc = elim (name_cases p namespace b hb) [
  | inl (tp, np) ↦ elim (name_cases q namespace c hc) [
    | inl (tq, nq) ↦ (λ _. cc, λ _. cc)
    | inr (tq, nq) ↦ (λ h. absurd (names_differ cc), λ h. absurd (types_differ cc))
  ]
  | inr (tp, np) ↦ elim (name_cases q namespace c hc) [
    | inl (tq, nq) ↦ (λ h. absurd (names_differ cc), λ h. absurd (types_differ cc))
    | inr (tq, nq) ↦ (λ _. cc, λ _. cc)
  ]
]
