-- ===== src/Access.antt =====
-- config/rbac/role.yaml and the `+kubebuilder:rbac` markers of both controllers, from which
-- `make manifests` writes that file: what the service account of the operator may ask of the API
-- server.
pub mod Asking
pub mod Laws
pub mod Marked
use observability_ui_operato.Base.{String, Bool, false, ◌&&◌, ◌||◌, List, [], ◌∷◌, ◌++◌, contains}
use observability_ui_operato.Api.Objects.{PolicyRule}

-- A request: the group of the API, the resource and the verb.
pub record Ask : Type 0 where
  pub group : String
  pub resource : String
  pub verb : String

-- A rule grants the requests for a group, a resource and a verb that it lists. No rule here has a
-- wildcard.
unfoldable pub grants : PolicyRule → Ask → Bool
unfolding contains
grants rule a =
    contains rule.api_groups a.group
    && contains rule.resources a.resource
    && contains rule.verbs a.verb

-- The rules of a role add up.
unfoldable pub permits : List PolicyRule → Ask → Bool
unfolding grants
permits [] a = false
permits (rule ∷ rules) a = grants rule a || permits rules a

abbrev rule_for : String → String → List String → PolicyRule
rule_for group resource verbs = record {
  api_groups = group ∷ [];
  resources = resource ∷ [];
  verbs = verbs;
}

abbrev all_verbs : List String
all_verbs = "create" ∷ "delete" ∷ "get" ∷ "list" ∷ "patch" ∷ "update" ∷ "watch" ∷ []

abbrev status_verbs : List String
status_verbs = "get" ∷ "patch" ∷ "update" ∷ []

-- The cluster role `manager-role`.
abbrev pub manager_role : List PolicyRule
manager_role =
    rule_for "observability-ui.openshift.io" "observabilityuis" all_verbs
    ∷ rule_for "observability-ui.openshift.io" "observabilityuis/finalizers" ("update" ∷ [])
    ∷ rule_for "observability-ui.openshift.io" "observabilityuis/status" status_verbs
    ∷ rule_for "observability-ui.openshift.io" "observabilityuiplugins" all_verbs
    ∷ rule_for "observability-ui.openshift.io" "observabilityuiplugins/finalizers" ("update" ∷ [])
    ∷ rule_for "observability-ui.openshift.io" "observabilityuiplugins/status" status_verbs
    ∷ rule_for "apps" "deployments" all_verbs
    ∷ rule_for "" "events" ("create" ∷ "patch" ∷ [])
    ∷ rule_for "rbac.authorization.k8s.io" "clusterroles"
        ("get" ∷ "create" ∷ "delete" ∷ "list" ∷ "watch" ∷ [])
    ∷ rule_for "rbac.authorization.k8s.io" "clusterrolebindings"
        ("get" ∷ "create" ∷ "delete" ∷ "list" ∷ "watch" ∷ [])
    ∷ rule_for "console.openshift.io" "consoleplugins"
        ("get" ∷ "create" ∷ "delete" ∷ "patch" ∷ "list" ∷ "watch" ∷ [])
    ∷ rule_for "operator.openshift.io" "consoles" ("get" ∷ "patch" ∷ [])
    ∷ record {
      api_groups = "" ∷ [];
      resources = "services" ∷ "configmaps" ∷ [];
      verbs = "get" ∷ "patch" ∷ "update" ∷ "create" ∷ "delete" ∷ "list" ∷ "watch" ∷ [];
    }
    ∷ rule_for "" "serviceaccounts"
        ("get" ∷ "patch" ∷ "update" ∷ "create" ∷ "delete" ∷ "list" ∷ "watch" ∷ [])
    ∷ []

abbrev marker_verbs : List String
marker_verbs = "get" ∷ "list" ∷ "watch" ∷ "create" ∷ "update" ∷ "patch" ∷ "delete" ∷ []

-- The markers above the hub controller, with the group `core` written as it is in a role.
abbrev operator_markers : List PolicyRule
operator_markers =
    rule_for "observability-ui.openshift.io" "observabilityuis" marker_verbs
    ∷ rule_for "observability-ui.openshift.io" "observabilityuis/status"
        ("get" ∷ "update" ∷ "patch" ∷ [])
    ∷ rule_for "" "events" ("create" ∷ "patch" ∷ [])
    ∷ rule_for "apps" "deployments" marker_verbs
    ∷ rule_for "" "pods" ("get" ∷ "list" ∷ "watch" ∷ [])
    ∷ rule_for "" "services" marker_verbs
    ∷ rule_for "" "servicesaccounts" marker_verbs
    ∷ []

-- The markers above the controller of plugins.
abbrev plugin_markers : List PolicyRule
plugin_markers =
    rule_for "observability-ui.openshift.io.openshift.io" "observabilityuiplugins" marker_verbs
    ∷ rule_for "observability-ui.openshift.io.openshift.io" "observabilityuiplugins/status"
        ("get" ∷ "update" ∷ "patch" ∷ [])
    ∷ rule_for "observability-ui.openshift.io.openshift.io" "observabilityuiplugins/finalizers"
        ("update" ∷ [])
    ∷ rule_for "" "events" ("create" ∷ "patch" ∷ [])
    ∷ rule_for "apps" "deployments" marker_verbs
    ∷ rule_for "apps" "services" marker_verbs
    ∷ rule_for "" "pods" ("get" ∷ "list" ∷ "watch" ∷ [])
    ∷ []

-- What `make manifests` writes to the file.
abbrev pub marked_role : List PolicyRule
marked_role = operator_markers ++ plugin_markers
