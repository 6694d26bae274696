-- ===== src/Common.antt =====
-- internal/observability-ui/common: constants.go and labels.go.
use observability_ui_operato.Base.{String, ◌<>◌, [], ◌∷◌}
use observability_ui_operato.Attempt.{Attempt, ok}
use observability_ui_operato.Api.{Labels}

abbrev pub observability_ui_finalizer : String
observability_ui_finalizer = "observability-ui.openshift.io/finalizer"

abbrev pub type_available_observability_ui : String
type_available_observability_ui = "Available"

abbrev pub type_degraded_observability_ui : String
type_degraded_observability_ui = "Degraded"

unfoldable pub labels_for_observabilit_ui : String → Labels
labels_for_observabilit_ui name =
    ("app.kubernetes.io/name", name)
    ∷ ("app.kubernetes.io/part-of", "observability-ui-operator")
    ∷ ("app.kubernetes.io/created-by", "controller-manager")
    ∷ ("app.kubernetes.io/instance", "observability-ui")
    ∷ ("app.kubernetes.io/managed-by", "observability-ui-operator")
    ∷ []

unfoldable pub image_for_observability_ui_hub : Attempt String
image_for_observability_ui_hub = ok "quay.io/gbernal/observability-ui-hub:latest"

unfoldable pub get_config_name : String → String
get_config_name instance_name = instance_name <> "-config"

unfoldable pub get_observability_ui_namespace : String
get_observability_ui_namespace = "openshift-observability-ui"
