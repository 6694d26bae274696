-- ===== src/Tests/Objects.antt =====
-- The theorems on sub-reconcilers, builders and objects at concrete inputs.
use observability_ui_operato.Base.{◌≡◌, ◌↔◌, refl, some, none, [], ◌∷◌, map, ◌<>◌}
use observability_ui_operato.Base.Format.{pos}
use observability_ui_operato.Attempt.{ok, err, errorf}
use observability_ui_operato.Api.{ObservabilityUiPlugin}
use observability_ui_operato.ConsolePlugin.{
  ConsolePluginBuilder, from_obs_ui_plugin, console_plugin_name,
}
use observability_ui_operato.ConsolePlugin.Objects.{
  get_service, get_deployment, get_console_plugin_v1, get_console_plugin_v1_alpha1,
}
use observability_ui_operato.ConsolePlugin.Objects.Laws.{
  Routes, get_service-Routes, target, targets_v1, targets_v1_alpha1, proxies_target_services,
  some_target,
}
use observability_ui_operato.ConsolePlugin.Builders.{
  IsSupported, from_obs_ui_plugin_iff, names_by_type,
}
use observability_ui_operato.Subreconciler.{
  FnWithRequest, SubResult, run_subreconcilers, continue_reconciling, requeue,
}
use observability_ui_operato.Subreconciler.Laws.{
  IsWellFormed, AllReturn, done, ◌▹◌, Runs, halted, passed, outcome_of, run_subreconcilers-Runs,
  Runs-run_subreconcilers,
}
use observability_ui_operato.Tests.Cluster.{logging, request}

abbrev builder : ConsolePluginBuilder
builder = record {
  namespace = "ns";
  plugin_name = "logging-view-plugin";
  plugin_version = "v1";
  display_name = "Logging";
  port = pos 9443;
  services = logging.spec.services;
  replicas = none;
  image = "image";
  service_account_name = "";
}

get_service-Routes_example : Routes (get_service builder) (get_deployment builder)
get_service-Routes_example = get_service-Routes builder

proxies_target_services_example :
    (targets_v1_alpha1 (get_console_plugin_v1_alpha1 builder).proxy
      ≡ map target logging.spec.services)
    × (targets_v1 (get_console_plugin_v1 builder).proxy
        ≡ map some_target (map target logging.spec.services))
proxies_target_services_example = proxies_target_services builder

-- A type that the schema of the resource allows.
abbrev korrel8r : ObservabilityUiPlugin
korrel8r = record logging { spec = record logging.spec { type = "korrel8r" } }

from_obs_ui_plugin_iff_example :
    (((b : ConsolePluginBuilder) × (from_obs_ui_plugin korrel8r "ns" ≡ ok b))
      ↔ IsSupported "korrel8r")
    × (¬ IsSupported "korrel8r"
        → from_obs_ui_plugin korrel8r "ns" ≡ err (errorf ("invalid plugin type: " <> "korrel8r")))
from_obs_ui_plugin_iff_example = from_obs_ui_plugin_iff korrel8r "ns"

abbrev audit : ObservabilityUiPlugin
audit = record logging { meta = record logging.meta { name = "audit" } }

abbrev logging_builder : ConsolePluginBuilder
logging_builder = record builder {
  image = "quay.io/openshift-observability-ui/logging-view-plugin:v1";
}

logging_builds : from_obs_ui_plugin logging "ns" ≡ ok logging_builder
unfolding from_obs_ui_plugin
logging_builds = refl

audit_builds : from_obs_ui_plugin audit "ns" ≡ ok logging_builder
unfolding from_obs_ui_plugin
audit_builds = refl

names_by_type_example :
    (console_plugin_name logging_builder ≡ console_plugin_name logging_builder)
    ↔ (logging.spec.type ≡ audit.spec.type)
names_by_type_example =
    names_by_type logging audit "ns" logging_builder logging_builder logging_builds audit_builds

-- One goes on, and one asks for another run.
abbrev passes : FnWithRequest Unit
passes req s = (continue_reconciling, s)

abbrev asks : FnWithRequest Unit
asks req s = (requeue, s)

passes_and_asks-IsWellFormed : AllReturn IsWellFormed (passes ∷ asks ∷ [])
unfolding continue_reconciling requeue
passes_and_asks-IsWellFormed = (λ req s h. h) ▹ (λ req s h. refl) ▹ done

run_subreconcilers-Runs_example :
    (r : SubResult) × (t : Unit) × Runs request (passes ∷ asks ∷ []) tt r t
    × (run_subreconcilers (passes ∷ asks ∷ []) request tt ≡ (some (outcome_of r), t))
run_subreconcilers-Runs_example =
    run_subreconcilers-Runs request (passes ∷ asks ∷ []) tt passes_and_asks-IsWellFormed

passes_and_asks-Runs : Runs request (passes ∷ asks ∷ []) tt requeue tt
unfolding continue_reconciling requeue
passes_and_asks-Runs = passed refl (halted refl (λ h. cc h))

Runs-run_subreconcilers_example :
    run_subreconcilers (passes ∷ asks ∷ []) request tt ≡ (some (outcome_of requeue), tt)
Runs-run_subreconcilers_example =
    Runs-run_subreconcilers request passes_and_asks-IsWellFormed passes_and_asks-Runs
