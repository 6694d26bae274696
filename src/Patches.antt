-- ===== src/Patches.antt =====
-- The JSON patches by which both controllers enable a plugin in the console, and the one by which
-- the controller of plugins disables it: `jsonPatch`, and the `patches` of
-- `registerPluginInConsole` and `doFinalizerOperationsForObservabilityUI`.
pub mod Laws
pub mod Stale
use observability_ui_operato.Base.{ℕ, String, ◌<>◌, none, some, [], ◌∷◌, Slice}
use observability_ui_operato.Base.Format.{decimal}
use observability_ui_operato.Client.{Console, JsonPatch, text, texts}

abbrev pub cluster_console : String
cluster_console = "cluster"

unfoldable pub enable_patches : Console → String → Slice JsonPatch
enable_patches console name = elim console.plugins [
  | none ↦
      some (record { op = "add"; path = "/spec/plugins"; value = some (texts (name ∷ [])) } ∷ [])
  | some plugins ↦
      some (record { op = "add"; path = "/spec/plugins/-"; value = some (text name) } ∷ [])
]

unfoldable pub disable_patches : Console → ℕ → Slice JsonPatch
disable_patches console index = elim console.plugins [
  | none ↦ none
  | some plugins ↦
      some (record { op = "remove"; path = "/spec/plugins/" <> decimal index; value = none } ∷ [])
]
