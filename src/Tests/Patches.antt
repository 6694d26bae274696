-- ===== src/Tests/Patches.antt =====
-- The patches of the console at concrete lists of plugins.
use observability_ui_operato.Base.{
  none, ◌≢◌, ◌++◌, false, contains, true, arith, ℕ, String, ◌≡◌, refl, some, List, [], ◌∷◌,
  index_of,
}
use observability_ui_operato.Patches.{enable_patches, disable_patches}
use observability_ui_operato.Patches.Laws.{disable_patches_removes_first, Patches, enable_disable}
use observability_ui_operato.Patches.Stale.{stale_index_keeps_plugin}

abbrev monitoring : List String
monitoring = "monitoring-plugin" ∷ "other" ∷ []

abbrev with_hub : List String
with_hub = "monitoring-plugin" ∷ "other" ∷ "observability-ui-hub" ∷ []

enable_disable_example :
    Patches
      (some monitoring)
      (enable_patches (record { plugins = some monitoring }) "observability-ui-hub")
      (some with_hub)
    × (i : ℕ) × (index_of with_hub "observability-ui-hub" ≡ some i)
    × Patches
        (some with_hub)
        (disable_patches (record { plugins = some with_hub }) i)
        (some monitoring)
unfolding observability_ui_operato.Base.contains
enable_disable_example = enable_disable monitoring "observability-ui-hub" refl

stale_index_keeps_plugin_example :
    Patches
      (some monitoring)
      (disable_patches (record { plugins = some ("other" ∷ "monitoring-plugin" ∷ []) }) 0)
      (some ("other" ∷ []))
    × (contains ("other" ∷ []) "other" ≡ true)
unfolding observability_ui_operato.Base.index_of observability_ui_operato.Base.contains
stale_index_keeps_plugin_example =
    stale_index_keeps_plugin ("other" ∷ "monitoring-plugin" ∷ []) monitoring "other" 0 1 refl refl
      (λ e. omega (arith, e)) (omega arith)

disable_patches_removes_first_example :
    (before : List String) × (behind : List String) × (monitoring ≡ before ++ "other" ∷ behind)
    × (contains before "other" ≡ false)
    × Patches
        (some monitoring)
        (disable_patches (record { plugins = some monitoring }) 1)
        (some (before ++ behind))
unfolding observability_ui_operato.Base.index_of
disable_patches_removes_first_example = disable_patches_removes_first monitoring "other" 1 refl
