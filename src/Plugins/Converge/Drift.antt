-- ===== src/Plugins/Converge/Drift.antt =====
-- What a run of the controller of plugins does for a resource whose specification has changed, and
-- what the deletion of one resource does to another of the same type, in a reliable cluster.
use observability_ui_operato.Base.{
  String, ◌≡◌, ◌∙◌, is_some, false, some, elements, contains, index_of, Slice, Option-cases, inl,
  inr,
}
use observability_ui_operato.Api.{Request, ObservabilityUiPlugin}
use observability_ui_operato.Common.{get_observability_ui_namespace}
use observability_ui_operato.ConsolePlugin.{ConsolePluginBuilder, console_plugin_name}
use observability_ui_operato.ConsolePlugin.Builders.{names_by_type}
use observability_ui_operato.Client.{Client}
use observability_ui_operato.Plugins.Reconcile.{reconcile}
use observability_ui_operato.Reliable.{IsReliable}
use observability_ui_operato.Reliable.Stages.{Present, Present-same}
use observability_ui_operato.Interleaving.Entries.{
  NoDuplicates, not_contains-of_nowhere, not_contains-remove_first,
}
use observability_ui_operato.Plugins.Converge.{Built}
use observability_ui_operato.Plugins.Converge.Whole.{plugin_keys, plugins_reconcile_converges}
use observability_ui_operato.Plugins.Converge.Deletion.{
  Finalized, without_plugin, plugins_deletion_completes,
}

-- Builders for resources of one type have the same name.
same_name :
    (o p : ObservabilityUiPlugin) (b c : ConsolePluginBuilder)
    → Built o b
    → Built p c
    → o.spec.type ≡ p.spec.type
    → b.plugin_name ≡ c.plugin_name
unfolding console_plugin_name
same_name o p b c hb hc same = (names_by_type o p get_observability_ui_namespace b c hb hc).1 same

not_contains-without_plugin :
    (ps : Slice String) (name : String)
    → NoDuplicates (elements ps)
    → contains (elements (without_plugin ps name)) name ≡ false
not_contains-without_plugin ps name d = elim (Option-cases (index_of (elements ps) name)) [
  | inl nowhere ↦ rw (without_plugin, nowhere) (not_contains-of_nowhere (elements ps) name nowhere)
  | inr (i, found) ↦
      rw (without_plugin, found) (not_contains-remove_first (elements ps) name i d found)
]

module _ (C : Client) (R : IsReliable C) (req : Request) where
  -- In a reliable cluster, where a run for a plugin resource is followed by a change of the resource
  -- that keeps its type, such as another version or other services, and by another run, the second run
  -- leaves every object as it was: the change does not reach the deployment, the service or the console
  -- plugin. The resource is there, not marked for deletion and of a type that has a builder at both
  -- runs.
  pub spec_change_ignored :
      (o p : ObservabilityUiPlugin) (b c : ConsolePluginBuilder) (s u : C.State)
      → R.plugins s req ≡ some o
      → is_some o.meta.deletion_timestamp ≡ false
      → Built o b
      → R.objects u ≡ R.objects (reconcile C req s).1
      → R.plugins u req ≡ some p
      → is_some p.meta.deletion_timestamp ≡ false
      → Built p c
      → o.spec.type ≡ p.spec.type
      → R.objects (reconcile C req u).1 ≡ R.objects (reconcile C req s).1
  spec_change_ignored o p b c s u here alive built kept here' alive' built' same =
      let (_, first) = plugins_reconcile_converges C R req b o s here alive built in
      let (_, second) = plugins_reconcile_converges C R req c p u here' alive' built' in
      let there : Present C R (plugin_keys c) (reconcile C req s).1 =
        rw (← same_name o p b c built built' same) first.present in
      second.settled (Present-same C R (plugin_keys c) (reconcile C req s).1 u kept there) ∙ kept

  -- In a reliable cluster whose console has no plugin twice, a run that deletes a plugin resource which
  -- has the finalizer of the operator and no other takes the plugin of every other resource of the same
  -- type from the list of the console's plugins too.
  pub deletion_unregisters_type :
      (o p : ObservabilityUiPlugin) (b c : ConsolePluginBuilder) (s : C.State)
      → R.plugins s req ≡ some o
      → Finalized C R req o.meta.deletion_timestamp o.meta.finalizers
      → Built o b
      → Built p c
      → o.spec.type ≡ p.spec.type
      → NoDuplicates (elements (R.console s))
      → contains (elements (R.console (reconcile C req s).1)) c.plugin_name ≡ false
  deletion_unregisters_type o p b c s here finalized built built' same d =
      let (_, deleted) = plugins_deletion_completes C R req b o s here finalized built in
      rw (← same_name o p b c built built' same, deleted.console)
        (not_contains-without_plugin (R.console s) b.plugin_name d)
