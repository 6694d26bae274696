-- ===== src/Tests/Interleavings.antt =====
-- An interleaving of the two controllers in the cluster that stores all.
use observability_ui_operato.Base.{
  ◌≡◌, ◌≢◌, refl, none, true, [], elements, contains, inl, inr, eq_iff,
}
use observability_ui_operato.Api.Objects.{service_kind}
use observability_ui_operato.Operator.Register as HubRegister
use observability_ui_operato.Operator.Reconcile.{reconcile}
use observability_ui_operato.Operator.Converge.Hub.{hub_name, namespaced}
use observability_ui_operato.Operator.Converge.Whole.{hub_keys, reconcile_converges}
use observability_ui_operato.Plugins.Register.{register_plugin_in_console}
use observability_ui_operato.Reliable.Stages.{Present}
use observability_ui_operato.Interleaving.{Reaches, here, next, hub_step, plugins_step}
use observability_ui_operato.Interleaving.Cluster.{IsPluginName}
use observability_ui_operato.Interleaving.Entries.{NoDuplicates}
use observability_ui_operato.Interleaving.Laws.{
  interleaved-NoDuplicates, interleaved_keeps_entries, hub_stays_installed,
}
use observability_ui_operato.Tests.Cluster.{hub, request}
use observability_ui_operato.Tests.Store.{Store, store_client, hub_store, logging_request}
use observability_ui_operato.Tests.Reliable.{
  reliable_store, hub_stored, hub_store-NoDuplicates, hub_store-contains, without_hub_resources,
}

-- The hub is registered, then the plugin.
abbrev first_state : Store
first_state = (HubRegister.register_plugin_in_console store_client request hub_store).1

abbrev second_state : Store
second_state = (register_plugin_in_console store_client logging_request first_state).1

two_steps : Reaches store_client reliable_store hub_store second_state
two_steps =
    next (next here (hub_step 8 _ request refl refl)) (plugins_step 6 _ logging_request refl refl)

interleaved-NoDuplicates_example : NoDuplicates (elements (reliable_store.console second_state))
interleaved-NoDuplicates_example =
    interleaved-NoDuplicates store_client reliable_store hub_store second_state two_steps
      hub_store-NoDuplicates

other-not_plugin : ¬ IsPluginName "other"
other-not_plugin = elim [
  | inl e ↦ cc ((eq_iff "other" "logging-view-plugin").1 e)
  | inr e ↦ cc ((eq_iff "other" "dashboards-console-plugin").1 e)
]

interleaved_keeps_entries_example :
    contains (elements (reliable_store.console second_state)) "other" ≡ true
interleaved_keeps_entries_example =
    interleaved_keeps_entries store_client reliable_store hub_store second_state "other" two_steps
      other-not_plugin hub_store-contains

-- The hub's run, and after it the removal of the hub resource by the user and a step of the other
-- controller.
abbrev installed_store : Store
installed_store = (reconcile store_client request hub_store).1

abbrev edited_store : Store
edited_store = record installed_store { obs_uis = [] }

abbrev last_store : Store
last_store = (register_plugin_in_console store_client logging_request edited_store).1

-- The service of the hub, which its run has created.
service_installed : reliable_store.objects installed_store service_kind (namespaced hub_name) ≢ none
service_installed =
    let (_, converged) =
      reconcile_converges store_client reliable_store request hub hub_store hub_stored refl in
    let (_, (_, (there, _))) = converged.present in there

edit_and_step : Reaches store_client reliable_store installed_store last_store
edit_and_step =
    next (next here (without_hub_resources installed_store))
      (plugins_step 6 _ logging_request refl refl)

hub_stays_installed_example :
    Present store_client reliable_store hub_keys last_store
    × (contains (elements (reliable_store.console last_store)) hub_name ≡ true)
hub_stays_installed_example =
    hub_stays_installed store_client reliable_store request hub hub_store last_store hub_stored refl
      edit_and_step
