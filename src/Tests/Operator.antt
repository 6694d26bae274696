-- ===== src/Tests/Operator.antt =====
-- The operator's reconciler in the cluster in memory.
use mathlib.Core.List.{Sublistᴰ, reverse}
use observability_ui_operato.Base.{
  ◌≡◌, ◌≢◌, refl, ◌⊎◌, Option, some, none, List, [], ◌∷◌, contains, is_some, true, arith, ◌==◌,
  Bool-cases, inl, inr, map,
}
use observability_ui_operato.Attempt.{Error, ok, err, errorf}
use observability_ui_operato.Api.{
  NamespacedName, ObjectMeta, Request, ObservabilityUi, Condition, condition_false,
}
use observability_ui_operato.Api.Objects.{
  kind_of, console_plugin_kind, deployment_kind, service_kind, cluster_role_binding_kind,
  cluster_role_kind, service_account_kind,
}
use observability_ui_operato.Subreconciler.{
  Outcome, empty_result, run_subreconcilers, continue_reconciling, do_not_requeue, evaluate,
  should_halt_or_requeue,
}
use observability_ui_operato.Operator.{
  handle_delete, report_failure, latest, set_status_to_unknown, update_status,
}
use observability_ui_operato.Operator.Resources.{
  reconcile_service_account, reconcile_cluster_role, reconcile_cluster_role_binding,
  reconcile_service, reconcile_deployment, reconcile_console_plugin,
}
use observability_ui_operato.Operator.Register.{register_plugin_in_console}
use observability_ui_operato.Common.{get_observability_ui_namespace}
use observability_ui_operato.ConsolePlugin.{
  from_obs_ui, console_plugin_name, deployment_name, service_name,
}
use observability_ui_operato.ConsolePlugin.Objects.{
  get_service, get_deployment, get_console_plugin_v1,
}
use observability_ui_operato.Patches.{enable_patches}
use observability_ui_operato.Operator.Reconcile.{reconcile}
use observability_ui_operato.Operator.Reconcile.Safety.{reconcile_returns}
use observability_ui_operato.Operator.Reconcile.Order.{reconcile_in_order, creation_order}
use observability_ui_operato.Operator.Reconcile.Deletion.{ReadsMarked, deleted_writes_nothing}
use observability_ui_operato.Operator.Reconcile.Status.{NotFailed, NoneFailed, no_failure_reported}
use observability_ui_operato.Trace.{recording, Write, writes}
use observability_ui_operato.Operator.Converge.Whole.{
  Converged, reconcile_converges, reconcile_twice,
}
use observability_ui_operato.Tests.Store.{Store, store_client, hub_store}
use observability_ui_operato.Tests.Reliable.{reliable_store, hub_stored}
use observability_ui_operato.Operator.Reconcile.Swallowed.{create_failure_swallowed}
use observability_ui_operato.Client.{Owner}
use observability_ui_operato.Tests.Cluster.{
  owner_reference, Memory, empty_memory, cluster, Setting, setting, deleting, refusing, hub,
  request,
}

reconcile_returns_example :
    (o : Outcome) × ((reconcile (cluster setting) request empty_memory).0 ≡ some o)
    × ((o.0.requeue ≡ is_some o.1)
        ⊎ ((e : Error) × (((cluster setting).new_for_config empty_memory).0 ≡ err e)
            × (o ≡ (empty_result, some (errorf "creating openshift operator client")))))
reconcile_returns_example = reconcile_returns (cluster setting) request empty_memory

reconcile_in_order_example :
    (made : List Write) × (writes
        (reconcile (recording (cluster setting)) request (empty_memory, [])).1.1
      ≡ reverse made)
    × Sublistᴰ made creation_order
reconcile_in_order_example = reconcile_in_order (cluster setting) request empty_memory

-- The reads of the cluster of deleted resources.
deleting-ReadsMarked : ReadsMarked (cluster deleting)
deleting-ReadsMarked req s o e = ground (arith, e)

deleted_writes_nothing_example :
    writes (reconcile (recording (cluster deleting)) request (empty_memory, [])).1.1 ≡ []
deleted_writes_nothing_example =
    deleted_writes_nothing (cluster deleting) deleting-ReadsMarked request empty_memory

reads-NotFailed :
    (req : Request) (s : Memory) (o : ObservabilityUi)
    → ((cluster refusing).get_obs_ui req s).0 ≡ ok o
    → NotFailed o.status.conditions
reads-NotFailed req s o e = ground (arith, e)

set_status_condition-NotFailed :
    (cs : List Condition) (c : Condition) (s : Memory)
    → NotFailed cs
    → c.status ≢ condition_false
    → NotFailed ((cluster refusing).set_status_condition cs c s)
set_status_condition-NotFailed [] c s h n = (n, tt)
set_status_condition-NotFailed (x ∷ xs) c s (p, h) n = elim (Bool-cases (x.type == c.type)) [
  | inl e ↦ rw e (n, h)
  | inr e ↦ rw e (p, set_status_condition-NotFailed xs c s h n)
]

no_failure_reported_example :
    NoneFailed (reconcile (recording (cluster refusing)) request (empty_memory, [])).1.1
no_failure_reported_example =
    no_failure_reported (cluster refusing) reads-NotFailed set_status_condition-NotFailed request
      empty_memory

-- A run on an empty cluster.
first_run : Setting → Option Outcome × Memory
unfolding reconcile run_subreconcilers should_halt_or_requeue continue_reconciling do_not_requeue
    evaluate set_status_to_unknown latest handle_delete update_status report_failure
    reconcile_service_account reconcile_cluster_role reconcile_cluster_role_binding
    reconcile_service reconcile_deployment reconcile_console_plugin register_plugin_in_console
    from_obs_ui get_observability_ui_namespace console_plugin_name deployment_name service_name
    get_service get_deployment get_console_plugin_v1 enable_patches contains
first_run in_setting = reconcile (cluster in_setting) request empty_memory

-- The resources that a first run leaves.
first_run_creates :
    map kind_of (first_run setting).1.objects
    ≡ console_plugin_kind ∷ deployment_kind ∷ service_kind ∷ cluster_role_binding_kind
      ∷ cluster_role_kind ∷ service_account_kind ∷ []
unfolding first_run
first_run_creates = refl

first_run_registers : (first_run setting).1.console ≡ some ("observability-ui-hub" ∷ [])
unfolding first_run
first_run_registers = refl

first_run_returns : (first_run setting).0 ≡ some (empty_result, none)
unfolding first_run
first_run_returns = refl

-- A console plugin that cannot be created: the plugin is registered, and the run returns no error.
refused_run :
    ((first_run refusing).0 ≡ some (empty_result, none))
    × ((first_run refusing).1.console ≡ some ("observability-ui-hub" ∷ []))
unfolding first_run
refused_run = (refl, refl)

reconcile_converges_example :
    ((reconcile store_client request hub_store).0 ≡ some (empty_result, none))
    × Converged store_client reliable_store request hub_store
        (reconcile store_client request hub_store).1
reconcile_converges_example =
    reconcile_converges store_client reliable_store request hub hub_store hub_stored refl

abbrev converged_store : Store
converged_store = (reconcile store_client request hub_store).1

reconcile_twice_example :
    ((reconcile store_client request converged_store).0 ≡ some (empty_result, none))
    × (reliable_store.objects (reconcile store_client request converged_store).1
        ≡ reliable_store.objects converged_store)
    × (reliable_store.console (reconcile store_client request converged_store).1
        ≡ reliable_store.console converged_store)
reconcile_twice_example =
    reconcile_twice store_client reliable_store request hub hub_store hub_stored refl

refusing_finds :
    (n : NamespacedName) (s : Memory) (e : Error)
    → ((cluster refusing).get console_plugin_kind n s).0 ≡ err e
    → e.not_found ≡ true
refusing_finds n s e h = ground (arith, h)

-- The owner of the objects of the cluster.
abbrev owned_by : Owner → ObjectMeta → ObjectMeta
owned_by w m = record m { owner_references = owner_reference w ∷ m.owner_references }

create_failure_swallowed_example :
    (reconcile_console_plugin (cluster refusing) request empty_memory).0 ≡ continue_reconciling
create_failure_swallowed_example =
    create_failure_swallowed (cluster refusing) request (λ s. hub) (λ s. refl) (λ o s. o)
      (λ o s. refl) owned_by (λ w m. refl) refusing_finds empty_memory
