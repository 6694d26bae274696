-- ===== src/Access/Laws.antt =====
-- What the roles permit of what the two controllers ask of the API server.
use observability_ui_operato.Base.{◌≡◌, refl, true, List, [], ◌∷◌, ◌++◌, eq_refl}
use observability_ui_operato.Api.{Request}
use observability_ui_operato.Api.Objects.{
  PolicyRule, Kind, Object, service_account, cluster_role, cluster_role_binding, service,
  deployment, console_plugin_v1, console_plugin_v1_alpha1, service_account_kind, cluster_role_kind,
  cluster_role_binding_kind, service_kind, deployment_kind, console_plugin_kind,
}
use observability_ui_operato.Client.{Client}
use observability_ui_operato.Operator.Reconcile
use observability_ui_operato.Plugins.Reconcile as PluginsReconcile
use observability_ui_operato.Interleaving.Calls.{SharedCallsKeep, CallsKeep, IsCreated}
use observability_ui_operato.Operator.Resources.{plugin_role}
use observability_ui_operato.Interleaving.Hub.{hub_run_keeps}
use observability_ui_operato.Interleaving.Plugins.{plugins_run_keeps}
use observability_ui_operato.Access.Asking.{
  asking, asking_event, Asked, read, resource_of, creation,
}
use observability_ui_operato.Access.{Ask, permits, manager_role}

-- A role permits all that has been asked.
abbrev pub AllPermitted : List PolicyRule → List Ask → Type 0
AllPermitted role [] = Unit
AllPermitted role (a ∷ log) = (permits role a ≡ true) × AllPermitted role log

read_permitted :
    (k : Kind) (log : List Ask)
    → AllPermitted manager_role log
    → AllPermitted manager_role (read (resource_of k) ++ log)
unfolding permits
read_permitted service_account_kind log h = (refl, (refl, (refl, h)))
read_permitted cluster_role_kind log h = (refl, (refl, (refl, h)))
read_permitted cluster_role_binding_kind log h = (refl, (refl, (refl, h)))
read_permitted service_kind log h = (refl, (refl, (refl, h)))
read_permitted deployment_kind log h = (refl, (refl, (refl, h)))
read_permitted console_plugin_kind log h = (refl, (refl, (refl, h)))

creation_permitted :
    (x : Object) (log : List Ask)
    → IsCreated x
    → AllPermitted manager_role log
    → AllPermitted manager_role (creation x ++ log)
unfolding permits
creation_permitted (service_account x) log made h = (refl, h)
creation_permitted (cluster_role x) log made h =
    rw made (refl, (refl, (refl, (refl, (refl, (refl, (refl, (refl, h))))))))
creation_permitted (cluster_role_binding x) log made h =
    rw (made, eq_refl plugin_role) (refl, (refl, (refl, (refl, (refl, (refl, (refl, (refl, h))))))))
creation_permitted (service x) log made h = (refl, h)
creation_permitted (deployment x) log made h = (refl, h)
creation_permitted (console_plugin_v1_alpha1 x) log made h = (refl, h)
creation_permitted (console_plugin_v1 x) log made h = (refl, h)

module _ (C : Client) where
  abbrev Permitted : Asked C.State → Type 0
  Permitted s = AllPermitted manager_role s.1

  shared-Permitted : SharedCallsKeep (asking C) Permitted
  unfolding permits
  shared-Permitted = record {
    new_for_config = λ s h. h;
    get = λ k n s h. read_permitted k s.1 h;
    create = λ x s made h. creation_permitted x s.1 made h;
    get_console = λ s h. (refl, h);
    enabled = λ s console name bytes h got absent made. (refl, (refl, h));
  }

  all-Permitted : CallsKeep (asking C) Permitted
  unfolding permits
  all-Permitted = record {
    hub = record {
      shared = shared-Permitted;
      get_obs_ui = λ n s h. (refl, (refl, (refl, h)));
      update_obs_ui_status = λ o s h. (refl, h);
    };
    plugins = record {
      install = record {
        shared = shared-Permitted;
        get_obs_ui_plugin = λ n s h. (refl, (refl, (refl, h)));
        update_obs_ui_plugin_status = λ o s h. (refl, h);
      };
      update_obs_ui_plugin = λ o s h. (refl, h);
      disabled = λ s o b console i bytes h built got found made. (refl, (refl, h));
      recorded = λ event e o kind reason message s h.
          rw (asking_event C.recorder event e o kind reason message s) (refl, (refl, h));
    };
  }

  -- Whatever the world answers, the cluster role `manager-role` of config/rbac/role.yaml permits all
  -- that one run of either controller asks of the API server, with the list and the watch that a read
  -- through the manager's cache needs, and with what the cluster role and the binding that the hub
  -- controller creates confer.
  pub runs_permitted :
      (req : Request) (s : C.State)
      → AllPermitted manager_role (Reconcile.reconcile (asking C) req (s, [])).1.1
        × AllPermitted manager_role (PluginsReconcile.reconcile (asking C) req (s, [])).1.1
  runs_permitted req s = (
    hub_run_keeps (asking C) Permitted all-Permitted.hub req (s, []) tt,
    plugins_run_keeps (asking C) Permitted all-Permitted.plugins req (s, []) tt,
  )
