-- ===== src/Tests/Access.antt =====
-- What runs in the cluster in memory ask for, and what the roles permit of it.
use observability_ui_operato.Base.{refl, []}
use observability_ui_operato.Operator.Reconcile
use observability_ui_operato.Plugins.Reconcile as PluginsReconcile
use observability_ui_operato.Access.Asking.{asking}
use observability_ui_operato.Access.Laws.{AllPermitted, runs_permitted}
use observability_ui_operato.Access.Marked.{marked_role_refuses}
use observability_ui_operato.Access.{manager_role, marked_role}
use observability_ui_operato.Tests.Cluster.{empty_memory, cluster, setting, request}

runs_permitted_example :
    AllPermitted manager_role
      (Reconcile.reconcile (asking (cluster setting)) request (empty_memory, [])).1.1
    × AllPermitted manager_role
        (PluginsReconcile.reconcile (asking (cluster setting)) request (empty_memory, [])).1.1
runs_permitted_example = runs_permitted (cluster setting) request empty_memory

marked_role_refuses_example :
    ¬ AllPermitted marked_role
      (PluginsReconcile.reconcile (asking (cluster setting)) request (empty_memory, [])).1.1
marked_role_refuses_example = marked_role_refuses (cluster setting) request empty_memory refl
