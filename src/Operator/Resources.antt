-- ===== src/Operator/Resources.antt =====
-- controllers/operator/observabilityui_controller.go: the sub-reconcilers that create a resource
-- where `Get` does not find it.
use observability_ui_operato.Base.{String, ◌<>◌, [], ◌∷◌}
use observability_ui_operato.Api.{Request, object_meta, empty_obs_ui}
use observability_ui_operato.Api.Objects.{
  service_account, cluster_role, cluster_role_binding, service, deployment, console_plugin_v1,
  service_account_kind, cluster_role_kind, cluster_role_binding_kind, service_kind, deployment_kind,
  console_plugin_kind,
}
use observability_ui_operato.Common.{get_observability_ui_namespace}
use observability_ui_operato.ConsolePlugin.{
  from_obs_ui, service_name, deployment_name, console_plugin_name,
}
use observability_ui_operato.ConsolePlugin.Objects.{
  get_service, get_deployment, get_console_plugin_v1,
}
use observability_ui_operato.Subreconciler.{SubResult, continue_reconciling, requeue_with_error}
use observability_ui_operato.Body.{
  Body, ◌>>=◌, ◌>>◌, pure, exit, call, or_return, on_error, when_absent, value_after, returned,
}
use observability_ui_operato.Client.{Client, owner_ui, controlled_by}
use observability_ui_operato.Operator.{latest, report_failure}

abbrev pub plugin_role : String
plugin_role = "observability-ui-plugin-editor"

module _ (C : Client) where
  unfoldable pub reconcile_service_account : Request → C.State → SubResult × C.State
  reconcile_service_account req = returned do
    obs_ui ← latest C req empty_obs_ui
    let default_namespace = get_observability_ui_namespace
    builder ← or_return (from_obs_ui obs_ui default_namespace) requeue_with_error
    let name = console_plugin_name builder
    found ←
        call (C.get service_account_kind (record { namespace = default_namespace; name = name }))
    when_absent found do
      let sa = service_account (record {
        meta = record (object_meta name default_namespace) { labels = ("app", name) ∷ [] };
      })
      sa ← or_return (controlled_by C (owner_ui obs_ui) sa) requeue_with_error
      created ← call (C.create sa)
      on_error created λ e. do
        report_failure C req obs_ui (
            "failed to create service account for (" <> obs_ui.meta.name <> "): (" <> e.message
            <> ")")
        exit (requeue_with_error e)
      _ ← or_return (controlled_by C (owner_ui obs_ui) (value_after sa created)) requeue_with_error
      pure tt
    pure continue_reconciling

  unfoldable pub reconcile_cluster_role : Request → C.State → SubResult × C.State
  reconcile_cluster_role req = returned do
    obs_ui ← latest C req empty_obs_ui
    found ← call (C.get cluster_role_kind (record { namespace = ""; name = plugin_role }))
    when_absent found do
      let cr = cluster_role (record {
        meta = object_meta plugin_role "";
        rules =
            record {
              api_groups = "observability-ui.openshift.io" ∷ [];
              verbs = "list" ∷ "get" ∷ "watch" ∷ "create" ∷ "patch" ∷ "update" ∷ "delete" ∷ [];
              resources = "observabilityuiplugins" ∷ [];
            }
            ∷ [];
      })
      cr ← or_return (controlled_by C (owner_ui obs_ui) cr) requeue_with_error
      created ← call (C.create cr)
      on_error created λ e. do
        report_failure C req obs_ui (
            "failed to create cluster role for (" <> obs_ui.meta.name <> "): (" <> e.message <> ")")
        exit (requeue_with_error e)
    pure continue_reconciling

  unfoldable pub reconcile_cluster_role_binding : Request → C.State → SubResult × C.State
  reconcile_cluster_role_binding req = returned do
    obs_ui ← latest C req empty_obs_ui
    let default_namespace = get_observability_ui_namespace
    builder ← or_return (from_obs_ui obs_ui default_namespace) requeue_with_error
    let name = console_plugin_name builder
    found ← call (C.get cluster_role_binding_kind (record { namespace = ""; name = name }))
    when_absent found do
      let crb = cluster_role_binding (record {
        meta = record (object_meta name "") { labels = ("app", name) ∷ [] };
        role_ref = record {
          api_group = "rbac.authorization.k8s.io";
          kind = "ClusterRole";
          name = plugin_role;
        };
        subjects =
            record { kind = "ServiceAccount"; name = name; namespace = default_namespace } ∷ [];
      })
      crb ← or_return (controlled_by C (owner_ui obs_ui) crb) requeue_with_error
      created ← call (C.create crb)
      on_error created λ e. do
        report_failure C req obs_ui (
            "failed to create cluster role binding for (" <> obs_ui.meta.name <> "): (" <> e.message
            <> ")")
        exit (requeue_with_error e)
    pure continue_reconciling

  unfoldable pub reconcile_service : Request → C.State → SubResult × C.State
  reconcile_service req = returned do
    obs_ui ← latest C req empty_obs_ui
    let default_namespace = get_observability_ui_namespace
    builder ← or_return (from_obs_ui obs_ui default_namespace) requeue_with_error
    found ←
        call (
          C.get service_kind
            (record { namespace = default_namespace; name = service_name builder }))
    when_absent found do
      let ser = service (get_service builder)
      ser ← or_return (controlled_by C (owner_ui obs_ui) ser) requeue_with_error
      created ← call (C.create ser)
      on_error created λ e. do
        report_failure C req obs_ui (
            "failed to create service for the custom resource " <> obs_ui.meta.name <> ": "
            <> e.message)
        exit (requeue_with_error e)
    pure continue_reconciling

  unfoldable pub reconcile_deployment : Request → C.State → SubResult × C.State
  reconcile_deployment req = returned do
    obs_ui ← latest C req empty_obs_ui
    let default_namespace = get_observability_ui_namespace
    builder ← or_return (from_obs_ui obs_ui default_namespace) requeue_with_error
    found ← call (
        C.get deployment_kind
          (record { namespace = default_namespace; name = deployment_name builder }))
    when_absent found do
      let dep = deployment (get_deployment builder)
      dep ← or_return (controlled_by C (owner_ui obs_ui) dep) requeue_with_error
      created ← call (C.create dep)
      on_error created λ e. do
        report_failure C req obs_ui (
            "failed to create deployment for the custom resource (" <> obs_ui.meta.name <> "): ("
            <> e.message <> ")")
        exit (requeue_with_error e)
    pure continue_reconciling

  -- Unlike the others, it does not return after a failed `Create` that it has reported.
  unfoldable pub console_plugin_body : Request → Body C.State SubResult
  console_plugin_body req = do
    obs_ui ← latest C req empty_obs_ui
    let default_namespace = get_observability_ui_namespace
    builder ← or_return (from_obs_ui obs_ui default_namespace) requeue_with_error
    found ←
        call (
          C.get console_plugin_kind (record { namespace = ""; name = console_plugin_name builder }))
    when_absent found do
      let cp = console_plugin_v1 (get_console_plugin_v1 builder)
      cp ← or_return (controlled_by C (owner_ui obs_ui) cp) requeue_with_error
      created ← call (C.create cp)
      on_error created λ e.
          report_failure C req obs_ui
            ("failed to create the console plugin " <> obs_ui.meta.name <> ": " <> e.message)
    pure continue_reconciling

  unfoldable pub reconcile_console_plugin : Request → C.State → SubResult × C.State
  unfolding console_plugin_body
  reconcile_console_plugin req = returned (console_plugin_body req)
