-- ===== src/Operator/Converge/Resources.antt =====
-- In a reliable cluster each of the sub-reconcilers of the operator leaves its resource in place.
use observability_ui_operato.Base.{◌≡◌, refl, arith, some}
use observability_ui_operato.Api.{Request, ObservabilityUi, empty_obs_ui}
use observability_ui_operato.Api.Objects.{
  service, deployment, console_plugin_v1, service_account_kind, cluster_role_kind,
  cluster_role_binding_kind, service_kind, deployment_kind, console_plugin_kind, meta_of,
}
use observability_ui_operato.ConsolePlugin.Objects.{
  get_service, get_deployment, get_console_plugin_v1,
}
use observability_ui_operato.Client.{Client, owner_ui}
use observability_ui_operato.Operator.Resources.{
  plugin_role, reconcile_service_account, reconcile_cluster_role, reconcile_cluster_role_binding,
  reconcile_service, reconcile_deployment, reconcile_console_plugin,
}
use observability_ui_operato.Operator.Converge.{latest-reliable}
use observability_ui_operato.Reliable.Ensures.{Ensures, Ensures-of_cases, owned_object}
use observability_ui_operato.Reliable.{IsReliable}
use observability_ui_operato.Operator.Converge.Hub.{
  hub_name, namespaced, cluster_wide, hub_service_account, hub_cluster_role,
  hub_cluster_role_binding, HubBuilder,
}

module _ (C : Client) (R : IsReliable C) where
  module _ (req : Request) (o : ObservabilityUi) (s : C.State) (here : R.obs_uis s req ≡ some o)
      (B : HubBuilder o) where
    pub service_account_ensured :
        Ensures C R service_account_kind (namespaced hub_name) s (reconcile_service_account C req s)
    unfolding reconcile_service_account
    service_account_ensured =
        Ensures-of_cases C R (reconcile_service_account C req) (owner_ui o) hub_service_account
          (namespaced hub_name) s refl
          (λ y e. ground (
            arith,
            latest-reliable C R req o empty_obs_ui s here,
            B.built,
            B.name,
            R.get service_account_kind (namespaced hub_name) s,
          ))
          (λ e made. ground (
            arith,
            latest-reliable C R req o empty_obs_ui s here,
            B.built,
            B.name,
            R.get service_account_kind (namespaced hub_name) s,
            R.missing_not_found,
            R.set_controller_reference (owner_ui o) (meta_of hub_service_account),
            R.set_controller_reference (owner_ui o)
                (meta_of (R.created (owned_object C R (owner_ui o) hub_service_account))),
          ))

    pub cluster_role_ensured :
        Ensures C R cluster_role_kind (cluster_wide plugin_role) s (reconcile_cluster_role C req s)
    unfolding reconcile_cluster_role
    cluster_role_ensured =
        Ensures-of_cases C R (reconcile_cluster_role C req) (owner_ui o) hub_cluster_role
          (cluster_wide plugin_role) s refl
          (λ y e. ground (
            arith,
            latest-reliable C R req o empty_obs_ui s here,
            R.get cluster_role_kind (cluster_wide plugin_role) s,
          ))
          (λ e made. ground (
            arith,
            latest-reliable C R req o empty_obs_ui s here,
            R.get cluster_role_kind (cluster_wide plugin_role) s,
            R.missing_not_found,
            R.set_controller_reference (owner_ui o) (meta_of hub_cluster_role),
          ))

    pub cluster_role_binding_ensured :
        Ensures C R cluster_role_binding_kind
          (cluster_wide hub_name)
          s
          (reconcile_cluster_role_binding C req s)
    unfolding reconcile_cluster_role_binding
    cluster_role_binding_ensured =
        Ensures-of_cases C R (reconcile_cluster_role_binding C req) (owner_ui o)
          hub_cluster_role_binding (cluster_wide hub_name) s refl
          (λ y e. ground (
            arith,
            latest-reliable C R req o empty_obs_ui s here,
            B.built,
            B.name,
            R.get cluster_role_binding_kind (cluster_wide hub_name) s,
          ))
          (λ e made. ground (
            arith,
            latest-reliable C R req o empty_obs_ui s here,
            B.built,
            B.name,
            R.get cluster_role_binding_kind (cluster_wide hub_name) s,
            R.missing_not_found,
            R.set_controller_reference (owner_ui o) (meta_of hub_cluster_role_binding),
          ))

    pub service_ensured :
        Ensures C R service_kind (namespaced hub_name) s (reconcile_service C req s)
    unfolding reconcile_service
    service_ensured =
        Ensures-of_cases C R (reconcile_service C req) (owner_ui o)
          (service (get_service B.builder)) (namespaced hub_name) s B.service_key
          (λ y e. ground (
            arith,
            latest-reliable C R req o empty_obs_ui s here,
            B.built,
            B.service_named,
            R.get service_kind (namespaced hub_name) s,
          ))
          (λ e made. ground (
            arith,
            latest-reliable C R req o empty_obs_ui s here,
            B.built,
            B.service_named,
            R.get service_kind (namespaced hub_name) s,
            R.missing_not_found,
            R.set_controller_reference (owner_ui o) (meta_of (service (get_service B.builder))),
          ))

    pub deployment_ensured :
        Ensures C R deployment_kind (namespaced hub_name) s (reconcile_deployment C req s)
    unfolding reconcile_deployment
    deployment_ensured =
        Ensures-of_cases C R (reconcile_deployment C req) (owner_ui o)
          (deployment (get_deployment B.builder)) (namespaced hub_name) s B.deployment_key
          (λ y e. ground (
            arith,
            latest-reliable C R req o empty_obs_ui s here,
            B.built,
            B.deployment_named,
            R.get deployment_kind (namespaced hub_name) s,
          ))
          (λ e made. ground (
            arith,
            latest-reliable C R req o empty_obs_ui s here,
            B.built,
            B.deployment_named,
            R.get deployment_kind (namespaced hub_name) s,
            R.missing_not_found,
            R.set_controller_reference (owner_ui o)
                (meta_of (deployment (get_deployment B.builder))),
          ))

    pub console_plugin_ensured :
        Ensures C R console_plugin_kind (cluster_wide hub_name) s (reconcile_console_plugin C req s)
    unfolding reconcile_console_plugin
    console_plugin_ensured =
        Ensures-of_cases C R (reconcile_console_plugin C req) (owner_ui o)
          (console_plugin_v1 (get_console_plugin_v1 B.builder)) (cluster_wide hub_name) s
          B.console_plugin_key
          (λ y e. ground (
            arith,
            latest-reliable C R req o empty_obs_ui s here,
            B.built,
            B.name,
            R.get console_plugin_kind (cluster_wide hub_name) s,
          ))
          (λ e made. ground (
            arith,
            latest-reliable C R req o empty_obs_ui s here,
            B.built,
            B.name,
            R.get console_plugin_kind (cluster_wide hub_name) s,
            R.missing_not_found,
            R.set_controller_reference (owner_ui o)
                (meta_of (console_plugin_v1 (get_console_plugin_v1 B.builder))),
          ))
