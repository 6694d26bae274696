-- ===== src/Operator/Converge.antt =====
-- The sub-reconcilers of the operator in a reliable cluster. The resources are in `Resources`, the
-- stages of a run in `Run`, `Statuses` and `Registration`, and the whole run in `Whole`.
pub mod Hub
pub mod Resources
pub mod Run
pub mod Statuses
pub mod Registration
pub mod Whole
pub mod Faults
pub mod Worker
use observability_ui_operato.Base.{
  String, ◌≡◌, ◌≢◌, refl, ◌∙◌, ap, arith, inl, inr, Option, some, none, Option-cases, List, [], ◌∷◌,
  ◌⊎◌, true,
}
use observability_ui_operato.Attempt.{ok, err}
use observability_ui_operato.Api.{
  Request, NamespacedName, ObservabilityUi, empty_obs_ui, object_meta,
}
use observability_ui_operato.Api.Objects.{
  Kind, Object, service, kind_of, meta_of, with_meta, service_kind,
}
use observability_ui_operato.Common.{get_observability_ui_namespace}
use observability_ui_operato.ConsolePlugin.{from_obs_ui, service_name, ConsolePluginBuilder}
use observability_ui_operato.ConsolePlugin.Objects.{get_service}
use observability_ui_operato.Subreconciler.{
  SubResult, continue_reconciling, do_not_requeue, requeue_with_error, should_halt_or_requeue,
}
use observability_ui_operato.Body.{Body, proceed}
use observability_ui_operato.Client.{Client, owner_ui}
use observability_ui_operato.Operator.{latest}
use observability_ui_operato.Operator.Resources.{reconcile_service}
use observability_ui_operato.Reliable.{IsReliable, key_of, answer}

module _ (C : Client) (R : IsReliable C) where
  latest-reliable :
      (req : Request) (o p : ObservabilityUi) (s : C.State)
      → R.obs_uis s req ≡ some o
      → latest C req p s ≡ (proceed o, s)
  unfolding latest should_halt_or_requeue continue_reconciling
  latest-reliable req o p s h = ground (arith, R.get_obs_ui req s)
