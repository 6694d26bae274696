-- ===== src/Operator/Converge/Run.antt =====
-- What holds of the hub resource all along a run of the operator in a reliable cluster.
use observability_ui_operato.Base.{◌≡◌, arith, is_some, false, some, refl}
use observability_ui_operato.Api.{Request, ObservabilityUi, empty_obs_ui}
use observability_ui_operato.Subreconciler.{continue_reconciling}
use observability_ui_operato.Client.{Client}
use observability_ui_operato.Operator.{handle_delete}
use observability_ui_operato.Operator.Converge.{latest-reliable}
use observability_ui_operato.Reliable.Ensures.{Step}
use observability_ui_operato.Reliable.{IsReliable}

module _ (C : Client) (R : IsReliable C) (req : Request) where
  -- The hub resource is there, and not marked for deletion.
  pub record Ready (s : C.State) : Type 0 where
    pub obs_ui : ObservabilityUi
    pub here : R.obs_uis s req ≡ some obs_ui
    pub alive : is_some obs_ui.meta.deletion_timestamp ≡ false

  pub Ready-same : (s t : C.State) → R.obs_uis t ≡ R.obs_uis s → Ready s → Ready t
  Ready-same s t same r = record { obs_ui = r.obs_ui; here = rw same r.here; alive = r.alive }

  pub Ready-Step : (s t : C.State) → Step C R s t → Ready s → Ready t
  Ready-Step s t step r = Ready-same s t step.obs_uis r

  handle_delete_passes : (s : C.State) → Ready s → handle_delete C req s ≡ (continue_reconciling, s)
  unfolding handle_delete
  handle_delete_passes s r =
      ground (arith, r.alive, latest-reliable C R req r.obs_ui empty_obs_ui s r.here)

  pub handle_delete_keeps :
      (s : C.State)
      → Ready s
      → ((handle_delete C req s).0 ≡ continue_reconciling)
        × Ready (handle_delete C req s).1
        × (R.objects (handle_delete C req s).1 ≡ R.objects s)
        × (R.console (handle_delete C req s).1 ≡ R.console s)
  handle_delete_keeps s r = rw (handle_delete_passes s r) (refl, r, refl, refl)
