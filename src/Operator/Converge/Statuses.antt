-- ===== src/Operator/Converge/Statuses.antt =====
-- The statuses that the operator writes in a reliable cluster: the first and the last.
use observability_ui_operato.Base.{
  ◌<>◌, ◌≡◌, refl, arith, is_some, Bool-cases, inl, inr, false, some, List,
}
use observability_ui_operato.Attempt.{ok}
use observability_ui_operato.Api.{
  Request, ObservabilityUi, empty_obs_ui, condition_true, condition_unknown, Condition,
}
use observability_ui_operato.Common.{type_available_observability_ui}
use observability_ui_operato.Subreconciler.{continue_reconciling, do_not_requeue}
use observability_ui_operato.Client.{Client}
use observability_ui_operato.Operator.{
  set_status_to_unknown, update_status, has_no_conditions, available,
}
use observability_ui_operato.Operator.Converge.{latest-reliable}
use observability_ui_operato.Reliable.{IsReliable, key_of, status_of}
use observability_ui_operato.Operator.Converge.Run.{Ready}

module _ (C : Client) (R : IsReliable C) (req : Request) where
  -- What a status update leaves: the resource is there as it is stored, and nothing else changes.
  pub record Updated (s t : C.State) (set : List Condition) : Type 0 where
    pub stored : ObservabilityUi
    pub here : R.obs_uis t req ≡ some stored
    pub alive : is_some stored.meta.deletion_timestamp ≡ false
    pub conditions : stored.status.conditions ≡ set
    pub objects : R.objects t ≡ R.objects s
    pub console : R.console t ≡ R.console s

  abbrev with_conditions : ObservabilityUi → List Condition → ObservabilityUi
  with_conditions o conditions = record o { status = record { conditions = conditions } }

  pub updated :
      (o : ObservabilityUi) (s : C.State) (conditions : List Condition)
      → R.obs_uis s req ≡ some o
      → is_some o.meta.deletion_timestamp ≡ false
      → ((C.update_obs_ui_status (with_conditions o conditions) s).0
          ≡ ok (R.stored s (with_conditions o conditions)))
        × Updated s (C.update_obs_ui_status (with_conditions o conditions) s).1 conditions
  updated o s conditions here alive =
      let o' = with_conditions o conditions in
      let there : R.obs_uis s (key_of o'.meta) ≡ some o = rw (R.keyed_obs_ui req s o here) here in
      let (answered, now, status, deletion) = R.update_obs_ui_status s o' o there refl in
      (
        answered,
        record {
          stored = R.stored s o';
          here = rw (R.keyed_obs_ui req s o here) at now;
          alive = rw deletion alive;
          conditions = rw status;
          objects = R.update_obs_ui_status_objects s o';
          console = R.update_obs_ui_status_console s o';
        },
      )

  pub set_status_to_unknown_keeps :
      (s : C.State)
      → Ready C R req s
      → ((set_status_to_unknown C req s).0 ≡ continue_reconciling)
        × Ready C R req (set_status_to_unknown C req s).1
        × (R.objects (set_status_to_unknown C req s).1 ≡ R.objects s)
        × (R.console (set_status_to_unknown C req s).1 ≡ R.console s)
  unfolding set_status_to_unknown
  set_status_to_unknown_keeps s r =
      let o = r.obs_ui in
      let read = latest-reliable C R req o empty_obs_ui s r.here in
      let starting = available condition_unknown "Starting reconciliation" in
      let (answered, u) =
        updated o s (C.set_status_condition o.status.conditions starting s) r.here r.alive in
      elim (Bool-cases (has_no_conditions o)) [
        | inl none_yet ↦ (
          ground (arith, read, answered),
          record {
            obs_ui = u.stored;
            here = ground (arith, read, answered, u.here);
            alive = u.alive;
          },
          ground (arith, read, answered, u.objects),
          ground (arith, read, answered, u.console),
        )
        | inr some_yet ↦ (
          ground (arith, read),
          record { obs_ui = o; here = ground (arith, read, r.here); alive = r.alive },
          ground (arith, read),
          ground (arith, read),
        )
      ]

  pub update_status_lem :
      (o : ObservabilityUi) (s : C.State)
      → R.obs_uis s req ≡ some o
      → is_some o.meta.deletion_timestamp ≡ false
      → ((update_status C req s).0 ≡ do_not_requeue)
        × (o' : ObservabilityUi) × (R.obs_uis (update_status C req s).1 req ≡ some o')
        × (is_some o'.meta.deletion_timestamp ≡ false)
        × (status_of type_available_observability_ui o'.status.conditions ≡ some condition_true)
        × (R.objects (update_status C req s).1 ≡ R.objects s)
        × (R.console (update_status C req s).1 ≡ R.console s)
  unfolding update_status
  update_status_lem o s here alive =
      let read = latest-reliable C R req o empty_obs_ui s here in
      let created =
        available condition_true
          ("Resources for custom resource (" <> o.meta.name <> ") created successfully") in
      let (answered, u) =
        updated o s (C.set_status_condition o.status.conditions created s) here alive in
      (
        ground (arith, read, answered),
        u.stored,
        ground (arith, read, answered, u.here),
        u.alive,
        rw u.conditions (R.status_of-set o.status.conditions created s),
        ground (arith, read, answered, u.objects),
        ground (arith, read, answered, u.console),
      )
