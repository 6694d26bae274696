-- ===== src/Plugins/Converge/Statuses.antt =====
-- What the updates of a plugin resource leave in a reliable cluster, and the sub-reconcilers that
-- make them.
use observability_ui_operato.Base.{
  ◌<>◌, ◌≡◌, refl, arith, is_some, Bool-cases, inl, inr, false, some, List, String, Option, ℕ,
}
use observability_ui_operato.Attempt.{ok}
use observability_ui_operato.Api.{
  Request, ObservabilityUiPlugin, empty_obs_ui_plugin, condition_true, condition_unknown, Condition,
}
use observability_ui_operato.Common.{type_available_observability_ui, observability_ui_finalizer}
use observability_ui_operato.ConsolePlugin.{ConsolePluginBuilder}
use observability_ui_operato.Subreconciler.{SubResult, continue_reconciling}
use observability_ui_operato.Client.{Client}
use observability_ui_operato.Plugins.{
  set_status_to_unknown, add_finalizer, update_status, has_no_conditions, available,
  with_finalizers,
}
use observability_ui_operato.Plugins.Delete.{handle_delete}
use observability_ui_operato.Plugins.Converge.{Built, Built-spec, latest-reliable}
use observability_ui_operato.Reliable.Ensures.{Step}
use observability_ui_operato.Reliable.{IsReliable, key_of, status_of}

abbrev pub with_conditions : ObservabilityUiPlugin → List Condition → ObservabilityUiPlugin
with_conditions o conditions = record o { status = record { conditions = conditions } }

-- A resource that is not marked for deletion.
abbrev pub Alive : Option ℕ → List String → Type 0
Alive deletion finalizers = is_some deletion ≡ false

module _ (C : Client) (R : IsReliable C) (req : Request) where
  -- What an update leaves in a state: a resource that keeps what another one has of it, and all else.
  pub record Updated (o : ObservabilityUiPlugin) (s t : C.State) (p : ObservabilityUiPlugin)
      : Type 0 where
    pub here : R.plugins t req ≡ some p
    pub spec : p.spec ≡ o.spec
    pub deletion : p.meta.deletion_timestamp ≡ o.meta.deletion_timestamp
    pub finalizers : p.meta.finalizers ≡ o.meta.finalizers
    pub objects : R.objects t ≡ R.objects s
    pub console : R.console t ≡ R.console s

  pub status-Updated :
      (o : ObservabilityUiPlugin) (s : C.State) (conditions : List Condition)
      → R.plugins s req ≡ some o
      → ((C.update_obs_ui_plugin_status (with_conditions o conditions) s).0
          ≡ ok (R.stored_status s (with_conditions o conditions)))
        × ((R.stored_status s (with_conditions o conditions)).status.conditions ≡ conditions)
        × Updated o s
            (C.update_obs_ui_plugin_status (with_conditions o conditions) s).1
            (R.stored_status s (with_conditions o conditions))
  status-Updated o s conditions here =
      let o' = with_conditions o conditions in
      let keyed = R.keyed_plugin req s o here in
      let there : R.plugins s (key_of o'.meta) ≡ some o = rw keyed here in
      let (answered, now, status, spec, deletion, finalizers) =
        R.update_obs_ui_plugin_status s o' o there refl in
      (
        answered,
        rw status,
        record {
          here = rw keyed at now;
          spec = spec;
          deletion = deletion;
          finalizers = finalizers;
          objects = R.update_obs_ui_plugin_status_objects s o';
          console = R.update_obs_ui_plugin_status_console s o';
        },
      )

  -- A resource that is written as it was read stays what it was.
  resource-Updated :
      (o : ObservabilityUiPlugin) (s : C.State)
      → R.plugins s req ≡ some o
      → is_some o.meta.deletion_timestamp ≡ false
      → ((C.update_obs_ui_plugin o s).0 ≡ ok (R.stored_resource s o))
        × Updated o s (C.update_obs_ui_plugin o s).1 (R.stored_resource s o)
  resource-Updated o s here alive =
      let keyed = R.keyed_plugin req s o here in
      let there : R.plugins s (key_of o.meta) ≡ some o = rw keyed here in
      let (answered, kept, _) = R.update_obs_ui_plugin s o o there refl in
      let (now, status, spec, deletion, finalizers) = kept alive in
      (
        answered,
        record {
          here = rw keyed at now;
          spec = spec;
          deletion = deletion;
          finalizers = finalizers;
          objects = R.update_obs_ui_plugin_objects s o;
          console = R.update_obs_ui_plugin_console s o;
        },
      )

  -- The plugin resource is there and has a builder, and its mark of a deletion and its finalizers are
  -- as they should be.
  pub record Ready (Kept : Option ℕ → List String → Type 0) (b : ConsolePluginBuilder) (s : C.State)
      : Type 0 where
    pub plugin : ObservabilityUiPlugin
    pub here : R.plugins s req ≡ some plugin
    pub kept : Kept plugin.meta.deletion_timestamp plugin.meta.finalizers
    pub built : Built plugin b

  module _ (Kept : Option ℕ → List String → Type 0) (b : ConsolePluginBuilder) where
    pub Ready-same : (s t : C.State) → R.plugins t ≡ R.plugins s → Ready Kept b s → Ready Kept b t
    Ready-same s t same r = record {
      plugin = r.plugin;
      here = rw same r.here;
      kept = r.kept;
      built = r.built;
    }

    pub Ready-Step : (s t : C.State) → Step C R s t → Ready Kept b s → Ready Kept b t
    Ready-Step s t step r = Ready-same s t step.plugins r

    -- A sub-reconciler that goes on, and keeps the resource, the objects and the console.
    abbrev pub Passes : C.State → (SubResult × C.State) → Type 0
    Passes s x =
        (x.0 ≡ continue_reconciling)
        × Ready Kept b x.1
        × (R.objects x.1 ≡ R.objects s)
        × (R.console x.1 ≡ R.console s)

    left-Updated :
        (s t : C.State) (r : Ready Kept b s) (p : ObservabilityUiPlugin) (x : SubResult × C.State)
        → Updated r.plugin s t p
        → x ≡ (continue_reconciling, t)
        → (x.0 ≡ continue_reconciling)
          × ((r' : Ready Kept b x.1) × (r'.plugin ≡ p))
          × (R.objects x.1 ≡ R.objects s)
          × (R.console x.1 ≡ R.console s)
    left-Updated s t r p x u e =
        let ready : Ready Kept b t = record {
          plugin = p;
          here = u.here;
          kept = rw (u.deletion, u.finalizers) r.kept;
          built = Built-spec r.plugin p b u.spec r.built;
        } in
        rw e (refl, (ready, refl), u.objects, u.console)

    Passes-Updated :
        (s t : C.State) (r : Ready Kept b s) (p : ObservabilityUiPlugin) (x : SubResult × C.State)
        → Updated r.plugin s t p
        → x ≡ (continue_reconciling, t)
        → Passes s x
    Passes-Updated s t r p x u e =
        let (goes_on, (ready, _), objects, console) = left-Updated s t r p x u e in
        (goes_on, ready, objects, console)

    pub Passes-same :
        (s : C.State) (x : SubResult × C.State)
        → Ready Kept b s
        → x ≡ (continue_reconciling, s)
        → Passes s x
    Passes-same s x r e = rw e (refl, r, refl, refl)

    pub set_status_to_unknown_keeps :
        (s : C.State) → Ready Kept b s → Passes s (set_status_to_unknown C req s)
    unfolding set_status_to_unknown
    set_status_to_unknown_keeps s r =
        let o = r.plugin in
        let read = latest-reliable C R req o empty_obs_ui_plugin s r.here in
        let starting = available condition_unknown "Starting reconciliation" in
        let (answered, _, u) =
          status-Updated o s (C.set_status_condition o.status.conditions starting s) r.here in
        elim (Bool-cases (has_no_conditions o)) [
          | inl none_yet ↦ Passes-Updated s _ r _ _ u (ground (arith, read, none_yet, answered))
          | inr some_yet ↦ Passes-same s _ r (ground (arith, read, some_yet))
        ]

    pub update_status_lem :
        (s : C.State) (r : Ready Kept b s)
        → ((update_status C req s).0 ≡ continue_reconciling)
          × ((r' : Ready Kept b (update_status C req s).1) × (status_of
                  type_available_observability_ui r'.plugin.status.conditions
                ≡ some condition_true))
          × (R.objects (update_status C req s).1 ≡ R.objects s)
          × (R.console (update_status C req s).1 ≡ R.console s)
    unfolding update_status
    update_status_lem s r =
        let o = r.plugin in
        let read = latest-reliable C R req o empty_obs_ui_plugin s r.here in
        let created =
          available condition_true
            ("Resources for custom resource (" <> o.meta.name <> ") created successfully") in
        let (answered, conditions, u) =
          status-Updated o s (C.set_status_condition o.status.conditions created s) r.here in
        let (goes_on, (r', same), objects, console) =
          left-Updated s _ r _ (update_status C req s) u (ground (arith, read, answered)) in
        (
          goes_on,
          (r', rw (same, conditions) (R.status_of-set o.status.conditions created s)),
          objects,
          console,
        )

  module _ (b : ConsolePluginBuilder) where
    pub add_finalizer_keeps :
        (s : C.State) → Ready Alive b s → Passes Alive b s (add_finalizer C req s)
    unfolding add_finalizer
    add_finalizer_keeps s r =
        let o = r.plugin in
        let fs = o.meta.finalizers in
        let f = observability_ui_finalizer in
        let read = latest-reliable C R req o empty_obs_ui_plugin s r.here in
        let read' =
          latest-reliable C R req o (with_finalizers C o (C.add_finalizer fs f).0) s r.here in
        let (answered, u) = resource-Updated o s r.here r.kept in
        elim (Bool-cases (C.contains_finalizer fs f)) [
          | inl there ↦ Passes-same Alive b s _ r (ground (arith, read, there))
          | inr absent ↦
              Passes-Updated Alive b s _ r _ _ u
                (ground (arith, read, absent, R.add_finalizer fs f absent, read', answered))
        ]

    pub handle_delete_keeps :
        (s : C.State) → Ready Alive b s → Passes Alive b s (handle_delete C req s)
    unfolding handle_delete
    handle_delete_keeps s r =
        Passes-same Alive b s _ r
          (ground (arith, latest-reliable C R req r.plugin empty_obs_ui_plugin s r.here, r.kept))
