-- ===== src/Plugins/Converge/Deletion.antt =====
-- A run of the controller of plugins in a reliable cluster, for a resource that is marked for deletion
-- and has the finalizer of the operator and no other.
use observability_ui_operato.Base.{
  String, ℕ, ◌<>◌, ◌≡◌, refl, ◌∙◌, ap, arith, is_some, true, inl, inr, Option, Option-cases, some,
  none, List, [], ◌∷◌, Slice, elements, index_of,
}
use observability_ui_operato.Attempt.{ok}
use observability_ui_operato.Api.{
  Request, ObservabilityUiPlugin, empty_obs_ui_plugin, condition_true, condition_unknown, Condition,
}
use observability_ui_operato.Common.{observability_ui_finalizer, type_degraded_observability_ui}
use observability_ui_operato.ConsolePlugin.{ConsolePluginBuilder, console_plugin_name}
use observability_ui_operato.Subreconciler.{SubResult, FnWithRequest, empty_result, do_not_requeue}
use observability_ui_operato.Client.{Client}
use observability_ui_operato.Patches.{disable_patches}
use observability_ui_operato.Patches.Laws.{remove_at, disable_patches-apply}
use observability_ui_operato.Plugins.{
  update_status, add_finalizer, plugin_condition, with_finalizers,
}
use observability_ui_operato.Plugins.Delete.{
  record_deleting, do_finalizer_operations, handle_delete,
}
use observability_ui_operato.Plugins.Register.{register_plugin_in_console}
use observability_ui_operato.Plugins.Resources.{
  reconcile_deployment, reconcile_service, reconcile_console_plugin,
}
use observability_ui_operato.Plugins.Reconcile.{reconcile, subreconcilers}
use observability_ui_operato.Reliable.{IsReliable, key_of, without}
use observability_ui_operato.Reliable.Stages.{stops, Stage, passed, begin}
use observability_ui_operato.Plugins.Converge.{Built, Built-spec, latest-reliable}
use observability_ui_operato.Plugins.Converge.Statuses.{
  Ready, Passes, Passes-same, status-Updated, with_conditions, set_status_to_unknown_keeps,
}
use observability_ui_operato.Plugins.Converge.Whole.{reconcile_lem}

-- The list of the console's plugins without the first occurrence of a plugin.
abbrev pub without_plugin : Slice String → String → Slice String
without_plugin plugins name = elim (index_of (elements plugins) name) [
  | none ↦ plugins
  | some i ↦ some (remove_at (elements plugins) i)
]

-- The conditions that `handleDelete` sets before the finalizer operations and after them.
abbrev finalizing : ObservabilityUiPlugin → Condition
finalizing o =
    plugin_condition type_degraded_observability_ui condition_unknown "Finalizing"
      ("performing finalizer operations for the custom resource: " <> o.meta.name <> " ")

abbrev finalized : ObservabilityUiPlugin → Condition
finalized o = plugin_condition type_degraded_observability_ui condition_true "Finalizing" (
    "finalizer operations for custom resource " <> o.meta.name
    <> " name were successfully accomplished")

module _ (C : Client) (R : IsReliable C) where
  -- What the finalizer operations leave.
  pub record Unregistered (name : String) (s t : C.State) : Type 0 where
    pub plugins : R.plugins t ≡ R.plugins s
    pub objects : R.objects t ≡ R.objects s
    pub console : R.console t ≡ without_plugin (R.console s) name

  recorded :
      (o : ObservabilityUiPlugin) (s : C.State)
      → (R.plugins (record_deleting C o s) ≡ R.plugins s)
        × (R.objects (record_deleting C o s) ≡ R.objects s)
        × (R.console (record_deleting C o s) ≡ R.console s)
  recorded o s = elim (Option-cases C.recorder) [
    | inl none_set ↦ rw none_set (refl, refl, refl)
    | inr (event, e) ↦ rw e (R.recorded event e o "Warning" "Deleting" _ s)
  ]

  -- The state that the patch leaves, where the plugin is in the list.
  abbrev patched_away : String → C.State → C.State
  patched_away name s = elim (index_of (elements (R.console s)) name) [
    | none ↦ s
    | some i ↦ R.patched s (disable_patches (record { plugins = R.console s }) i)
  ]

  patched_away-Unregistered :
      (name : String) (s : C.State) → Unregistered name s (patched_away name s)
  patched_away-Unregistered name s = elim (Option-cases (index_of (elements (R.console s)) name)) [
    | inl nowhere ↦ record {
      plugins = rw (patched_away, nowhere);
      objects = rw (patched_away, nowhere);
      console = rw (patched_away, without_plugin, nowhere);
    }
    | inr (i, found) ↦
        let ps = disable_patches (record { plugins = R.console s }) i in
        record {
          plugins = rw (patched_away, found) (R.patched_plugins s ps);
          objects = rw (patched_away, found) (R.patched_objects s ps);
          console =
              rw (patched_away, without_plugin, found)
                ((R.patch_console s ps _ (disable_patches-apply (R.console s) name i found)).2);
        }
  ]

  operations_lem :
      (o : ObservabilityUiPlugin) (b : ConsolePluginBuilder) (s : C.State)
      → Built o b
      → do_finalizer_operations C o s ≡ patched_away b.plugin_name (record_deleting C o s)
  unfolding do_finalizer_operations console_plugin_name
  operations_lem o b s built =
      let t = record_deleting C o s in
      elim (Option-cases (index_of (elements (R.console t)) b.plugin_name)) [
        | inl nowhere ↦ ground (arith, built, R.get_console t, nowhere)
        | inr (i, found) ↦
            let ps = disable_patches (record { plugins = R.console t }) i in
            let (c, done, _) =
              R.patch_console t ps _ (disable_patches-apply (R.console t) b.plugin_name i found) in
            ground (arith, built, R.get_console t, found, R.marshal ps, done)
      ]

  pub do_finalizer_operations-Unregistered :
      (o : ObservabilityUiPlugin) (b : ConsolePluginBuilder) (s : C.State)
      → Built o b
      → Unregistered b.plugin_name s (do_finalizer_operations C o s)
  do_finalizer_operations-Unregistered o b s built =
      let (plugins, objects, console) = recorded o s in
      let u = patched_away-Unregistered b.plugin_name (record_deleting C o s) in
      rw (operations_lem o b s built) (record {
        plugins = u.plugins ∙ plugins;
        objects = u.objects ∙ objects;
        console = u.console ∙ ap (λ ps. without_plugin ps b.plugin_name) console;
      })

  module _ (req : Request) where
    -- The resource is marked for deletion and has the finalizer of the operator, and no other.
    abbrev pub Finalized : Option ℕ → List String → Type 0
    Finalized deletion finalizers =
        (is_some deletion ≡ true)
        × (C.contains_finalizer finalizers observability_ui_finalizer ≡ true)
        × (without finalizers observability_ui_finalizer ≡ [])

    add_finalizer_keeps :
        (b : ConsolePluginBuilder) (s : C.State)
        → Ready C R req Finalized b s
        → Passes C R req Finalized b s (add_finalizer C req s)
    unfolding add_finalizer
    add_finalizer_keeps b s r =
        let (_, there, _) = r.kept in
        Passes-same C R req Finalized b s _ r
          (ground (arith, latest-reliable C R req r.plugin empty_obs_ui_plugin s r.here, there))

    -- What the deletion leaves.
    pub record Deleted (name : String) (s t : C.State) : Type 0 where
      pub gone : R.plugins t req ≡ none
      pub objects : R.objects t ≡ R.objects s
      pub console : R.console t ≡ without_plugin (R.console s) name

    Deleted-of :
        (name : String) (s t : C.State) (x : SubResult × C.State)
        → x ≡ (do_not_requeue, t)
        → Deleted name s t
        → (x.0 ≡ do_not_requeue) × Deleted name s x.1
    Deleted-of name s t x e d = rw e (refl, d)

    -- An update that takes the last finalizer removes a resource that is marked.
    finalizer_removed :
        (o : ObservabilityUiPlugin) (s : C.State)
        → R.plugins s req ≡ some o
        → is_some o.meta.deletion_timestamp ≡ true
        → ((C.update_obs_ui_plugin (with_finalizers C o []) s).0
            ≡ ok (R.stored_resource s (with_finalizers C o [])))
          × (R.plugins (C.update_obs_ui_plugin (with_finalizers C o []) s).1 req ≡ none)
    finalizer_removed o s here marked =
        let keyed = R.keyed_plugin req s o here in
        let there : R.plugins s (key_of o.meta) ≡ some o = rw keyed here in
        let (answered, _, removed) =
          R.update_obs_ui_plugin s (with_finalizers C o []) o there refl in
        (answered, rw keyed at (removed marked refl))

    handle_delete_lem :
        (b : ConsolePluginBuilder) (s : C.State)
        → Ready C R req Finalized b s
        → ((handle_delete C req s).0 ≡ do_not_requeue)
          × Deleted b.plugin_name s (handle_delete C req s).1
    unfolding handle_delete
    handle_delete_lem b s r =
        let o = r.plugin in
        let (marked, there, last) = r.kept in
        let f = observability_ui_finalizer in
        let read = latest-reliable C R req o empty_obs_ui_plugin s r.here in
        let cs = C.set_status_condition o.status.conditions (finalizing o) s in
        let (answered, _, u) = status-Updated C R req o s cs r.here in
        let p = R.stored_status s (with_conditions o cs) in
        let s₁ = (C.update_obs_ui_plugin_status (with_conditions o cs) s).1 in
        let x = do_finalizer_operations-Unregistered p b s₁ (Built-spec o p b u.spec r.built) in
        let s₂ = do_finalizer_operations C p s₁ in
        let here₂ : R.plugins s₂ req ≡ some p = rw x.plugins u.here in
        let cs₂ = C.set_status_condition p.status.conditions (finalized p) s₂ in
        let (answered₂, _, v) = status-Updated C R req p s₂ cs₂ here₂ in
        let q = R.stored_status s₂ (with_conditions p cs₂) in
        let s₃ = (C.update_obs_ui_plugin_status (with_conditions p cs₂) s₂).1 in
        let same : q.meta.finalizers ≡ o.meta.finalizers = v.finalizers ∙ u.finalizers in
        let removed : C.remove_finalizer q.meta.finalizers f ≡ ([], true) =
          rw same (R.remove_finalizer o.meta.finalizers f there ∙ ap (λ fs. (fs, true)) last) in
        let (answered₃, gone) =
          finalizer_removed q s₃ v.here (rw (v.deletion, u.deletion) marked) in
        let done : handle_delete C req s
            ≡ (do_not_requeue, (C.update_obs_ui_plugin (with_finalizers C q []) s₃).1) =
          ground (
            arith,
            read,
            marked,
            there,
            answered,
            R.get_obs_ui_plugin req s₂,
            here₂,
            answered₂,
            removed,
            answered₃,
          ) in
        Deleted-of b.plugin_name s _ _ done (record {
          gone = gone;
          objects =
              R.update_obs_ui_plugin_objects s₃ (with_finalizers C q [])
              ∙ v.objects
              ∙ x.objects
              ∙ u.objects;
          console =
              R.update_obs_ui_plugin_console s₃ (with_finalizers C q [])
              ∙ v.console
              ∙ x.console
              ∙ ap (λ ps. without_plugin ps b.plugin_name) u.console;
        })

    -- The sub-reconcilers that a deletion does not reach.
    abbrev not_reached : List (FnWithRequest C.State)
    not_reached =
        reconcile_deployment C
        ∷ reconcile_service C
        ∷ reconcile_console_plugin C
        ∷ register_plugin_in_console C
        ∷ update_status C
        ∷ []

    -- In a reliable cluster, one run for a plugin resource that is marked for deletion, has the
    -- finalizer of the operator and no other, and is of a type that has a builder ends with no error
    -- and asks for no other run. After it the resource is gone, the first occurrence of the plugin
    -- has left the list of the console's plugins, which is otherwise as it was, and the objects are
    -- as they were.
    pub plugins_deletion_completes :
        (b : ConsolePluginBuilder) (o : ObservabilityUiPlugin) (s : C.State)
        → R.plugins s req ≡ some o
        → Finalized o.meta.deletion_timestamp o.meta.finalizers
        → Built o b
        → ((reconcile C req s).0 ≡ some (empty_result, none))
          × Deleted b.plugin_name s (reconcile C req s).1
    plugins_deletion_completes b o s here kept built =
        let ready : Ready C R req Finalized b s = record {
          plugin = o;
          here = here;
          kept = kept;
          built = built;
        } in
        let p : Stage C R req (subreconcilers C) (Ready C R req Finalized b) s
            (handle_delete C ∷ not_reached) [] =
          passed C R req _ _ (add_finalizer_keeps b) (
            passed C R req _ _ (set_status_to_unknown_keeps C R req Finalized b)
              (begin C R req _ _ s ready)) in
        let (ends, d) = handle_delete_lem b p.now p.ready in
        let run =
          reconcile_lem C R req s ∙ p.runs ∙ stops (handle_delete C) not_reached req p.now ends in
        rw run (
          refl,
          record {
            gone = d.gone;
            objects = d.objects ∙ p.settled tt;
            console = d.console ∙ ap (λ ps. without_plugin ps b.plugin_name) p.console;
          },
        )
