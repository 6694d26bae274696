-- ===== src/Interleaving/Cluster.antt =====
-- In a reliable cluster, what is said of the objects and of the list of the console's plugins is kept
-- by both controllers if it is kept by a creation, by the entry of a plugin that is not in the list,
-- and by the removal of the first entry with the name of a plugin.
use observability_ui_operato.Base.{
  ℕ, String, ◌≡◌, ◌⊎◌, inl, inr, ap, Option, some, [], ◌∷◌, ◌++◌, elements, contains, index_of,
  Slice, false,
}
use observability_ui_operato.Attempt.{ok}
use observability_ui_operato.Api.{NamespacedName, ObservabilityUiPlugin}
use observability_ui_operato.Api.Objects.{Kind, Object}
use observability_ui_operato.Common.{get_observability_ui_namespace}
use observability_ui_operato.ConsolePlugin.{ConsolePluginBuilder, from_obs_ui_plugin}
use observability_ui_operato.ConsolePlugin.Builders.{name_cases}
use observability_ui_operato.Client.{Client, Console, JsonPatch}
use observability_ui_operato.Patches.{cluster_console}
use observability_ui_operato.Patches.Laws.{
  Patches, remove_at, enable_patches-Patches, disable_patches-apply,
}
use observability_ui_operato.Reliable.{IsReliable}
use observability_ui_operato.Interleaving.Calls.{SharedCallsKeep, CallsKeep}

-- The names of the plugins that the controller of plugins builds.
abbrev pub IsPluginName : String → Type 0
IsPluginName name = (name ≡ "logging-view-plugin") ⊎ (name ≡ "dashboards-console-plugin")

pub builder-IsPluginName :
    (o : ObservabilityUiPlugin) (b : ConsolePluginBuilder)
    → from_obs_ui_plugin o get_observability_ui_namespace ≡ ok b
    → IsPluginName b.plugin_name
builder-IsPluginName o b h = elim (name_cases o get_observability_ui_namespace b h) [
  | inl (type, name) ↦ inl name
  | inr (type, name) ↦ inr name
]

abbrev pub Objects : Type 0
Objects = Kind → NamespacedName → Option Object

module _ (C : Client) (R : IsReliable C) where
  -- The state after a patch that follows a read in the same state.
  pub patched_state :
      (s : C.State) (ps : Slice JsonPatch) (bytes : C.Bytes) (after : Slice String)
      → C.marshal ps ≡ ok bytes
      → Patches (R.console s) ps after
      → ((C.patch_console cluster_console bytes (C.get_console cluster_console s).1).1
          ≡ R.patched s ps)
        × (R.console (R.patched s ps) ≡ after)
  patched_state s ps bytes after made applies =
      let (c, done, there) = R.patch_console s ps after applies in
      let e : bytes ≡ R.bytes ps = cc (made, R.marshal ps) in
      (rw (e, ap (λ x. x.1) (R.get_console s)) (ap (λ x. x.1) done), there)

  pub seen :
      (s : C.State) (console : Console)
      → (C.get_console cluster_console s).0 ≡ ok console
      → console ≡ record { plugins = R.console s }
  seen s console got = cc (got, R.get_console s)

module _ (C : Client) (R : IsReliable C) (Q : Slice String → Objects → Type 0)
    (enters : (ps : Slice String) (os : Objects) (name : String)
      → contains (elements ps) name ≡ false
      → Q ps os
      → Q (some (elements ps ++ name ∷ [])) os)
    (leaves : (ps : Slice String) (os : Objects) (name : String) (i : ℕ)
      → IsPluginName name
      → index_of (elements ps) name ≡ some i
      → Q ps os
      → Q (some (remove_at (elements ps) i)) os)
    (creates : (x : Object) (s : C.State)
      → Q (R.console s) (R.objects s)
      → Q (R.console s) (R.objects (C.create x s).1)) where
  abbrev pub Holds : C.State → Type 0
  Holds s = Q (R.console s) (R.objects s)

  same : (s t : C.State) → R.console t ≡ R.console s → R.objects t ≡ R.objects s → Holds s → Holds t
  same s t e f q = rw (e, f) q

  patched :
      (s : C.State) (ps : Slice JsonPatch) (bytes : C.Bytes) (after : Slice String)
      → C.marshal ps ≡ ok bytes
      → Patches (R.console s) ps after
      → Q after (R.objects s)
      → Holds (C.patch_console cluster_console bytes (C.get_console cluster_console s).1).1
  patched s ps bytes after made applies q =
      let (state, there) = patched_state C R s ps bytes after made applies in
      rw (state, there, R.patched_objects s ps) q

  cluster_shared : SharedCallsKeep C Holds
  cluster_shared = record {
    new_for_config = λ s q. rw (R.new_for_config s) q;
    get = λ k n s q. rw (R.get k n s) q;
    create = λ x s made q. rw (R.create_console s x) (creates x s q);
    get_console = λ s q. rw (R.get_console s) q;
    enabled = λ s console name bytes q got absent made.
        let e = seen C R s console got in
        patched s _ bytes _ (rw e at made) (enable_patches-Patches (R.console s) name)
          (enters (R.console s) (R.objects s) name (rw e at absent) q);
  }

  pub cluster_keeps : CallsKeep C Holds
  cluster_keeps = record {
    hub = record {
      shared = cluster_shared;
      get_obs_ui = λ n s q. rw (R.get_obs_ui n s) q;
      update_obs_ui_status = λ o s q.
          same s _ (R.update_obs_ui_status_console s o) (R.update_obs_ui_status_objects s o) q;
    };
    plugins = record {
      install = record {
        shared = cluster_shared;
        get_obs_ui_plugin = λ n s q. rw (R.get_obs_ui_plugin n s) q;
        update_obs_ui_plugin_status = λ o s q.
            same s _ (R.update_obs_ui_plugin_status_console s o)
              (R.update_obs_ui_plugin_status_objects s o) q;
      };
      update_obs_ui_plugin = λ o s q.
          same s _ (R.update_obs_ui_plugin_console s o) (R.update_obs_ui_plugin_objects s o) q;
      disabled = λ s o b console i bytes q built got found made.
          let e = seen C R s console got in
          patched s _ bytes _ (rw e at made)
            (disable_patches-apply (R.console s) b.plugin_name i (rw e at found))
            (leaves (R.console s) (R.objects s) b.plugin_name i (builder-IsPluginName o b built)
              (rw e at found) q);
      recorded = λ event e o kind reason message s q.
          let (_, objects, console) = R.recorded event e o kind reason message s in
          same s _ console objects q;
    };
  }
