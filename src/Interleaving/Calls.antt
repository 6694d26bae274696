-- ===== src/Interleaving/Calls.antt =====
-- What the calls of a client have to keep so that the sub-reconcilers of both controllers keep it.
use observability_ui_operato.Base.{
  ℕ, String, ◌≡◌, arith, subst, sym, List, [], ◌∷◌, some, elements, contains, index_of, false,
  Bool-cases, inl, inr,
}
use observability_ui_operato.Attempt.{Attempt, Error, ok, Attempt-cases}
use observability_ui_operato.Base.Time.{minute}
use observability_ui_operato.Api.{
  NamespacedName, Request, ObservabilityUi, ObservabilityUiPlugin, ObjectMeta,
}
use observability_ui_operato.Api.Objects.{
  Kind, Object, PolicyRule, service_account, cluster_role, cluster_role_binding, service,
  deployment, console_plugin_v1, console_plugin_v1_alpha1, meta_of, with_meta,
}
use observability_ui_operato.Common.{get_observability_ui_namespace}
use observability_ui_operato.ConsolePlugin.{ConsolePluginBuilder, from_obs_ui_plugin}
use observability_ui_operato.Subreconciler.{
  SubResult, should_halt_or_requeue, continue_reconciling, do_not_requeue, requeue_with_error,
  requeue_with_delay_and_error,
}
use observability_ui_operato.Body.{Body, ◌>>=◌, ◌>>◌, pure, exit, when, call, try, or_return}
use observability_ui_operato.Body.Laws.{BodyKeeps, BodyKeeps-bind, BodyKeeps-pure, BodyKeeps-exit}
use observability_ui_operato.Client.{Client, Console, Owner, controlled_by}
use observability_ui_operato.Patches.{cluster_console, enable_patches, disable_patches}
use observability_ui_operato.Operator.{latest}
use observability_ui_operato.Operator.Resources.{plugin_role}
use observability_ui_operato.Plugins

-- The one rule of the cluster role that the hub controller creates.
abbrev pub plugin_editor : List PolicyRule
plugin_editor =
    record {
      api_groups = "observability-ui.openshift.io" ∷ [];
      verbs = "list" ∷ "get" ∷ "watch" ∷ "create" ∷ "patch" ∷ "update" ∷ "delete" ∷ [];
      resources = "observabilityuiplugins" ∷ [];
    }
    ∷ []

-- What is said of the rules and the role of the objects that the controllers create, whatever their
-- metadata.
abbrev pub IsCreated : Object → Type 0
IsCreated (cluster_role r) = r.rules ≡ plugin_editor
IsCreated (cluster_role_binding b) = b.role_ref.name ≡ plugin_role
IsCreated (service_account _) = Unit
IsCreated (service _) = Unit
IsCreated (deployment _) = Unit
IsCreated (console_plugin_v1_alpha1 _) = Unit
IsCreated (console_plugin_v1 _) = Unit

-- An object that `SetControllerReference` has been given is the one that is created, but for its
-- metadata.
pub BodyKeeps-controlled_by :
    {A : Type 0} (C : Client) (P : C.State → Type 0) (w : Owner) (x : Object)
    (k : Error → SubResult) (f : Object → Body C.State A)
    → ((m : ObjectMeta) → BodyKeeps P (f (with_meta x m)))
    → BodyKeeps P (or_return (controlled_by C w x) k >>= f)
BodyKeeps-controlled_by C P w x k f h =
    elim (Attempt-cases (C.set_controller_reference w (meta_of x))) [
      | inl (e, failed) ↦ rw (failed, controlled_by) (BodyKeeps-exit (k e))
      | inr (m, made) ↦ rw (made, controlled_by) (h m)
    ]

-- The calls that both controllers make keep `P`; the patch that registers a plugin does so where it
-- follows the read on which it rests.
pub record SharedCallsKeep (C : Client) (P : C.State → Type 0) : Type 0 where
  pub new_for_config : (s : C.State) → P s → P (C.new_for_config s).1
  pub get : (k : Kind) (n : NamespacedName) (s : C.State) → P s → P (C.get k n s).1
  pub create : (x : Object) (s : C.State) → IsCreated x → P s → P (C.create x s).1
  pub get_console : (s : C.State) → P s → P (C.get_console cluster_console s).1
  pub enabled :
      (s : C.State) (console : Console) (name : String) (bytes : C.Bytes)
      → P s
      → (C.get_console cluster_console s).0 ≡ ok console
      → contains (elements console.plugins) name ≡ false
      → C.marshal (enable_patches console name) ≡ ok bytes
      → P (C.patch_console cluster_console bytes (C.get_console cluster_console s).1).1

-- So do those of the hub controller.
pub record HubCallsKeep (C : Client) (P : C.State → Type 0) : Type 0 where
  pub shared : SharedCallsKeep C P
  pub get_obs_ui : (n : NamespacedName) (s : C.State) → P s → P (C.get_obs_ui n s).1
  pub update_obs_ui_status :
      (o : ObservabilityUi) (s : C.State) → P s → P (C.update_obs_ui_status o s).1

-- So do those by which the controller of plugins installs a plugin.
pub record InstallCallsKeep (C : Client) (P : C.State → Type 0) : Type 0 where
  pub shared : SharedCallsKeep C P
  pub get_obs_ui_plugin : (n : NamespacedName) (s : C.State) → P s → P (C.get_obs_ui_plugin n s).1
  pub update_obs_ui_plugin_status :
      (o : ObservabilityUiPlugin) (s : C.State) → P s → P (C.update_obs_ui_plugin_status o s).1

-- So do all calls of the controller of plugins; the patch that removes a plugin does so where it
-- follows the read on which it rests.
pub record PluginCallsKeep (C : Client) (P : C.State → Type 0) : Type 0 where
  pub install : InstallCallsKeep C P
  pub update_obs_ui_plugin :
      (o : ObservabilityUiPlugin) (s : C.State) → P s → P (C.update_obs_ui_plugin o s).1
  pub disabled :
      (s : C.State) (o : ObservabilityUiPlugin) (b : ConsolePluginBuilder) (console : Console)
      (i : ℕ) (bytes : C.Bytes)
      → P s
      → from_obs_ui_plugin o get_observability_ui_namespace ≡ ok b
      → (C.get_console cluster_console s).0 ≡ ok console
      → index_of (elements console.plugins) b.plugin_name ≡ some i
      → C.marshal (disable_patches console i) ≡ ok bytes
      → P (C.patch_console cluster_console bytes (C.get_console cluster_console s).1).1
  pub recorded :
      (event : ObservabilityUiPlugin → String → String → String → C.State → C.State)
      → C.recorder ≡ some event
      → (o : ObservabilityUiPlugin) (kind reason message : String) (s : C.State) → P s
      → P (event o kind reason message s)

-- So do all calls.
pub record CallsKeep (C : Client) (P : C.State → Type 0) : Type 0 where
  pub hub : HubCallsKeep C P
  pub plugins : PluginCallsKeep C P

module _ (C : Client) (P : C.State → Type 0) where
  hub_read :
      (req : Request) (o : ObservabilityUi) (s : C.State)
      → (latest C req o s).1 ≡ (C.get_obs_ui req s).1
  unfolding latest should_halt_or_requeue continue_reconciling do_not_requeue requeue_with_error
  hub_read req o s = ground arith

  pub hub_latest_keeps :
      HubCallsKeep C P → (req : Request) (o : ObservabilityUi) → BodyKeeps P (latest C req o)
  hub_latest_keeps K req o = record { at = λ s p. rw (hub_read req o s) (K.get_obs_ui req s p) }

  plugin_read :
      (req : Request) (o : ObservabilityUiPlugin) (s : C.State)
      → (Plugins.latest C req o s).1 ≡ (C.get_obs_ui_plugin req s).1
  unfolding Plugins.latest should_halt_or_requeue continue_reconciling do_not_requeue
      requeue_with_delay_and_error
  plugin_read req o s = ground arith

  pub plugin_latest_keeps :
      InstallCallsKeep C P
      → (req : Request) (o : ObservabilityUiPlugin) → BodyKeeps P (Plugins.latest C req o)
  plugin_latest_keeps K req o = record {
    at = λ s p. rw (plugin_read req o s) (K.get_obs_ui_plugin req s p);
  }

module _ (C : Client) (P : C.State → Type 0) (K : SharedCallsKeep C P) where
  -- What both controllers do to register a plugin, with what they do after the patch.
  abbrev pub register_by :
      String → (Attempt Console → Body C.State (Unit {0})) → Body C.State SubResult
  register_by name after = do
    console ← try (C.get_console cluster_console) (requeue_with_delay_and_error minute)
    when (contains (elements console.plugins) name) (exit continue_reconciling)
    patch_bytes ← or_return (C.marshal (enable_patches console name)) (λ _. do_not_requeue)
    patched ← call (C.patch_console cluster_console patch_bytes)
    after patched
    pure continue_reconciling

  ends :
      (name : String) (after : Attempt Console → Body C.State (Unit {0})) (s : C.State)
      → P s
      → (register_by name after s).1 ≡ (C.get_console cluster_console s).1
      → P (register_by name after s).1
  ends name after s p e = subst P (sym e) (K.get_console s p)

  register_read_keeps :
      (name : String) (after : Attempt Console → Body C.State (Unit {0})) (s : C.State)
      → ((a : Attempt Console) → BodyKeeps P (after a))
      → P s
      → P (register_by name after s).1
  register_read_keeps name after s k p =
      let t = (C.get_console cluster_console s).1 in
      elim (Attempt-cases (C.get_console cluster_console s).0) [
        | inl (e, failed) ↦ ends name after s p (ground (arith, failed))
        | inr (console, got) ↦ elim (Bool-cases (contains (elements console.plugins) name)) [
          | inl there ↦ ends name after s p (ground (arith, got, there))
          | inr absent ↦ elim (Attempt-cases (C.marshal (enable_patches console name))) [
            | inl (e, failed) ↦ ends name after s p (ground (arith, got, absent, failed))
            | inr (bytes, made) ↦
                let patched = C.patch_console cluster_console bytes t in
                let rest : Body C.State SubResult = after patched.0 >> pure continue_reconciling in
                let e : (register_by name after s).1 ≡ (rest patched.1).1 =
                  ground (arith, got, absent, made) in
                subst P (sym e) (
                  (BodyKeeps-bind (after patched.0) (λ _. pure continue_reconciling) (k _)
                      (λ _. BodyKeeps-pure _)).at
                    patched.1 (K.enabled s console name bytes p got absent made))
          ]
        ]
      ]

  pub register_by_keeps :
      (name : String) (after : Attempt Console → Body C.State (Unit {0}))
      → ((a : Attempt Console) → BodyKeeps P (after a))
      → BodyKeeps P (register_by name after)
  register_by_keeps name after k = record { at = λ s p. register_read_keeps name after s k p }
