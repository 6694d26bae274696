-- ===== src/Reliable.antt =====
-- What the program relies on of a cluster in which every call is answered and nobody else writes:
-- the documented behaviour of the Kubernetes API, of the console's API and of JSON patches (RFC
-- 6902), of `meta.SetStatusCondition` and of `SetControllerReference`, by what a state holds.
pub mod Ensures
pub mod Stages
pub mod Registered
use observability_ui_operato.Base.{
  String, ◌≡◌, ◌≢◌, true, false, Option, none, some, List, [], ◌∷◌, ◌++◌, Slice, ◌==◌,
  if◌then◌else◌, is_some,
}
use observability_ui_operato.Attempt.{Error, Attempt, ok, err}
use observability_ui_operato.Api.{
  NamespacedName, ObjectMeta, Condition, ConditionStatus, ObservabilityUi, ObservabilityUiPlugin,
}
use observability_ui_operato.Api.Objects.{Kind, Object, kind_of, meta_of}
use observability_ui_operato.Client.{Client, Owner, Console, JsonPatch, text, texts}
use observability_ui_operato.Patches.{cluster_console}
use observability_ui_operato.Patches.Laws.{Patches}

abbrev pub key_of : ObjectMeta → NamespacedName
key_of m = record { namespace = m.namespace; name = m.name }

-- The status of the first condition of a type.
abbrev pub status_of : String → List Condition → Option ConditionStatus
status_of type [] = none
status_of type (c ∷ cs) = if c.type == type then some c.status else status_of type cs

abbrev pub answer {ℓ} : {A : Type ℓ} → Error → Option A → Attempt A
answer missing none = err missing
answer missing (some a) = ok a

-- The list without the elements that are equal to one.
abbrev pub without : List String → String → List String
without [] f = []
without (x ∷ xs) f = let rest = without xs f in if x == f then rest else x ∷ rest

pub record IsReliable (C : Client) : Type 0 where
  -- What a state holds.
  pub obs_uis : C.State → NamespacedName → Option ObservabilityUi
  pub plugins : C.State → NamespacedName → Option ObservabilityUiPlugin
  pub objects : C.State → Kind → NamespacedName → Option Object
  pub console : C.State → Slice String
  -- Reads answer with what the state holds, and leave it.
  pub missing : Error
  pub missing_not_found : missing.not_found ≡ true
  pub new_for_config : (s : C.State) → C.new_for_config s ≡ (ok tt, s)
  pub get_obs_ui :
      (n : NamespacedName) (s : C.State) → C.get_obs_ui n s ≡ (answer missing (obs_uis s n), s)
  pub get_obs_ui_plugin :
      (n : NamespacedName) (s : C.State)
      → C.get_obs_ui_plugin n s ≡ (answer missing (plugins s n), s)
  pub get :
      (k : Kind) (n : NamespacedName) (s : C.State)
      → C.get k n s ≡ (answer missing (objects s k n), s)
  pub get_console :
      (s : C.State) → C.get_console cluster_console s ≡ (ok (record { plugins = console s }), s)
  -- An update of the status of a resource that is there, by an object of the version that is there,
  -- stores the status and nothing else.
  pub keyed_obs_ui :
      (n : NamespacedName) (s : C.State) (o : ObservabilityUi)
      → obs_uis s n ≡ some o
      → key_of o.meta ≡ n
  pub stored : C.State → ObservabilityUi → ObservabilityUi
  pub update_obs_ui_status :
      (s : C.State) (o p : ObservabilityUi)
      → obs_uis s (key_of o.meta) ≡ some p
      → o.meta.resource_version ≡ p.meta.resource_version
      → ((C.update_obs_ui_status o s).0 ≡ ok (stored s o))
        × (obs_uis (C.update_obs_ui_status o s).1 (key_of o.meta) ≡ some (stored s o))
        × ((stored s o).status ≡ o.status)
        × ((stored s o).meta.deletion_timestamp ≡ p.meta.deletion_timestamp)
  -- Even one that is refused removes no resource and marks none for deletion.
  pub update_obs_ui_status_stays :
      (s : C.State) (o p : ObservabilityUi) (n : NamespacedName)
      → obs_uis s n ≡ some p
      → (q : ObservabilityUi) × (obs_uis (C.update_obs_ui_status o s).1 n ≡ some q)
        × (q.meta.deletion_timestamp ≡ p.meta.deletion_timestamp)
  pub update_obs_ui_status_objects :
      (s : C.State) (o : ObservabilityUi) → objects (C.update_obs_ui_status o s).1 ≡ objects s
  pub update_obs_ui_status_console :
      (s : C.State) (o : ObservabilityUi) → console (C.update_obs_ui_status o s).1 ≡ console s
  pub update_obs_ui_status_plugins :
      (s : C.State) (o : ObservabilityUi) → plugins (C.update_obs_ui_status o s).1 ≡ plugins s
  pub keyed_plugin :
      (n : NamespacedName) (s : C.State) (o : ObservabilityUiPlugin)
      → plugins s n ≡ some o
      → key_of o.meta ≡ n
  pub stored_status : C.State → ObservabilityUiPlugin → ObservabilityUiPlugin
  pub update_obs_ui_plugin_status :
      (s : C.State) (o p : ObservabilityUiPlugin)
      → plugins s (key_of o.meta) ≡ some p
      → o.meta.resource_version ≡ p.meta.resource_version
      → ((C.update_obs_ui_plugin_status o s).0 ≡ ok (stored_status s o))
        × (plugins (C.update_obs_ui_plugin_status o s).1 (key_of o.meta) ≡ some (stored_status s o))
        × ((stored_status s o).status ≡ o.status)
        × ((stored_status s o).spec ≡ p.spec)
        × ((stored_status s o).meta.deletion_timestamp ≡ p.meta.deletion_timestamp)
        × ((stored_status s o).meta.finalizers ≡ p.meta.finalizers)
  pub update_obs_ui_plugin_status_stays :
      (s : C.State) (o p : ObservabilityUiPlugin) (n : NamespacedName)
      → plugins s n ≡ some p
      → (q : ObservabilityUiPlugin) × (plugins (C.update_obs_ui_plugin_status o s).1 n ≡ some q)
        × (q.meta.deletion_timestamp ≡ p.meta.deletion_timestamp)
        × (q.spec ≡ p.spec)
  pub update_obs_ui_plugin_status_objects :
      (s : C.State) (o : ObservabilityUiPlugin)
      → objects (C.update_obs_ui_plugin_status o s).1 ≡ objects s
  pub update_obs_ui_plugin_status_console :
      (s : C.State) (o : ObservabilityUiPlugin)
      → console (C.update_obs_ui_plugin_status o s).1 ≡ console s
  pub update_obs_ui_plugin_status_obs_uis :
      (s : C.State) (o : ObservabilityUiPlugin)
      → obs_uis (C.update_obs_ui_plugin_status o s).1 ≡ obs_uis s
  -- An update of a resource that is there stores all but the status and the mark of a deletion. One
  -- that leaves no finalizer on a resource that is marked for deletion removes the resource.
  pub stored_resource : C.State → ObservabilityUiPlugin → ObservabilityUiPlugin
  pub update_obs_ui_plugin :
      (s : C.State) (o p : ObservabilityUiPlugin)
      → plugins s (key_of o.meta) ≡ some p
      → o.meta.resource_version ≡ p.meta.resource_version
      → ((C.update_obs_ui_plugin o s).0 ≡ ok (stored_resource s o))
        × (is_some p.meta.deletion_timestamp ≡ false
            → (plugins (C.update_obs_ui_plugin o s).1 (key_of o.meta) ≡ some (stored_resource s o))
              × ((stored_resource s o).status ≡ p.status)
              × ((stored_resource s o).spec ≡ o.spec)
              × ((stored_resource s o).meta.deletion_timestamp ≡ p.meta.deletion_timestamp)
              × ((stored_resource s o).meta.finalizers ≡ o.meta.finalizers))
        × (is_some p.meta.deletion_timestamp ≡ true
            → o.meta.finalizers ≡ []
            → plugins (C.update_obs_ui_plugin o s).1 (key_of o.meta) ≡ none)
  pub update_obs_ui_plugin_objects :
      (s : C.State) (o : ObservabilityUiPlugin) → objects (C.update_obs_ui_plugin o s).1 ≡ objects s
  pub update_obs_ui_plugin_console :
      (s : C.State) (o : ObservabilityUiPlugin) → console (C.update_obs_ui_plugin o s).1 ≡ console s
  pub update_obs_ui_plugin_obs_uis :
      (s : C.State) (o : ObservabilityUiPlugin) → obs_uis (C.update_obs_ui_plugin o s).1 ≡ obs_uis s
  -- `Create` of an object that is not there stores it, and removes none.
  pub created : Object → Object
  pub create :
      (s : C.State) (x : Object)
      → objects s (kind_of x) (key_of (meta_of x)) ≡ none
      → ((C.create x s).0 ≡ ok (created x))
        × (objects (C.create x s).1 (kind_of x) (key_of (meta_of x)) ≡ some (created x))
  pub create_objects :
      (s : C.State) (x : Object) (k : Kind) (n : NamespacedName)
      → objects s k n ≢ none
      → objects (C.create x s).1 k n ≢ none
  pub create_obs_uis : (s : C.State) (x : Object) → obs_uis (C.create x s).1 ≡ obs_uis s
  pub create_plugins : (s : C.State) (x : Object) → plugins (C.create x s).1 ≡ plugins s
  pub create_console : (s : C.State) (x : Object) → console (C.create x s).1 ≡ console s
  -- `SetControllerReference` keeps the name and the namespace.
  pub owned : Owner → ObjectMeta → ObjectMeta
  pub set_controller_reference :
      (w : Owner) (m : ObjectMeta) → C.set_controller_reference w m ≡ ok (owned w m)
  pub key-owned : (w : Owner) (m : ObjectMeta) → key_of (owned w m) ≡ key_of m
  -- `SetStatusCondition` sets the status of the condition's type.
  pub status_of-set :
      (cs : List Condition) (c : Condition) (s : C.State)
      → status_of c.type (C.set_status_condition cs c s) ≡ some c.status
  -- `AddFinalizer` says that it has added a finalizer that was not there, and `RemoveFinalizer` that
  -- it has removed one that was.
  pub add_finalizer :
      (fs : List String) (f : String)
      → C.contains_finalizer fs f ≡ false
      → (C.add_finalizer fs f).1 ≡ true
  pub remove_finalizer :
      (fs : List String) (f : String)
      → C.contains_finalizer fs f ≡ true
      → C.remove_finalizer fs f ≡ (without fs f, true)
  -- A patch that applies to the console's list of plugins takes effect, and nothing else changes.
  pub bytes : Slice JsonPatch → C.Bytes
  pub marshal : (ps : Slice JsonPatch) → C.marshal ps ≡ ok (bytes ps)
  pub patched : (s : C.State) (ps : Slice JsonPatch) → C.State
  pub patch_console :
      (s : C.State) (ps : Slice JsonPatch) (after : Slice String)
      → Patches (console s) ps after
      → (c : Console) × (C.patch_console cluster_console (bytes ps) s ≡ (ok c, patched s ps))
        × (console (patched s ps) ≡ after)
  pub patched_obs_uis : (s : C.State) (ps : Slice JsonPatch) → obs_uis (patched s ps) ≡ obs_uis s
  pub patched_plugins : (s : C.State) (ps : Slice JsonPatch) → plugins (patched s ps) ≡ plugins s
  pub patched_objects : (s : C.State) (ps : Slice JsonPatch) → objects (patched s ps) ≡ objects s
  -- The recorder writes none of these.
  pub recorded :
      (event : ObservabilityUiPlugin → String → String → String → C.State → C.State)
      → C.recorder ≡ some event
      → (o : ObservabilityUiPlugin) (kind reason message : String) (s : C.State)
      → (plugins (event o kind reason message s) ≡ plugins s)
        × (objects (event o kind reason message s) ≡ objects s)
        × (console (event o kind reason message s) ≡ console s)
  pub recorded_obs_uis :
      (event : ObservabilityUiPlugin → String → String → String → C.State → C.State)
      → C.recorder ≡ some event
      → (o : ObservabilityUiPlugin) (kind reason message : String) (s : C.State)
      → obs_uis (event o kind reason message s) ≡ obs_uis s
