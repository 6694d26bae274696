-- ===== src/Client.antt =====
-- The code around the program, as it is called: the Kubernetes client of controller-runtime, the
-- client of the OpenShift console operator, and the library functions on conditions, finalizers and
-- owner references. None of it is part of the repository's own code: a `Client` is a parameter of
-- every definition that calls it. A call takes the state of the world and leaves one, so that it may
-- fail at any time, and other actors may have changed the world when the next call is made.
use observability_ui_operato.Base.{String, Bool, Option, List, Slice}
use observability_ui_operato.Attempt.{Attempt, ok, err}
use observability_ui_operato.Body.{Call}
use observability_ui_operato.Api.{
  NamespacedName, ObjectMeta, Condition, ObservabilityUi, ObservabilityUiPlugin,
}
use observability_ui_operato.Api.Objects.{Kind, Object, meta_of, with_meta}

-- The owner of a created object.
pub data Owner : Type 0 where
  owner_ui : ObservabilityUi → Owner
  owner_ui_plugin : ObservabilityUiPlugin → Owner

-- `console.Spec.Plugins` of the operator's console resource.
pub record Console : Type 0 where
  pub plugins : Slice String

-- The `interface{}` of a patch: a text or a list of texts.
pub data PatchValue : Type 0 where
  text : String → PatchValue
  texts : List String → PatchValue

-- `jsonPatch` of both controllers.
pub record JsonPatch : Type 0 where
  pub op : String
  pub path : String
  pub value : Option PatchValue

pub record Client : Type 1 where
  pub State : Type 0
  -- What `json.Marshal` returns.
  pub Bytes : Type 0
  -- `openshiftoperatorclientset.NewForConfig(r.Cfg)`
  pub new_for_config : Call State (Unit {0})
  -- `r.Get` of a custom resource. It fills the whole object that it is given.
  pub get_obs_ui : NamespacedName → Call State ObservabilityUi
  pub get_obs_ui_plugin : NamespacedName → Call State ObservabilityUiPlugin
  -- `r.Status().Update` and `r.Update`, with the object as the call leaves it.
  pub update_obs_ui_status : ObservabilityUi → Call State ObservabilityUi
  pub update_obs_ui_plugin_status : ObservabilityUiPlugin → Call State ObservabilityUiPlugin
  pub update_obs_ui_plugin : ObservabilityUiPlugin → Call State ObservabilityUiPlugin
  -- `r.Get` and `r.Create` of the objects that the program owns.
  pub get : Kind → NamespacedName → Call State Object
  pub create : Object → Call State Object
  -- `Consoles().Get` and `Consoles().Patch` with a JSON patch.
  pub get_console : String → Call State Console
  pub patch_console : String → Bytes → Call State Console
  -- `r.Recorder.Event`, if there is a recorder.
  pub recorder : Option (ObservabilityUiPlugin → String → String → String → State → State)
  -- `json.Marshal` of a slice of patches.
  pub marshal : Slice JsonPatch → Attempt Bytes
  -- `meta.SetStatusCondition`, which reads the clock.
  pub set_status_condition : List Condition → Condition → State → List Condition
  -- `ctrl.SetControllerReference`, over the scheme. It is given the controlled object as a
  -- `metav1.Object`, which is access to its metadata.
  pub set_controller_reference : Owner → ObjectMeta → Attempt ObjectMeta
  -- `controllerutil`, on the finalizers of an object; the flag says whether they changed.
  pub contains_finalizer : List String → String → Bool
  pub add_finalizer : List String → String → List String × Bool
  pub remove_finalizer : List String → String → List String × Bool

-- `SetControllerReference(owner, o, r.Scheme)`, with the object as the call leaves it.
abbrev pub controlled_by : (C : Client) → Owner → Object → Attempt Object
controlled_by C owner o = elim (C.set_controller_reference owner (meta_of o)) [
  | ok meta ↦ ok (with_meta o meta)
  | err e ↦ err e
]
