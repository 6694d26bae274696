-- ===== src/Trace.antt =====
-- A client that keeps a log of the writes that are asked of it, newest first, whether they succeed
-- or not. It answers as the client that it wraps.
pub mod Order
pub mod Carried
pub mod Confirmed
pub mod Faults
pub mod Spent
pub mod Kept
pub mod Worker
use observability_ui_operato.Base.{String, none, some, List, [], ◌∷◌}
use observability_ui_operato.Api.{ObservabilityUi, ObservabilityUiPlugin}
use observability_ui_operato.Api.Objects.{Object, Kind, kind_of}
use observability_ui_operato.Body.{Call}
use observability_ui_operato.Client.{Client}

pub data Event : Type 0 where
  obs_ui_status : ObservabilityUi → Event
  plugin_status : ObservabilityUiPlugin → Event
  plugin_update : ObservabilityUiPlugin → Event
  creation : Object → Event
  console_patch : String → Event

abbrev pub Logged : Type 0 → Type 0
Logged S = S × List Event

module _ {S A : Type 0} where
  abbrev silent : Call S A → Call (Logged S) A
  silent c (s, log) = let (a, t) = c s in (a, (t, log))

  abbrev recorded : Event → Call S A → Call (Logged S) A
  recorded e c (s, log) = let (a, t) = c s in (a, (t, e ∷ log))

abbrev pub recording : Client → Client
recording C = record {
  State = Logged C.State;
  Bytes = C.Bytes;
  new_for_config = silent C.new_for_config;
  get_obs_ui = λ n. silent (C.get_obs_ui n);
  get_obs_ui_plugin = λ n. silent (C.get_obs_ui_plugin n);
  update_obs_ui_status = λ o. recorded (obs_ui_status o) (C.update_obs_ui_status o);
  update_obs_ui_plugin_status = λ o. recorded (plugin_status o) (C.update_obs_ui_plugin_status o);
  update_obs_ui_plugin = λ o. recorded (plugin_update o) (C.update_obs_ui_plugin o);
  get = λ k n. silent (C.get k n);
  create = λ o. recorded (creation o) (C.create o);
  get_console = λ n. silent (C.get_console n);
  patch_console = λ n bytes. recorded (console_patch n) (C.patch_console n bytes);
  recorder = elim C.recorder [
    | none ↦ none
    | some event ↦ some (λ o kind reason message (s, log). (event o kind reason message s, log))
  ];
  marshal = C.marshal;
  set_status_condition = λ conditions c (s, log). C.set_status_condition conditions c s;
  set_controller_reference = C.set_controller_reference;
  contains_finalizer = C.contains_finalizer;
  add_finalizer = C.add_finalizer;
  remove_finalizer = C.remove_finalizer;
}

-- What a log says of the resources: the kinds created, and the patches of the console.
pub data Write : Type 0 where
  creates : Kind → Write
  patches : Write

abbrev pub writes : List Event → List Write
writes [] = []
writes (creation o ∷ log) = creates (kind_of o) ∷ writes log
writes (console_patch name ∷ log) = patches ∷ writes log
writes (_ ∷ log) = writes log
