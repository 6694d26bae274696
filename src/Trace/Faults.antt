-- ===== src/Trace/Faults.antt =====
-- A client of which some calls fail. What becomes of the calls is a list, and a call for which it
-- says nothing is answered as the wrapped client answers it.
use observability_ui_operato.Base.{List, [], ◌∷◌}
use observability_ui_operato.Attempt.{Error, err}
use observability_ui_operato.Body.{Call}
use observability_ui_operato.Client.{Client}
use observability_ui_operato.Trace.Carried.{carried_events}

-- A call that fails may have taken effect, when only its answer is lost.
pub data Fate : Type 0 where
  answered : Fate
  lost : Error → Fate
  unanswered : Error → Fate

abbrev pub Fated : Type 0 → Type 0
Fated S = S × List Fate

abbrev pub fated : {S A : Type 0} → Call S A → Call (Fated S) A
fated c (s, []) = ((c s).0, ((c s).1, []))
fated c (s, answered ∷ fates) = ((c s).0, ((c s).1, fates))
fated c (s, lost e ∷ fates) = (err e, (s, fates))
fated c (s, unanswered e ∷ fates) = (err e, ((c s).1, fates))

abbrev pub faulty : Client → Client
faulty C = record {
  State = Fated C.State;
  Bytes = C.Bytes;
  new_for_config = fated C.new_for_config;
  get_obs_ui = λ n. fated (C.get_obs_ui n);
  get_obs_ui_plugin = λ n. fated (C.get_obs_ui_plugin n);
  update_obs_ui_status = λ o. fated (C.update_obs_ui_status o);
  update_obs_ui_plugin_status = λ o. fated (C.update_obs_ui_plugin_status o);
  update_obs_ui_plugin = λ o. fated (C.update_obs_ui_plugin o);
  get = λ k n. fated (C.get k n);
  create = λ x. fated (C.create x);
  get_console = λ n. fated (C.get_console n);
  patch_console = λ n bytes. fated (C.patch_console n bytes);
  recorder = carried_events C.recorder;
  marshal = C.marshal;
  set_status_condition = λ conditions c (s, fates). C.set_status_condition conditions c s;
  set_controller_reference = C.set_controller_reference;
  contains_finalizer = C.contains_finalizer;
  add_finalizer = C.add_finalizer;
  remove_finalizer = C.remove_finalizer;
}
