-- ===== src/Trace/Confirmed.antt =====
-- A client that notes of which kinds an object has been found or created: `Get` or `Create` has
-- answered without an error. It answers as the client that it wraps.
use observability_ui_operato.Base.{List, [], ◌∷◌, ◌≡◌, ◌⊎◌, inr}
use observability_ui_operato.Attempt.{Attempt, ok, err}
use observability_ui_operato.Api.Objects.{Kind, kind_of}
use observability_ui_operato.Body.{Call}
use observability_ui_operato.Client.{Client}
use observability_ui_operato.Trace.Carried.{carried_events, event_carries}
use observability_ui_operato.Interleaving.Calls.{SharedCallsKeep, CallsKeep}

abbrev pub Noted : Type 0 → Type 0
Noted S = S × List Kind

abbrev pub note : {A : Type 0} → Kind → Attempt A → List Kind → List Kind
note k (ok x) kinds = k ∷ kinds
note k (err e) kinds = kinds

module _ {S A : Type 0} where
  abbrev silent : Call S A → Call (Noted S) A
  silent c (s, kinds) = let (a, t) = c s in (a, (t, kinds))

  abbrev noting : Kind → Call S A → Call (Noted S) A
  noting k c (s, kinds) = let (a, t) = c s in (a, (t, note k a kinds))

abbrev pub confirming : Client → Client
confirming C = record {
  State = Noted C.State;
  Bytes = C.Bytes;
  new_for_config = silent C.new_for_config;
  get_obs_ui = λ n. silent (C.get_obs_ui n);
  get_obs_ui_plugin = λ n. silent (C.get_obs_ui_plugin n);
  update_obs_ui_status = λ o. silent (C.update_obs_ui_status o);
  update_obs_ui_plugin_status = λ o. silent (C.update_obs_ui_plugin_status o);
  update_obs_ui_plugin = λ o. silent (C.update_obs_ui_plugin o);
  get = λ k n. noting k (C.get k n);
  create = λ x. noting (kind_of x) (C.create x);
  get_console = λ n. silent (C.get_console n);
  patch_console = λ n bytes. silent (C.patch_console n bytes);
  recorder = carried_events C.recorder;
  marshal = C.marshal;
  set_status_condition = λ conditions c (s, kinds). C.set_status_condition conditions c s;
  set_controller_reference = C.set_controller_reference;
  contains_finalizer = C.contains_finalizer;
  add_finalizer = C.add_finalizer;
  remove_finalizer = C.remove_finalizer;
}

abbrev pub Has : Kind → List Kind → Type 0
Has k [] = ⊥
Has k (j ∷ kinds) = (j ≡ k) ⊎ Has k kinds

note-Has :
    {A : Type 0} (k j : Kind) (a : Attempt A) (kinds : List Kind)
    → Has k kinds
    → Has k (note j a kinds)
note-Has k j (ok x) kinds h = inr h
note-Has k j (err e) kinds h = h

confirming_shared : (C : Client) (k : Kind) → SharedCallsKeep (confirming C) (λ s. Has k s.1)
confirming_shared C k = record {
  new_for_config = λ s h. h;
  get = λ j n s h. note-Has k j (C.get j n s.0).0 s.1 h;
  create = λ x s made h. note-Has k (kind_of x) (C.create x s.0).0 s.1 h;
  get_console = λ s h. h;
  enabled = λ s console name bytes h got absent made. h;
}

-- No call takes a note back.
pub confirming_keeps : (C : Client) (k : Kind) → CallsKeep (confirming C) (λ s. Has k s.1)
confirming_keeps C k = record {
  hub = record {
    shared = confirming_shared C k;
    get_obs_ui = λ n s h. h;
    update_obs_ui_status = λ o s h. h;
  };
  plugins = record {
    install = record {
      shared = confirming_shared C k;
      get_obs_ui_plugin = λ n s h. h;
      update_obs_ui_plugin_status = λ o s h. h;
    };
    update_obs_ui_plugin = λ o s h. h;
    disabled = λ s o b console i bytes h built got found made. h;
    recorded = λ event e o kind reason message s h.
        rw (event_carries C.recorder event e o kind reason message s) h;
  };
}
