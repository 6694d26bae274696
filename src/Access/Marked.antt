-- ===== src/Access/Marked.antt =====
-- What the role that the markers of the controllers describe refuses.
use observability_ui_operato.Base.{◌≡◌, arith, List, [], ◌∷◌, ◌++◌}
use observability_ui_operato.Attempt.{ok}
use observability_ui_operato.Api.{Request}
use observability_ui_operato.Subreconciler.{
  should_halt_or_requeue, continue_reconciling, do_not_requeue, requeue_with_error,
  requeue_with_delay_and_error,
}
use observability_ui_operato.Subreconciler.Keeps.{run_establishes, others_keep}
use observability_ui_operato.Client.{Client}
use observability_ui_operato.Plugins.{set_status_to_unknown, latest}
use observability_ui_operato.Plugins.Reconcile.{reconcile}
use observability_ui_operato.Interleaving.Calls.{SharedCallsKeep, PluginCallsKeep}
use observability_ui_operato.Interleaving.Plugins.{plugins_keep}
use observability_ui_operato.Access.Asking.{asking, asking_event, Asked, creation, event_asks}
use observability_ui_operato.Access.Laws.{AllPermitted}
use observability_ui_operato.Access.{Ask, permits, marked_role}

AllPermitted-rest :
    (asks log : List Ask) → AllPermitted marked_role (asks ++ log) → AllPermitted marked_role log
AllPermitted-rest [] log h = h
AllPermitted-rest (a ∷ asks) log (_, h) = AllPermitted-rest asks log h

module _ (C : Client) where
  -- Something has been asked that the role does not permit.
  abbrev Refused : Asked C.State → Type 0
  Refused s = ¬ AllPermitted marked_role s.1

  shared-Refused : SharedCallsKeep (asking C) Refused
  shared-Refused = record {
    new_for_config = λ s h. h;
    get = λ k n s h all. h all.1.1.1;
    create = λ x s made h all. h (AllPermitted-rest (creation x) s.1 all);
    get_console = λ s h all. h all.1;
    enabled = λ s console name bytes h got absent made all. h all.1.1;
  }

  still-Refused : PluginCallsKeep (asking C) Refused
  still-Refused = record {
    install = record {
      shared = shared-Refused;
      get_obs_ui_plugin = λ n s h all. h all.1.1.1;
      update_obs_ui_plugin_status = λ o s h all. h all.1;
    };
    update_obs_ui_plugin = λ o s h all. h all.1;
    disabled = λ s o b console i bytes h built got found made all. h all.1.1;
    recorded = λ event e o kind reason message s h all. h (
        AllPermitted-rest event_asks s.1
          (rw (asking_event C.recorder event e o kind reason message s) at all));
  }

  set_status_to_unknown-Refused :
      (req : Request) (s : Asked C.State) → Refused (set_status_to_unknown (asking C) req s).1
  unfolding set_status_to_unknown latest should_halt_or_requeue continue_reconciling do_not_requeue
      requeue_with_error requeue_with_delay_and_error permits
  set_status_to_unknown-Refused req s all = ground arith

  -- With the role that `make manifests` writes from the markers of both controllers, every run of the
  -- controller of plugins for which the console's client is made asks for something that the role does
  -- not permit, whatever the world answers.
  pub marked_role_refuses :
      (req : Request) (s : C.State)
      → (C.new_for_config s).0 ≡ ok tt
      → ¬ AllPermitted marked_role (reconcile (asking C) req (s, [])).1.1
  unfolding reconcile
  marked_role_refuses req s made =
      rw (made, reconcile)
        (run_establishes {P = Refused} (set_status_to_unknown (asking C)) req
          (set_status_to_unknown-Refused req)
          (others_keep (plugins_keep (asking C) Refused still-Refused)) _)
