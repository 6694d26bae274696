-- ===== src/Trace/Kept.antt =====
-- What the calls of a client keep, the client of which some calls fail keeps.
use observability_ui_operato.Base.{[], ◌∷◌, ◌≡◌, refl}
use observability_ui_operato.Attempt.{ok}
use observability_ui_operato.Body.{Call}
use observability_ui_operato.Client.{Client}
use observability_ui_operato.Patches.{cluster_console}
use observability_ui_operato.Interleaving.Calls.{SharedCallsKeep, HubCallsKeep, InstallCallsKeep}
use observability_ui_operato.Trace.Faults.{answered, lost, unanswered, Fated, fated, faulty}

module _ {S A : Type 0} (P : S → Type 0) (c : Call S A) where
  -- The call may have been made, or not.
  pub made_or_lost : (s : Fated S) → P s.0 → P (c s.0).1 → P (fated c s).1.0
  made_or_lost (s, []) p q = q
  made_or_lost (s, answered ∷ fates) p q = q
  made_or_lost (s, lost e ∷ fates) p q = p
  made_or_lost (s, unanswered e ∷ fates) p q = q

  kept : ((s : S) → P s → P (c s).1) → (s : Fated S) → P s.0 → P (fated c s).1.0
  kept k s p = made_or_lost s p (k s.0 p)

  -- What an answer of the call says, it says of a call that was made.
  pub answers :
      (s : Fated S) (a : A)
      → (fated c s).0 ≡ ok a
      → ((c s.0).0 ≡ ok a) × ((fated c s).1.0 ≡ (c s.0).1)
  answers (s, []) a e = (e, refl)
  answers (s, answered ∷ fates) a e = (e, refl)
  answers (s, lost x ∷ fates) a e = cc e
  answers (s, unanswered x ∷ fates) a e = cc e

module _ (C : Client) (P : C.State → Type 0) where
  shared_kept : SharedCallsKeep C P → SharedCallsKeep (faulty C) (λ s. P s.0)
  shared_kept K = record {
    new_for_config = kept P C.new_for_config K.new_for_config;
    get = λ k n. kept P (C.get k n) (K.get k n);
    create = λ x s made p. kept P (C.create x) (λ t. K.create x t made) s p;
    get_console = kept P (C.get_console cluster_console) K.get_console;
    enabled = λ s console name bytes p got absent made.
        let (really, state) = answers P (C.get_console cluster_console) s console got in
        made_or_lost P (C.patch_console cluster_console bytes)
          ((faulty C).get_console cluster_console s).1 (rw state (K.get_console s.0 p))
          (rw state (K.enabled s.0 console name bytes p really absent made));
  }

  pub hub_kept : HubCallsKeep C P → HubCallsKeep (faulty C) (λ s. P s.0)
  hub_kept K = record {
    shared = shared_kept K.shared;
    get_obs_ui = λ n. kept P (C.get_obs_ui n) (K.get_obs_ui n);
    update_obs_ui_status = λ o. kept P (C.update_obs_ui_status o) (K.update_obs_ui_status o);
  }

  pub install_kept : InstallCallsKeep C P → InstallCallsKeep (faulty C) (λ s. P s.0)
  install_kept K = record {
    shared = shared_kept K.shared;
    get_obs_ui_plugin = λ n. kept P (C.get_obs_ui_plugin n) (K.get_obs_ui_plugin n);
    update_obs_ui_plugin_status =
        λ o. kept P (C.update_obs_ui_plugin_status o) (K.update_obs_ui_plugin_status o);
  }
