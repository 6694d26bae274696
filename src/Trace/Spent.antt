-- ===== src/Trace/Spent.antt =====
-- How many calls may still fail.
use Prim.Native.Nat.{zero, suc}
use observability_ui_operato.Base.{ℕ, List, [], ◌∷◌, length, ◌≡◌, refl}
use observability_ui_operato.Body.{Call}
use observability_ui_operato.Client.{Client}
use observability_ui_operato.Patches.{cluster_console}
use observability_ui_operato.Interleaving.Calls.{SharedCallsKeep, CallsKeep}
use observability_ui_operato.Trace.Carried.{event_carries}
use observability_ui_operato.Trace.Faults.{Fate, answered, lost, unanswered, Fated, fated, faulty}

-- There are no more fates than the number.
abbrev pub AtMost : ℕ → List Fate → Type 0
AtMost n [] = Unit
AtMost zero (x ∷ fates) = ⊥
AtMost (suc n) (x ∷ fates) = AtMost n fates

pub AtMost-length : (fates : List Fate) → AtMost (length fates) fates
AtMost-length [] = tt
AtMost-length (x ∷ fates) = AtMost-length fates

AtMost-suc : (n : ℕ) (fates : List Fate) → AtMost n fates → AtMost (suc n) fates
AtMost-suc n [] h = tt
AtMost-suc zero (x ∷ fates) h = absurd h
AtMost-suc (suc n) (x ∷ fates) h = AtMost-suc n fates h

-- A call uses a fate, where there is one.
pub AtMost-used :
    {S A : Type 0} (c : Call S A) (n : ℕ) (s : Fated S)
    → AtMost (suc n) s.1
    → AtMost n (fated c s).1.1
AtMost-used c n (s, []) h = tt
AtMost-used c n (s, answered ∷ fates) h = h
AtMost-used c n (s, lost e ∷ fates) h = h
AtMost-used c n (s, unanswered e ∷ fates) h = h

AtMost-fated :
    {S A : Type 0} (c : Call S A) (n : ℕ) (s : Fated S) → AtMost n s.1 → AtMost n (fated c s).1.1
AtMost-fated c n s h = AtMost-used c n s (AtMost-suc n s.1 h)

fates_shared : (C : Client) (n : ℕ) → SharedCallsKeep (faulty C) (λ s. AtMost n s.1)
fates_shared C n = record {
  new_for_config = AtMost-fated C.new_for_config n;
  get = λ k m. AtMost-fated (C.get k m) n;
  create = λ x s made. AtMost-fated (C.create x) n s;
  get_console = AtMost-fated (C.get_console cluster_console) n;
  enabled = λ s console name bytes h got absent made.
      AtMost-fated (C.patch_console cluster_console bytes) n _
        (AtMost-fated (C.get_console cluster_console) n s h);
}

-- No call adds one.
pub fates_keep : (C : Client) (n : ℕ) → CallsKeep (faulty C) (λ s. AtMost n s.1)
fates_keep C n = record {
  hub = record {
    shared = fates_shared C n;
    get_obs_ui = λ m. AtMost-fated (C.get_obs_ui m) n;
    update_obs_ui_status = λ o. AtMost-fated (C.update_obs_ui_status o) n;
  };
  plugins = record {
    install = record {
      shared = fates_shared C n;
      get_obs_ui_plugin = λ m. AtMost-fated (C.get_obs_ui_plugin m) n;
      update_obs_ui_plugin_status = λ o. AtMost-fated (C.update_obs_ui_plugin_status o) n;
    };
    update_obs_ui_plugin = λ o. AtMost-fated (C.update_obs_ui_plugin o) n;
    disabled = λ s o b console i bytes h built got found made.
        AtMost-fated (C.patch_console cluster_console bytes) n _
          (AtMost-fated (C.get_console cluster_console) n s h);
    recorded = λ event e o kind reason message s h.
        rw (event_carries C.recorder event e o kind reason message s) h;
  };
}

-- The state after a number of runs, one after another.
abbrev pub repeated : {S A : Type 0} → ℕ → (S → A × S) → S → S
repeated zero run s = s
repeated (suc n) run s = repeated n run (run s).1

pub AtMost-zero : (fates : List Fate) → AtMost 0 fates → fates ≡ []
AtMost-zero [] h = refl
AtMost-zero (x ∷ fates) h = absurd h

-- Where every run uses a fate, as many runs as there are fates use them all.
pub repeated-spent :
    {S A : Type 0} (run : Fated S → A × Fated S)
    → ((n : ℕ) (s : Fated S) → AtMost (suc n) s.1 → AtMost n (run s).1.1)
    → (n : ℕ) (s : Fated S) → AtMost n s.1
    → (repeated n run s).1 ≡ []
repeated-spent run uses zero s h = AtMost-zero s.1 h
repeated-spent run uses (suc n) s h = repeated-spent run uses n (run s).1 (uses n s h)
