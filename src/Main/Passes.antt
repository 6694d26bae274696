-- ===== src/Main/Passes.antt =====
-- A log of the calls of a process, and how far along a list of calls it comes.
use mathlib.Core.List.{append_assoc}
use observability_ui_operato.Base.{
  ℕ, String, ◌≡◌, refl, ap, ◌∙◌, sym, subst, arith, Bool, true, false, ◌⊎◌, inl, inr, List, [], ◌∷◌,
  ◌++◌,
}
use observability_ui_operato.Attempt.{ok, err, Attempt-cases}
use observability_ui_operato.Body.{Call}
use observability_ui_operato.Api.Scheme.{SchemeBuilder}
use observability_ui_operato.Main.Setup.{
  ControllerSpec, Runtime, Outcome, running, exited, panicked, Process, ◌>>=◌, ◌>>◌, must, or_exit,
  ending, doing,
}

-- A call of the libraries, as a log shows it.
pub data SetupCall : Type 0 where
  client_go_scheme console_v1_alpha1_scheme console_v1_scheme : SetupCall
  own_scheme : SchemeBuilder → SetupCall
  parsing_flags getting_config making_manager : SetupCall
  controller : ControllerSpec → SetupCall
  healthz readyz : String → SetupCall
  starting : SetupCall

-- The calls made, newest first, and whether each was answered without an error.
abbrev pub SetupLog : Type 0
SetupLog = List (SetupCall × Bool)

module _ {S : Type 0} where
  abbrev logged_call : {A : Type 0} → SetupCall → Call S A → Call (S × SetupLog) A
  logged_call c f (s, log) =
      let (a, t) = f s in
      elim a [ ok x ↦ (ok x, (t, (c, true) ∷ log)) | err e ↦ (err e, (t, (c, false) ∷ log)) ]

  abbrev logged_ending :
      {A : Type 0} → SetupCall → (S → (ℕ ⊎ A) × S) → S × SetupLog → (ℕ ⊎ A) × (S × SetupLog)
  logged_ending c f (s, log) =
      let (a, t) = f s in
      elim a [
        | inr x ↦ (inr x, (t, (c, true) ∷ log))
        | inl code ↦ (inl code, (t, (c, false) ∷ log))
      ]

-- A runtime that keeps a log of its calls.
abbrev pub logging : Runtime → Runtime
logging R = record {
  State = R.State × SetupLog;
  Config = R.Config;
  add_client_go_scheme = logged_call client_go_scheme R.add_client_go_scheme;
  add_to_scheme = λ b. logged_call (own_scheme b) (R.add_to_scheme b);
  add_console_v1_alpha1 = logged_call console_v1_alpha1_scheme R.add_console_v1_alpha1;
  add_console_v1 = logged_call console_v1_scheme R.add_console_v1;
  parse_flags = λ flags. logged_ending parsing_flags (R.parse_flags flags);
  set_logger = λ (s, log). (R.set_logger s, log);
  get_config_or_die = logged_ending getting_config R.get_config_or_die;
  new_manager = λ config options. logged_call making_manager (R.new_manager config options);
  complete = λ spec. logged_call (controller spec) (R.complete spec);
  add_healthz_check = λ name. logged_call (healthz name) (R.add_healthz_check name);
  add_readyz_check = λ name. logged_call (readyz name) (R.add_readyz_check name);
  start = logged_call starting R.start;
}

-- The log after calls that were all answered.
abbrev pub succeeded : List SetupCall → SetupLog → SetupLog
succeeded [] log = log
succeeded (c ∷ cs) log = succeeded cs ((c, true) ∷ log)

succeeded-append :
    (cs ds : List SetupCall) (log : SetupLog)
    → succeeded (cs ++ ds) log ≡ succeeded ds (succeeded cs log)
succeeded-append [] ds log = refl
succeeded-append (c ∷ cs) ds log = succeeded-append cs ds ((c, true) ∷ log)

-- One of the calls failed, those before it were answered, and none after it was made.
abbrev pub Stopped : List SetupCall → SetupLog → SetupLog → Type 0
Stopped cs log log' =
    (made : List SetupCall) × (c : SetupCall) × (rest : List SetupCall) × (made ++ c ∷ rest ≡ cs)
    × (log' ≡ (c, false) ∷ succeeded made log)

-- A process that runs on has made all of the calls, and they were answered. One that does not has
-- stopped at one of them.
abbrev pub Pass : {A : Type 0} → List SetupCall → SetupLog → Outcome A → SetupLog → Type 0
Pass cs log (running a) log' = log' ≡ succeeded cs log
Pass cs log (exited code) log' = Stopped cs log log'
Pass cs log panicked log' = Stopped cs log log'

pub record Passes {S A : Type 0} (m : Process (S × SetupLog) A) (cs : List SetupCall) : Type 0 where
  pub at : (s : S) (log : SetupLog) → Pass cs log (m (s, log)).0 (m (s, log)).1.1

⊎-cases : {A : Type 0} (x : ℕ ⊎ A) → ((n : ℕ) × (x ≡ inl n)) ⊎ ((a : A) × (x ≡ inr a))
⊎-cases (inl n) = inl (n, refl)
⊎-cases (inr a) = inr (a, refl)

Outcome-cases :
    {A : Type 0} (w : Outcome A)
    → ((a : A) × (w ≡ running a)) ⊎ (((n : ℕ) × (w ≡ exited n)) ⊎ (w ≡ panicked))
Outcome-cases (running a) = inl (a, refl)
Outcome-cases (exited n) = inr (inl (n, refl))
Outcome-cases panicked = inr (inr refl)

Stopped-append :
    (cs ds : List SetupCall) (log log' : SetupLog)
    → Stopped cs log log'
    → Stopped (cs ++ ds) log log'
Stopped-append cs ds log log' (made, c, rest, e, e') =
    (made, c, rest ++ ds, sym (append_assoc made (c ∷ rest) ds) ∙ ap (λ xs. xs ++ ds) e, e')

Stopped-after :
    (cs ds : List SetupCall) (log log' : SetupLog)
    → Stopped ds (succeeded cs log) log'
    → Stopped (cs ++ ds) log log'
Stopped-after cs ds log log' (made, c, rest, e, e') =
    (cs ++ made, c, rest, rw (append_assoc, e), rw (succeeded-append cs made log) e')

Pass-after :
    {A : Type 0} (cs ds : List SetupCall) (log : SetupLog) (w : Outcome A) (log' : SetupLog)
    → Pass ds (succeeded cs log) w log'
    → Pass (cs ++ ds) log w log'
Pass-after cs ds log (running a) log' p = p ∙ sym (succeeded-append cs ds log)
Pass-after cs ds log (exited code) log' p = Stopped-after cs ds log log' p
Pass-after cs ds log panicked log' p = Stopped-after cs ds log log' p

module _ {S : Type 0} where
  pub or_exit-Passes :
      (c : SetupCall) (f : Call S (Unit {0})) → Passes (or_exit (logged_call c f)) (c ∷ [])
  or_exit-Passes c f = record {
    at = λ s log. elim (Attempt-cases (f s).0) [
      | inl (e, failed) ↦ rw (failed, or_exit) ([], c, [], refl, ground (arith, failed))
      | inr (u, worked) ↦ rw (worked, or_exit) (ground (arith, worked))
    ];
  }

  pub must-Passes :
      (c : SetupCall) (f : Call S (Unit {0})) → Passes (must (logged_call c f)) (c ∷ [])
  must-Passes c f = record {
    at = λ s log. elim (Attempt-cases (f s).0) [
      | inl (e, failed) ↦ rw (failed, must) ([], c, [], refl, ground (arith, failed))
      | inr (u, worked) ↦ rw (worked, must) (ground (arith, worked))
    ];
  }

  pub ending-Passes :
      {A : Type 0} (c : SetupCall) (f : S → (ℕ ⊎ A) × S)
      → Passes (ending (logged_ending c f)) (c ∷ [])
  ending-Passes c f = record {
    at = λ s log. elim (⊎-cases (f s).0) [
      | inl (code, ended) ↦ rw (ended, ending) ([], c, [], refl, ground (arith, ended))
      | inr (v, answered) ↦ rw (answered, ending) (ground (arith, answered))
    ];
  }

  -- One process after another passes over the calls of both.
  pub bind-Passes :
      {A B : Type 0} {cs ds : List SetupCall} {m : Process (S × SetupLog) A}
      {k : A → Process (S × SetupLog) B}
      → Passes m cs
      → ((a : A) → Passes (k a) ds)
      → Passes (m >>= k) (cs ++ ds)
  bind-Passes {cs} {ds} {m} {k} p q = record {
    at = λ s log. elim (Outcome-cases (m (s, log)).0) [
      | inl (a, ran) ↦
          let now = (m (s, log)).1 in
          let here : now.1 ≡ succeeded cs log = rw ran at (p.at s log) in
          rw (ran, ◌>>=◌)
            (Pass-after cs ds log (k a now).0 (k a now).1.1
              (subst (λ l. Pass ds l (k a now).0 (k a now).1.1) here ((q a).at now.0 now.1)))
      | inr (inl (n, ended)) ↦
          rw (ended, ◌>>=◌) (Stopped-append cs ds log _ (rw ended at (p.at s log)))
      | inr (inr ended) ↦ rw (ended, ◌>>=◌) (Stopped-append cs ds log _ (rw ended at (p.at s log)))
    ];
  }

  pub then-Passes :
      {B : Type 0} {c : SetupCall} {ds : List SetupCall} {m : Process (S × SetupLog) (Unit {0})}
      {k : Process (S × SetupLog) B}
      → Passes m (c ∷ [])
      → Passes k ds
      → Passes (m >> k) (c ∷ ds)
  then-Passes p q = bind-Passes p (λ _. q)

  pub doing-Passes : (f : S → S) → Passes (doing (λ (s, log). (f s, log))) []
  doing-Passes f = record { at = λ s log. refl }
