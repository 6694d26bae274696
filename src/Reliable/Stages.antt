-- ===== src/Reliable/Stages.antt =====
-- How far a run of a controller has come in a reliable cluster, sub-reconciler by sub-reconciler.
use observability_ui_operato.Base.{◌≡◌, ◌≢◌, ◌∙◌, refl, ap, none, some, Option, List, [], ◌∷◌}
use observability_ui_operato.Api.{Request, NamespacedName}
use observability_ui_operato.Api.Objects.{Kind, Object}
use observability_ui_operato.Subreconciler.{
  FnWithRequest, run_subreconcilers, continue_reconciling, do_not_requeue, should_halt_or_requeue,
  empty_result, evaluate,
}
use observability_ui_operato.Client.{Client}
use observability_ui_operato.Reliable.Ensures.{Ensures, Step}
use observability_ui_operato.Reliable.{IsReliable}

pub passes :
    {S : Type 0} (f : FnWithRequest S) (fs : List (FnWithRequest S)) (req : Request) (s : S)
    → (f req s).0 ≡ continue_reconciling
    → run_subreconcilers (f ∷ fs) req s ≡ run_subreconcilers fs req (f req s).1
unfolding run_subreconcilers should_halt_or_requeue continue_reconciling
passes f fs req s h = rw h

pub stops :
    {S : Type 0} (f : FnWithRequest S) (fs : List (FnWithRequest S)) (req : Request) (s : S)
    → (f req s).0 ≡ do_not_requeue
    → run_subreconcilers (f ∷ fs) req s ≡ (some (empty_result, none), (f req s).1)
unfolding run_subreconcilers should_halt_or_requeue do_not_requeue evaluate
stops f fs req s h = rw h

pub ends :
    {S : Type 0} (req : Request) (s : S)
    → run_subreconcilers [] req s ≡ (some (empty_result, none), s)
unfolding run_subreconcilers evaluate
ends req s = refl

-- There are objects of these kinds and keys.
abbrev pub AllThere :
    List (Kind × NamespacedName) → (Kind → NamespacedName → Option Object) → Type 0
AllThere [] objects = Unit
AllThere ((k, n) ∷ ks) objects = (objects k n ≢ none) × AllThere ks objects

module _ (C : Client) (R : IsReliable C) where
  -- A state has them.
  abbrev pub Present : List (Kind × NamespacedName) → C.State → Type 0
  Present ks s = AllThere ks (R.objects s)

  Present-Step :
      (ks : List (Kind × NamespacedName)) (s t : C.State)
      → Step C R s t
      → Present ks s
      → Present ks t
  Present-Step [] s t step p = tt
  Present-Step ((k, n) ∷ ks) s t step (p, ps) = (step.objects k n p, Present-Step ks s t step ps)

  pub Present-same :
      (ks : List (Kind × NamespacedName)) (s t : C.State)
      → R.objects t ≡ R.objects s
      → Present ks s
      → Present ks t
  Present-same [] s t same p = tt
  Present-same ((k, n) ∷ ks) s t same (p, ps) = (rw same p, Present-same ks s t same ps)

  -- A run of the sub-reconcilers `all`, and what holds of the custom resource all along.
  module _ (req : Request) (all : List (FnWithRequest C.State)) (Ready : C.State → Type 0) where
    -- How far a run has come: what is left of it, where, and what is in place there.
    pub record Stage (start : C.State) (fs : List (FnWithRequest C.State))
        (ks : List (Kind × NamespacedName)) : Type 0 where
      pub now : C.State
      pub runs : run_subreconcilers all req start ≡ run_subreconcilers fs req now
      pub ready : Ready now
      pub present : Present ks now
      pub console : R.console now ≡ R.console start
      pub settled : Present ks start → R.objects now ≡ R.objects start

    still :
        {start now t : C.State} {k : Kind} {n : NamespacedName}
        → R.objects now ≡ R.objects start
        → R.objects start k n ≢ none
        → (R.objects now k n ≢ none → t ≡ now)
        → R.objects t ≡ R.objects start
    still {k} {n} same there settled = ap R.objects (settled (rw same there)) ∙ same

    -- A sub-reconciler that leaves its resource in place is a step of the run.
    pub ensured :
        ((s t : C.State) → Step C R s t → Ready s → Ready t)
        → {start : C.State} {f : FnWithRequest C.State} {fs : List (FnWithRequest C.State)}
          {ks : List (Kind × NamespacedName)} {k : Kind} {n : NamespacedName}
        → ((s : C.State) → Ready s → Ensures C R k n s (f req s))
        → Stage start (f ∷ fs) ks
        → Stage start fs ((k, n) ∷ ks)
    ensured Ready-Step {f} {fs} {ks} leaves p =
        let e = leaves p.now p.ready in
        record {
          now = (f req p.now).1;
          runs = p.runs ∙ passes f fs req p.now e.continues;
          ready = Ready-Step p.now _ e.step p.ready;
          present = (e.present, Present-Step ks _ _ e.step p.present);
          console = e.step.console ∙ p.console;
          settled = λ (there, rest). still (p.settled rest) there e.settled;
        }

    -- So is one that goes on and leaves the objects and the console alone.
    pub passed :
        {start : C.State} {f : FnWithRequest C.State} {fs : List (FnWithRequest C.State)}
        {ks : List (Kind × NamespacedName)}
        → ((s : C.State)
            → Ready s
            → ((f req s).0 ≡ continue_reconciling)
              × Ready (f req s).1
              × (R.objects (f req s).1 ≡ R.objects s)
              × (R.console (f req s).1 ≡ R.console s))
        → Stage start (f ∷ fs) ks
        → Stage start fs ks
    passed {f} {fs} {ks} leaves p =
        let (goes_on, ready, objects, console) = leaves p.now p.ready in
        record {
          now = (f req p.now).1;
          runs = p.runs ∙ passes f fs req p.now goes_on;
          ready = ready;
          present = Present-same ks p.now _ objects p.present;
          console = console ∙ p.console;
          settled = λ there. objects ∙ p.settled there;
        }

    -- Where a run begins.
    pub begin : (s : C.State) → Ready s → Stage s all []
    begin s ready = record {
      now = s;
      runs = refl;
      ready = ready;
      present = tt;
      console = refl;
      settled = λ _. refl;
    }
