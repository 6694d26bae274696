-- ===== src/Trace/Order.antt =====
-- A pass over sub-reconcilers that each make at most one write makes them in the given order.
use mathlib.Core.List.{Sublistᴰ, reverse_aux}
use observability_ui_operato.Base.{
  ◌≡◌, refl, List, [], ◌∷◌, ◌⊎◌, inl, inr, true, Bool-cases, ◌∙◌, ap,
}
use observability_ui_operato.Api.{Request}
use observability_ui_operato.Subreconciler.{
  FnWithRequest, run_subreconcilers, should_halt_or_requeue,
}
use observability_ui_operato.Trace.{Logged, Write, writes}

pub none-Sublistᴰ : (ws : List Write) → Sublistᴰ [] ws
none-Sublistᴰ [] = Sublistᴰ.slnil
none-Sublistᴰ (w ∷ ws) = Sublistᴰ.cons (none-Sublistᴰ ws)

module _ {S : Type 0} where
  -- The sub-reconciler makes no write of a resource.
  abbrev pub Quiet : FnWithRequest (Logged S) → Type 0
  Quiet f = (req : Request) (s : Logged S) → writes (f req s).1.1 ≡ writes s.1

  -- It makes none, or the one given.
  abbrev pub AtMost : Write → FnWithRequest (Logged S) → Type 0
  AtMost w f =
      (req : Request) (s : Logged S)
      → (writes (f req s).1.1 ≡ writes s.1) ⊎ (writes (f req s).1.1 ≡ w ∷ writes s.1)

  -- The writes that a list of sub-reconcilers may make, in order.
  infixr 20 ◌▹◌ ◌▸◌
  pub data MayWrite : List (FnWithRequest (Logged S)) → List Write → Type 0 where
    done : MayWrite [] []
    ◌▹◌ :
        {f : FnWithRequest (Logged S)} {fs : List (FnWithRequest (Logged S))} {ws : List Write}
        → Quiet f
        → MayWrite fs ws
        → MayWrite (f ∷ fs) ws
    ◌▸◌ :
        {f : FnWithRequest (Logged S)} {fs : List (FnWithRequest (Logged S))} {w : Write}
        {ws : List Write}
        → AtMost w f
        → MayWrite fs ws
        → MayWrite (f ∷ fs) (w ∷ ws)

  -- The writes `made`, oldest first, come on top of those that the log held.
  abbrev Made : List Write → Logged S → Logged S → Type 0
  Made made s t = writes t.1 ≡ reverse_aux made (writes s.1)

  pub run_in_order :
      {fs : List (FnWithRequest (Logged S))} {ws : List Write}
      → MayWrite fs ws
      → (req : Request) (s : Logged S)
      → (made : List Write) × Made made s (run_subreconcilers fs req s).1 × Sublistᴰ made ws
  unfolding run_subreconcilers
  run_in_order done req s = ([], refl, Sublistᴰ.slnil)
  run_in_order (◌▹◌ {f} {fs} {ws} quiet rest) req s =
      let (made, e, sub) = run_in_order rest req (f req s).1 in
      elim (Bool-cases (should_halt_or_requeue (f req s).0)) [
        | inl h ↦ ([], rw h (quiet req s), none-Sublistᴰ ws)
        | inr h ↦ (made, rw h (e ∙ ap (reverse_aux made) (quiet req s)), sub)
      ]
  run_in_order (◌▸◌ {f} {fs} {w} {ws} once rest) req s =
      let (made, e, sub) = run_in_order rest req (f req s).1 in
      elim (Bool-cases (should_halt_or_requeue (f req s).0)) [
        | inl h ↦ elim (once req s) [
          | inl none_made ↦ ([], rw h none_made, none-Sublistᴰ (w ∷ ws))
          | inr one_made ↦ (w ∷ [], rw h one_made, Sublistᴰ.cons-cons refl (none-Sublistᴰ ws))
        ]
        | inr h ↦ elim (once req s) [
          | inl none_made ↦ (made, rw h (e ∙ ap (reverse_aux made) none_made), Sublistᴰ.cons sub)
          | inr one_made ↦
              (w ∷ made, rw h (e ∙ ap (reverse_aux made) one_made), Sublistᴰ.cons-cons refl sub)
        ]
      ]

  -- A pass that writes no resource, whatever its log held.
  abbrev pub QuietPass : List (FnWithRequest (Logged S)) → Type 0
  QuietPass fs =
      (req : Request) (s : Logged S) → writes (run_subreconcilers fs req s).1.1 ≡ writes s.1

  pub QuietPass-cons :
      (f : FnWithRequest (Logged S)) (fs : List (FnWithRequest (Logged S)))
      → Quiet f
      → QuietPass fs
      → QuietPass (f ∷ fs)
  unfolding run_subreconcilers
  QuietPass-cons f fs quiet rest req s = elim (Bool-cases (should_halt_or_requeue (f req s).0)) [
    | inl h ↦ rw h (quiet req s)
    | inr h ↦ rw h (rest req (f req s).1 ∙ quiet req s)
  ]

  -- A quiet sub-reconciler that halts makes a quiet pass, whatever follows it.
  pub QuietPass-of_halts :
      (f : FnWithRequest (Logged S)) (fs : List (FnWithRequest (Logged S)))
      → Quiet f
      → ((req : Request) (s : Logged S) → should_halt_or_requeue (f req s).0 ≡ true)
      → QuietPass (f ∷ fs)
  unfolding run_subreconcilers
  QuietPass-of_halts f fs quiet halts req s = rw (halts req s) (quiet req s)
