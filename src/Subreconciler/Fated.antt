-- ===== src/Subreconciler/Fated.antt =====
-- The loop over sub-reconcilers does on a client whose calls are all answered what it does on the
-- wrapped client, and a run over a client of which some calls fail uses a fate.
use observability_ui_operato.Base.{
  List, [], ◌∷◌, ◌≡◌, refl, ap, sym, ◌∙◌, Bool-cases, inl, inr, Option, if◌then◌else◌,
}
use observability_ui_operato.Api.{Request}
use observability_ui_operato.Subreconciler.{
  SubResult, Outcome, FnWithRequest, run_subreconcilers, should_halt_or_requeue, evaluate,
}
use observability_ui_operato.Body.Fated.{SameSub, unfated}
use observability_ui_operato.Trace.Faults.{Fated}

infixr 20 ◌▸◌
pub data AllSame {S : Type 0} (req : Request)
    : List (FnWithRequest (Fated S)) → List (FnWithRequest S) → Type 0 where
  done : AllSame req [] []
  ◌▸◌ :
      {f : FnWithRequest (Fated S)} {g : FnWithRequest S} {fs : List (FnWithRequest (Fated S))}
      {gs : List (FnWithRequest S)}
      → SameSub (f req) (g req)
      → AllSame req fs gs
      → AllSame req (f ∷ fs) (g ∷ gs)

module _ {T : Type 0} (req : Request) where
  -- The loop, after its first sub-reconciler.
  after : List (FnWithRequest T) → SubResult × T → Option Outcome × T
  after fs (r, t) =
      if should_halt_or_requeue r then (evaluate r, t) else run_subreconcilers fs req t

  first :
      (f : FnWithRequest T) (fs : List (FnWithRequest T)) (t : T)
      → run_subreconcilers (f ∷ fs) req t ≡ after fs (f req t)
  unfolding run_subreconcilers after
  first f fs t = refl

module _ {S : Type 0} (req : Request) where
  after-unfated :
      (fs : List (FnWithRequest (Fated S))) (gs : List (FnWithRequest S)) (r : SubResult) (s : S)
      → run_subreconcilers fs req (s, []) ≡ unfated (run_subreconcilers gs req s)
      → after req fs (unfated (r, s)) ≡ unfated (after req gs (r, s))
  unfolding after
  after-unfated fs gs r s h = elim (Bool-cases (should_halt_or_requeue r)) [
    | inl halted ↦ rw halted refl
    | inr on ↦ rw (on, h) refl
  ]

  pub run_same :
      {fs : List (FnWithRequest (Fated S))} {gs : List (FnWithRequest S)}
      → AllSame req fs gs
      → (s : S) → run_subreconcilers fs req (s, []) ≡ unfated (run_subreconcilers gs req s)
  unfolding run_subreconcilers
  run_same done s = refl
  run_same (◌▸◌ {f} {g} {fs} {gs} h hs) s =
      first req f fs (s, [])
      ∙ ap (after req fs) (h.at s)
      ∙ after-unfated fs gs (g req s).0 (g req s).1 (run_same hs (g req s).1)
      ∙ ap unfated (sym (first req g gs s))
