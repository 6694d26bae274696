-- ===== src/Subreconciler/Success.antt =====
-- What a run that ends with neither an error nor a wish for another run says of its sub-reconcilers.
use Prim.Native.Nat.{zero, suc}
use observability_ui_operato.Base.{
  ℕ, ◌≡◌, ◌≢◌, ap, ◌∙◌, false, arith, subst, sym, some, none, true, List, [], ◌∷◌, ◌++◌, Bool-cases,
  inl, inr,
}
use observability_ui_operato.Api.{Request}
use observability_ui_operato.Api.Heap.{at}
use observability_ui_operato.Subreconciler.{
  SubResult, FnWithRequest, run_subreconcilers, should_halt_or_requeue, continue_reconciling,
  evaluate, empty_result,
}
use observability_ui_operato.Subreconciler.Keeps.{AllKeep, ◌▹◌, run_keeps}

-- The pair lets the run go on, or asks for another run.
abbrev pub GoesOnOrRequeues : SubResult → Type 0
GoesOnOrRequeues (none, none) = Unit
GoesOnOrRequeues (none, some e) = ⊥
GoesOnOrRequeues (some r, e) = r.requeue ≡ true

halts_with_requeue :
    (r : SubResult)
    → GoesOnOrRequeues r
    → should_halt_or_requeue r ≡ true
    → evaluate r ≢ some (empty_result, none)
unfolding evaluate should_halt_or_requeue
halts_with_requeue (none, none) g h e = cc h
halts_with_requeue (none, some x) g h e = g
halts_with_requeue (some r, x) g h e = ground (arith, e)

goes_on : (r : SubResult) → should_halt_or_requeue r ≡ false → r ≡ continue_reconciling
unfolding should_halt_or_requeue continue_reconciling
goes_on r h = ground arith

-- So do the pairs that a list of sub-reconcilers returns for a request.
abbrev pub AllGoOn : {S : Type 0} → Request → List (FnWithRequest S) → Type 0
AllGoOn req [] = Unit
AllGoOn {S} req (f ∷ fs) = ((s : S) → GoesOnOrRequeues (f req s).0) × AllGoOn req fs

module _ {S : Type 0} (req : Request) where
  -- A run that ends so has gone on after its first sub-reconciler.
  went_on :
      (f : FnWithRequest S) (fs : List (FnWithRequest S)) (s : S)
      → GoesOnOrRequeues (f req s).0
      → (run_subreconcilers (f ∷ fs) req s).0 ≡ some (empty_result, none)
      → ((f req s).0 ≡ continue_reconciling)
        × (run_subreconcilers (f ∷ fs) req s ≡ run_subreconcilers fs req (f req s).1)
  unfolding run_subreconcilers
  went_on f fs s g e = elim (Bool-cases (should_halt_or_requeue (f req s).0)) [
    | inl halted ↦ absurd (halts_with_requeue (f req s).0 g halted (rw halted at e))
    | inr on ↦ (goes_on (f req s).0 on, rw on)
  ]

  -- Where each of the first sub-reconcilers goes on or asks for another run, and one of them leaves
  -- `P` behind when it goes on, a run that ends with neither leaves `P`, if all of them keep it.
  pub success_leaves :
      {P : S → Type 0} (fs rest : List (FnWithRequest S)) (i : ℕ) (f : FnWithRequest S) (s : S)
      → AllGoOn req fs
      → AllKeep P (fs ++ rest)
      → at fs i ≡ some f
      → ((s : S) → (f req s).0 ≡ continue_reconciling → P (f req s).1)
      → (run_subreconcilers (fs ++ rest) req s).0 ≡ some (empty_result, none)
      → P (run_subreconcilers (fs ++ rest) req s).1
  success_leaves [] rest i f s g k there leaves e = cc there
  success_leaves {P} (h ∷ fs) rest zero f s g (k ▹ ks) there leaves e =
      let (on, runs) = went_on h (fs ++ rest) s (g.0 s) e in
      let same : f ≡ h = cc there in
      let left : P (h req s).1 =
        subst (λ x. P (x req s).1) same
          (leaves s (subst (λ x. (x req s).0 ≡ continue_reconciling) (sym same) on)) in
      rw runs (run_keeps {P = P} ks req (h req s).1 left)
  success_leaves {P} (h ∷ fs) rest (suc i) f s g (k ▹ ks) there leaves e =
      let (on, runs) = went_on h (fs ++ rest) s (g.0 s) e in
      rw runs (
        success_leaves {P = P} fs rest i f (h req s).1 g.1 ks there leaves
          (ap (λ x. x.0) (sym runs) ∙ e))
