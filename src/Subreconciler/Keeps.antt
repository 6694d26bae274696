-- ===== src/Subreconciler/Keeps.antt =====
-- Invariants of a pass over sub-reconcilers.
use observability_ui_operato.Base.{List, [], ◌∷◌, inl, inr, Bool-cases}
use observability_ui_operato.Api.{Request}
use observability_ui_operato.Subreconciler.{
  FnWithRequest, run_subreconcilers, should_halt_or_requeue,
}

module _ {S : Type 0} where
  abbrev pub Keeps : (S → Type 0) → FnWithRequest S → Type 0
  Keeps P f = (req : Request) (s : S) → P s → P (f req s).1

  -- Every sub-reconciler of the list keeps `P`.
  infixr 20 ◌▹◌
  pub data AllKeep (P : S → Type 0) : List (FnWithRequest S) → Type 0 where
    done : AllKeep P []
    ◌▹◌ :
        {f : FnWithRequest S} {fs : List (FnWithRequest S)}
        → Keeps P f
        → AllKeep P fs
        → AllKeep P (f ∷ fs)

  pub run_keeps :
      {P : S → Type 0} {fs : List (FnWithRequest S)}
      → AllKeep P fs
      → (req : Request) (s : S) → P s
      → P (run_subreconcilers fs req s).1
  unfolding run_subreconcilers
  run_keeps done req s p = p
  run_keeps {P} (◌▹◌ {f} {fs} k ks) req s p =
      elim (Bool-cases (should_halt_or_requeue (f req s).0)) [
        | inl h ↦ rw h (k req s p)
        | inr h ↦ rw h (run_keeps {P = P} ks req (f req s).1 (k req s p))
      ]

  -- What the first sub-reconciler establishes and the others keep holds after the loop.
  pub run_establishes :
      {P : S → Type 0} (f : FnWithRequest S) {fs : List (FnWithRequest S)} (req : Request)
      → ((s : S) → P (f req s).1)
      → AllKeep P fs
      → (s : S) → P (run_subreconcilers (f ∷ fs) req s).1
  unfolding run_subreconcilers
  run_establishes {P} f req first ks s = elim (Bool-cases (should_halt_or_requeue (f req s).0)) [
    | inl h ↦ rw h (first s)
    | inr h ↦ rw h (run_keeps {P = P} ks req (f req s).1 (first s))
  ]

  pub others_keep :
      {P : S → Type 0} {f : FnWithRequest S} {fs : List (FnWithRequest S)}
      → AllKeep P (f ∷ fs)
      → AllKeep P fs
  others_keep (k ▹ ks) = ks

  -- Every sub-reconciler of the list keeps `P` where it runs for the request.
  infixr 20 ◌◃◌
  pub data AllKeepFor (P : S → Type 0) (req : Request) : List (FnWithRequest S) → Type 0 where
    finished : AllKeepFor P req []
    ◌◃◌ :
        {f : FnWithRequest S} {fs : List (FnWithRequest S)}
        → ((s : S) → P s → P (f req s).1)
        → AllKeepFor P req fs
        → AllKeepFor P req (f ∷ fs)

  pub run_keeps_for :
      {P : S → Type 0} {req : Request} {fs : List (FnWithRequest S)}
      → AllKeepFor P req fs
      → (s : S) → P s
      → P (run_subreconcilers fs req s).1
  unfolding run_subreconcilers
  run_keeps_for finished s p = p
  run_keeps_for {P} {req} (◌◃◌ {f} {fs} k ks) s p =
      elim (Bool-cases (should_halt_or_requeue (f req s).0)) [
        | inl h ↦ rw h (k s p)
        | inr h ↦ rw h (run_keeps_for {P = P} ks (f req s).1 (k s p))
      ]
