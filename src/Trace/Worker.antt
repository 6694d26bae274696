-- ===== src/Trace/Worker.antt =====
-- The worker of controller-runtime, which runs `Reconcile` for a resource until a run asks for no other.
use Prim.Native.Nat.{zero, suc}
use observability_ui_operato.Base.{
  ℕ, ◌≡◌, ap, is_some, false, true, some, none, [], Option, Bool, ◌&&◌, not, Bool-cases, inl, inr,
  ◌∙◌,
}
use observability_ui_operato.Base.Time.{nat_eq}
use observability_ui_operato.Subreconciler.{Outcome}
use observability_ui_operato.Trace.Faults.{Fated}
use observability_ui_operato.Trace.Spent.{AtMost, AtMost-zero, repeated}

-- A run with an error, with `Requeue` or with a `RequeueAfter` is followed by another. One that panics
-- is not.
abbrev pub is_last : Option Outcome → Bool
is_last none = true
is_last (some (r, e)) = not (is_some e) && not r.requeue && nat_eq r.requeue_after 0

-- The state in which the worker is done, after as many runs as the fuel at most.
pub worker : {S : Type 0} → ℕ → (S → Option Outcome × S) → S → Option S
worker zero run s = none
worker (suc n) run s = elim (is_last (run s).0) [
  | true ↦ some (run s).1
  | false ↦ worker n run (run s).1
]

-- A run uses a fate, keeps what holds of the state, and is the last where no fate is left: so the
-- worker is done after one run more than there are fates.
pub worker_done :
    {S : Type 0} (P : S → Type 0) (run : Fated S → Option Outcome × Fated S)
    → ((n : ℕ) (s : Fated S) → AtMost (suc n) s.1 → AtMost n (run s).1.1)
    → ((s : Fated S) → P s.0 → P (run s).1.0)
    → ((s : S) → P s → is_last (run (s, [])).0 ≡ true)
    → (n : ℕ) (s : Fated S) → AtMost n s.1
    → P s.0
    → is_some (worker (suc n) run s) ≡ true
unfolding worker
worker_done P run uses keeps last zero s h p =
    let e : is_last (run s).0 ≡ true =
      ap (λ l. is_last (run (s.0, l)).0) (AtMost-zero s.1 h) ∙ last s.0 p in
    rw (e, is_some)
worker_done P run uses keeps last (suc n) s h p = elim (Bool-cases (is_last (run s).0)) [
  | inl e ↦ rw (e, is_some)
  | inr e ↦ rw (e, is_some) (worker_done P run uses keeps last n (run s).1 (uses n s h) (keeps s p))
]

-- What every run keeps, a number of runs keeps.
pub repeated_keeps :
    {S A : Type 0} (P : S → Type 0) (run : S → A × S)
    → ((s : S) → P s → P (run s).1)
    → (n : ℕ) (s : S) → P s
    → P (repeated n run s)
repeated_keeps P run keeps zero s p = p
repeated_keeps P run keeps (suc n) s p = repeated_keeps P run keeps n (run s).1 (keeps s p)
