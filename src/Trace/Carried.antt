-- ===== src/Trace/Carried.antt =====
-- The recorder of a client that carries something along with the state of another.
use observability_ui_operato.Base.{String, Option, ap, sym, none, some, ◌≡◌}
use observability_ui_operato.Api.{ObservabilityUiPlugin}

-- `r.Recorder.Event`
abbrev pub Events : Type 0 → Type 0
Events S = Option (ObservabilityUiPlugin → String → String → String → S → S)

module _ {S L : Type 0} where
  abbrev pub carried_events : Events S → Events (S × L)
  carried_events none = none
  carried_events (some event) =
      some (λ o kind reason message (s, l). (event o kind reason message s, l))

  pub event_carries :
      (events : Events S) (event : ObservabilityUiPlugin → String → String → String → S × L → S × L)
      → carried_events events ≡ some event
      → (o : ObservabilityUiPlugin) (kind reason message : String) (s : S × L)
      → (event o kind reason message s).1 ≡ s.1
  event_carries none event e o kind reason message s = cc e
  event_carries (some event₀) event e o kind reason message s =
      let same : (λ o kind reason message (s : S × L). (event₀ o kind reason message s.0, s.1))
          ≡ event =
        cc e in
      ap (λ f. (f o kind reason message s).1) (sym same)
