-- ===== src/Main/Setup.antt =====
-- What main.go calls, and `SetupWithManager` of both controllers.
use observability_ui_operato.Base.{ℕ, String, Bool, ◌⊎◌, inl, inr, List, [], ◌∷◌}
use observability_ui_operato.Attempt.{ok, err}
use observability_ui_operato.Body.{Call}
use observability_ui_operato.Api.Objects.{Kind, deployment_kind, service_kind}
use observability_ui_operato.Api.Scheme.{
  SchemeBuilder, SchemeType, observability_ui, observability_ui_plugin,
}

-- `tls.Config`, by the field that the program sets.
pub record TlsConfig : Type 0 where
  pub next_protos : List String

-- The variables that the flags set.
pub record Flags : Type 0 where
  pub metrics_addr : String
  pub probe_addr : String
  pub enable_leader_election : Bool
  pub enable_http2 : Bool

-- `server.Options`, `webhook.Options` and `ctrl.Options`, by the fields that the program sets.
pub record ServerOptions : Type 0 where
  pub bind_address : String
  pub tls_opts : List (TlsConfig → TlsConfig)

pub record WebhookOptions : Type 0 where
  pub port : ℕ
  pub tls_opts : List (TlsConfig → TlsConfig)

pub record Options : Type 0 where
  pub metrics : ServerOptions
  pub webhook_server : WebhookOptions
  pub health_probe_bind_address : String
  pub leader_election : Bool
  pub leader_election_id : String

-- What a controller is built from: the resource that it reconciles, and the objects whose changes
-- make it reconcile their owner.
pub record ControllerSpec : Type 0 where
  pub reconciles : SchemeType
  pub owns : List Kind

-- The libraries' part of a process. The manager is part of the state. Where the library ends the
-- process itself, a call answers with the exit code.
pub record Runtime : Type 1 where
  pub State : Type 0
  pub Config : Type 0
  pub add_client_go_scheme : Call State (Unit {0})
  pub add_to_scheme : SchemeBuilder → Call State (Unit {0})
  pub add_console_v1_alpha1 : Call State (Unit {0})
  pub add_console_v1 : Call State (Unit {0})
  -- `flag.Parse`, from the defaults.
  pub parse_flags : Flags → State → (ℕ ⊎ Flags) × State
  pub set_logger : State → State
  pub get_config_or_die : State → (ℕ ⊎ Config) × State
  pub new_manager : Config → Options → Call State (Unit {0})
  -- `ctrl.NewControllerManagedBy(mgr)` to `Complete(r)`.
  pub complete : ControllerSpec → Call State (Unit {0})
  pub add_healthz_check : String → Call State (Unit {0})
  pub add_readyz_check : String → Call State (Unit {0})
  pub start : Call State (Unit {0})

-- Where a process stands: it runs on, it has exited with a code, or it has panicked.
pub data Outcome (A : Type 0) : Type 0 where
  running : A → Outcome A
  exited : ℕ → Outcome A
  panicked : Outcome A

abbrev pub Process : Type 0 → Type 0 → Type 0
Process S A = S → Outcome A × S

module _ {S : Type 0} where
  infixl 5 ◌>>=◌ ◌>>◌
  abbrev pub ◌>>=◌ : {A B : Type 0} → Process S A → (A → Process S B) → Process S B
  ◌>>=◌ m f s =
      let (w, t) = m s in
      elim w [ running a ↦ f a t | exited code ↦ (exited code, t) | panicked ↦ (panicked, t) ]

  abbrev pub ◌>>◌ : {B : Type 0} → Process S (Unit {0}) → Process S B → Process S B
  m >> k = m >>= λ _. k

  -- `utilruntime.Must(err)`
  abbrev pub must : Call S (Unit {0}) → Process S (Unit {0})
  must c s = let (a, t) = c s in elim a [ ok u ↦ (running u, t) | err e ↦ (panicked, t) ]

  -- `if err != nil { …; os.Exit(1) }`
  abbrev pub or_exit : Call S (Unit {0}) → Process S (Unit {0})
  or_exit c s = let (a, t) = c s in elim a [ ok u ↦ (running u, t) | err e ↦ (exited 1, t) ]

  -- A call that may end the process itself.
  abbrev pub ending : {A : Type 0} → (S → (ℕ ⊎ A) × S) → Process S A
  ending c s = let (a, t) = c s in elim a [ inl code ↦ (exited code, t) | inr v ↦ (running v, t) ]

  -- A call that cannot fail.
  abbrev pub doing : (S → S) → Process S (Unit {0})
  doing f s = (running tt, f s)

module _ (R : Runtime) where
  -- `SetupWithManager` of the controller of plugins.
  unfoldable pub setup_plugins : Call R.State (Unit {0})
  setup_plugins =
      R.complete (record {
        reconciles = observability_ui_plugin;
        owns = deployment_kind ∷ service_kind ∷ [];
      })

  -- `SetupWithManager` of the controller of the hub.
  unfoldable pub setup_operator : Call R.State (Unit {0})
  setup_operator =
      R.complete
        (record { reconciles = observability_ui; owns = deployment_kind ∷ service_kind ∷ [] })
