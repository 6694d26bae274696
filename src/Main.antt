-- ===== src/Main.antt =====
-- main.go: the process, from the registration of the types to the start of the manager. What it
-- calls of controller-runtime, of the `flag` package and of the scheme's libraries is a parameter, a
-- `Runtime`. The `SetupWithManager` functions of both controllers are in `Setup`.
pub mod Setup
pub mod Passes
pub mod Laws
use observability_ui_operato.Base.{
  ℕ, String, Bool, true, false, ◌⊎◌, inl, inr, List, [], ◌∷◌, if◌then◌else◌,
}
use observability_ui_operato.Attempt.{Attempt, ok, err}
use observability_ui_operato.Body.{Call}
use observability_ui_operato.Api.Scheme.{scheme_builder}
use observability_ui_operato.Main.Setup.{
  TlsConfig, Flags, Options, ServerOptions, WebhookOptions, Runtime, Outcome, running, exited,
  panicked, Process, ◌>>=◌, ◌>>◌, must, or_exit, ending, doing, setup_plugins, setup_operator,
}

-- The flags before they are parsed.
abbrev pub default_flags : Flags
default_flags = record {
  metrics_addr = ":8080";
  probe_addr = ":8081";
  enable_leader_election = false;
  enable_http2 = false;
}

unfoldable pub disable_http2 : Bool → TlsConfig → TlsConfig
disable_http2 enable_http2 c =
    if enable_http2 then c else record c { next_protos = "http/1.1" ∷ [] }

unfoldable pub manager_options : Flags → Options
manager_options flags = record {
  metrics = record {
    bind_address = flags.metrics_addr;
    tls_opts = disable_http2 flags.enable_http2 ∷ [];
  };
  webhook_server = record { port = 9443; tls_opts = disable_http2 flags.enable_http2 ∷ [] };
  health_probe_bind_address = flags.probe_addr;
  leader_election = flags.enable_leader_election;
  leader_election_id = "99209ff4.observability-ui.openshift.io";
}

module _ (R : Runtime) where
  -- `init`
  unfoldable pub register_schemes : Process R.State (Unit {0})
  register_schemes = do
    must R.add_client_go_scheme
    must (R.add_to_scheme scheme_builder)
    must R.add_console_v1_alpha1
    must R.add_console_v1

  unfoldable pub main : Process R.State (Unit {0})
  main = do
    flags ← ending (R.parse_flags default_flags)
    doing R.set_logger
    config ← ending R.get_config_or_die
    or_exit (R.new_manager config (manager_options flags))
    or_exit (setup_plugins R)
    or_exit (setup_operator R)
    or_exit (R.add_healthz_check "healthz")
    or_exit (R.add_readyz_check "readyz")
    or_exit R.start

  -- The `init` functions run before `main`.
  unfoldable pub process : Process R.State (Unit {0})
  process = register_schemes >> main
