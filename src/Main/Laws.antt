-- ===== src/Main/Laws.antt =====
-- The order in which the process sets itself up, and what its servers offer.
use mathlib.Core.List.{foldl}
use observability_ui_operato.Base.{String, ◌≡◌, arith, List, [], ◌∷◌, ◌++◌, if◌then◌else◌}
use observability_ui_operato.Api.Objects.{deployment_kind, service_kind}
use observability_ui_operato.Api.Scheme.{scheme_builder, observability_ui, observability_ui_plugin}
use observability_ui_operato.Main.{
  default_flags, disable_http2, manager_options, register_schemes, main, process,
}
use observability_ui_operato.Main.Setup.{
  TlsConfig, Flags, Runtime, ◌>>◌, or_exit, setup_plugins, setup_operator,
}
use observability_ui_operato.Main.Passes.{
  SetupCall, client_go_scheme, console_v1_alpha1_scheme, console_v1_scheme, own_scheme,
  parsing_flags, getting_config, making_manager, controller, healthz, readyz, starting, logging,
  Pass, Passes, or_exit-Passes, must-Passes, ending-Passes, bind-Passes, then-Passes, doing-Passes,
}

-- What the process calls, in order: the registrations, and what `main` calls.
abbrev pub scheme_calls : List SetupCall
scheme_calls =
    client_go_scheme ∷ own_scheme scheme_builder ∷ console_v1_alpha1_scheme ∷ console_v1_scheme ∷ []

abbrev pub start_calls : List SetupCall
start_calls =
    controller
      (record { reconciles = observability_ui_plugin; owns = deployment_kind ∷ service_kind ∷ [] })
    ∷ controller
        (record { reconciles = observability_ui; owns = deployment_kind ∷ service_kind ∷ [] })
    ∷ healthz "healthz"
    ∷ readyz "readyz"
    ∷ starting
    ∷ []

abbrev pub setup_calls : List SetupCall
setup_calls = scheme_calls ++ parsing_flags ∷ getting_config ∷ making_manager ∷ start_calls

module _ (R : Runtime) where
  register_schemes-Passes : Passes (register_schemes (logging R)) scheme_calls
  unfolding register_schemes
  register_schemes-Passes = then-Passes (must-Passes _ R.add_client_go_scheme) (
      then-Passes (must-Passes _ (R.add_to_scheme scheme_builder))
        (then-Passes (must-Passes _ R.add_console_v1_alpha1) (must-Passes _ R.add_console_v1)))

  starts-Passes :
      Passes
        (do
          or_exit (setup_plugins (logging R))
          or_exit (setup_operator (logging R))
          or_exit ((logging R).add_healthz_check "healthz")
          or_exit ((logging R).add_readyz_check "readyz")
          or_exit (logging R).start)
        start_calls
  unfolding setup_plugins setup_operator
  starts-Passes = then-Passes (or_exit-Passes _ (R.complete _)) (
      then-Passes (or_exit-Passes _ (R.complete _)) (
        then-Passes (or_exit-Passes _ (R.add_healthz_check "healthz")) (
          then-Passes (or_exit-Passes _ (R.add_readyz_check "readyz")) (or_exit-Passes _ R.start))))

  main-Passes :
      Passes (main (logging R)) (parsing_flags ∷ getting_config ∷ making_manager ∷ start_calls)
  unfolding main
  main-Passes = bind-Passes (ending-Passes _ (R.parse_flags default_flags)) λ flags.
      bind-Passes (doing-Passes R.set_logger) λ _.
        bind-Passes (ending-Passes _ R.get_config_or_die) λ config.
          then-Passes (or_exit-Passes _ (R.new_manager config (manager_options flags)))
            starts-Passes

  -- Whatever the libraries answer, the process makes its calls in one order: the four registrations
  -- of types, the flags, the configuration, the manager, the controller of plugins, the controller of
  -- the hub, the two checks, and last the start of the manager. It makes none of them after one that
  -- failed, and it runs on to its end exactly where all of them were answered.
  pub process_in_order :
      (s : R.State)
      → Pass setup_calls [] (process (logging R) (s, [])).0 (process (logging R) (s, [])).1.1
  unfolding process
  process_in_order s = (bind-Passes register_schemes-Passes (λ _. main-Passes)).at s []

-- What a server offers after its options have been applied to a configuration.
abbrev pub offered : List (TlsConfig → TlsConfig) → TlsConfig → List String
offered opts c = (foldl (λ x (f : TlsConfig → TlsConfig). f x) c opts).next_protos

-- The metrics server and the webhook server offer HTTP/1.1 and nothing else unless the flag for
-- HTTP/2 is set; with the flag they offer what they would without the program.
manager_options-http2 :
    (flags : Flags) (c : TlsConfig)
    → (offered (manager_options flags).metrics.tls_opts c
        ≡ (if flags.enable_http2 then c.next_protos else "http/1.1" ∷ []))
      × (offered (manager_options flags).webhook_server.tls_opts c
          ≡ (if flags.enable_http2 then c.next_protos else "http/1.1" ∷ []))
unfolding manager_options disable_http2
manager_options-http2 flags c = ground arith
