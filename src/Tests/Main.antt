-- ===== src/Tests/Main.antt =====
-- The process with libraries that answer, and with ones of which the last check fails.
use observability_ui_operato.Base.{◌≡◌, refl, inr, [], ◌∷◌, Bool, true, false, if◌then◌else◌}
use observability_ui_operato.Attempt.{ok, err, errorf}
use observability_ui_operato.Main.{process, register_schemes, main}
use observability_ui_operato.Main.Setup.{
  TlsConfig, Runtime, running, exited, setup_plugins, setup_operator,
}
use observability_ui_operato.Main.Passes.{Pass, logging}
use observability_ui_operato.Main.Laws.{setup_calls, process_in_order}

abbrev runtime : Bool → Runtime
runtime is_ready = record {
  State = Unit;
  Config = Unit;
  add_client_go_scheme = λ s. (ok tt, s);
  add_to_scheme = λ b s. (ok tt, s);
  add_console_v1_alpha1 = λ s. (ok tt, s);
  add_console_v1 = λ s. (ok tt, s);
  parse_flags = λ flags s. (inr flags, s);
  set_logger = λ s. s;
  get_config_or_die = λ s. (inr tt, s);
  new_manager = λ config options s. (ok tt, s);
  complete = λ spec s. (ok tt, s);
  add_healthz_check = λ name s. (ok tt, s);
  add_readyz_check = λ name s. if is_ready then (ok tt, s) else (err (errorf "not ready"), s);
  start = λ s. (ok tt, s);
}

runs : (process (runtime true) tt).0 ≡ running tt
unfolding process register_schemes main setup_plugins setup_operator
runs = refl

exits : (process (runtime false) tt).0 ≡ exited 1
unfolding process register_schemes main setup_plugins setup_operator
exits = refl

process_in_order_example :
    Pass setup_calls []
      (process (logging (runtime false)) (tt, [])).0
      (process (logging (runtime false)) (tt, [])).1.1
process_in_order_example = process_in_order (runtime false) tt

abbrev tls : TlsConfig
tls = record { next_protos = "h2" ∷ "http/1.1" ∷ [] }
