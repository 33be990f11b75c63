-- ===== src/Server/Samples.antt =====
-- A process whose outside logs what happens to it.
use aibap_mcp.Base.{◌≡◌, refl, ◌⊎◌, List, [], ◌∷◌, Text, bytes, text_eq, ok, err}
use aibap_mcp.Registration.{parse_tool_groups, parse_consent_mode}
use aibap_mcp.Server.Lifetime.{
  AppConfig, ServerOptions, system_user, Chosen, Served, Host, RunError, run, run_lem,
}

abbrev config : AppConfig
config = record {
  systems = (bytes "S4", bytes "U") ∷ [];
  default_system = bytes "S4";
  tools = bytes "debug" ∷ [];
}

abbrev log : Host
log = record {
  World = List Text;
  Failure = Text;
  Clients = Unit {0};
  Registry = Unit {0};
  load_config = λ w. ok config;
  new_clients = λ cfg. ok tt;
  new_registry = λ clients system. ok tt;
  listen = λ options registry w. (ok tt, bytes "serve" ∷ w);
  debug_shutdown = λ w. bytes "cleanup" ∷ w;
  logout_all = λ registry w. bytes "logout" ∷ w;
}

cleanup_before_logout :
    run log [] [] [] ≡ (ok tt, bytes "logout" ∷ bytes "cleanup" ∷ bytes "serve" ∷ [])
unfolding run parse_consent_mode parse_tool_groups text_eq
cleanup_before_logout = refl

run_lem_example :
    ((e : RunError Text) × (run log [] [] [] ≡ (err e, [])))
    ⊎ ((cfg : AppConfig) × (clients : Unit {0}) × (registry : Unit {0}) × (options : ServerOptions)
        × (log.load_config [] ≡ ok cfg)
        × (log.new_clients cfg ≡ ok clients)
        × (log.new_registry clients cfg.default_system ≡ ok registry)
        × (parse_consent_mode [] ≡ ok options.consent)
        × (Chosen log [] cfg options.groups)
        × (options.user_of ≡ system_user cfg.systems)
        × (Served log options registry [] (run log [] [] [])))
run_lem_example = run_lem log [] [] []
