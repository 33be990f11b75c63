-- ===== src/Server/Lifetime.antt =====
-- `run` of main.go, and tools/shutdown.go.
use aibap_mcp.Base.{
  ◌≡◌, ◌≢◌, refl, inl, inr, ◌⊎◌, Bool, not, List, [], ◌∷◌, ◌++◌, Text, bytes, text_eq, is_empty,
  keep, if◌then◌else◌, Result, ok, err, Result-cases, Bool-cases, arith, ◌==◌, join,
}
use aibap_mcp.Registration.{
  ConsentMode, ConsentError, parse_consent_mode, Groups, all_groups, default_groups,
  parse_tool_groups,
}

-- A hook of `Shutdown`, by what it does to the outside; `add` keeps the order of registration.
abbrev pub Hook : Type 0 → Type 0
Hook W = W → W

unfoldable pub add_hook : {W : Type 0} → List (Hook W) → Hook W → List (Hook W)
add_hook hooks fn = hooks ++ (fn ∷ [])

-- `Run`
unfoldable pub run_hooks : {W : Type 0} → List (Hook W) → W → W
run_hooks [] w = w
run_hooks (h ∷ hs) w = run_hooks hs (h w)

pub run_hooks-add_hook :
    {W : Type 0} (hooks : List (Hook W)) (fn : Hook W) (w : W)
    → run_hooks (add_hook hooks fn) w ≡ fn (run_hooks hooks w)
unfolding run_hooks add_hook
run_hooks-add_hook [] fn w = refl
run_hooks-add_hook (h ∷ hs) fn w = run_hooks-add_hook hs fn (h w)

-- `strings.Split` at a comma.
unfoldable pub split_comma : Text → List Text
split_comma [] = [] ∷ []
split_comma (c ∷ s) =
    let rest = split_comma s in
    if c == b',' then [] ∷ rest else (elim rest [ [] ↦ (c ∷ []) ∷ [] | x ∷ xs ↦ (c ∷ x) ∷ xs ])

split_comma_some : (s : Text) → (y : Text) × (ys : List Text) × (split_comma s ≡ y ∷ ys)
unfolding split_comma
split_comma_some [] = ([], [], refl)
split_comma_some (c ∷ s) = elim (Bool-cases (c == b',')) [
  | inl q ↦ ([], split_comma s, ground (arith, q))
  | inr q ↦ let (y, ys, r) = split_comma_some s in (c ∷ y, ys, ground (arith, q, r))
]

-- Every part of the flag is seen: joined with commas, the parts are the flag again.
join-split_comma : (s : Text) → join (b',' ∷ []) (split_comma s) ≡ s
unfolding join split_comma
join-split_comma [] = refl
join-split_comma (c ∷ s) =
    let (y, ys, q) = split_comma_some s in
    elim ys [
      | [] ↦ ground (arith, split_comma_some s, join-split_comma s)
      | z ∷ zs ↦ ground (arith, split_comma_some s, join-split_comma s)
    ]

-- The loaded configuration: the systems with their users, and the tool groups.
pub record AppConfig : Type 0 where
  pub systems : List (Text × Text)
  pub default_system : Text
  pub tools : List Text

-- Command line before configuration before default.
unfoldable pub enabled_groups : Text → AppConfig → Groups
unfolding split_comma
enabled_groups tools_flag cfg =
    if not (is_empty tools_flag)
    then parse_tool_groups (split_comma tools_flag)
    else elim cfg.tools [ [] ↦ default_groups | g ∷ gs ↦ parse_tool_groups (g ∷ gs) ]

unfoldable pub active_groups : Groups → List Text
active_groups enabled = keep enabled all_groups

-- The user of a system, empty if there is none.
unfoldable pub system_user : List (Text × Text) → Text → Text
system_user [] system = []
system_user ((name, user) ∷ ss) system =
    let rest = system_user ss system in if text_eq name system then user else rest

-- What `buildServer` is given.
pub record ServerOptions : Type 0 where
  pub groups : Groups
  pub consent : ConsentMode
  pub debug_instructions : Bool
  pub user_of : Text → Text

-- The outside of the process: adtler's clients, the SAP sessions, and the client of the server.
pub record Host : Type 1 where
  pub World : Type 0
  pub Failure : Type 0
  pub Clients : Type 0
  pub Registry : Type 0
  pub load_config : World → Result Failure AppConfig
  pub new_clients : AppConfig → Result Failure Clients
  pub new_registry : Clients → Text → Result Failure Registry
  pub listen : ServerOptions → Registry → World → Result Failure (Unit {0}) × World
  pub debug_shutdown : World → World
  pub logout_all : Registry → World → World

pub data RunError (F : Type 0) : Type 0 where
  bad_consent : ConsentError → RunError F
  loading_config building_clients creating_registry listening : F → RunError F

module _ (h : Host) where
  open h use {
    World, Failure, Clients, Registry, load_config, new_clients, new_registry, listen,
    debug_shutdown, logout_all,
  }

  -- The debug tools register their cleanup, if their group is enabled.
  unfoldable pub hooks_of : Groups → List (Hook World)
  unfolding add_hook
  hooks_of enabled = if enabled (bytes "debug") then add_hook [] debug_shutdown else []

  unfoldable pub options_of : AppConfig → ConsentMode → Groups → ServerOptions
  unfolding system_user
  options_of cfg consent enabled = record {
    groups = enabled;
    consent = consent;
    debug_instructions = enabled (bytes "debug");
    user_of = system_user cfg.systems;
  }

  -- The server, and the deferred calls: the hooks, then the logout.
  unfoldable pub serve :
      ServerOptions → Registry → World → Result (RunError Failure) (Unit {0}) × World
  unfolding hooks_of run_hooks
  serve options registry w =
      let (answer, w') = listen options registry w in
      (
        elim answer [ ok u ↦ ok u | err e ↦ err (listening e) ],
        logout_all registry (run_hooks (hooks_of options.groups) w'),
      )

  unfoldable pub start :
      AppConfig → ConsentMode → Groups → World → Result (RunError Failure) (Unit {0}) × World
  unfolding serve options_of
  start cfg consent enabled w = elim (new_clients cfg) [
    | err e ↦ (err (building_clients e), w)
    | ok clients ↦ elim (new_registry clients cfg.default_system) [
      | err e ↦ (err (creating_registry e), w)
      | ok registry ↦ serve (options_of cfg consent enabled) registry w
    ]
  ]

  unfoldable pub run : Text → Text → World → Result (RunError Failure) (Unit {0}) × World
  unfolding start enabled_groups
  run tools_flag consent_flag w = elim (parse_consent_mode consent_flag) [
    | err e ↦ (err (bad_consent e), w)
    | ok consent ↦ elim (load_config w) [
      | err e ↦ (err (loading_config e), w)
      | ok cfg ↦ start cfg consent (enabled_groups tools_flag cfg) w
    ]
  ]

  -- The groups are those of the command line, else those of the configuration, else the default.
  abbrev pub Chosen : Text → AppConfig → Groups → Type 0
  Chosen tools_flag cfg groups =
      ((tools_flag ≢ []) × (groups ≡ parse_tool_groups (split_comma tools_flag)))
      ⊎ ((tools_flag ≡ []) × (cfg.tools ≢ []) × (groups ≡ parse_tool_groups cfg.tools))
      ⊎ ((tools_flag ≡ []) × (cfg.tools ≡ []) × (groups ≡ default_groups))

  chosen_lem :
      (tools_flag : Text) (cfg : AppConfig) → Chosen tools_flag cfg (enabled_groups tools_flag cfg)
  unfolding enabled_groups
  chosen_lem (c ∷ cs) cfg = inl (λ e. ground arith, refl)
  chosen_lem [] cfg = go cfg.tools refl
    where
      go : (tools : List Text) → cfg.tools ≡ tools → Chosen [] cfg (enabled_groups [] cfg)
      go [] q = inr (inr (refl, q, rw q refl))
      go (g ∷ gs) q = inr (inl (refl, (λ e. ground (arith, q, e)), rw q refl))

  -- The process served with these options: what it answers, and that it then cleans up the debugger,
  -- if that group is enabled, and logs out after that.
  abbrev pub Served :
      ServerOptions → Registry → World → Result (RunError Failure) (Unit {0}) × World → Type 0
  Served options registry w out =
      let x = listen options registry w in
      (((x.0 ≡ ok tt) × (out.0 ≡ ok tt))
        ⊎ ((e : Failure) × (x.0 ≡ err e) × (out.0 ≡ err (listening e))))
      × (out.1
          ≡ logout_all registry
              (if options.groups (bytes "debug") then debug_shutdown x.1 else x.1))

  serve-Served :
      (options : ServerOptions) (registry : Registry) (w : World)
      → Served options registry w (serve options registry w)
  unfolding serve hooks_of run_hooks add_hook
  serve-Served options registry w = (
    elim (Result-cases (listen options registry w).0) [
      | inl (_, q) ↦ inl (q, rw (q, serve) refl)
      | inr (e, q) ↦ inr (e, q, rw (q, serve) refl)
    ],
    ground arith,
  )

  -- Either the process ends before it serves, with an error, and has changed nothing outside; or it
  -- serves the configuration's default system with the consent mode of the command line, the users
  -- of the configuration, and the groups of the command line, else of the configuration, else the
  -- default. However the server ends, the process then cleans up the debugger, if that group is
  -- enabled, and logs out of SAP after that; it fails exactly if the server did.
  pub run_lem :
      (tools_flag consent_flag : Text) (w : World)
      → ((e : RunError Failure) × (run tools_flag consent_flag w ≡ (err e, w)))
        ⊎ ((cfg : AppConfig) × (clients : Clients) × (registry : Registry)
            × (options : ServerOptions) × (load_config w ≡ ok cfg)
            × (new_clients cfg ≡ ok clients)
            × (new_registry clients cfg.default_system ≡ ok registry)
            × (parse_consent_mode consent_flag ≡ ok options.consent)
            × (Chosen tools_flag cfg options.groups)
            × (options.user_of ≡ system_user cfg.systems)
            × (Served options registry w (run tools_flag consent_flag w)))
  unfolding run start options_of
  run_lem tools_flag consent_flag w = elim (Result-cases (parse_consent_mode consent_flag)) [
    | inr (e, a) ↦ inl (bad_consent e, ground (arith, a))
    | inl (consent, a) ↦ elim (Result-cases (load_config w)) [
      | inr (e, b) ↦ inl (loading_config e, ground (arith, a, b))
      | inl (cfg, b) ↦ elim (Result-cases (new_clients cfg)) [
        | inr (e, q) ↦ inl (building_clients e, ground (arith, a, b, q))
        | inl (clients, q) ↦ elim (Result-cases (new_registry clients cfg.default_system)) [
          | inr (e, r) ↦ inl (creating_registry e, ground (arith, a, b, q, r))
          | inl (registry, r) ↦
              let options = options_of cfg consent (enabled_groups tools_flag cfg) in
              inr (
                cfg,
                clients,
                registry,
                options,
                b,
                q,
                r,
                a,
                chosen_lem tools_flag cfg,
                refl,
                rw (a, b, q, r, run, start) (serve-Served options registry w),
              )
        ]
      ]
    ]
  ]
