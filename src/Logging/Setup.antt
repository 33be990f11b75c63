-- ===== src/Logging/Setup.antt =====
-- logging/logging.go: the log level, the destination and the build that a process logs with.
use aibap_mcp.Base.{
  ℕ, zero, suc, ◌≤◌, ◌≡◌, Bool, ◌&&◌, ◌||◌, not, Option, none, some, is_some, List, [], ◌∷◌, ◌++◌,
  Text, bytes, text_eq, is_empty, to_lower, length, if◌then◌else◌, arith,
}

-- `slog.Level`, by its names.
pub data Level : Type 0 where
  debug info warn error : Level

unfoldable pub parse_level : Text → Level
parse_level s =
    let l = to_lower s in
    if text_eq l (bytes "debug")
    then debug
    else if text_eq l (bytes "warn") || text_eq l (bytes "warning")
    then warn
    else if text_eq l (bytes "error")
    then error
    else info

-- The variables that the link step sets.
pub record Link : Type 0 where
  pub default_papertrail_host : Text
  pub default_papertrail_port : Text
  pub default_commit : Text

unfoldable pub remote_logging_baked_in : Link → Bool
remote_logging_baked_in l =
    not (is_empty l.default_papertrail_host) && not (is_empty l.default_papertrail_port)

unfoldable pub remote_logging_attr : Link → Text
unfolding remote_logging_baked_in
remote_logging_attr l = if remote_logging_baked_in l then bytes "on" else bytes "off"

-- `os.LookupEnv` of a variable; `os.Getenv` is empty where it is not set.
abbrev pub getenv : Option Text → Text
getenv none = []
getenv (some v) = v

-- `resolvePapertrail`: host and port.
unfoldable pub resolve_papertrail : Link → Option Text → Option Text → Text × Text
resolve_papertrail l host_env port_env =
    if is_some host_env || is_some port_env
    then (getenv host_env, getenv port_env)
    else (l.default_papertrail_host, l.default_papertrail_port)

-- The handlers that `Setup` makes, in their order.
pub data Handler : Type 0 where
  json_stderr text_stderr : Level → Handler
  papertrail : Text → Text → Level → Handler

pub record Env : Type 0 where
  pub log_level : Option Text
  pub log_format : Option Text
  pub papertrail_host : Option Text
  pub papertrail_port : Option Text

unfoldable pub setup_handlers : Link → Env → List Handler
unfolding parse_level resolve_papertrail
setup_handlers l env =
    let level = parse_level (getenv env.log_level) in
    let stderr =
      if text_eq (to_lower (getenv env.log_format)) (bytes "json")
      then json_stderr level
      else text_stderr level in
    let (host, port) = resolve_papertrail l env.papertrail_host env.papertrail_port in
    stderr
    ∷ (if not (is_empty host) && not (is_empty port) then papertrail host port level ∷ [] else [])

-- `BuildInfo`
commit_unknown : Text
commit_unknown = bytes "unknown"

take : ℕ → Text → Text
take zero s = []
take (suc n) [] = []
take (suc n) (c ∷ s) = c ∷ take n s

-- The loop over the build settings: the last revision and the last modification mark win.
unfoldable pub read_settings : List (Text × Text) → Text → Text → Text × Text
read_settings [] rev modified = (rev, modified)
read_settings ((k, v) ∷ ss) rev modified =
    let rev' = if text_eq k (bytes "vcs.revision") then v else rev in
    let modified' = if text_eq k (bytes "vcs.modified") then v else modified in
    read_settings ss rev' modified'

unfoldable pub commit_of : Text × Text → Text
unfolding commit_unknown take
commit_of (rev, modified) =
    let short = take 7 rev in
    if is_empty rev
    then commit_unknown
    else if text_eq modified (bytes "true")
    then short ++ bytes "+dirty"
    else short

unfoldable pub commit_from_build_settings : Option (List (Text × Text)) → Text
unfolding read_settings commit_of
commit_from_build_settings none = commit_unknown
commit_from_build_settings (some settings) = commit_of (read_settings settings [] [])

unfoldable pub build_info : Link → Option (List (Text × Text)) → Text
unfolding commit_from_build_settings
build_info l settings =
    if is_empty l.default_commit then commit_from_build_settings settings else l.default_commit

-- The destination that a process logs to: that of `Setup`'s Papertrail handler.
abbrev pub destination : List Handler → Option (Text × Text)
destination (_ ∷ papertrail host port _ ∷ []) = some (host, port)
destination _ = none

-- A process sends its log either to a host and a port that are both from its environment, or, if
-- the environment sets neither, to those of its build, and in both cases to none unless both are
-- given; standard error is always its first handler.
pub setup_handlers_lem :
    (l : Link) (env : Env)
    → destination (setup_handlers l env) ≡ (
        if is_some env.papertrail_host || is_some env.papertrail_port
        then (if is_empty (getenv env.papertrail_host) || is_empty (getenv env.papertrail_port)
            then none
            else some (getenv env.papertrail_host, getenv env.papertrail_port))
        else if remote_logging_baked_in l
        then some (l.default_papertrail_host, l.default_papertrail_port)
        else none)
unfolding setup_handlers remote_logging_baked_in
setup_handlers_lem l env = ground arith

length-take : (n : ℕ) (s : Text) → length (take n s) ≤ n
unfolding take
length-take zero s = omega arith
length-take (suc n) [] = omega arith
length-take (suc n) (c ∷ s) = omega (arith, length-take n s)
