-- ===== src/Debug/Sessions.antt =====
-- tools/debugsession.go: the one debug session of the process and the run on it. Each operation
-- holds the run-start lock; the active system does not change while it runs, so `createLocked` ends
-- after its first try.
pub mod Users
pub mod Launch
pub mod Samples
use aibap_mcp.Base.{
  ℕ, Bool, true, false, not, ◌&&◌, ◌||◌, Option, none, some, List, Text, is_empty, text_eq,
  trim_space, to_upper, Result, ok, err, if◌then◌else◌,
}
use aibap_mcp.Debug.State.{
  TriggerKind, unit_tests, manual, gui, Trigger, pending, Breakpoint, Instructions, Hint, no_hint,
  given, RunState,
}
use aibap_mcp.Debug.Run.{Run, new_run, start_window}
use aibap_mcp.Debug.Sap.{Sap, LineBreakpoint, debug_session}
use aibap_mcp.Debug.Breakpoints.{SetError, set_external}
use aibap_mcp.Debug.Cleanup.{CleanupReport, empty_report, cleanup_run}

-- `debugSessionKey`
pub record Key : Type 0 where
  pub user : Text
  pub system : Text

pub same_key : Key → Key → Bool
same_key k j = text_eq k.user j.user && text_eq k.system j.system

-- `debugSessions`: the key of the current session, if there is one, and the run with the key that it
-- was started with. `versions` is the version counter before the first run.
pub record Sessions : Type 0 where
  pub cur : Option Key
  pub run : Option (Key × Run)
  pub versions : ℕ

pub versions_used : Sessions → ℕ
versions_used m = elim m.run [ none ↦ m.versions | some (_, r) ↦ r.counter ]

-- `keyFor`
pub key_for : Text → Text → Key
key_for user system = record { user = to_upper user; system = system }

pub data UserError : Type 0 where
  no_user : Text → UserError
  tests_run_as : Text → Text → UserError

-- `resolveUser`, with the active system and its configured logon user.
pub resolve_user : Text → Text → Text → Result UserError Text
resolve_user system logon user =
    if not (is_empty (trim_space user))
    then ok (to_upper (trim_space user))
    else if not (is_empty (trim_space logon))
    then ok (to_upper (trim_space logon))
    else err (no_user system)

-- The hint that the server does not know whom the tests run as.
unknown_logon : Text → Hint
unknown_logon user = given user

tests_user : Text → Text → Text → Result UserError (Text × Hint)
unfolding unknown_logon
tests_user system logon user =
    if is_empty user && is_empty logon
    then err (no_user system)
    else if is_empty user
    then ok (logon, no_hint)
    else if is_empty logon
    then ok (user, unknown_logon user)
    else if not (text_eq user logon)
    then err (tests_run_as logon user)
    else ok (user, no_hint)

without_hint : Result UserError Text → Result UserError (Text × Hint)
without_hint (ok u) = ok (u, no_hint)
without_hint (err e) = err e

-- `runUser`
pub run_user : TriggerKind → Text → Text → Text → Result UserError (Text × Hint)
unfolding tests_user without_hint
run_user unit_tests system logon user =
    tests_user system (to_upper (trim_space logon)) (to_upper (trim_space user))
run_user _ system logon user = without_hint (resolve_user system logon user)

pub data RunError : Type 0 where
  no_debuggee no_run : RunError
  other_run : Key → Text → Text → RunError

-- `checkRunKeyLocked`
pub check_run_key : Key → Text → Text → Option RunError
check_run_key key system user =
    let u = to_upper (trim_space user) in
    if (is_empty u || text_eq u key.user) && text_eq system key.system
    then none
    else some (other_run key (if is_empty u then key.user else u) system)

-- `attachedRun`
pub attached_run : Sessions → Text → Text → Result RunError Run
unfolding check_run_key
attached_run m system user = elim m.run [
  | none ↦ err no_debuggee
  | some (key, r) ↦ elim (check_run_key key system user) [ none ↦ ok r | some e ↦ err e ]
]

-- `currentRun`
pub current_run : Sessions → Text → Text → Result RunError Run
current_run m system user = elim m.run [
  | none ↦ err no_run
  | some (key, r) ↦
      let u = to_upper (trim_space user) in
      if is_empty u || text_eq u key.user then ok r else err (other_run key u system)
]

pub data UseError : Type 0 where
  other_session : Key → Key → UseError

-- `use`
pub use_session : Sessions → Text → Text → Result UseError (Unit {0}) × Sessions
unfolding same_key key_for
use_session m system user = elim m.cur [
  | none ↦ (ok tt, record m { cur = some (key_for user system) })
  | some key ↦
      if same_key key (key_for user system)
      then (ok tt, m)
      else (err (other_session key (key_for user system)), m)
]

-- `serverTriggers`; the flag says that the build starts gui runs itself.
pub server_triggers : Bool → TriggerKind → Bool
server_triggers triggerer unit_tests = true
server_triggers triggerer gui = triggerer
server_triggers triggerer manual = false

-- What `launchRun` is given: the kind and the breakpoints of the arguments, the hint, and the
-- instructions that `manualInstructions` and `guiInstructions` write.
pub record Order : Type 0 where
  pub kind : TriggerKind
  pub breakpoints : List LineBreakpoint
  pub hint : Hint
  pub triggerer : Bool
  pub manual_text : Instructions
  pub gui_text : Instructions

trigger_of : Order → Option Trigger
unfolding server_triggers
trigger_of o =
    if server_triggers o.triggerer o.kind
    then some (record { kind = o.kind; state = pending; error = none; unit_tests = none })
    else none

instructions_of : Order → Option Instructions
instructions_of o = elim o.kind [
  | manual ↦ some o.manual_text
  | gui ↦ if o.triggerer then none else some o.gui_text
  | unit_tests ↦ none
]

-- The new run, with its first listening window.
first_run : ℕ → Order → List Breakpoint → Run
unfolding trigger_of instructions_of
first_run versions o set =
    let r = new_run o.kind versions set (trigger_of o) o.hint in
    start_window (record r { st = record (r.st) { instructions = instructions_of o } })

started : Sessions → Order → Key → List Breakpoint → Sessions
unfolding first_run
started m o key set = record m { run = some (key, first_run (versions_used m) o set) }

module _ (p : Sap) (derive : Text → Text × Text) where
  open p use {World}

  -- The run, cleaned up; what the goroutines make of it meanwhile is the second argument.
  unfoldable pub clean : Sessions → (Run → Run) → World → CleanupReport × Sessions × World
  clean m meanwhile w = elim m.run [
    | none ↦ (empty_report, m, w)
    | some (key, r) ↦
        let (rep, r', w') = cleanup_run p r meanwhile w in
        (rep, record m { run = some (key, r') }, w')
  ]

  bound_to : Option Key → Key → Bool
  bound_to none key = false
  bound_to (some k) key = same_key k key

  -- `open`
  unfoldable pub open_session : Sessions → (Run → Run) → Key → World → Sessions × World
  unfolding bound_to same_key
  open_session m meanwhile key w =
      let (rep, m', w') = clean m meanwhile w in
      if bound_to m.cur key then (m, w) else (record m' { cur = some key }, w')

  -- `stop`
  pub stop : Sessions → (Run → Run) → World → CleanupReport × Sessions × World
  stop m meanwhile w =
      let (rep, m', w') = clean m meanwhile w in (rep, record m' { cur = none }, w')

  launch_answer :
      Sessions
      → Order
      → Key
      → Result SetError (List Breakpoint) × World
      → Result SetError (Unit {0}) × Sessions × World
  unfolding started
  launch_answer m o key (ok set, w) = (ok tt, started m o key set, w)
  launch_answer m o key (err e, w) = (err e, m, w)

  -- `launchRun`
  pub launch_run :
      Sessions → (Run → Run) → Order → Key → World → Result SetError (Unit {0}) × Sessions × World
  unfolding launch_answer
  launch_run m meanwhile o key w =
      let (rep, m', w') = clean m meanwhile w in
      let (m'', w'') = open_session m' meanwhile key w' in
      launch_answer m'' o key (set_external p derive debug_session o.breakpoints w'')
