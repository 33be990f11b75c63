-- ===== src/Debug/Wait.antt =====
-- `debug_wait` of tools/debugger.go, and `waitUntil` of tools/debugrun.go.
pub mod Newer
use aibap_mcp.Base.{
  ℕ, Bool, true, false, Option, none, some, List, [], ◌∷◌, Text, bytes, ltb, if◌then◌else◌, Result,
  ok, err,
}
use aibap_mcp.Debug.Values.{ℤ, pos, negsuc, Value, null, int_arg, int_between}
use aibap_mcp.Debug.State.{Failure, RunState}
use aibap_mcp.Debug.Run.{Run}
use aibap_mcp.Debug.Lifecycle.{RearmError}
use aibap_mcp.Debug.Sessions.{RunError}
use aibap_mcp.Params.{Request}

default_wait_seconds : ℕ
default_wait_seconds = 45

max_wait_seconds : ℕ
max_wait_seconds = 300

-- A snapshot: the state and the fatal error.
abbrev pub Snapshot : Type 0
Snapshot = RunState × Option Failure

abbrev pub snapshot_of : Run → Snapshot
snapshot_of r = (r.st, r.fatal)

-- `waitUntil`: the run at the first read, at each read after a change, and when the wait ends by its
-- timer or its context.
unfoldable pub wait_until : (RunState → Bool) → Run → List Run → Run → Snapshot
wait_until pred r [] last = if pred r.st then snapshot_of r else snapshot_of last
wait_until pred r (r' ∷ rs) last =
    let rest = wait_until pred r' rs last in if pred r.st then snapshot_of r else rest

-- `s.Version > int64(since)`
unfoldable pub is_newer : ℤ → RunState → Bool
is_newer (pos since) st = ltb since st.version
is_newer (negsuc _) st = true

pub data WaitError : Type 0 where
  no_run : RunError → WaitError
  not_rearmed : RearmError → WaitError
  timeout_range since_not_whole : WaitError
  run_failed : Failure → WaitError

-- `timeout_seconds`, and `since_version` if it is given.
unfoldable pub wait_seconds : Value → Option ℕ
unfolding default_wait_seconds max_wait_seconds
wait_seconds null = some default_wait_seconds
wait_seconds v = int_between 1 (some max_wait_seconds) v

unfoldable pub since_version : Value → Result WaitError (Option ℤ)
since_version null = ok none
since_version v = elim (int_arg v) [ none ↦ err since_not_whole | some n ↦ ok (some n) ]

answered : Snapshot → Result WaitError RunState
answered (st, none) = ok st
answered (st, some e) = err (run_failed e)

-- `observed` is what the run becomes while the tool waits at most the given seconds.
abbrev pub Observed : Type 0
Observed = Run → ℕ → List Run × Run

unfoldable pub wait_checked : Request → Observed → Run → Result WaitError RunState
unfolding wait_until wait_seconds since_version answered
wait_checked req observed r = elim (wait_seconds (req.arguments (bytes "timeout_seconds"))) [
  | none ↦ err timeout_range
  | some secs ↦ elim (since_version (req.arguments (bytes "since_version"))) [
    | err e ↦ err e
    | ok none ↦ answered (snapshot_of r)
    | ok (some since) ↦
        let (reads, last) = observed r secs in answered (wait_until (is_newer since) r reads last)
  ]
]

-- `debug_wait`: the answer of `currentRun`, what `rearm` makes of the run, and the rest.
unfoldable pub debug_wait :
    Result RunError Run
    → (Run → Run × Option RearmError)
    → Request
    → Observed
    → Result WaitError RunState
unfolding wait_checked
debug_wait current rearm req observed = elim current [
  | err e ↦ err (no_run e)
  | ok r ↦
      if req.get_bool (bytes "rearm") false
      then (let (r', answer) = rearm r in
          elim answer [ some e ↦ err (not_rearmed e) | none ↦ wait_checked req observed r' ])
      else wait_checked req observed r
]
