-- ===== src/Debug/Lifecycle.antt =====
-- The rest of the operations on a debug run: the step tool (tools/debugrun.go), the ends of a
-- cleanup (tools/debugrun_cleanup.go), the next listening window (tools/debugsession.go), and the
-- list of breakpoints (tools/debugrun_breakpoints.go).
use aibap_mcp.Base.{
  ℕ, Bool, true, false, not, ◌&&◌, Option, none, some, List, [], ◌∷◌, ◌++◌, Text, is_empty, text_eq,
  trim_space, keep, Result, ok, err, if◌then◌else◌, leb,
}
use aibap_mcp.Debug.State.{
  Status, listening, ended, timeout, stopping, stopped, detached, completed, terminated,
  TriggerKind, unit_tests, Failure, no_hint, position_unread_after_step, completed_by_invalid_data,
  is_invalid_data, Breakpoint, Position, RunState, is_attached, is_external,
}
use aibap_mcp.Debug.Run.{Run, transition, start_window, stop_idle, end_run, if_attached}

-- `validDebugStepActions`
pub data Action : Type 0 where
  step_into step_over step_return step_continue terminate_debuggee detach_debugger : Action

is_continue : Action → Bool
is_continue step_continue = true
is_continue _ = false

pub data StepError : Type 0 where
  step_failed : Failure → StepError
  still_listed : Failure → StepError
  unknown_end : Failure → Failure → StepError

-- What the requests after the step answered: the position, and the list of debuggee sessions.
pub record Followup : Type 0 where
  pub position : Result Failure Position
  pub sessions : Result Failure Text

moved_state : RunState → Result Failure Position → RunState
moved_state st (ok p) = record st { position = some p; hint = no_hint }
moved_state st (err e) = record st { position = none; hint = position_unread_after_step e }

-- A step that SAP answered without an error.
stepped : Run → Action → Result Failure Position → Run
unfolding if_attached moved_state
stepped r detach_debugger pos = end_run r detached no_hint
stepped r terminate_debuggee pos = end_run r terminated no_hint
stepped r _ pos = if_attached r (moved_state r.st pos)

-- `debuggeeGone`, and what `step` makes of it.
after_invalid_data : Run → Failure → Result Failure Text → Run × Option StepError
after_invalid_data r e (err c) = (r, some (unknown_end e c))
after_invalid_data r e (ok listed) =
    if is_empty (trim_space listed)
    then (end_run r completed completed_by_invalid_data, none)
    else (r, some (still_listed e))

step_failure : Run → Action → Failure → Followup → Run × Option StepError
unfolding after_invalid_data is_continue
step_failure r action e f =
    if e.debuggee_ended
    then (end_run r completed no_hint, none)
    else if is_continue action && is_invalid_data e
    then after_invalid_data r e f.sessions
    else (r, some (step_failed e))

-- `step` after its request.
unfoldable pub step_answer :
    Run → Action → Result Failure (Unit {0}) → Followup → Run × Option StepError
unfolding stepped step_failure
step_answer r action (ok _) f = (stepped r action f.position, none)
step_answer r action (err e) f = step_failure r action e f

is_over : Status → Bool
is_over stopping = true
is_over stopped = true
is_over _ = false

-- Step 1 of `cleanupRun`; `none` if a cleanup has begun or is over. Otherwise whether a debuggee
-- was attached, and the breakpoints to remove.
unfoldable pub cleanup_start : Run → Run × Option (Bool × List Breakpoint)
unfolding is_over stop_idle transition
cleanup_start r = if is_over r.st.status then (r, none) else (
  transition (stop_idle r) (record (r.st) { status = stopping }),
  some (is_attached r.st.status, r.st.breakpoints),
)

-- Step 5.
unfoldable pub cleanup_done : Run → Run
unfolding transition
cleanup_done r = record (transition r (record (r.st) { status = stopped; position = none })) {
  fatal = none;
}

-- `active`
unfoldable pub active : Run → Bool
unfolding is_over
active r = not (is_over r.st.status)

pub data RearmError : Type 0 where
  tests_cannot_listen_again : RearmError
  wrong_status : Status → RearmError
  listener_running : RearmError
  budget_used_up : RearmError

may_rearm : Status → Bool
may_rearm timeout = true
may_rearm ended = true
may_rearm _ = false

is_tests : TriggerKind → Bool
is_tests unit_tests = true
is_tests _ = false

-- `rearm` up to its wait for the previous listener, which may still run.
pub rearm_check : Run → Bool → Option RearmError
unfolding may_rearm is_tests
rearm_check r exited =
    if is_tests r.kind
    then some tests_cannot_listen_again
    else if not (may_rearm r.st.status)
    then some (wrong_status r.st.status)
    else if exited
    then none
    else some listener_running

next_window : Run → Run
unfolding transition
next_window r =
    start_window
      (record (transition r (record (r.st) {
        status = listening;
        end_reason = none;
        debuggee_id = [];
        position = none;
        hint = no_hint;
        breakpoints = keep is_external r.st.breakpoints;
      })) { fatal = none })

-- `rearm` under the run's mutex, with the nanoseconds of the budget left.
unfoldable pub rearm_apply : Run → ℕ → Run × Option RearmError
unfolding may_rearm next_window start_window
rearm_apply r left =
    if not (may_rearm r.st.status)
    then (r, some (wrong_status r.st.status))
    else if not (leb 1000000000 left)
    then (r, some budget_used_up)
    else (next_window r, none)

-- `rearm` on a run that is `r` before the wait and `r'` after it.
pub rearm : Run → Run → Bool → ℕ → Run × Option RearmError
unfolding rearm_check rearm_apply
rearm r r' exited left = elim (rearm_check r exited) [
  | some e ↦ (r', some e)
  | none ↦ rearm_apply r' left
]

-- `replaceExternal`, `dropBreakpoint`, `breakpoint`, and the append of `addDebuggerBreakpoint`.
unfoldable pub replace_external : Run → List Breakpoint → Run
unfolding transition
replace_external r set =
    transition r
      (record (r.st) { breakpoints = set ++ keep (λ b. not (is_external b)) r.st.breakpoints })

unfoldable pub drop_breakpoint : Run → Text → Run
unfolding transition
drop_breakpoint r id =
    transition r
      (record (r.st) { breakpoints = keep (λ b. not (text_eq b.id id)) r.st.breakpoints })

find_breakpoint : Text → List Breakpoint → Option Breakpoint
find_breakpoint id [] = none
find_breakpoint id (b ∷ bs) =
    let rest = find_breakpoint id bs in if text_eq b.id id then some b else rest

pub breakpoint : Run → Text → Option Breakpoint
unfolding find_breakpoint
breakpoint r id = find_breakpoint id r.st.breakpoints

unfoldable pub append_breakpoint : Run → Breakpoint → Run
unfolding transition
append_breakpoint r b = transition r (record (r.st) { breakpoints = r.st.breakpoints ++ b ∷ [] })
