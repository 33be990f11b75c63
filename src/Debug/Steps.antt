-- ===== src/Debug/Steps.antt =====
-- Every interleaving of the goroutines of a debug run: listener, attach, trigger, tool calls, idle
-- timer and cleanup, one critical section at a time.
pub mod Invariant
pub mod Versions
use aibap_mcp.Base.{ℕ, ◌≡◌, ◌<◌, Bool, true, false, Option, none, some, List, [], Text, Result}
use aibap_mcp.Debug.State.{
  Status, stopping, Failure, Breakpoint, Position, Instructions, EndReason, Hint, RunState,
  TriggerKind,
}
use aibap_mcp.Debug.Run.{
  Run, Caught, new_run, start_window, listen_answer, attach_answer, trigger_started, trigger_answer,
  begin_call, end_call, idle_fires, idle_answer,
}
use aibap_mcp.Debug.Lifecycle.{
  Action, Followup, step_answer, cleanup_start, cleanup_done, rearm_apply, replace_external,
  drop_breakpoint, append_breakpoint,
}

-- One critical section. Any answer may come at any time; only what the program order forces is a
-- premise: a call ends after it was admitted, what an admitted call does happens while it is in
-- flight, the idle detach answers after its request, a cleanup ends after it began, and cleanup,
-- rearm and the idle detach exclude one another by the run-start lock.
pub data Step (r : Run) : Run → Type 0 where
  listens : (cancelled : Bool) (x : Result Failure Caught) → Step r (listen_answer r cancelled x).0
  attaches :
      (x : Result Failure (Unit {0})) (pos : Option (Result Failure Position))
      → Step r (attach_answer r x pos).0
  trigger_starts : Step r (trigger_started r)
  trigger_returns :
      (ends : Bool) (fallback : Option Instructions) (x : Result Failure (Option Text))
      → Step r (trigger_answer r ends fallback x)
  call_begins : Step r (begin_call r).0
  call_ends : 0 < r.in_flight → Step r (end_call r)
  steps :
      (action : Action) (x : Result Failure (Unit {0})) (f : Followup)
      → 0 < r.in_flight
      → Step r (step_answer r action x f).0
  debugger_breakpoint : (b : Breakpoint) → 0 < r.in_flight → Step r (append_breakpoint r b)
  timer_fires : (gen : ℕ) → r.detaching ≡ false → Step r (idle_fires r gen).0
  idle_detaches : (x : Result Failure (Unit {0})) → r.detaching ≡ true → Step r (idle_answer r x)
  cleanup_begins : r.detaching ≡ false → Step r (cleanup_start r).0
  cleanup_ends : r.st.status ≡ stopping → Step r (cleanup_done r)
  rearms : (left : ℕ) → r.detaching ≡ false → Step r (rearm_apply r left).0
  external_set : (set : List Breakpoint) → Step r (replace_external r set)
  breakpoint_dropped : (id : Text) → Step r (drop_breakpoint r id)

pub data Reach (s : Run) : Run → Type 0 where
  here : Reach s s
  next : {r r' : Run} → Reach s r → Step r r' → Reach s r'
