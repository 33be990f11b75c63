-- ===== src/Debug/Steps/Invariant.antt =====
-- What holds of a run between any two critical sections.
use aibap_mcp.Base.{
  ℕ, ◌≤◌, ◌<◌, ◌≡◌, ◌⊎◌, Bool, true, false, Option, some, List, Result, ok, err, arith, is_some,
  Text,
}
use aibap_mcp.Debug.State.{
  attached, ended, timeout, stopping, stopped, Failure, Position, Breakpoint, Instructions, Trigger,
  TriggerKind, Hint,
}
use aibap_mcp.Debug.Run.{
  Run, Caught, new_run, listen_answer, attach_answer, trigger_started, trigger_answer, begin_call,
  end_call, idle_fires, idle_answer, end_run,
}
use aibap_mcp.Debug.Lifecycle.{
  Action, Followup, step_answer, cleanup_start, cleanup_done, rearm_apply, replace_external,
  drop_breakpoint, append_breakpoint,
}
use aibap_mcp.Debug.Steps.{
  Step, Reach, listens, attaches, trigger_starts, trigger_returns, call_begins, call_ends, steps,
  debugger_breakpoint, timer_fires, idle_detaches, cleanup_begins, cleanup_ends, rearms,
  external_set, breakpoint_dropped, here, next,
}

-- The version was handed out; a position is shown only while attached or until the cleanup is over;
-- an end reason is there when the run ended and only then or later; a listener failure is kept only
-- after a timeout; a pending idle timer is of the
-- current generation, and every idle attached debuggee has one unless its detach is under way.
pub record Inv (r : Run) : Type 0 where
  pub version_used : r.st.version ≤ r.counter
  pub position_attached :
      is_some r.st.position ≡ true → (r.st.status ≡ attached) ⊎ (r.st.status ≡ stopping)
  pub reason_ended :
      is_some r.st.end_reason ≡ true
      → (r.st.status ≡ ended) ⊎ (r.st.status ≡ stopping) ⊎ (r.st.status ≡ stopped)
  pub ended_reason : r.st.status ≡ ended → is_some r.st.end_reason ≡ true
  pub fatal_timeout : is_some r.fatal ≡ true → (r.st.status ≡ timeout) ⊎ (r.st.status ≡ stopping)
  pub timer_current : is_some r.idle_timer ≡ true → r.idle_timer ≡ some r.idle_gen
  pub idle_timed :
      r.st.status ≡ attached
      → r.in_flight ≡ 0
      → (r.idle_timer ≡ some r.idle_gen) ⊎ (r.detaching ≡ true)
  pub detaching_idle : r.detaching ≡ true → (r.st.status ≡ attached) × (r.in_flight ≡ 0)

listens-Inv : (r : Run) (c : Bool) (x : Result Failure Caught) → Inv r → Inv (listen_answer r c x).0
unfolding listen_answer
listens-Inv r c (err e) i = ground arith
listens-Inv r c (ok x) i = ground arith

attaches-Inv :
    (r : Run) (x : Result Failure (Unit {0})) (pos : Option (Result Failure Position))
    → Inv r
    → Inv (attach_answer r x pos).0
unfolding attach_answer
attaches-Inv r (err e) pos i = ground arith
attaches-Inv r (ok x) pos i = ground arith

trigger_starts-Inv : (r : Run) → Inv r → Inv (trigger_started r)
unfolding trigger_started
trigger_starts-Inv r i = ground arith

trigger_returns-Inv :
    (r : Run) (ends : Bool) (fallback : Option Instructions) (x : Result Failure (Option Text))
    → Inv r
    → Inv (trigger_answer r ends fallback x)
unfolding trigger_answer
trigger_returns-Inv r ends fallback (err e) i = ground arith
trigger_returns-Inv r ends fallback (ok x) i = ground arith

call_begins-Inv : (r : Run) → Inv r → Inv (begin_call r).0
unfolding begin_call
call_begins-Inv r i = ground arith

call_ends-Inv : (r : Run) → 0 < r.in_flight → Inv r → Inv (end_call r)
unfolding end_call
call_ends-Inv r h i = ground arith

steps-Inv :
    (r : Run) (action : Action) (x : Result Failure (Unit {0})) (f : Followup)
    → 0 < r.in_flight
    → Inv r
    → Inv (step_answer r action x f).0
unfolding step_answer end_run
steps-Inv r action (err e) f h i = ground arith
steps-Inv r action (ok x) f h i = ground arith

appends-Inv : (r : Run) (b : Breakpoint) → Inv r → Inv (append_breakpoint r b)
unfolding append_breakpoint
appends-Inv r b i = ground arith

timer_fires-Inv : (r : Run) (gen : ℕ) → r.detaching ≡ false → Inv r → Inv (idle_fires r gen).0
unfolding idle_fires
timer_fires-Inv r gen h i = ground arith

idle_detaches-Inv :
    (r : Run) (x : Result Failure (Unit {0})) → r.detaching ≡ true → Inv r → Inv (idle_answer r x)
unfolding idle_answer
idle_detaches-Inv r x h i = ground arith

cleanup_begins-Inv : (r : Run) → r.detaching ≡ false → Inv r → Inv (cleanup_start r).0
unfolding cleanup_start
cleanup_begins-Inv r h i = ground arith

cleanup_ends-Inv : (r : Run) → r.st.status ≡ stopping → Inv r → Inv (cleanup_done r)
unfolding cleanup_done
cleanup_ends-Inv r h i = ground arith

rearms-Inv : (r : Run) (left : ℕ) → r.detaching ≡ false → Inv r → Inv (rearm_apply r left).0
unfolding rearm_apply
rearms-Inv r left h i = ground arith

external_set-Inv : (r : Run) (set : List Breakpoint) → Inv r → Inv (replace_external r set)
unfolding replace_external
external_set-Inv r set i = ground arith

breakpoint_dropped-Inv : (r : Run) (id : Text) → Inv r → Inv (drop_breakpoint r id)
unfolding drop_breakpoint
breakpoint_dropped-Inv r id i = ground arith

-- Every critical section of every goroutine keeps the invariant.
pub Step-Inv : {r r' : Run} → Step r r' → Inv r → Inv r'
Step-Inv {r} (listens c x) i = listens-Inv r c x i
Step-Inv {r} (attaches x pos) i = attaches-Inv r x pos i
Step-Inv {r} trigger_starts i = trigger_starts-Inv r i
Step-Inv {r} (trigger_returns ends fallback x) i = trigger_returns-Inv r ends fallback x i
Step-Inv {r} call_begins i = call_begins-Inv r i
Step-Inv {r} (call_ends h) i = call_ends-Inv r h i
Step-Inv {r} (steps action x f h) i = steps-Inv r action x f h i
Step-Inv {r} (debugger_breakpoint b h) i = appends-Inv r b i
Step-Inv {r} (timer_fires gen h) i = timer_fires-Inv r gen h i
Step-Inv {r} (idle_detaches x h) i = idle_detaches-Inv r x h i
Step-Inv {r} (cleanup_begins h) i = cleanup_begins-Inv r h i
Step-Inv {r} (cleanup_ends h) i = cleanup_ends-Inv r h i
Step-Inv {r} (rearms left h) i = rearms-Inv r left h i
Step-Inv {r} (external_set set) i = external_set-Inv r set i
Step-Inv {r} (breakpoint_dropped id) i = breakpoint_dropped-Inv r id i

new_run-Inv :
    (kind : TriggerKind) (counter : ℕ) (bps : List Breakpoint) (trigger : Option Trigger)
    (hint : Hint)
    → Inv (new_run kind counter bps trigger hint)
unfolding new_run
new_run-Inv kind counter bps trigger hint = ground arith

Reach-Inv : {s r : Run} → Inv s → Reach s r → Inv r
Reach-Inv i here = i
Reach-Inv i (next p st) = Step-Inv st (Reach-Inv i p)

-- In every interleaving, from the start of a run: the version was handed out by the process's
-- counter; a position is shown only while attached or stopping; a run that ended says why, and only
-- a run that ended, or is cleaned up since, has an end reason; a listener failure is kept only
-- after a timeout or while stopping; and an attached debuggee on which no call is in flight has
-- its idle timer pending or its detach under way.
pub run-Inv :
    (kind : TriggerKind) (counter : ℕ) (bps : List Breakpoint) (trigger : Option Trigger)
    (hint : Hint) {r : Run}
    → Reach (new_run kind counter bps trigger hint) r
    → Inv r
run-Inv kind counter bps trigger hint p = Reach-Inv (new_run-Inv kind counter bps trigger hint) p
