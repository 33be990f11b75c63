-- ===== src/Debug/Steps/Versions.antt =====
-- Versions, and the end of a run (tools/debugrun.go, tools/debugrun_cleanup.go): what a waiter in
-- `waitUntil` can rely on, and that nothing revives a run that is being cleaned up.
use aibap_mcp.Base.{◌+◌, ◌≤◌, ◌<◌, ◌≡◌, ◌⊎◌, inl, inr, refl, Result, ok, err, arith}
use aibap_mcp.Debug.State.{stopping, stopped, Failure}
use aibap_mcp.Debug.Run.{
  Run, listen_answer, attach_answer, trigger_started, trigger_answer, begin_call, end_call,
  idle_fires, idle_answer, end_run,
}
use aibap_mcp.Debug.Lifecycle.{
  Action, Followup, step_answer, cleanup_start, cleanup_done, rearm_apply, replace_external,
  drop_breakpoint, append_breakpoint,
}
use aibap_mcp.Debug.Steps.{
  Step, Reach, listens, attaches, trigger_starts, trigger_returns, call_begins, call_ends, steps,
  debugger_breakpoint, timer_fires, idle_detaches, cleanup_begins, cleanup_ends, rearms,
  external_set, breakpoint_dropped, here, next,
}

-- The published state is the same, version included, or it has the version behind the counter's.
abbrev pub Publishes : Run → Run → Type 0
Publishes r r' =
    (((r'.st ≡ r.st) × (r'.counter ≡ r.counter))
      ⊎ ((r'.st.version ≡ r.counter + 1) × (r'.counter ≡ r.counter + 1)))

steps-Publishes :
    (r : Run) (action : Action) (x : Result Failure (Unit {0})) (f : Followup)
    → Publishes r (step_answer r action x f).0
unfolding step_answer end_run
steps-Publishes r action (ok x) f = ground arith
steps-Publishes r action (err e) f = ground arith

-- A critical section leaves the published state as it is, or gives it the version behind the
-- counter's.
pub Step-Publishes : {r r' : Run} → Step r r' → Publishes r r'
unfolding listen_answer attach_answer trigger_started trigger_answer begin_call end_call idle_fires
    idle_answer cleanup_start cleanup_done rearm_apply replace_external drop_breakpoint
    append_breakpoint
Step-Publishes {r} (listens c (ok x)) = ground arith
Step-Publishes {r} (listens c (err e)) = ground arith
Step-Publishes {r} (attaches (ok x) pos) = ground arith
Step-Publishes {r} (attaches (err e) pos) = ground arith
Step-Publishes {r} trigger_starts = ground arith
Step-Publishes {r} (trigger_returns ends fallback (ok x)) = ground arith
Step-Publishes {r} (trigger_returns ends fallback (err e)) = ground arith
Step-Publishes {r} call_begins = ground arith
Step-Publishes {r} (call_ends h) = ground arith
Step-Publishes {r} (steps action x f h) = steps-Publishes r action x f
Step-Publishes {r} (debugger_breakpoint b h) = ground arith
Step-Publishes {r} (timer_fires gen h) = ground arith
Step-Publishes {r} (idle_detaches x h) = ground arith
Step-Publishes {r} (cleanup_begins h) = ground arith
Step-Publishes {r} (cleanup_ends h) = ground arith
Step-Publishes {r} (rearms left h) = ground arith
Step-Publishes {r} (external_set set) = ground arith
Step-Publishes {r} (breakpoint_dropped id) = ground arith

abbrev pub Over : Run → Type 0
Over r = (r.st.status ≡ stopping) ⊎ (r.st.status ≡ stopped)

-- Stopped stays stopped, and stopping stays or becomes stopped.
abbrev pub StaysOver : Run → Run → Type 0
StaysOver r r' = (r'.st.status ≡ r.st.status) ⊎ (r'.st.status ≡ stopped)

steps-StaysOver :
    (r : Run) (action : Action) (x : Result Failure (Unit {0})) (f : Followup)
    → Over r
    → StaysOver r (step_answer r action x f).0
unfolding step_answer end_run
steps-StaysOver r action (ok x) f o = ground arith
steps-StaysOver r action (err e) f o = ground arith

Step-StaysOver : {r r' : Run} → Step r r' → Over r → StaysOver r r'
unfolding listen_answer attach_answer trigger_started trigger_answer begin_call end_call idle_fires
    idle_answer cleanup_start cleanup_done rearm_apply replace_external drop_breakpoint
    append_breakpoint
Step-StaysOver {r} (listens c (ok x)) o = ground arith
Step-StaysOver {r} (listens c (err e)) o = ground arith
Step-StaysOver {r} (attaches (ok x) pos) o = ground arith
Step-StaysOver {r} (attaches (err e) pos) o = ground arith
Step-StaysOver {r} trigger_starts o = ground arith
Step-StaysOver {r} (trigger_returns ends fallback (ok x)) o = ground arith
Step-StaysOver {r} (trigger_returns ends fallback (err e)) o = ground arith
Step-StaysOver {r} call_begins o = ground arith
Step-StaysOver {r} (call_ends h) o = ground arith
Step-StaysOver {r} (steps action x f h) o = steps-StaysOver r action x f o
Step-StaysOver {r} (debugger_breakpoint b h) o = ground arith
Step-StaysOver {r} (timer_fires gen h) o = ground arith
Step-StaysOver {r} (idle_detaches x h) o = ground arith
Step-StaysOver {r} (cleanup_begins h) o = ground arith
Step-StaysOver {r} (cleanup_ends h) o = ground arith
Step-StaysOver {r} (rearms left h) o = ground arith
Step-StaysOver {r} (external_set set) o = ground arith
Step-StaysOver {r} (breakpoint_dropped id) o = ground arith

-- Once a cleanup has begun, no interleaving makes the run anything but stopping or stopped, and
-- once it is stopped it stays so: no late attach, trigger, step or rearm revives it.
pub Reach-StaysOver : {s r : Run} → Over s → Reach s r → Over r × StaysOver s r
Reach-StaysOver o here = (o, inl refl)
Reach-StaysOver o (next p st) =
    let (o', q) = Reach-StaysOver o p in let q' = Step-StaysOver st o' in ground arith

-- In every interleaving versions never fall, and the version is at most the counter, if it was so
-- at the start.
pub Reach-version :
    {s r : Run}
    → s.st.version ≤ s.counter
    → Reach s r
    → (s.st.version ≤ r.st.version) × (r.st.version ≤ r.counter)
Reach-version v here = omega arith
Reach-version v (next p st) =
    let q = Reach-version v p in let q' = Step-Publishes st in ground arith

-- In every interleaving from a state whose version is at most the counter, as that of a new run is, a
-- critical section leaves the published state as it is, or publishes one whose version is greater
-- than that of every state that the run has had since.
pub Reach-fresh :
    {s m r r' : Run}
    → s.st.version ≤ s.counter
    → Reach s m
    → Reach m r
    → Step r r'
    → (r'.st ≡ r.st) ⊎ (m.st.version < r'.st.version)
Reach-fresh {s} {m} {r} {r'} v p q st =
    let (low, used) = Reach-version v p in
    let (low', used') = Reach-version used q in
    elim (Step-Publishes st) [ inl (same, c) ↦ inl same | inr (new, c) ↦ inr (omega arith) ]
