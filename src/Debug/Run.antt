-- ===== src/Debug/Run.antt =====
-- tools/debugrun.go and parts of tools/debugsession.go and tools/debugrun_cleanup.go: a debug run.
-- Each function is one critical section of the run's mutex, with the answers that its goroutine
-- got from SAP as arguments.
use aibap_mcp.Base.{
  ℕ, ◌+◌, ◌-◌, Bool, true, false, not, ◌&&◌, ◌||◌, Option, none, some, List, [], Text, is_empty,
  Result, ok, err, if◌then◌else◌, ◌==◌, ltb,
}
use Prim.Native.Nat.{◌/◌, min, max}
use aibap_mcp.Debug.State.{
  listening, attaching, attached, ended, timeout, EndReason, no_hit, attach_failed, idle_detached,
  TriggerKind, running, done, failed, Failure, Hint, no_hint, listener_failed, timeout_hint,
  position_unread, no_hit_after, idle_hint, hint_of_attach, is_not_attached, Breakpoint, Position,
  Trigger, Instructions, RunState, is_listening, is_attaching, is_attached,
}

-- `counter` is the process-wide version counter, `windows` the number of listening windows started,
-- `idle_timer` the generation of the pending idle timer.
pub record Run : Type 0 where
  pub kind : TriggerKind
  pub st : RunState
  pub counter : ℕ
  pub fatal : Option Failure
  pub windows : ℕ
  pub in_flight : ℕ
  pub idle_gen : ℕ
  pub idle_timer : Option ℕ
  pub detaching : Bool

-- `transitionLocked`, with the new state before its version.
unfoldable pub transition : Run → RunState → Run
transition r st = record r { st = record st { version = r.counter + 1 }; counter = r.counter + 1 }

-- `newDebugRun`
unfoldable pub new_run : TriggerKind → ℕ → List Breakpoint → Option Trigger → Hint → Run
new_run kind counter bps trigger hint = record {
  kind = kind;
  st = record {
    version = counter + 1;
    status = listening;
    end_reason = none;
    breakpoints = bps;
    debuggee_id = [];
    position = none;
    trigger = trigger;
    instructions = none;
    hint = hint;
  };
  counter = counter + 1;
  fatal = none;
  windows = 0;
  in_flight = 0;
  idle_gen = 0;
  idle_timer = none;
  detaching = false;
}

-- `stopIdleLocked`, `resetIdleLocked`
unfoldable pub stop_idle : Run → Run
stop_idle r = record r { idle_gen = r.idle_gen + 1; idle_timer = none }

reset_idle : Run → Run
reset_idle r = record r { idle_gen = r.idle_gen + 1; idle_timer = some (r.idle_gen + 1) }

-- The poll of one window in seconds, from the nanoseconds left (0 once the budget is over).
pub window_seconds : ℕ → ℕ
window_seconds left = max 1 (min ((left + 999999999) / 1000000000) 600)

unfoldable pub start_window : Run → Run
start_window r = record r { windows = r.windows + 1 }

-- What `StartListener` answered: whether the status is `attached`, and the debuggee.
pub record Caught : Type 0 where
  pub hit : Bool
  pub debuggee : Text

on_listening : Run → Result Failure Caught → Run × Option Text
on_listening r (err e) = (
  record (transition r (record (r.st) { status = timeout; hint = listener_failed e })) {
    fatal = some e;
  },
  none,
)
on_listening r (ok c) =
    if not c.hit || is_empty c.debuggee
    then (transition r (record (r.st) { status = timeout; hint = timeout_hint }), none)
    else (
      transition r (record (r.st) { status = attaching; debuggee_id = c.debuggee }),
      some c.debuggee,
    )

-- `listen` after its poll, with whether its context was cancelled: the debuggee to attach to.
unfoldable pub listen_answer : Run → Bool → Result Failure Caught → Run × Option Text
unfolding on_listening transition
listen_answer r cancelled answer =
    if cancelled || not (is_listening r.st.status) then (r, none) else on_listening r answer

unread : Option (Result Failure Position) → Hint
unread none = no_hint
unread (some (ok _)) = no_hint
unread (some (err e)) = position_unread e

read : Option (Result Failure Position) → Option Position
read none = none
read (some (ok p)) = some p
read (some (err _)) = none

attached_run : Run → Result Failure (Unit {0}) → Option (Result Failure Position) → Run
unfolding transition reset_idle unread read
attached_run r (err e) pos =
    transition r
      (record (r.st) { status = ended; end_reason = some attach_failed; hint = hint_of_attach e })
attached_run r (ok _) pos =
    reset_idle
      (transition r (record (r.st) { status = attached; position = read pos; hint = unread pos }))

answered : Result Failure (Unit {0}) → Bool
answered (ok _) = true
answered (err _) = false

-- `attach` after its requests. The position is `none` if it was not read. The flag says that the
-- attach completed too late and is detached again.
unfoldable pub attach_answer :
    Run → Result Failure (Unit {0}) → Option (Result Failure Position) → Run × Bool
unfolding attached_run answered
attach_answer r answer pos =
    if is_attaching r.st.status then (attached_run r answer pos, false) else (r, answered answer)

-- `runTrigger` once the delay is over.
with_trigger : Run → (Trigger → Trigger) → RunState
with_trigger r f = record (r.st) {
  trigger = elim r.st.trigger [ none ↦ none | some t ↦ some (f t) ];
}

unfoldable pub trigger_started : Run → Run
unfolding transition with_trigger
trigger_started r = transition r (with_trigger r (λ t. record t { state = running }))

-- `runTrigger` after the trigger's return: the failed trigger, or its result and whether its return
-- proves that the run is over.
unfoldable pub trigger_answer :
    Run → Bool → Option Instructions → Result Failure (Option Text) → Run
unfolding transition with_trigger
trigger_answer r ends fallback (err e) =
    let st = with_trigger r (λ t. record t { state = failed; error = some e }) in
    transition r (if is_listening r.st.status then record st { instructions = fallback } else st)
trigger_answer r ends fallback (ok res) =
    let st = with_trigger r (λ t. record t { state = done; unit_tests = res }) in
    transition r (
      if ends && is_listening r.st.status
      then record st { status = ended; end_reason = some no_hit; hint = no_hit_after r.st.hint }
      else st)

-- `beginCall`: `false` is the error that no debuggee is attached.
unfoldable pub begin_call : Run → Run × Bool
unfolding stop_idle
begin_call r =
    if not (is_attached r.st.status) || r.detaching
    then (r, false)
    else (stop_idle (record r { in_flight = r.in_flight + 1 }), true)

-- `endCall`, which follows a `beginCall` that admitted the call.
unfoldable pub end_call : Run → Run
unfolding reset_idle
end_call r =
    let r' = record r { in_flight = r.in_flight - 1 } in
    if (r'.in_flight == 0) && is_attached r.st.status then reset_idle r' else r'

-- `onIdle` up to its detach request: whether it goes on. A timer that fires is no longer pending.
expire : ℕ → Option ℕ → Option ℕ
expire gen none = none
expire gen (some g) = if g == gen then none else some g

unfoldable pub idle_fires : Run → ℕ → Run × Bool
unfolding expire
idle_fires r gen =
    let r' = record r { idle_timer = expire gen r.idle_timer } in
    if not (gen == r.idle_gen) || (not (is_attached r.st.status) || ltb 0 r.in_flight)
    then (r', false)
    else (record r' { detaching = true }, true)

idle_failure : Result Failure (Unit {0}) → Option Failure
idle_failure (ok _) = none
idle_failure (err e) = if is_not_attached e then none else some e

-- `onIdle` after its detach request.
unfoldable pub idle_answer : Run → Result Failure (Unit {0}) → Run
unfolding transition idle_failure
idle_answer r answer =
    let r' = record r { detaching = false } in
    if is_attached r.st.status
    then transition r' (record (r.st) {
      status = ended;
      end_reason = some idle_detached;
      position = none;
      hint = idle_hint (idle_failure answer);
    })
    else r'

-- `transitionIfAttached`, `end`
unfoldable pub if_attached : Run → RunState → Run
unfolding transition
if_attached r st = if is_attached r.st.status then transition r st else r

unfoldable pub end_run : Run → EndReason → Hint → Run
unfolding if_attached
end_run r reason hint =
    if_attached r
      (record (r.st) { status = ended; end_reason = some reason; position = none; hint = hint })
