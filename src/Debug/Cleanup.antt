-- ===== src/Debug/Cleanup.antt =====
-- tools/debugrun_cleanup.go: what a cleanup asks of SAP, and its report. The listener goroutine's
-- exit is not part of it (Debug/Steps has every interleaving), nor is the budget of the context:
-- a request that ran out of time answers with a failure.
pub mod Report
use aibap_mcp.Base.{
  ℕ, Bool, true, false, not, ◌&&◌, ◌||◌, Option, none, some, List, [], ◌∷◌, ◌++◌, Text, is_empty,
  Result, ok, err, if◌then◌else◌,
}
use aibap_mcp.Debug.State.{external, debugger, Failure, is_not_attached, Breakpoint, is_external}
use aibap_mcp.Debug.Run.{Run}
use aibap_mcp.Debug.Lifecycle.{cleanup_start, cleanup_done, detach_debugger}
use aibap_mcp.Debug.Sap.{Sap, debug_session, cleanup_session}

-- `bpFailure`; `none` is the error that SAP returned no ID.
pub record BpFailure : Type 0 where
  pub bp : Breakpoint
  pub error : Option Failure

-- `cleanupReport`
pub record CleanupReport : Type 0 where
  pub removed : List Breakpoint
  pub not_removed : List BpFailure
  pub listener_error : Option Failure
  pub detach_error : Option Failure

pub empty_report : CleanupReport
empty_report = record { removed = []; not_removed = []; listener_error = none; detach_error = none }

failure_of : Result Failure (Unit {0}) → Option Failure
failure_of (ok _) = none
failure_of (err e) = some e

-- A "not attached" answer counts as success.
failure_unless_detached : Result Failure (Unit {0}) → Option Failure
failure_unless_detached (ok _) = none
failure_unless_detached (err e) = if is_not_attached e then none else some e

add_removed : CleanupReport → Breakpoint → CleanupReport
add_removed rep b = record rep { removed = rep.removed ++ b ∷ [] }

add_failed : CleanupReport → Breakpoint → Option Failure → CleanupReport
add_failed rep b e = record rep {
  not_removed = rep.not_removed ++ (record { bp = b; error = e }) ∷ [];
}

add_answer : CleanupReport → Breakpoint → Option Failure → CleanupReport
unfolding add_removed add_failed
add_answer rep b none = add_removed rep b
add_answer rep b (some e) = add_failed rep b (some e)

module _ (p : Sap) where
  open p use {World, stop_listener, remove_breakpoint, step}

  -- The loop of `stopExternal`.
  remove_external : List Breakpoint → CleanupReport → World → CleanupReport × World
  unfolding add_answer failure_of
  remove_external [] rep w = (rep, w)
  remove_external (b ∷ bs) rep w =
      let (answer, w') = remove_breakpoint cleanup_session external b.id w in
      let others = remove_external bs rep w in
      let nameless = remove_external bs (add_failed rep b none) w in
      let asked = remove_external bs (add_answer rep b (failure_of answer)) w' in
      if not (is_external b) then others else if is_empty b.id then nameless else asked

  -- `stopExternal`
  pub stop_external : List Breakpoint → CleanupReport → World → CleanupReport × World
  unfolding remove_external
  stop_external bps rep w =
      let (answer, w') = stop_listener cleanup_session w in
      remove_external bps (record rep { listener_error = failure_of answer }) w'

  -- The loop of `detachAttached`.
  remove_debugger : List Breakpoint → CleanupReport → World → CleanupReport × World
  unfolding failure_unless_detached add_answer
  remove_debugger [] rep w = (rep, w)
  remove_debugger (b ∷ bs) rep w =
      let (answer, w') = remove_breakpoint debug_session debugger b.id w in
      let others = remove_debugger bs rep w in
      let asked = remove_debugger bs (add_answer rep b (failure_unless_detached answer)) w' in
      if is_external b then others else asked

  -- `detachAttached`
  pub detach_attached : List Breakpoint → CleanupReport → World → CleanupReport × World
  unfolding remove_debugger
  detach_attached bps rep w =
      let (rep', w') = remove_debugger bps rep w in
      let (answer, w'') = step debug_session detach_debugger w' in
      (record rep' { detach_error = failure_unless_detached answer }, w'')

  requests : Bool → List Breakpoint → World → CleanupReport × World
  unfolding stop_external detach_attached empty_report
  requests was_attached bps w =
      let (rep, w') = stop_external bps empty_report w in
      let detached = detach_attached bps rep w' in if was_attached then detached else (rep, w')

  -- `cleanupRun`, with what the other goroutines make of the run while SAP answers.
  unfoldable pub cleanup_run : Run → (Run → Run) → World → CleanupReport × Run × World
  unfolding requests
  cleanup_run r meanwhile w = elim (cleanup_start r).1 [
    | none ↦ (empty_report, r, w)
    | some (was_attached, bps) ↦
        let (rep, w') = requests was_attached bps w in
        (rep, cleanup_done (meanwhile (cleanup_start r).0), w')
  ]
