-- ===== src/Debug/Requests.antt =====
-- tools/debugrun_breakpoints.go: `debug_set_breakpoint` and `debug_remove_breakpoint`. Each decides on
-- the run as it is at first, and acts on the run as it is once its lock is held or its call is
-- admitted; a last argument says what the goroutines make of the run from then on until SAP has
-- answered: a debuggee can be caught before a request for an external breakpoint goes out.
pub mod Guarded
pub mod Samples
use aibap_mcp.Base.{
  Bool, true, false, not, ◌&&◌, ◌||◌, Option, none, some, List, [], ◌∷◌, Text, Result, ok, err,
  if◌then◌else◌,
}
use aibap_mcp.Debug.State.{
  Scope, external, debugger, Failure, is_not_attached, Breakpoint, is_external, is_attached,
  is_attaching,
}
use aibap_mcp.Debug.Run.{Run, begin_call, end_call}
use aibap_mcp.Debug.Lifecycle.{active, append_breakpoint, drop_breakpoint, breakpoint}
use aibap_mcp.Debug.Sap.{Sap, LineBreakpoint, BreakpointResult, debug_session, cleanup_session}
use aibap_mcp.Debug.Results.{Rejected, check_results}
use aibap_mcp.Debug.Breakpoints.{ResetError, reset_external}
use aibap_mcp.Debug.Sessions.{Sessions, RunError, no_run, check_run_key}

-- `runFor`
pub run_for : Sessions → Text → Text → Result RunError Run
run_for m system user = elim m.run [
  | none ↦ err no_run
  | some (key, r) ↦
      let mismatch = check_run_key key system user in
      if not (active r) then err no_run else elim mismatch [ none ↦ ok r | some e ↦ err e ]
]

pub data AddError : Type 0 where
  attach_in_progress no_debuggee no_active_run debugger_gone : AddError
  request_failed : Failure → AddError
  rejected : List Rejected → AddError
  reset_failed : ResetError → AddError

pub data RemoveError : Type 0 where
  unknown_breakpoint : Text → RemoveError
  no_debuggee no_active_run external_while_attached : RemoveError
  request_failed : Failure → RemoveError

as_debugger : Breakpoint → Breakpoint
as_debugger b = record b { scope = debugger }

module _ (p : Sap) (derive : Text → Text × Text) where
  open p use {World, set_breakpoints, remove_breakpoint}

  add_checked : Run → List Breakpoint × List Rejected → Result AddError (Unit {0}) × Run
  unfolding as_debugger
  add_checked r ([], xs) = (err (rejected xs), r)
  add_checked r (b ∷ bs, []) = (ok tt, append_breakpoint r (as_debugger b))
  add_checked r (b ∷ bs, x ∷ xs) = (err (rejected (x ∷ xs)), r)

  add_answer :
      Run
      → LineBreakpoint
      → Result Failure (List BreakpointResult)
      → Result AddError (Unit {0}) × Run
  unfolding add_checked
  add_answer r bp (ok res) = add_checked r (check_results (bp ∷ []) res)
  add_answer r bp (err e) = (err (if e.no_session then debugger_gone else request_failed e), r)

  -- `addDebuggerBreakpoint`
  pub add_debugger :
      Run → (Run → Run) → LineBreakpoint → World → Result AddError (Unit {0}) × Run × World
  unfolding add_answer
  add_debugger r meanwhile bp w =
      let (r', admitted) = begin_call r in
      let (answer, w') = set_breakpoints debug_session debugger (bp ∷ []) w in
      let (out, r'') = add_answer (meanwhile r') bp answer in
      if admitted then (out, end_call r'', w') else (err no_debuggee, r, w)

  add_external :
      Run → (Run → Run) → LineBreakpoint → World → Result AddError (Unit {0}) × Run × World
  add_external r meanwhile bp w =
      let (out, r', w') = reset_external p derive r meanwhile bp w in
      (elim out [ ok _ ↦ ok tt | err e ↦ err (reset_failed e) ], r', w')

  -- `addBreakpoint` on its run, which was `r` when its status was read.
  pub add_breakpoint :
      Run → Run → (Run → Run) → LineBreakpoint → World → Result AddError (Unit {0}) × Run × World
  unfolding add_external
  add_breakpoint r r' meanwhile bp w =
      if is_attaching r.st.status
      then (err attach_in_progress, r', w)
      else if is_attached r.st.status
      then add_debugger r' meanwhile bp w
      else if not (active r')
      then (err no_active_run, r', w)
      else add_external r' meanwhile bp w

  remove_failure : Scope → Result Failure (Unit {0}) → Option Failure
  remove_failure scope (ok _) = none
  remove_failure external (err e) = some e
  remove_failure debugger (err e) = if is_not_attached e then none else some e

  removed : Run → Breakpoint → Option Failure → Result RemoveError Breakpoint × Run
  removed r b (some e) = (err (request_failed e), r)
  removed r b none = (ok b, drop_breakpoint r b.id)

  remove_debugger :
      Run → (Run → Run) → Breakpoint → World → Result RemoveError Breakpoint × Run × World
  unfolding removed remove_failure
  remove_debugger r meanwhile b w =
      let (r', admitted) = begin_call r in
      let (answer, w') = remove_breakpoint debug_session debugger b.id w in
      let (out, r'') = removed (meanwhile r') b (remove_failure debugger answer) in
      if admitted then (out, end_call r'', w') else (err no_debuggee, r, w)

  remove_external :
      Run → (Run → Run) → Breakpoint → World → Result RemoveError Breakpoint × Run × World
  unfolding removed remove_failure
  remove_external r meanwhile b w =
      let (answer, w') = remove_breakpoint cleanup_session external b.id w in
      let (out, r') = removed (meanwhile r) b (remove_failure external answer) in
      if not (active r)
      then (err no_active_run, r, w)
      else if is_attaching r.st.status || is_attached r.st.status
      then (err external_while_attached, r, w)
      else (out, r', w')

  -- `removeBreakpoint` on its run, which was `r` when the breakpoint was looked up.
  pub remove_breakpoint_tool :
      Run → Run → (Run → Run) → Text → World → Result RemoveError Breakpoint × Run × World
  unfolding remove_external remove_debugger
  remove_breakpoint_tool r r' meanwhile id w = elim (breakpoint r id) [
    | none ↦ (err (unknown_breakpoint id), r', w)
    | some b ↦
        if is_external b then remove_external r' meanwhile b w else remove_debugger r' meanwhile b w
  ]
