-- ===== src/Debug/Breakpoints.antt =====
-- tools/debugrun_breakpoints.go: setting the external breakpoints of a run, again or for the first
-- time, and restoring them. The run and the world change together; the run-start lock is held.
pub mod Reset
use aibap_mcp.Base.{
  ℕ, ◌≡◌, Bool, true, false, not, ◌&&◌, ◌||◌, Option, none, some, List, [], ◌∷◌, ◌++◌, Text,
  is_empty, text_eq, keep, Result, ok, err, if◌then◌else◌,
}
use mathlib.Core.List.{map}
use aibap_mcp.Debug.State.{
  Scope, external, debugger, Failure, Breakpoint, RunState, is_attached, is_attaching, is_external,
}
use aibap_mcp.Debug.Run.{Run}
use aibap_mcp.Debug.Lifecycle.{replace_external, drop_breakpoint}
use aibap_mcp.Debug.Sap.{Sap, Via, cleanup_session, LineBreakpoint, BreakpointResult}
use aibap_mcp.Debug.Results.{Rejected, check_results}

pub data SetError : Type 0 where
  request_failed : Failure → SetError
  rejected : List Rejected → SetError

pub data ResetError : Type 0 where
  caught_meanwhile : ResetError
  removal_failed : Text → Failure → List Breakpoint → ResetError
  previous_restored : SetError → ResetError
  previous_lost : SetError → SetError → List Breakpoint → ResetError

-- The first delete that fails: the breakpoint's ID, the failure, and those deleted before it.
pub record Stopped : Type 0 where
  pub id : Text
  pub failure : Failure
  pub gone : List Breakpoint

-- `deriveBreakpointObject` is an argument here: its type and name only decorate a request.
module _ (p : Sap) (derive : Text → Text × Text) where
  open p use {World, set_breakpoints, remove_breakpoint}

  unfoldable pub line_breakpoints : List Breakpoint → List LineBreakpoint
  line_breakpoints [] = []
  line_breakpoints (b ∷ bs) =
      let (type, name) = derive b.object_uri in
      record { object_uri = b.object_uri; line = b.line; object_type = type; object_name = name }
      ∷ line_breakpoints bs

  -- Best effort: the answers are ignored.
  unfoldable pub remove_set_breakpoints : Via → List Breakpoint → World → World
  remove_set_breakpoints via [] w = w
  remove_set_breakpoints via (b ∷ bs) w =
      remove_set_breakpoints via bs
        (if is_empty b.id then w else (remove_breakpoint via external b.id w).1)

  checked :
      Via → List Breakpoint × List Rejected → World → Result SetError (List Breakpoint) × World
  checked via (set, []) w = (ok set, w)
  checked via (set, x ∷ xs) w = (err (rejected (x ∷ xs)), remove_set_breakpoints via set w)

  set_answer :
      Via
      → List LineBreakpoint
      → Result Failure (List BreakpointResult)
      → World
      → Result SetError (List Breakpoint) × World
  unfolding checked
  set_answer via bps (err e) w = (err (request_failed e), w)
  set_answer via bps (ok res) w = checked via (check_results bps res) w

  unfoldable pub set_external :
      Via → List LineBreakpoint → World → Result SetError (List Breakpoint) × World
  unfolding set_answer
  set_external via [] w = (ok [], w)
  set_external via (b ∷ bs) w =
      let (answer, w') = set_breakpoints via external (b ∷ bs) w in
      set_answer via (b ∷ bs) answer w'

  -- The deletes stop at the first failure. `done` are the breakpoints with an ID before.
  unfoldable pub delete_external :
      List Breakpoint → List Breakpoint → World → Option Stopped × World
  delete_external done [] w = (none, w)
  delete_external done (b ∷ bs) w =
      let (answer, w') = remove_breakpoint cleanup_session external b.id w in
      let skip = delete_external done bs w in
      let rest = delete_external (done ++ b ∷ []) bs w' in
      if is_empty b.id then skip else elim answer [
        | ok _ ↦ rest
        | err e ↦ (some (record { id = b.id; failure = e; gone = done }), w')
      ]

  unfoldable pub drop_all : Run → List Breakpoint → Run
  drop_all r [] = r
  drop_all r (b ∷ bs) = drop_all (drop_breakpoint r b.id) bs

  restored :
      Run
      → List Breakpoint
      → SetError
      → Result SetError (List Breakpoint) × World
      → Result ResetError (Unit {0}) × Run × World
  restored r ext e (ok set, w) = (err (previous_restored e), replace_external r set, w)
  restored r ext e (err e', w) = (err (previous_lost e e' ext), replace_external r [], w)

  set_again :
      Run
      → List Breakpoint
      → Result SetError (List Breakpoint) × World
      → Result ResetError (Unit {0}) × Run × World
  unfolding restored
  set_again r ext (ok set, w) = (ok tt, replace_external r set, w)
  set_again r ext (err e, w) =
      restored r ext e (set_external cleanup_session (line_breakpoints ext) w)

  after_delete :
      Run
      → List Breakpoint
      → LineBreakpoint
      → Option Stopped × World
      → Result ResetError (Unit {0}) × Run × World
  unfolding set_again
  after_delete r ext bp (some x, w) =
      (err (removal_failed x.id x.failure x.gone), drop_all r x.gone, w)
  after_delete r ext bp (none, w) =
      set_again r ext (set_external cleanup_session (line_breakpoints ext ++ bp ∷ []) w)

  -- The status and the externals are read under the run's own lock, which is free again during the
  -- requests: `meanwhile` is what the other goroutines make of the run until they are answered.
  unfoldable pub reset_external :
      Run → (Run → Run) → LineBreakpoint → World → Result ResetError (Unit {0}) × Run × World
  unfolding after_delete
  reset_external r meanwhile bp w =
      let ext = keep is_external r.st.breakpoints in
      if is_attaching r.st.status || is_attached r.st.status
      then (err caught_meanwhile, r, w)
      else after_delete (meanwhile r) ext bp (delete_external [] ext w)
