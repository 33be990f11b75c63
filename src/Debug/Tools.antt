-- ===== src/Debug/Tools.antt =====
-- The arguments and results of the debugger tools (tools/debugger.go).
use aibap_mcp.Base.{
  ℕ, Bool, true, false, not, ◌&&◌, Option, none, some, is_some, List, [], ◌∷◌, Text, bytes, text_eq,
  is_empty, trim_space, if◌then◌else◌, Result, ok, err,
}
use aibap_mcp.Debug.Values.{int_between}
use aibap_mcp.Debug.State.{RunState, Status, ended, EndReason, completed, Position, Hint}
use aibap_mcp.Debug.Sap.{LineBreakpoint}
use aibap_mcp.Debug.Args.Uris.{source_object_uri, derive_breakpoint_object}
use aibap_mcp.Debug.Lifecycle.{
  Action, step_into, step_over, step_return, step_continue, terminate_debuggee, detach_debugger,
}
use aibap_mcp.Params.{Request}

-- `validDebugStepActions`: the names of the actions.
abbrev pub name_of : Action → Text
name_of step_into = bytes "stepInto"
name_of step_over = bytes "stepOver"
name_of step_return = bytes "stepReturn"
name_of step_continue = bytes "stepContinue"
name_of terminate_debuggee = bytes "terminateDebuggee"
name_of detach_debugger = bytes "detachDebugger"

unfoldable pub valid_debug_step_actions : List Action
valid_debug_step_actions =
    step_into ∷ step_over ∷ step_return ∷ step_continue ∷ terminate_debuggee ∷ detach_debugger ∷ []

-- The action of a name, if it is valid.
unfoldable pub find_action : List Action → Text → Option Action
find_action [] s = none
find_action (a ∷ actions) s =
    let rest = find_action actions s in if text_eq (name_of a) s then some a else rest

unfoldable pub step_action : Request → Option Action
unfolding find_action valid_debug_step_actions
step_action req = find_action valid_debug_step_actions (req.get_string (bytes "action") [])

-- The arguments of `debug_set_breakpoint` and `debug_remove_breakpoint`.
pub data ToolArgError : Type 0 where
  not_a_source_uri : Text → ToolArgError
  line_not_whole id_required : ToolArgError

module _ (path_unescape : Text → Option Text) where
  unfoldable pub set_breakpoint_args : Request → Result ToolArgError LineBreakpoint
  set_breakpoint_args req =
      let uri = trim_space (req.get_string (bytes "object_uri") []) in
      if not (is_some (source_object_uri uri))
      then err (not_a_source_uri uri)
      else elim (int_between 1 none (req.arguments (bytes "line"))) [
        | none ↦ err line_not_whole
        | some line ↦
            let (type, name) = derive_breakpoint_object path_unescape uri in
            ok (record { object_uri = uri; line = line; object_type = type; object_name = name })
      ]

-- `requireDebuggerStringParam` of the identifier.
unfoldable pub remove_breakpoint_arg : Request → Result ToolArgError Text
remove_breakpoint_arg req =
    let id = trim_space (req.get_string (bytes "breakpoint_id") []) in
    if is_empty (trim_space id) then err id_required else ok id

-- `DebugStepResult`
pub record DebugStepResult : Type 0 where
  pub version : ℕ
  pub status : Status
  pub end_reason : Option EndReason
  pub debuggee_ended : Bool
  pub position : Option Position
  pub hint : Hint

is_ended : Status → Bool
is_ended ended = true
is_ended _ = false

is_completed : Option EndReason → Bool
is_completed (some completed) = true
is_completed _ = false

-- `stepResultFromState`
unfoldable pub step_result_from_state : RunState → DebugStepResult
unfolding is_ended is_completed
step_result_from_state st = record {
  version = st.version;
  status = st.status;
  end_reason = st.end_reason;
  debuggee_ended = is_ended st.status && is_completed st.end_reason;
  position = st.position;
  hint = st.hint;
}

-- `buildDebugSessionsResult`
pub record DebugSessionsResult : Type 0 where
  pub has_sessions : Bool
  pub raw : Text

unfoldable pub build_debug_sessions_result : Text → DebugSessionsResult
build_debug_sessions_result body =
    if is_empty (trim_space body)
    then record { has_sessions = false; raw = [] }
    else record { has_sessions = true; raw = body }
