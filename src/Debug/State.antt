-- ===== src/Debug/State.antt =====
-- The published state of a debug run and the errors of the debug session (tools/results.go,
-- tools/debugrun.go, tools/debugrun_cleanup.go). Error messages are carried as the failure that
-- they wrap, and a unit-test result as an opaque text.
use aibap_mcp.Base.{
  ℕ, Bool, true, false, ◌&&◌, ◌||◌, Option, none, some, List, Text, bytes, text_eq, ◌==◌,
}

pub data Status : Type 0 where
  listening attaching attached ended timeout stopping stopped : Status

pub data EndReason : Type 0 where
  detached completed terminated no_hit attach_failed idle_detached : EndReason

pub data TriggerKind : Type 0 where
  unit_tests manual gui : TriggerKind

pub data TriggerState : Type 0 where
  pending running done failed : TriggerState

pub data Scope : Type 0 where
  external debugger : Scope

-- What the code inspects of an error: `adt.ErrNoSessionAttached`, `*adt.DebuggeeEndedError`, and
-- the fields of an `*adt.ADTError`.
pub record AdtError : Type 0 where
  pub status_code : ℕ
  pub type : Text
  pub subtype : Text

pub record Failure : Type 0 where
  pub message : Text
  pub no_session : Bool
  pub debuggee_ended : Bool
  pub adt_error : Option AdtError

-- `isNotAttachedErr`
unfoldable pub is_not_attached : Failure → Bool
is_not_attached e =
    e.no_session
    || (e.debuggee_ended || (elim e.adt_error [
      | none ↦ false
      | some x ↦ text_eq x.subtype (bytes "noSessionAttached")
    ]))

-- `isInvalidDataErr`
unfoldable pub is_invalid_data : Failure → Bool
is_invalid_data e = elim e.adt_error [
  | none ↦ false
  | some x ↦ (x.status_code == 400) && text_eq x.type (bytes "ExceptionInvalidData")
]

is_invalid_server : Failure → Bool
is_invalid_server e = elim e.adt_error [
  | none ↦ false
  | some x ↦ text_eq x.subtype (bytes "invalidServer")
]

-- The hint of a run state, by the place that writes it.
pub data Hint : Type 0 where
  no_hint : Hint
  given : Text → Hint
  listener_failed : Failure → Hint
  timeout_hint : Hint
  attach_failed_hint : Failure → Bool → Hint
  position_unread : Failure → Hint
  position_unread_after_step : Failure → Hint
  no_hit_after : Hint → Hint
  idle_hint : Option Failure → Hint
  completed_by_invalid_data : Hint

-- `attachFailedHint`: the flag says that the other-server note is appended.
pub hint_of_attach : Failure → Hint
unfolding is_invalid_server
hint_of_attach e = attach_failed_hint e (is_invalid_server e)

pub record Breakpoint : Type 0 where
  pub object_uri : Text
  pub line : ℕ
  pub id : Text
  pub scope : Scope

pub record Position : Type 0 where
  pub program : Text
  pub include : Text
  pub line : ℕ
  pub source_uri : Text
  pub source_line : ℕ
  pub source_excerpt : Text

pub record Trigger : Type 0 where
  pub kind : TriggerKind
  pub state : TriggerState
  pub error : Option Failure
  pub unit_tests : Option Text

pub record Instructions : Type 0 where
  pub steps : List Text
  pub notes : List Text
  pub user : Text

-- `DebugRunState`
pub record RunState : Type 0 where
  pub version : ℕ
  pub status : Status
  pub end_reason : Option EndReason
  pub breakpoints : List Breakpoint
  pub debuggee_id : Text
  pub position : Option Position
  pub trigger : Option Trigger
  pub instructions : Option Instructions
  pub hint : Hint

abbrev pub is_listening : Status → Bool
is_listening listening = true
is_listening _ = false

abbrev pub is_attaching : Status → Bool
is_attaching attaching = true
is_attaching _ = false

abbrev pub is_attached : Status → Bool
is_attached attached = true
is_attached _ = false

abbrev pub is_external : Breakpoint → Bool
is_external b = elim b.scope [ external ↦ true | debugger ↦ false ]
