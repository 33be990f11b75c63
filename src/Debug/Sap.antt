-- ===== src/Debug/Sap.antt =====
-- What the debug tools use of adtler's `DebugSession`, which is not part of the repository. A run
-- has two of them: the debug session and the cleanup session.
use aibap_mcp.Base.{ℕ, Bool, List, Text, Result}
use aibap_mcp.Debug.State.{Scope, Failure}
use aibap_mcp.Debug.Lifecycle.{Action}

pub data Via : Type 0 where
  debug_session cleanup_session : Via

-- `adt.LineBreakpoint`
pub record LineBreakpoint : Type 0 where
  pub object_uri : Text
  pub line : ℕ
  pub object_type : Text
  pub object_name : Text

-- `adt.BreakpointResult`, with the answer of its `IsSet`.
pub record BreakpointResult : Type 0 where
  pub id : Text
  pub is_set : Bool
  pub error_kind : Text
  pub error_message : Text

-- The requests, each of which may change the world.
pub record Sap : Type 1 where
  pub World : Type 0
  pub stop_listener : Via → World → Result Failure (Unit {0}) × World
  pub set_breakpoints :
      Via → Scope → List LineBreakpoint → World → Result Failure (List BreakpointResult) × World
  pub remove_breakpoint : Via → Scope → Text → World → Result Failure (Unit {0}) × World
  pub step : Via → Action → World → Result Failure (Unit {0}) × World
