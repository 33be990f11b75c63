-- ===== src/Debug/Samples.antt =====
-- A small debugger that answers every request, and the theorems on debug runs at concrete runs.
pub mod Tools
use aibap_mcp.Base.{
  ◌+◌, ◌≡◌, ◌≤◌, ◌<◌, ◌⊎◌, inl, refl, Bool, true, false, none, some, List, [], ◌∷◌, Text, bytes,
  text_eq, to_upper, starts_with, trim_space, keep, length, all, Result, ok, err, arith,
}
use mathlib.Core.List.{map}
use aibap_mcp.Debug.State.{
  stopped, external, debugger, Failure, Breakpoint, unit_tests, manual, no_hint, is_external,
}
use aibap_mcp.Debug.Run.{Run, new_run, listen_answer, attach_answer}
use aibap_mcp.Debug.Lifecycle.{cleanup_start, active, replace_external, append_breakpoint}
use aibap_mcp.Debug.Steps.{Reach, here, next, listens, attaches, cleanup_begins, external_set}
use aibap_mcp.Debug.Steps.Invariant.{Inv, run-Inv}
use aibap_mcp.Debug.Steps.Versions.{
  Publishes, Over, StaysOver, Reach-fresh, Reach-StaysOver, Reach-version,
}
use aibap_mcp.Debug.Sap.{Sap, LineBreakpoint, BreakpointResult}
use aibap_mcp.Debug.Results.{check_results, check_results_lem, check_results_sites, site, place}
use aibap_mcp.Debug.Breakpoints.{
  reset_external, delete_external, set_external, line_breakpoints, request_failed,
}
use aibap_mcp.Debug.Breakpoints.Reset.{At, reset_success, reset_restored}
use aibap_mcp.Debug.Cleanup.{CleanupReport, empty_report, cleanup_run}
use aibap_mcp.Debug.Cleanup.Report.{reported, number, due, cleanup_reports, cleanup_again}
use aibap_mcp.Debug.Args.{
  DebugRunArgs, parse_debug_run_args, parse_run_breakpoints, parse_run_trigger, parse_entries,
  parse_entry, parse_debug_target,
}
use aibap_mcp.Debug.Values.{
  Fields, no_fields, field, no_values, value, string, list, object, float64, whole, pos, int_arg,
  int_between, field_of, as_text,
}
use aibap_mcp.Debug.Args.Uris.{
  at_separator, derive_breakpoint_object, source_object_uri, source_object_uri_lem, ObjectOf,
  search_start,
}
use aibap_mcp.Debug.Args.Checked.{parse_debug_run_args_valid, is_sendable, IsTriggered}

-- The world is the number of answers until set requests fail.
abbrev all_set : List LineBreakpoint → List BreakpointResult
all_set [] = []
all_set (b ∷ bs) =
    record { id = b.line ∷ []; is_set = true; error_kind = []; error_message = [] } ∷ all_set bs

abbrev pub lost_connection : Failure
lost_connection = record {
  message = bytes "connection lost";
  no_session = false;
  debuggee_ended = false;
  adt_error = none;
}

-- A list of more than one breakpoint is refused in the world `false`.
abbrev set_answer : Bool → List LineBreakpoint → Result Failure (List BreakpointResult)
set_answer true bs = ok (all_set bs)
set_answer false (b ∷ c ∷ bs) = err lost_connection
set_answer false bs = ok (all_set bs)

abbrev pub sample : Sap
sample = record {
  World = Bool;
  stop_listener = λ via w. (ok tt, w);
  set_breakpoints = λ via scope bs w. (set_answer w bs, w);
  remove_breakpoint = λ via scope id w. (ok tt, w);
  step = λ via action w. (ok tt, w);
}

abbrev pub no_object : Text → Text × Text
no_object uri = ([], [])

abbrev pub source : Text
source = bytes "/sap/bc/adt/programs/programs/zx/source/main"

abbrev pub first : Breakpoint
first = record { object_uri = source; line = 7; id = 7 ∷ []; scope = external }

abbrev pub second : LineBreakpoint
second = record { object_uri = source; line = 9; object_type = []; object_name = [] }

abbrev pub fresh : Run
fresh = new_run manual 4 (first ∷ []) none no_hint

abbrev caught : Run
caught = (listen_answer fresh false (ok (record { hit = true; debuggee = bytes "D1" }))).0

abbrev pub halted : Run
halted = (attach_answer caught (ok tt) none).0

abbrev pub halted-Reach : Reach fresh halted
halted-Reach =
    next (next here (listens false (ok (record { hit = true; debuggee = bytes "D1" }))))
      (attaches (ok tt) none)

run-Inv_example : Inv halted
run-Inv_example = run-Inv manual 4 (first ∷ []) none no_hint {r = halted} halted-Reach

Reach-fresh_example :
    ((cleanup_start halted).0.st ≡ halted.st)
    ⊎ (caught.st.version < (cleanup_start halted).0.st.version)
unfolding new_run listen_answer attach_answer
Reach-fresh_example =
    Reach-fresh {s = fresh} {m = caught} {r = halted} {r' = (cleanup_start halted).0} (omega arith)
      (next here (listens false (ok (record { hit = true; debuggee = bytes "D1" }))))
      (next here (attaches (ok tt) none)) (cleanup_begins refl)

abbrev stopping_run : Run
stopping_run = (cleanup_start halted).0

abbrev set_late : Reach stopping_run (replace_external stopping_run [])
set_late = next here (external_set [])

Reach-StaysOver_example :
    Over (replace_external stopping_run [])
    × StaysOver stopping_run (replace_external stopping_run [])
unfolding new_run listen_answer attach_answer cleanup_start
Reach-StaysOver_example =
    Reach-StaysOver {s = stopping_run} {r = replace_external stopping_run []} (inl refl) set_late

-- SAP answers for the first breakpoint only.
abbrev exists_already : BreakpointResult
exists_already = record {
  id = 5 ∷ [];
  is_set = false;
  error_kind = bytes "existing";
  error_message = [];
}

check_results_lem_example :
    ((check_results (second ∷ second ∷ []) (exists_already ∷ [])).0
      ≡ record { object_uri = source; line = 9; id = 5 ∷ []; scope = external } ∷ [])
    × (map place (check_results (second ∷ second ∷ []) (exists_already ∷ [])).1 ≡ (source, 9) ∷ [])
unfolding keep text_eq
check_results_lem_example = check_results_lem (second ∷ second ∷ []) (exists_already ∷ [])

-- While the requests run, a debuggee is caught and the debugger is given a breakpoint.
abbrev caught_then_set : Run → Run
caught_then_set r = append_breakpoint halted (record first { scope = debugger })

reset_success_example :
    At
      ((source, 7) ∷ (source, 9) ∷ [])
      (caught_then_set fresh)
      (reset_external sample no_object fresh caught_then_set second true).1
unfolding reset_external delete_external set_external line_breakpoints check_results new_run keep
reset_success_example = reset_success sample no_object fresh caught_then_set second true refl

reset_restored_example :
    At
      ((source, 7) ∷ [])
      (caught_then_set fresh)
      (reset_external sample no_object fresh caught_then_set second false).1
unfolding reset_external delete_external set_external line_breakpoints check_results new_run keep
reset_restored_example =
    reset_restored sample no_object fresh caught_then_set second false
      (request_failed lost_connection) refl

abbrev cleaned : CleanupReport × Run × Bool
cleaned = cleanup_run sample halted (λ r. r) true

cleanup_reports_example :
    ((t : Breakpoint → Bool) → reported t cleaned.0 ≡ number t (due true (first ∷ [])))
    × (cleaned.1.st.status ≡ stopped)
    × (cleaned.1.st.position ≡ none)
    × (cleaned.1.fatal ≡ none)
unfolding new_run listen_answer attach_answer active
cleanup_reports_example = cleanup_reports sample halted (λ r. r) true refl

abbrev arguments : Fields
arguments =
    field (bytes "breakpoints")
      (list (
        value
          (object (
            field (bytes "object_uri") (string source)
              (field (bytes "line") (float64 (whole (pos 7))) no_fields)))
          no_values))
      (field (bytes "trigger")
        (object (field (bytes "kind") (string (bytes "unit_tests")) no_fields)) no_fields)

abbrev parsed : DebugRunArgs
parsed = record {
  breakpoints =
      record {
        object_uri = source;
        line = 7;
        object_type = bytes "PROG/P";
        object_name = bytes "ZX";
      }
      ∷ [];
  user = [];
  kind = unit_tests;
  unit_object_uri = bytes "/sap/bc/adt/programs/programs/zx";
  target = none;
  timeout = 300;
}

parse_debug_run_args_valid_example :
    (1 ≤ 1)
    × (1 ≤ 30)
    × (all is_sendable parsed.breakpoints ≡ true)
    × (1 ≤ 300)
    × (300 ≤ 600)
    × IsTriggered unit_tests parsed.unit_object_uri none
unfolding parse_debug_run_args parse_run_breakpoints parse_run_trigger parse_entries parse_entry
    parse_debug_target int_arg int_between field_of as_text derive_breakpoint_object
    source_object_uri search_start at_separator text_eq starts_with trim_space to_upper
parse_debug_run_args_valid_example = parse_debug_run_args_valid (λ s. some s) arguments parsed refl
