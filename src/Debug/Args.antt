-- ===== src/Debug/Args.antt =====
-- tools/debugrun_args.go: the arguments of `debug_run`, read from decoded JSON.
pub mod Uris
pub mod Checked
use aibap_mcp.Base.{
  ℕ, zero, suc, Bool, true, false, not, ◌&&◌, ◌||◌, Option, none, some, List, [], ◌∷◌, Text, bytes,
  text_eq, is_empty, has_byte, trim_space, length, Result, ok, err, ◌>>=◌, if◌then◌else◌, ltb,
  is_some, starts_with,
}
use aibap_mcp.Debug.State.{TriggerKind, unit_tests, manual, gui}
use aibap_mcp.Debug.Sap.{LineBreakpoint}
use Uris.{source_object_uri, derive_breakpoint_object}
use aibap_mcp.Debug.Values.{
  ℤ, pos, negsuc, Float, nan, infinite, fraction, whole, Value, Values, Fields, null, bool, float64,
  int, int64, string, list, object, no_values, value, no_fields, field, field_of, as_text, int_arg,
  int_between,
}

pub data ArgError : Type 0 where
  breakpoint_count : ArgError
  breakpoint_not_object : ℕ → ArgError
  breakpoint_uri : ℕ → Text → ArgError
  breakpoint_line : ℕ → ArgError
  trigger_required : ArgError
  trigger_kind : Text → ArgError
  target_only_gui target_required target_name target_method_name : ArgError
  target_type : Text → ArgError
  inputs_not_object : ArgError
  input_not_string : Text → ArgError
  timeout_range : ArgError

max_run_breakpoints : ℕ
max_run_breakpoints = 30

default_run_timeout_seconds : ℕ
default_run_timeout_seconds = 300

max_run_timeout_seconds : ℕ
max_run_timeout_seconds = 600

pub data TargetType : Type 0 where
  report transaction function_module class_method : TargetType

-- `DebugTarget`, with the pairs of its map of inputs.
pub record DebugTarget : Type 0 where
  pub type : TargetType
  pub name : Text
  pub inputs : List (Text × Text)

-- `validDebugTargetType`
target_type_of : Text → Option TargetType
target_type_of s =
    if text_eq s (bytes "report")
    then some report
    else if text_eq s (bytes "transaction")
    then some transaction
    else if text_eq s (bytes "function_module")
    then some function_module
    else if text_eq s (bytes "class_method")
    then some class_method
    else none

pub contains_arrow : Text → Bool
contains_arrow [] = false
contains_arrow (c ∷ s) = starts_with (bytes "=>") (c ∷ s) || contains_arrow s

-- Go's order of the fields is not fixed; this is the order given.
parse_inputs : Fields → Result ArgError (List (Text × Text))
parse_inputs no_fields = ok []
parse_inputs (field k (string s) fs) = parse_inputs fs >>= λ rest. ok ((k, s) ∷ rest)
parse_inputs (field k _ fs) = err (input_not_string k)

inputs_of : Value → Result ArgError (List (Text × Text))
unfolding parse_inputs
inputs_of null = ok []
inputs_of (object fs) = parse_inputs fs
inputs_of _ = err inputs_not_object

is_method : TargetType → Bool
is_method class_method = true
is_method _ = false

named_target : TargetType → Text → Value → Result ArgError DebugTarget
unfolding is_method inputs_of contains_arrow
named_target type name inputs =
    let target = inputs_of inputs >>= λ is. ok (record { type = type; name = name; inputs = is }) in
    if is_empty name
    then err target_name
    else if is_method type && not (contains_arrow name)
    then err target_method_name
    else target

-- `parseDebugTarget`
unfoldable pub parse_debug_target : Value → Result ArgError DebugTarget
unfolding named_target target_type_of
parse_debug_target (object m) =
    let type = as_text (field_of (bytes "type") m) in
    elim (target_type_of (trim_space type)) [
      | none ↦ err (target_type type)
      | some t ↦
          named_target t (trim_space (as_text (field_of (bytes "name") m)))
            (field_of (bytes "inputs") m)
    ]
parse_debug_target _ = err target_required

number_of : Values → ℕ
number_of no_values = 0
number_of (value _ vs) = suc (number_of vs)

-- One entry of `breakpoints`, at its place in the list.
module _ (path_unescape : Text → Option Text) where
  line_breakpoint : Text → ℕ → LineBreakpoint
  line_breakpoint uri line =
      let (type, name) = derive_breakpoint_object path_unescape uri in
      record { object_uri = uri; line = line; object_type = type; object_name = name }

  unfoldable pub parse_entry : ℕ → Value → Result ArgError LineBreakpoint
  unfolding line_breakpoint
  parse_entry i (object m) =
      let uri = trim_space (as_text (field_of (bytes "object_uri") m)) in
      if not (is_some (source_object_uri uri))
      then err (breakpoint_uri i uri)
      else elim (int_between 1 none (field_of (bytes "line") m)) [
        | none ↦ err (breakpoint_line i)
        | some n ↦ ok (line_breakpoint uri n)
      ]
  parse_entry i _ = err (breakpoint_not_object i)

  unfoldable pub parse_entries : ℕ → Values → Result ArgError (List LineBreakpoint)
  parse_entries i no_values = ok []
  parse_entries i (value v vs) = do b ← parse_entry i v; bs ← parse_entries (suc i) vs; ok (b ∷ bs)

  -- `parseRunBreakpoints`
  unfoldable pub parse_run_breakpoints : Value → Result ArgError (List LineBreakpoint)
  unfolding parse_entries number_of max_run_breakpoints
  parse_run_breakpoints (list vs) =
      let n = number_of vs in
      if (ltb n 1) || (ltb max_run_breakpoints n) then err breakpoint_count else parse_entries 0 vs
  parse_run_breakpoints _ = err breakpoint_count

-- `debugRunArgs`, with the timeout in seconds.
pub record DebugRunArgs : Type 0 where
  pub breakpoints : List LineBreakpoint
  pub user : Text
  pub kind : TriggerKind
  pub unit_object_uri : Text
  pub target : Option DebugTarget
  pub timeout : ℕ

-- What `parseRunTrigger` sets.
pub record TriggerArgs : Type 0 where
  pub kind : TriggerKind
  pub unit_object_uri : Text
  pub target : Option DebugTarget

kind_of : Text → Option TriggerKind
kind_of s =
    if text_eq s (bytes "unit_tests")
    then some unit_tests
    else if text_eq s (bytes "manual")
    then some manual
    else if text_eq s (bytes "gui")
    then some gui
    else none

object_or_empty : Option Text → Text
object_or_empty none = []
object_or_empty (some s) = s

-- The source indexes the first breakpoint; there is always one.
first_object : List LineBreakpoint → Text
unfolding object_or_empty
first_object [] = []
first_object (b ∷ _) = object_or_empty (source_object_uri b.object_uri)

is_null : Value → Bool
is_null null = true
is_null _ = false

without_target : TriggerKind → Text → Fields → Result ArgError TriggerArgs
unfolding is_null
without_target kind uri t =
    if is_null (field_of (bytes "target") t)
    then ok (record { kind = kind; unit_object_uri = uri; target = none })
    else err target_only_gui

with_target : Result ArgError DebugTarget → Result ArgError TriggerArgs
with_target x =
    x >>= λ target. ok (record { kind = gui; unit_object_uri = []; target = some target })

tested_object : Text → List LineBreakpoint → Text
unfolding first_object
tested_object uri bps = if is_empty uri then first_object bps else uri

trigger_of_kind : List LineBreakpoint → Fields → TriggerKind → Result ArgError TriggerArgs
unfolding without_target with_target tested_object
trigger_of_kind bps t gui = with_target (parse_debug_target (field_of (bytes "target") t))
trigger_of_kind bps t manual = without_target manual [] t
trigger_of_kind bps t unit_tests =
    without_target unit_tests
      (tested_object (trim_space (as_text (field_of (bytes "object_uri") t))) bps) t

-- `parseRunTrigger`
unfoldable pub parse_run_trigger : Value → List LineBreakpoint → Result ArgError TriggerArgs
unfolding trigger_of_kind kind_of
parse_run_trigger (object t) bps =
    let kind = as_text (field_of (bytes "kind") t) in
    elim (kind_of (trim_space kind)) [
      | none ↦ err (trigger_kind kind)
      | some k ↦ trigger_of_kind bps t k
    ]
parse_run_trigger _ bps = err trigger_required

parse_timeout : Value → Result ArgError ℕ
unfolding default_run_timeout_seconds max_run_timeout_seconds
parse_timeout null = ok default_run_timeout_seconds
parse_timeout v = elim (int_between 1 (some max_run_timeout_seconds) v) [
  | none ↦ err timeout_range
  | some n ↦ ok n
]

-- `parseDebugRunArgs`
unfoldable pub parse_debug_run_args : (Text → Option Text) → Fields → Result ArgError DebugRunArgs
unfolding parse_timeout
parse_debug_run_args path_unescape args = do
  bps ← parse_run_breakpoints path_unescape (field_of (bytes "breakpoints") args)
  trigger ← parse_run_trigger (field_of (bytes "trigger") args) bps
  secs ← parse_timeout (field_of (bytes "timeout_seconds") args)
  ok (record {
    breakpoints = bps;
    user = trim_space (as_text (field_of (bytes "user") args));
    kind = trigger.kind;
    unit_object_uri = trigger.unit_object_uri;
    target = trigger.target;
    timeout = secs;
  })
