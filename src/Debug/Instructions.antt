-- ===== src/Debug/Instructions.antt =====
-- tools/debugrun_instructions.go: what a person is told to do, and whether the system knows the OK
-- code that enables a SAP GUI session for external debugging.
pub mod Cache
use aibap_mcp.Base.{
  Bool, true, false, ◌||◌, Option, none, some, List, [], ◌∷◌, ◌++◌, Text, bytes, is_empty, to_upper,
  cut_byte, starts_with, contains, insert_sorted, sort, join, text_eq, if◌then◌else◌, Result, ok,
  err,
}
use mathlib.Core.List.{map}
use aibap_mcp.Debug.State.{Instructions}
use aibap_mcp.Debug.Args.{
  TargetType, report, transaction, function_module, class_method, DebugTarget,
}

-- `okCodeAvailability`
pub data OkCode : Type 0 where
  ok_code_unknown ok_code_available ok_code_missing : OkCode

ok_code_command : Text
ok_code_command = bytes "/H_REACTIVATE_EXTD_DBG"

-- The Go code builds each text from pieces; `text` puts them together.
text : List Text → Text
text [] = []
text (s ∷ ss) = s ++ text ss

-- `manualInstructions`; `until` is the deadline in RFC 3339.
unfoldable pub manual_instructions : Text → Text → Instructions
unfolding text
manual_instructions user until = record {
  user = user;
  steps =
      text (
        bytes "Start the run now, as user "
        ∷ user
        ∷ bytes ", before "
        ∷ until
        ∷ bytes ": call the HTTP service or RFC function module, or run the program."
        ∷ [])
      ∷ [];
  notes =
      bytes "Use a new connection, or the first request of a stateful session."
      ∷ text (bytes "The run must be made as user " ∷ user ∷ bytes "." ∷ [])
      ∷ bytes "Breakpoints in system programs are never hit."
      ∷ [];
}

-- `startTransaction`
unfoldable pub start_transaction : DebugTarget → Text
start_transaction t = elim t.type [
  | transaction ↦ to_upper t.name
  | function_module ↦ bytes "SE37"
  | class_method ↦ bytes "SE24"
  | report ↦ bytes "SE38"
]

-- `openTransaction`
unfoldable pub open_transaction : Text → OkCode → Text
unfolding text
open_transaction tx code =
    let opened = text (bytes "continue in " ∷ tx ∷ bytes ", which SADT_START_TCODE opened" ∷ []) in
    elim code [
      | ok_code_available ↦
          text (bytes "In the same window, enter /n" ∷ tx ∷ bytes " in the command field" ∷ [])
      | ok_code_missing ↦ text (bytes "In the same window, " ∷ opened ∷ [])
      | ok_code_unknown ↦ text (
          bytes "In the same window, "
          ∷ opened
          ∷ bytes " (after the OK code, enter /n"
          ∷ tx
          ∷ bytes " in the command field instead)"
          ∷ [])
    ]

-- `formatInputs`: the keys are sorted, each with its value.
value_of : Text → List (Text × Text) → Text
value_of key [] = []
value_of key ((k, v) ∷ ps) = let rest = value_of key ps in if text_eq k key then v else rest

unfoldable pub format_inputs : List (Text × Text) → Text
unfolding value_of text sort join
format_inputs inputs =
    join (bytes ", ")
      (map (λ k. text (k ∷ bytes " = " ∷ value_of k inputs ∷ [])) (sort (map (λ p. p.0) inputs)))

-- `strings.Cut(name, "=>")`
unfoldable pub cut_arrow : Text → Text × Text
cut_arrow [] = ([], [])
cut_arrow (c ∷ []) = (c ∷ [], [])
cut_arrow (c ∷ d ∷ s) =
    let (before, after) = cut_arrow (d ∷ s) in
    if starts_with (bytes "=>") (c ∷ d ∷ s) then ([], s) else (c ∷ before, after)

-- `startTargetStep`
unfoldable pub start_target_step : DebugTarget → OkCode → Text
unfolding text start_transaction open_transaction format_inputs cut_arrow
start_target_step t code =
    let inputs = format_inputs t.inputs in
    let name = to_upper t.name in
    let open_it = open_transaction (start_transaction t) code in
    let (class, method) = cut_arrow name in
    let with_inputs : List Text → List Text = λ ss. if is_empty inputs then [] else ss in
    text (
      open_it ∷ elim t.type [
        | transaction ↦ text (with_inputs (bytes " and enter " ∷ inputs ∷ [])) ∷ bytes "." ∷ []
        | function_module ↦
            bytes ", enter function module "
            ∷ name
            ∷ bytes " and press F8 (test environment)"
            ∷ text (
                with_inputs
                  (bytes ", enter " ∷ inputs ∷ bytes " (a popup may open for the value)" ∷ []))
            ∷ bytes ", then press F8."
            ∷ []
        | class_method ↦
            bytes ", enter class "
            ∷ class
            ∷ bytes
                " and press F8 (test environment), then click the Execute Method icon in the line of method "
            ∷ method
            ∷ text (with_inputs (bytes ", enter " ∷ inputs ∷ []))
            ∷ bytes " and press F8."
            ∷ []
        | report ↦
            bytes ", enter program "
            ∷ name
            ∷ bytes " and press F8"
            ∷ (if is_empty inputs
                then bytes "; if a selection screen appears, fill it and press F8."
                else text (
                    bytes "; on the selection screen enter "
                    ∷ inputs
                    ∷ bytes ", then press F8."
                    ∷ []))
            ∷ []
      ])

-- `guiInstructions`
unfoldable pub ok_code_step : Text → Text
unfolding text ok_code_command
ok_code_step user = text (
    bytes "enter the OK code "
    ∷ ok_code_command
    ∷ bytes " KIND=USER USER="
    ∷ user
    ∷ bytes " in the command field and press Enter"
    ∷ [])

unfoldable pub tcode_step : Text → DebugTarget → Text
unfolding text start_transaction
tcode_step user t = text (
    bytes
      "enter /nSADT_START_TCODE in the command field, fill the transaction field (D_AIE_TCODE) with "
    ∷ start_transaction t
    ∷ bytes " and the IDE user field (D_IDE_USER) with "
    ∷ user
    ∷ bytes
        " (both are required: without the IDE user the run is not caught), switch Eclipse navigation off if it is on, and press F8"
    ∷ [])

unfoldable pub enable_step : Text → DebugTarget → OkCode → Text
unfolding text ok_code_step tcode_step
enable_step user t code =
    let intro = bytes "Enable the SAP GUI session for external debugging: " in
    elim code [
      | ok_code_available ↦ text (intro ∷ ok_code_step user ∷ bytes "." ∷ [])
      | ok_code_missing ↦ text (intro ∷ tcode_step user t ∷ bytes "." ∷ [])
      | ok_code_unknown ↦ text (
          intro
          ∷ bytes "first "
          ∷ ok_code_step user
          ∷ bytes ". If the system does not know that OK code, "
          ∷ tcode_step user t
          ∷ bytes " instead."
          ∷ [])
    ]

converts_inputs : TargetType → Bool
converts_inputs function_module = true
converts_inputs class_method = true
converts_inputs report = false
converts_inputs transaction = false

unfoldable pub gui_instructions : Text → DebugTarget → OkCode → Instructions
unfolding text enable_step start_target_step converts_inputs
gui_instructions user t code = record {
  user = user;
  steps =
      enable_step user t code
      ∷ start_target_step t code
      ∷ bytes "End the session with debug_step action detachDebugger, never stepContinue."
      ∷ [];
  notes =
      bytes
        "Do every step in the same SAP GUI window: another window of the same user is not enabled for external debugging."
      ∷ text (bytes "The run must be made as user " ∷ user ∷ bytes "." ∷ [])
      ∷ bytes
          "While the debugger is attached, the SAP GUI window stays busy; it continues after detachDebugger."
      ∷ bytes "Breakpoints in system programs are never hit."
      ∷ (if converts_inputs t.type
          then bytes
              "The test environment converts input values to upper case unless its upper/lower case option is set."
            ∷ []
          else []);
}
