-- ===== src/Debug/Args/Checked.antt =====
-- What the arguments of `debug_run` satisfy once they are read (tools/debugrun_args.go).
use aibap_mcp.Base.{
  ℕ, suc, ◌≤◌, ◌≡◌, inl, inr, Bool, true, false, ◌&&◌, Option, none, some, List, [], ◌∷◌, Text,
  bytes, trim_space, is_empty, length, all, Result, ok, err, Result-cases, Option-cases, leb,
  is_some, arith,
}
use aibap_mcp.Debug.State.{TriggerKind, unit_tests, manual, gui}
use aibap_mcp.Debug.Sap.{LineBreakpoint}
use aibap_mcp.Debug.Args.Uris.{source_object_uri, source_object_uri_lem}
use aibap_mcp.Debug.Args.{
  ArgError, DebugTarget, is_method, named_target, contains_arrow, parse_debug_target,
  line_breakpoint, parse_entry, parse_entries, number_of, parse_run_breakpoints, DebugRunArgs,
  TriggerArgs, first_object, object_or_empty, without_target, with_target, tested_object,
  trigger_of_kind, kind_of, default_run_timeout_seconds, max_run_timeout_seconds, parse_run_trigger,
  parse_timeout, parse_debug_run_args, class_method, TargetType, inputs_of, target_type_of,
  max_run_breakpoints,
}
use aibap_mcp.Debug.Values.{
  Value, Values, Fields, null, list, object, no_values, value, int_between, field_of, as_text,
}

-- A breakpoint that may be sent: at a line, and on a source URI.
abbrev pub is_sendable : LineBreakpoint → Bool
is_sendable b = leb 1 b.line && is_some (source_object_uri b.object_uri)

-- A target that can be started: named, and a method with its class.
abbrev pub IsTarget : DebugTarget → Type 0
IsTarget t = ((is_empty t.name ≡ false) × (t.type ≡ class_method → contains_arrow t.name ≡ true))

pub int_between_lem :
    (low h n : ℕ) (high : Option ℕ) (v : Value)
    → int_between low high v ≡ some n
    → (low ≤ n) × (high ≡ some h → n ≤ h)
unfolding int_between
int_between_lem low h n none v e = ground arith
int_between_lem low h n (some h') v e = ground arith

named_target-IsTarget :
    (type : TargetType) (name : Text) (v : Value) (t : DebugTarget)
    → named_target type name v ≡ ok t
    → IsTarget t
unfolding named_target is_method
named_target-IsTarget type name v t h = ground (arith, Result-cases (inputs_of v), h)

parse_debug_target-IsTarget :
    (v : Value) (t : DebugTarget) → parse_debug_target v ≡ ok t → IsTarget t
unfolding parse_debug_target
parse_debug_target-IsTarget (object m) t h =
    elim (Option-cases (target_type_of (trim_space (as_text (field_of (bytes "type") m))))) [
      | inl q ↦ absurd (ground (arith, q))
      | inr (type, q) ↦
          let name = trim_space (as_text (field_of (bytes "name") m)) in
          let v = field_of (bytes "inputs") m in
          ground (arith, q, named_target-IsTarget type name v t)
    ]
parse_debug_target-IsTarget _ t h = cc

module _ (path_unescape : Text → Option Text) where
  parse_entry-sendable :
      (i : ℕ) (v : Value) (b : LineBreakpoint)
      → parse_entry path_unescape i v ≡ ok b
      → is_sendable b ≡ true
  unfolding parse_entry line_breakpoint
  parse_entry-sendable i (object m) b h =
      elim (Option-cases (int_between 1 none (field_of (bytes "line") m))) [
        | inl q ↦ absurd (ground (arith, q, h))
        | inr (n, q) ↦
            ground (arith, q, h, int_between_lem 1 0 n none (field_of (bytes "line") m) q)
      ]
  parse_entry-sendable i _ b h = cc

  parse_entries-sendable :
      (i : ℕ) (vs : Values) (bs : List LineBreakpoint)
      → parse_entries path_unescape i vs ≡ ok bs
      → (all is_sendable bs ≡ true) × (length bs ≡ number_of vs)
  unfolding parse_entries number_of all
  parse_entries-sendable i no_values bs h = ground arith
  parse_entries-sendable i (value v vs) bs h = elim (Result-cases (parse_entry path_unescape i v)) [
    | inr (e, q) ↦ absurd (ground (arith, q))
    | inl (b, q) ↦ elim (Result-cases (parse_entries path_unescape (suc i) vs)) [
      | inr (e, q') ↦ absurd (ground (arith, q, q'))
      | inl (cs, q') ↦
          ground
            (arith, q, q', parse_entry-sendable i v b q, parse_entries-sendable (suc i) vs cs q')
    ]
  ]

  parse_run_breakpoints-sendable :
      (v : Value) (bs : List LineBreakpoint)
      → parse_run_breakpoints path_unescape v ≡ ok bs
      → (all is_sendable bs ≡ true) × (1 ≤ length bs) × (length bs ≤ 30)
  unfolding parse_run_breakpoints max_run_breakpoints
  parse_run_breakpoints-sendable (list vs) bs h = ground (arith, parse_entries-sendable 0 vs bs)
  parse_run_breakpoints-sendable _ bs h = cc

-- What a trigger asks for: a unit-test run has an object under test, a gui run has a target, and
-- only a gui run has one, which can be started.
abbrev pub IsTriggered : TriggerKind → Text → Option DebugTarget → Type 0
IsTriggered kind uri target =
    ((kind ≡ unit_tests → is_empty uri ≡ false)
      × (kind ≡ gui → is_some target ≡ true)
      × ((g : DebugTarget) → target ≡ some g → (kind ≡ gui) × IsTarget g))

first_object-is_empty :
    (bs : List LineBreakpoint)
    → all is_sendable bs ≡ true
    → 1 ≤ length bs
    → is_empty (first_object bs) ≡ false
unfolding first_object all object_or_empty
first_object-is_empty [] h k = ground arith
first_object-is_empty (b ∷ bs) h k = elim (Option-cases (source_object_uri b.object_uri)) [
  | inl q ↦ absurd (ground (arith, q))
  | inr (obj, q) ↦ ground (arith, q, source_object_uri_lem b.object_uri obj q)
]

abbrev Triggered : TriggerArgs → Type 0
Triggered t = IsTriggered t.kind t.unit_object_uri t.target

without_target-manual :
    (m : Fields) (t : TriggerArgs) → without_target manual [] m ≡ ok t → Triggered t
unfolding without_target
without_target-manual m t h = (ground arith, ground arith, λ g q. ground arith)

without_target-unit_tests :
    (uri : Text) (m : Fields) (t : TriggerArgs)
    → is_empty uri ≡ false
    → without_target unit_tests uri m ≡ ok t
    → Triggered t
unfolding without_target
without_target-unit_tests uri m t k h = (ground arith, ground arith, λ g q. ground arith)

with_target-gui :
    (x : Result ArgError DebugTarget) (t : TriggerArgs)
    → ((g : DebugTarget) → x ≡ ok g → IsTarget g)
    → with_target x ≡ ok t
    → Triggered t
unfolding with_target
with_target-gui (ok g) t k h = (ground arith, ground arith, λ g' q. ground (arith, k g'))
with_target-gui (err e) t k h = cc

trigger_of_kind-Triggered :
    (bps : List LineBreakpoint) (m : Fields) (kind : TriggerKind) (t : TriggerArgs)
    → all is_sendable bps ≡ true
    → 1 ≤ length bps
    → trigger_of_kind bps m kind ≡ ok t
    → Triggered t
unfolding trigger_of_kind tested_object
trigger_of_kind-Triggered bps m gui t h k e =
    with_target-gui (parse_debug_target (field_of (bytes "target") m)) t
      (parse_debug_target-IsTarget (field_of (bytes "target") m)) e
trigger_of_kind-Triggered bps m manual t h k e = without_target-manual m t e
trigger_of_kind-Triggered bps m unit_tests t h k e =
    without_target-unit_tests _ m t (ground (arith, first_object-is_empty bps h k)) e

parse_run_trigger-Triggered :
    (v : Value) (bps : List LineBreakpoint) (t : TriggerArgs)
    → all is_sendable bps ≡ true
    → 1 ≤ length bps
    → parse_run_trigger v bps ≡ ok t
    → Triggered t
unfolding parse_run_trigger
parse_run_trigger-Triggered (object m) bps t h k e =
    elim (Option-cases (kind_of (trim_space (as_text (field_of (bytes "kind") m))))) [
      | inl q ↦ absurd (ground (arith, q))
      | inr (kind, q) ↦ trigger_of_kind-Triggered bps m kind t h k (ground (arith, q))
    ]
parse_run_trigger-Triggered _ bps t h k e = cc

parse_timeout_bounds : (v : Value) (n : ℕ) → parse_timeout v ≡ ok n → (1 ≤ n) × (n ≤ 600)
unfolding parse_timeout default_run_timeout_seconds max_run_timeout_seconds
parse_timeout_bounds null n h = ground arith
parse_timeout_bounds v n h = elim (Option-cases (int_between 1 (some 600) v)) [
  | inl q ↦ absurd (ground (arith, q, h))
  | inr (m, q) ↦ ground (arith, q, h, int_between_lem 1 600 m (some 600) v q)
]

-- Arguments that are accepted ask for 1 to 30 breakpoints, each at a line from 1 on and on a source
-- URI; for a timeout of 1 to 600 seconds; a unit-test run has an object under test, a gui run has a
-- target, and no other run has one; a target is named, and a method with its class.
pub parse_debug_run_args_valid :
    (path_unescape : Text → Option Text) (args : Fields) (a : DebugRunArgs)
    → parse_debug_run_args path_unescape args ≡ ok a
    → (1 ≤ length a.breakpoints)
      × (length a.breakpoints ≤ 30)
      × (all is_sendable a.breakpoints ≡ true)
      × (1 ≤ a.timeout)
      × (a.timeout ≤ 600)
      × IsTriggered a.kind a.unit_object_uri a.target
unfolding parse_debug_run_args
parse_debug_run_args_valid path_unescape args a h =
    elim (Result-cases
      (parse_run_breakpoints path_unescape (field_of (bytes "breakpoints") args))) [
        | inr (e, q) ↦ absurd (ground (arith, q))
        | inl (bps, q) ↦
            elim (Result-cases (parse_run_trigger (field_of (bytes "trigger") args) bps)) [
              | inr (e, q') ↦ absurd (ground (arith, q, q'))
              | inl (t, q') ↦
                  elim (Result-cases (parse_timeout (field_of (bytes "timeout_seconds") args))) [
                    | inr (e, q'') ↦ absurd (ground (arith, q, q', q''))
                    | inl (n, q'') ↦
                        let b =
                          parse_run_breakpoints-sendable path_unescape
                            (field_of (bytes "breakpoints") args) bps q in
                        let r =
                          parse_run_trigger-Triggered (field_of (bytes "trigger") args) bps t b.0
                            b.1 q' in
                        let s =
                          parse_timeout_bounds (field_of (bytes "timeout_seconds") args) n q'' in
                        (
                          ground (arith, q, q', q''),
                          ground (arith, q, q', q''),
                          ground (arith, q, q', q''),
                          ground (arith, q, q', q''),
                          ground (arith, q, q', q''),
                          (
                            ground (arith, q, q', q'', r),
                            ground (arith, q, q', q'', r),
                            λ g e. ground (arith, q, q', q'', r.2 g),
                          ),
                        )
                  ]
            ]
      ]
