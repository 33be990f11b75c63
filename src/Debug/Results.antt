-- ===== src/Debug/Results.antt =====
-- SAP's answers to a request for breakpoints (`checkBreakpointResults`, `describeRejection` of
-- tools/debugrun_args.go).
use aibap_mcp.Base.{
  ℕ, ◌+◌, ◌≡◌, refl, ap, Bool, true, false, ◌&&◌, ◌||◌, not, List, [], ◌∷◌, Text, bytes, is_empty,
  text_eq, length, if◌then◌else◌, all, arith, Option, none, some, keep,
}
use mathlib.Core.List.{map}
use aibap_mcp.Debug.State.{external, Breakpoint, is_external}
use aibap_mcp.Debug.Sap.{LineBreakpoint, BreakpointResult}

pub data Rejection : Type 0 where
  kind_and_message : Text → Text → Rejection
  kind_only message_only : Text → Rejection
  not_set : Rejection

describe_rejection : BreakpointResult → Rejection
describe_rejection r =
    if not (is_empty r.error_kind) && not (is_empty r.error_message)
    then kind_and_message r.error_kind r.error_message
    else if not (is_empty r.error_kind)
    then kind_only r.error_kind
    else if not (is_empty r.error_message)
    then message_only r.error_message
    else not_set

pub record Rejected : Type 0 where
  pub object_uri : Text
  pub line : ℕ
  pub reason : Rejection

-- The result that stands for a missing one.
no_result : BreakpointResult
no_result = record {
  id = [];
  is_set = false;
  error_kind = [];
  error_message = bytes "SAP returned no result for this breakpoint";
}

head_result : List BreakpointResult → BreakpointResult
unfolding no_result
head_result [] = no_result
head_result (r ∷ _) = r

tail_results : List BreakpointResult → List BreakpointResult
tail_results [] = []
tail_results (_ ∷ rs) = rs

counts_as_set : BreakpointResult → Bool
counts_as_set r = r.is_set || text_eq r.error_kind (bytes "existing")

set_as : LineBreakpoint → BreakpointResult → Breakpoint
set_as bp r = record { object_uri = bp.object_uri; line = bp.line; id = r.id; scope = external }

-- The breakpoints that are set, and those that are not; the call fails if the second list is not
-- empty.
unfoldable pub check_results :
    List LineBreakpoint → List BreakpointResult → List Breakpoint × List Rejected
unfolding head_result tail_results counts_as_set set_as describe_rejection
check_results [] res = ([], [])
check_results (bp ∷ req) res =
    let r = head_result res in
    let (set, rejected) = check_results req (tail_results res) in
    if counts_as_set r then (set_as bp r ∷ set, rejected) else (
      set,
      record { object_uri = bp.object_uri; line = bp.line; reason = describe_rejection r }
          ∷ rejected,
    )

-- Where a breakpoint stands.
abbrev pub site : Breakpoint → Text × ℕ
site b = (b.object_uri, b.line)

abbrev pub requested_site : LineBreakpoint → Text × ℕ
requested_site b = (b.object_uri, b.line)

-- The requests with the results that stand at the same places, where there are any.
abbrev pub paired :
    List LineBreakpoint → List BreakpointResult → List (LineBreakpoint × Option BreakpointResult)
paired [] res = []
paired (bp ∷ req) [] = (bp, none) ∷ paired req []
paired (bp ∷ req) (r ∷ res) = (bp, some r) ∷ paired req res

-- A result that there is, and that says set or that the breakpoint exists already.
abbrev pub stands : LineBreakpoint × Option BreakpointResult → Bool
stands (bp, none) = false
stands (bp, some r) = r.is_set || text_eq r.error_kind (bytes "existing")

abbrev pub id_of : Option BreakpointResult → Text
id_of none = []
id_of (some r) = r.id

abbrev pub place : Rejected → Text × ℕ
place x = (x.object_uri, x.line)

-- Every requested breakpoint is either set or rejected, whatever the number of results: set are, in
-- order, those whose result at the same place says so or that the breakpoint exists already, where
-- they were asked for, with that result's ID and as external ones; rejected, at the places asked
-- for and in order, are all others.
pub check_results_lem :
    (req : List LineBreakpoint) (res : List BreakpointResult)
    → ((check_results req res).0
        ≡ map
            (λ x. record {
              object_uri = x.0.object_uri;
              line = x.0.line;
              id = id_of x.1;
              scope = external;
            })
            (keep stands (paired req res)))
      × (map place (check_results req res).1
          ≡ map (λ x. requested_site x.0) (keep (λ x. not (stands x)) (paired req res)))
unfolding check_results keep head_result no_result counts_as_set tail_results set_as
check_results_lem [] res = (refl, refl)
check_results_lem (bp ∷ req) [] =
    let (a, b) = check_results_lem req [] in
    let e : text_eq [] (bytes "existing") ≡ false = unfold text_eq in refl in
    (rw e a, rw e (ap (λ xs. requested_site bp ∷ xs) b))
check_results_lem (bp ∷ req) (r ∷ res) =
    let (a, b) = check_results_lem req res in (ground (arith, a), ground (arith, b))

-- As many are set or rejected as were requested, and all that are set are external.
pub check_results_counts :
    (req : List LineBreakpoint) (res : List BreakpointResult)
    → (length (check_results req res).0 + length (check_results req res).1 ≡ length req)
      × (all is_external (check_results req res).0 ≡ true)
unfolding check_results all
check_results_counts [] res = (refl, refl)
check_results_counts (bp ∷ req) res = ground (arith, check_results_counts req (tail_results res))

-- If none is rejected, the breakpoints that are set are the requested ones, in order.
pub check_results_sites :
    (req : List LineBreakpoint) (res : List BreakpointResult)
    → (check_results req res).1 ≡ []
    → map site (check_results req res).0 ≡ map requested_site req
unfolding check_results
check_results_sites [] res h = refl
check_results_sites (bp ∷ req) res h = ground (arith, check_results_sites req (tail_results res))
