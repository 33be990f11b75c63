-- ===== src/Reads/Samples.antt =====
-- Three objects of which one cannot be read, and queries with and without a purpose.
use aibap_mcp.Base.{
  ◌+◌, ◌≡◌, refl, ◌⊎◌, true, List, [], ◌∷◌, Text, bytes, contains, length, ok, err,
}
use mathlib.Core.List.{map}
use aibap_mcp.Debug.Values.{pos, string, field, no_fields}
use aibap_mcp.Params.{Request, require_string}
use aibap_mcp.AbapGit.Samples.{request}
use aibap_mcp.Reads.Multi.{Job, entry_of, get_source_multi}
use aibap_mcp.Reads.Order.{all_done, failures, get_source_multi_lem}
use aibap_mcp.Reads.Query.{QueryError, valid_query_purposes, run_query, run_query_lem}

abbrev jobs : List Job
jobs =
    (bytes "A", ok (bytes "report a.", bytes "1"))
    ∷ (bytes "B", err (bytes "not found"))
    ∷ (bytes "C", ok (bytes "report c.", bytes "2"))
    ∷ []

get_source_multi_lem_example :
    let r = get_source_multi jobs (2 ∷ 0 ∷ 1 ∷ []) in
    (r.results ≡ map entry_of jobs)
    × (r.total ≡ length jobs)
    × (r.succeeded + r.failed ≡ r.total)
    × (r.failed ≡ failures (map entry_of jobs))
unfolding all_done
get_source_multi_lem_example = get_source_multi_lem jobs (2 ∷ 0 ∷ 1 ∷ []) refl

abbrev asked : Request
asked = request (
    field (bytes "purpose") (string (bytes "customizing_review"))
      (field (bytes "sql") (string (bytes "SELECT * FROM T001")) no_fields))

abbrev Statements : Type 0
Statements = List Text

run_query_lem_example :
    let run =
      run_query {W = Statements} (λ req. pos 100) (λ sql rows w. (ok tt, sql ∷ w)) asked [] in
    ((e : QueryError) × (run ≡ (err e, [])))
    ⊎ ((sql : Text) × (contains valid_query_purposes (asked.get_string (bytes "purpose") []) ≡ true)
        × (require_string asked (bytes "sql") ≡ ok sql)
        × (run.1 ≡ sql ∷ []))
run_query_lem_example = run_query_lem (λ req. pos 100) (λ sql rows w. (ok tt, sql ∷ w)) asked []
