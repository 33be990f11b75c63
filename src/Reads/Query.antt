-- ===== src/Reads/Query.antt =====
-- `run_query` of tools/query.go and `verify_source` of tools/verify.go.
use aibap_mcp.Base.{
  ◌≡◌, inl, inr, ◌⊎◌, Bool, true, not, Option, none, some, List, [], ◌∷◌, ◌++◌, Text, bytes,
  contains, is_empty, trim_space, if◌then◌else◌, Result, ok, err, Result-cases, Bool-cases, arith,
}
use aibap_mcp.Errors.{Failure, new_error}
use aibap_mcp.Params.{Request, quoted, require_string, require_raw_string}
use aibap_mcp.Debug.Values.{ℤ}

-- `validQueryPurposeList`
unfoldable pub valid_query_purposes : List Text
valid_query_purposes =
    bytes "ddic_inspection"
    ∷ bytes "customizing_review"
    ∷ bytes "transport_tracking"
    ∷ bytes "development_metadata"
    ∷ []

pub data QueryError : Type 0 where
  query_blocked : QueryError
  query_failed : Failure → QueryError

-- `max_rows` of a request, 100 where it is absent; the query itself is adtler's.
module _ {W R : Type 0} (max_rows_of : Request → ℤ)
    (query : Text → ℤ → W → Result Failure R × W) where
  unfoldable pub run_query : Request → W → Result QueryError R × W
  unfolding valid_query_purposes
  run_query req w =
      if not (contains valid_query_purposes (req.get_string (bytes "purpose") []))
      then (err query_blocked, w)
      else elim (require_string req (bytes "sql")) [
        | err e ↦ (err (query_failed e), w)
        | ok sql ↦
            let (answer, w') = query sql (max_rows_of req) w in
            (elim answer [ err e ↦ err (query_failed e) | ok r ↦ ok r ], w')
      ]

  -- SAP is asked only with a purpose of the list and a statement that is not blank: otherwise the
  -- call fails, and the outside is as it was.
  pub run_query_lem :
      (req : Request) (w : W)
      → ((e : QueryError) × (run_query req w ≡ (err e, w)))
        ⊎ ((sql : Text) × (contains valid_query_purposes (req.get_string (bytes "purpose") [])
              ≡ true)
            × (require_string req (bytes "sql") ≡ ok sql)
            × ((run_query req w).1 ≡ (query sql (max_rows_of req) w).1))
  unfolding run_query
  run_query_lem req w =
      let purpose = req.get_string (bytes "purpose") [] in
      elim (Bool-cases (contains valid_query_purposes purpose)) [
        | inr p ↦ inl (query_blocked, ground (arith, p))
        | inl p ↦ elim (Result-cases (require_string req (bytes "sql"))) [
          | inr (e, q) ↦ inl (query_failed e, ground (arith, p, q))
          | inl (sql, q) ↦ inr (sql, p, q, ground (arith, p, q))
        ]
      ]

-- `verify_source`: the answer of adtler is the check's result and an error, which may be a bare
-- `VerifyCleanupError`.
pub data VerifyAnswerError : Type 0 where
  cleanup_only : Text → VerifyAnswerError
  other_error : Failure → VerifyAnswerError

pub record VerifyResult (M : Type 0) : Type 0 where
  pub valid : Bool
  pub messages : List M
  pub cleanup_error : Text

module _ {W M : Type 0} (verify : Text → W → (Bool × List M × Option VerifyAnswerError) × W) where
  unfoldable pub verify_answer :
      Bool × List M × Option VerifyAnswerError → Result Failure (VerifyResult M)
  verify_answer (valid, messages, none) =
      ok (record { valid = valid; messages = messages; cleanup_error = [] })
  verify_answer (valid, messages, some (cleanup_only text)) =
      ok (record { valid = valid; messages = messages; cleanup_error = text })
  verify_answer (valid, messages, some (other_error e)) = err e

  unfoldable pub verify_source : Request → W → Result Failure (VerifyResult M) × W
  unfolding verify_answer
  verify_source req w = elim (require_raw_string req (bytes "source")) [
    | err e ↦ (err e, w)
    | ok source ↦
        if is_empty (trim_space source)
        then (
          err (
              new_error (
                bytes "required parameter "
                ++ (quoted (bytes "source") ++ bytes " must not be empty"))),
          w,
        )
        else (let (answer, w') = verify source w in (verify_answer answer, w'))
  ]
