-- ===== src/Errors/Samples.antt =====
-- A classifier by exception type, and the hints of concrete errors.
use aibap_mcp.Base.{
  contains_text, to_lower, starts_with, ◌≡◌, refl, false, none, some, List, [], ◌∷◌, Text, bytes,
  text_eq,
}
use aibap_mcp.Errors.{
  ErrorKind, unknown, server_error, unauthorized, resource_save_failure, parameter_not_found,
  other_type, AdtError, Failure, Classifier, new_error,
}
use aibap_mcp.Errors.Hints.{
  unauthorized_hint, verify_leftover_hint, transport_save_conflict_hint, inactive_hint,
  save_conflict, match_hint,
}
use aibap_mcp.Errors.Retry.{about, match_hint_retry}

classify_error : Failure → ErrorKind
classify_error e = elim e.adt_error [
  | none ↦ unknown
  | some a ↦ elim a.type [
    | resource_save_failure ↦ server_error
    | parameter_not_found ↦ server_error
    | other_type _ ↦ unauthorized
  ]
]

abbrev by_type : Classifier
by_type = record {
  classify_error = classify_error;
  locking_transport = λ a. none;
  is_transport_locked = λ a. none;
  is_enqueue_lock = λ a. none;
}

abbrev save_failure : Text → List (Text × Text) → AdtError
save_failure message properties = record {
  message = message;
  type = resource_save_failure;
  t100_key_id = [];
  t100_key_no = [];
  t100_var_1 = [];
  properties = properties;
}

abbrev as_failure : AdtError → Failure
as_failure a = record (new_error a.message) { adt_error = some a }

abbrev dump : Failure
dump = as_failure (save_failure (bytes "Short dump") [])

-- A save failure as ECC reports it, without a T100 key.
abbrev ecc_conflict : Failure
ecc_conflict = as_failure (
    save_failure (bytes "already locked in request ZZZK900001 of user SMITH")
      ((bytes "corrNr", bytes "ZZZK900001") ∷ []))

abbrev rejected : Failure
rejected = record (as_failure (record (save_failure [] []) { type = other_type (bytes "Logon") })) {
  verify_cleanup = some (bytes "ZTMP");
}

ecc_conflict-hint :
    match_hint by_type ecc_conflict
    ≡ transport_save_conflict_hint (bytes "ZZZK900001") (bytes "SMITH") ∷ []
unfolding match_hint new_error classify_error text_eq starts_with to_lower
ecc_conflict-hint = refl

rejected-hint :
    match_hint by_type rejected ≡ verify_leftover_hint (bytes "ZTMP") ∷ unauthorized_hint ∷ []
unfolding match_hint new_error classify_error
rejected-hint = refl

inactive-hint :
    match_hint by_type (new_error (bytes "Object ZFOO is INACTIVE")) ≡ inactive_hint ∷ []
unfolding match_hint new_error classify_error contains_text to_lower starts_with
inactive-hint = refl

match_hint_retry_example :
    (classify_error dump ≡ server_error)
    × (dump.sync_error ≡ none)
    × (dump.sync_not_installed ≡ false)
    × (dump.verify_cleanup ≡ none)
    × (about dump.adt_error (save_conflict by_type) ≡ none)
    × (about dump.adt_error by_type.is_enqueue_lock ≡ none)
unfolding match_hint new_error classify_error
match_hint_retry_example = match_hint_retry by_type dump refl
