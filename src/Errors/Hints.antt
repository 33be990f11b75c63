-- ===== src/Errors/Hints.antt =====
-- tools/errors.go, and `abapGitSyncHint` of tools/abapgitsync.go: the hints that an error gets.
use aibap_mcp.Base.{
  ℕ, Bool, false, ◌&&◌, ◌||◌, Option, none, some, List, [], ◌∷◌, ◌++◌, Text, bytes, text_eq,
  is_empty, starts_with, to_lower, contains_text, join, if◌then◌else◌, ◌==◌,
}
use aibap_mcp.Errors.{
  ErrorKind, unknown, locked, invalid_lock_handle, lock_conflict, already_exists, etag_mismatch,
  not_acceptable, unsupported_media, unprocessable, method_not_allowed, creation_failed, not_found,
  forbidden, unauthorized, bad_request, server_error, object_locked_in_transport, not_supported,
  is_kind, resource_save_failure, parameter_not_found, other_type, AdtError, SyncCode,
  credentials_missing, credentials_rejected, remote_changed, transport_required, no_modifiable_task,
  repo_not_found, repo_ambiguous, object_not_in_repo, requirements_not_met, git_error, other_code,
  Failure, wrap, Classifier,
}

-- A hint, by the constant or the function that has its text.
pub data Hint : Type 0 where
  etag_mismatch_hint lock_conflict_hint already_exists_hint locked_hint : Hint
  not_acceptable_hint unsupported_media_hint unprocessable_hint : Hint
  method_not_allowed_hint no_delete_handler_hint creation_failed_hint : Hint
  not_found_hint forbidden_hint unauthorized_hint system_not_modifiable_hint : Hint
  bad_request_hint server_error_hint transport_hint inactive_hint : Hint
  invalid_lock_handle_hint corr_nr_missing_hint : Hint
  verify_leftover_hint object_locked_in_transport_hint own_access_conflict_hint : Text → Hint
  transport_save_conflict_hint : Text → Text → Hint
  abap_git_credentials_hint abap_git_remote_changed_hint : Hint
  abap_git_transport_required_hint abap_git_no_modifiable_task_hint : Hint
  abap_git_repo_lookup_hint abap_git_object_not_in_repo_hint : Hint
  abap_git_requirements_hint abap_git_git_error_hint abap_git_not_installed_hint : Hint

-- `abapGitHintByCode`: the empty list is the empty text.
unfoldable pub abap_git_hint_by_code : SyncCode → List Hint
abap_git_hint_by_code credentials_missing = abap_git_credentials_hint ∷ []
abap_git_hint_by_code credentials_rejected = abap_git_credentials_hint ∷ []
abap_git_hint_by_code remote_changed = abap_git_remote_changed_hint ∷ []
abap_git_hint_by_code transport_required = abap_git_transport_required_hint ∷ []
abap_git_hint_by_code no_modifiable_task = abap_git_no_modifiable_task_hint ∷ []
abap_git_hint_by_code repo_not_found = abap_git_repo_lookup_hint ∷ []
abap_git_hint_by_code repo_ambiguous = abap_git_repo_lookup_hint ∷ []
abap_git_hint_by_code object_not_in_repo = abap_git_object_not_in_repo_hint ∷ []
abap_git_hint_by_code requirements_not_met = abap_git_requirements_hint ∷ []
abap_git_hint_by_code git_error = abap_git_git_error_hint ∷ []
abap_git_hint_by_code (other_code _) = []

-- `abapGitSyncHint`
unfoldable pub abap_git_sync_hint : Failure → Option (List Hint)
unfolding abap_git_hint_by_code
abap_git_sync_hint e = elim e.sync_error [
  | some s ↦ some (abap_git_hint_by_code s.code)
  | none ↦ if e.sync_not_installed then some (abap_git_not_installed_hint ∷ []) else none
]

-- `hintByKind`
unfoldable pub hint_by_kind : ErrorKind → Option Hint
hint_by_kind locked = some locked_hint
hint_by_kind invalid_lock_handle = some invalid_lock_handle_hint
hint_by_kind lock_conflict = some lock_conflict_hint
hint_by_kind already_exists = some already_exists_hint
hint_by_kind etag_mismatch = some etag_mismatch_hint
hint_by_kind not_acceptable = some not_acceptable_hint
hint_by_kind unsupported_media = some unsupported_media_hint
hint_by_kind unprocessable = some unprocessable_hint
hint_by_kind method_not_allowed = some method_not_allowed_hint
hint_by_kind creation_failed = some creation_failed_hint
hint_by_kind not_found = some not_found_hint
hint_by_kind forbidden = some forbidden_hint
hint_by_kind unauthorized = some unauthorized_hint
hint_by_kind bad_request = some bad_request_hint
hint_by_kind server_error = some server_error_hint
hint_by_kind unknown = none
hint_by_kind object_locked_in_transport = none
hint_by_kind not_supported = none

-- The texts that the code looks for.
nicht_aenderbar : Text
nicht_aenderbar = bytes "nicht " ++ (195 ∷ 164 ∷ bytes "nderbar")

-- `isSystemNotModifiable`
unfoldable pub is_system_not_modifiable : Option AdtError → Text → Bool
unfolding nicht_aenderbar
is_system_not_modifiable adt_err err_text =
    (elim adt_err [
      | none ↦ false
      | some a ↦ text_eq a.t100_key_id (bytes "TK") && text_eq a.t100_key_no (bytes "102")
    ])
    || ((contains_text (bytes "system has status") err_text
          && contains_text (bytes "not modifiable") err_text)
        || (contains_text (bytes "sap-system hat den status") err_text
            && contains_text nicht_aenderbar err_text))

-- `lockOwnerRe`: white space as Go's `\s` has it, and the first "of user " with a word behind it.
is_regexp_space : ℕ → Bool
is_regexp_space c = (c == 9) || (c == 10) || (c == 12) || (c == 13) || (c == 32)

word : Text → Text
unfolding is_regexp_space
word [] = []
word (c ∷ s) = let rest = word s in if is_regexp_space c then [] else c ∷ rest

drop_prefix : Text → Text → Text
drop_prefix [] s = s
drop_prefix (_ ∷ _) [] = []
drop_prefix (_ ∷ p) (_ ∷ s) = drop_prefix p s

unfoldable pub owner_in : Text → Option Text
unfolding word drop_prefix
owner_in [] = none
owner_in (c ∷ s) =
    let rest = owner_in s in
    let owner = word (drop_prefix (bytes "of user ") (c ∷ s)) in
    if starts_with (bytes "of user ") (to_lower (c ∷ s))
    then (if is_empty owner then rest else some owner)
    else rest

-- `lockingOwnerOf`; the callers ignore whether there is one.
unfoldable pub locking_owner_of : AdtError → Text
unfolding owner_in
locking_owner_of a = elim (owner_in a.message) [ none ↦ [] | some owner ↦ owner ]

unfoldable pub property : Text → List (Text × Text) → Text
property key [] = []
property key ((k, v) ∷ ps) = let rest = property key ps in if text_eq k key then v else rest

module _ (c : Classifier) where
  open c use {classify_error, locking_transport, is_transport_locked, is_enqueue_lock}

  -- The save failure that is a transport conflict: the request and its owner.
  unfoldable pub save_conflict : AdtError → Option (Text × Text)
  unfolding property locking_owner_of
  save_conflict a = elim a.type [
    | resource_save_failure ↦ elim (is_transport_locked a) [
      | some (tr, owner) ↦ some (tr, owner)
      | none ↦
          let tr = property (bytes "corrNr") a.properties in
          if is_empty a.t100_key_id
          then (if is_empty tr then none else some (tr, locking_owner_of a))
          else none
    ]
    | parameter_not_found ↦ none
    | other_type _ ↦ none
  ]

  -- The user that an enqueue lock names.
  unfoldable pub enqueue_user : Text → Text
  enqueue_user user = if is_empty user then bytes "the named user" else user

  unfoldable pub names_corr_nr : Option AdtError → Text → Bool
  names_corr_nr none err_text = false
  names_corr_nr (some a) err_text = elim a.type [
    | parameter_not_found ↦
        text_eq a.t100_var_1 (bytes "corrNr") || contains_text (bytes "corrnr") err_text
    | resource_save_failure ↦ false
    | other_type _ ↦ false
  ]

  -- The last part of `matchHint`: after the conflicts that name a request or a user.
  unfoldable pub fallback_hint : Text → List Hint
  fallback_hint err_text =
      if contains_text (bytes "already exists") err_text
      then already_exists_hint ∷ []
      else if contains_text (bytes "inactive") err_text
      then inactive_hint ∷ []
      else []

  unfoldable pub kind_hint : ErrorKind → Option AdtError → Text → List Hint
  unfolding hint_by_kind fallback_hint names_corr_nr is_system_not_modifiable is_kind
  kind_hint kind adt_err err_text =
      if is_kind kind bad_request && names_corr_nr adt_err err_text
      then corr_nr_missing_hint ∷ []
      else if is_kind kind bad_request && contains_text (bytes "transport") err_text
      then transport_hint ∷ []
      else if is_kind kind forbidden && is_system_not_modifiable adt_err err_text
      then system_not_modifiable_hint ∷ []
      else elim (hint_by_kind kind) [ some h ↦ h ∷ [] | none ↦ fallback_hint err_text ]

  unfoldable pub after_save_conflict : ErrorKind → Option AdtError → Text → List Hint
  unfolding kind_hint enqueue_user is_kind
  after_save_conflict kind adt_err err_text =
      if is_kind kind method_not_allowed
        && contains_text (bytes "does not support method delete") err_text
      then no_delete_handler_hint ∷ []
      else elim adt_err [
        | none ↦ kind_hint kind none err_text
        | some a ↦ elim (is_enqueue_lock a) [
          | some user ↦ own_access_conflict_hint (enqueue_user user) ∷ []
          | none ↦ kind_hint kind (some a) err_text
        ]
      ]

  unfoldable pub after_cleanup_error : ErrorKind → Option AdtError → Text → List Hint
  unfolding after_save_conflict save_conflict is_kind
  after_cleanup_error kind adt_err err_text =
      if is_kind kind object_locked_in_transport
      then (elim adt_err [
        | none ↦ lock_conflict_hint ∷ []
        | some a ↦ elim (locking_transport a) [
          | some tr ↦ object_locked_in_transport_hint tr ∷ []
          | none ↦ lock_conflict_hint ∷ []
        ]
      ])
      else elim adt_err [
        | none ↦ after_save_conflict kind none err_text
        | some a ↦ elim (save_conflict a) [
          | some (tr, owner) ↦ transport_save_conflict_hint tr owner ∷ []
          | none ↦ after_save_conflict kind (some a) err_text
        ]
      ]

  -- `matchHint`
  unfoldable pub match_hint : Failure → List Hint
  unfolding abap_git_sync_hint after_cleanup_error is_kind
  match_hint e = elim (abap_git_sync_hint e) [
    | some hints ↦ hints
    | none ↦ elim e.verify_cleanup [
      | some program ↦
          verify_leftover_hint program
          ∷ (if is_kind (classify_error e) unauthorized then unauthorized_hint ∷ [] else [])
      | none ↦ after_cleanup_error (classify_error e) e.adt_error (to_lower e.text)
    ]
  ]

  -- `errorResult`: the text of the error, and the hints appended to it.
  unfoldable pub error_result : Failure → Text × List Hint
  unfolding match_hint
  error_result e = (bytes "Error: " ++ e.text, match_hint e)

  -- `abapGitErrorResult`
  unfoldable pub abap_git_error_result : Failure → Text × List Hint
  unfolding error_result
  abap_git_error_result e = elim e.sync_error [
    | none ↦ error_result e
    | some s ↦ elim s.details [
      | [] ↦ error_result e
      | d ∷ ds ↦ error_result (wrap [] e (b'\n' ∷ join (b'\n' ∷ []) (d ∷ ds)))
    ]
  ]
