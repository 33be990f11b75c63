-- ===== src/Errors.antt =====
-- Go errors, by what the tools ask of them; what adtler says about an error is a parameter.
pub mod Hints
pub mod Retry
pub mod Samples
use aibap_mcp.Base.{ℕ, ◌==◌, Bool, false, Option, none, List, Text, ◌++◌}

-- `adt.ErrorKind`, as far as the tools name its values.
pub data ErrorKind : Type 0 where
  unknown locked invalid_lock_handle lock_conflict already_exists etag_mismatch : ErrorKind
  not_acceptable unsupported_media unprocessable method_not_allowed : ErrorKind
  creation_failed not_found forbidden unauthorized bad_request server_error : ErrorKind
  object_locked_in_transport not_supported : ErrorKind

-- A number per kind, as the constants of Go have.
unfoldable pub kind_number : ErrorKind → ℕ
kind_number unknown = 0
kind_number locked = 1
kind_number invalid_lock_handle = 2
kind_number lock_conflict = 3
kind_number already_exists = 4
kind_number etag_mismatch = 5
kind_number not_acceptable = 6
kind_number unsupported_media = 7
kind_number unprocessable = 8
kind_number method_not_allowed = 9
kind_number creation_failed = 10
kind_number not_found = 11
kind_number forbidden = 12
kind_number unauthorized = 13
kind_number bad_request = 14
kind_number server_error = 15
kind_number object_locked_in_transport = 16
kind_number not_supported = 17

unfoldable pub is_kind : ErrorKind → ErrorKind → Bool
unfolding kind_number
is_kind k l = kind_number k == kind_number l

-- `adt.ADTError`: the exception types that the hints name, and any other.
pub data ExceptionType : Type 0 where
  resource_save_failure parameter_not_found : ExceptionType
  other_type : Text → ExceptionType

pub record AdtError : Type 0 where
  pub message : Text
  pub type : ExceptionType
  pub t100_key_id : Text
  pub t100_key_no : Text
  pub t100_var_1 : Text
  pub properties : List (Text × Text)

-- `adt.AbapGitSyncError`: the companion's codes that have a hint, and any other.
pub data SyncCode : Type 0 where
  credentials_missing credentials_rejected remote_changed transport_required : SyncCode
  no_modifiable_task repo_not_found repo_ambiguous object_not_in_repo : SyncCode
  requirements_not_met git_error : SyncCode
  other_code : Text → SyncCode

pub record SyncError : Type 0 where
  pub code : SyncCode
  pub details : List Text

-- An error: its text, and what `errors.As` and `errors.Is` find in its chain. `verify_cleanup` is
-- the program that an `adt.VerifyCleanupError` names.
pub record Failure : Type 0 where
  pub text : Text
  pub adt_error : Option AdtError
  pub sync_error : Option SyncError
  pub sync_not_installed : Bool
  pub verify_cleanup : Option Text

-- `fmt.Errorf` with one `%w`: a new text around the chain of the wrapped error.
unfoldable pub wrap : Text → Failure → Text → Failure
wrap before e after = record e { text = before ++ (e.text ++ after) }

-- An error with nothing in its chain.
unfoldable pub new_error : Text → Failure
new_error text = record {
  text = text;
  adt_error = none;
  sync_error = none;
  sync_not_installed = false;
  verify_cleanup = none;
}

-- What adtler says about an error: `ClassifyError`, and the methods of `ADTError`.
pub record Classifier : Type 0 where
  pub classify_error : Failure → ErrorKind
  pub locking_transport : AdtError → Option Text
  pub is_transport_locked : AdtError → Option (Text × Text)
  pub is_enqueue_lock : AdtError → Option Text
