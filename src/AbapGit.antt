-- ===== src/AbapGit.antt =====
-- tools/abapgitsync.go: `decodeArgList`, and the tools that pull and push an abapGit repository.
pub mod Checked
pub mod Samples
use aibap_mcp.Base.{
  ℕ, suc, Bool, true, false, Option, none, some, List, [], ◌∷◌, Text, bytes, text_eq, trim_space,
  is_empty, if◌then◌else◌, Result, ok, err, ◌>>=◌,
}
use aibap_mcp.Debug.Values.{
  Value, null, string, object, list, Values, no_values, value, Fields, no_fields, field, field_of,
  as_text,
}
use aibap_mcp.Errors.{Failure}
use aibap_mcp.Params.{Request, require_string, optional_bool}

-- The errors of the tools: of the outside or of a parameter, and those of the lists of objects.
pub data SyncToolError : Type 0 where
  failed : Failure → SyncToolError
  not_a_list : Text → SyncToolError
  not_an_object : Text → ℕ → SyncToolError
  missing_field : Text → ℕ → Text → SyncToolError
  no_objects : SyncToolError

abbrev pub lift {ℓ} : {A : Type ℓ} → Result Failure A → Result SyncToolError A
lift (ok a) = ok a
lift (err e) = err (failed e)

-- `entry[field] = v`, for a field that the entry has.
unfoldable pub set_field : Text → Text → Fields → Fields
set_field name v no_fields = no_fields
set_field name v (field k u fs) =
    let rest = set_field name v fs in
    if text_eq k name then field k (string v) fs else field k u rest

unfoldable pub check_fields : Text → ℕ → List Text → Fields → Result SyncToolError Fields
unfolding set_field
check_fields name i [] entry = ok entry
check_fields name i (f ∷ required) entry =
    let v = trim_space (as_text (field_of f entry)) in
    let rest = check_fields name i required (set_field f v entry) in
    if is_empty v then err (missing_field name i f) else rest

-- `unmarshal` decodes an entry to a type of adtler.
module _ {T : Type 0} (unmarshal : Fields → Result Failure T) where
  unfoldable pub decode_entry : Text → ℕ → List Text → Value → Result SyncToolError T
  unfolding check_fields
  decode_entry name i required (object entry) = do
    checked ← check_fields name i required entry
    lift (unmarshal checked)
  decode_entry name i required _ = err (not_an_object name i)

  unfoldable pub decode_entries : Text → ℕ → List Text → Values → Result SyncToolError (List T)
  unfolding decode_entry
  decode_entries name i required no_values = ok []
  decode_entries name i required (value v vs) = do
    x ← decode_entry name i required v
    xs ← decode_entries name (suc i) required vs
    ok (x ∷ xs)

  -- `decodeArgList`
  unfoldable pub decode_list : Text → List Text → Value → Result SyncToolError (List T)
  unfolding decode_entries
  decode_list name required null = ok []
  decode_list name required (list vs) = decode_entries name 0 required vs
  decode_list name required _ = err (not_a_list name)

  unfoldable pub decode_arg_list : Request → Text → List Text → Result SyncToolError (List T)
  unfolding decode_list
  decode_arg_list req name required = decode_list name required (req.arguments name)

-- `adt.AbapGitPullRequest` and `adt.AbapGitPushRequest`
pub record PullRequest (C : Type 0) : Type 0 where
  pub repo : Text
  pub transport : Text
  pub confirm : List C

pub record PushRequest (O : Type 0) : Type 0 where
  pub repo : Text
  pub objects : List O
  pub message : Text
  pub dry_run : Bool

-- `adt.AbapGitSyncClient`, with its types of entries and answers.
pub record SyncClient (W C O A : Type 0) : Type 0 where
  pub list_repos : W → Result Failure A × W
  pub pull_repo : PullRequest C → W → Result Failure A × W
  pub push_repo : PushRequest O → W → Result Failure A × W
  pub confirmation_of : Fields → Result Failure C
  pub object_ref_of : Fields → Result Failure O

module _ {W C O A : Type 0} (client : SyncClient W C O A) where
  open client use {list_repos, pull_repo, push_repo, confirmation_of, object_ref_of}

  unfoldable pub abapgit_list_repos : W → Result SyncToolError A × W
  abapgit_list_repos w = let (answer, w') = list_repos w in (lift answer, w')

  unfoldable pub pull_request : Request → Result SyncToolError (PullRequest C)
  pull_request req = do
    repo ← lift (require_string req (bytes "repo"))
    confirm ←
        decode_arg_list confirmation_of req (bytes "confirm")
          (bytes "obj_type" ∷ bytes "obj_name" ∷ bytes "action" ∷ [])
    ok (record {
      repo = repo;
      transport = trim_space (req.get_string (bytes "transport") []);
      confirm = confirm;
    })

  unfoldable pub abapgit_pull : Request → W → Result SyncToolError A × W
  unfolding pull_request
  abapgit_pull req w = elim (pull_request req) [
    | err e ↦ (err e, w)
    | ok pull ↦ let (answer, w') = pull_repo pull w in (lift answer, w')
  ]

  abbrev some_objects : List O → Result SyncToolError (List O)
  some_objects [] = err no_objects
  some_objects (o ∷ os) = ok (o ∷ os)

  unfoldable pub push_request : Request → Result SyncToolError (PushRequest O)
  push_request req = do
    repo ← lift (require_string req (bytes "repo"))
    message ← lift (require_string req (bytes "message"))
    decoded ←
        decode_arg_list object_ref_of req (bytes "objects")
          (bytes "obj_type" ∷ bytes "obj_name" ∷ [])
    objects ← some_objects decoded
    dry_run ← lift (optional_bool req (bytes "dry_run"))
    ok (record { repo = repo; objects = objects; message = message; dry_run = dry_run })

  unfoldable pub abapgit_push : Request → W → Result SyncToolError A × W
  unfolding push_request
  abapgit_push req w = elim (push_request req) [
    | err e ↦ (err e, w)
    | ok push ↦ let (answer, w') = push_repo push w in (lift answer, w')
  ]
