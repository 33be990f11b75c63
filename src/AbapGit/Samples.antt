-- ===== src/AbapGit/Samples.antt =====
-- A dry run of a push of one object, and one without objects.
use aibap_mcp.Base.{
  ◌≡◌, refl, Bool, true, List, [], ◌∷◌, Text, bytes, Result, ok, err, trim_space, text_eq,
}
use aibap_mcp.Debug.Values.{
  Value, bool, string, object, list, value, no_values, Fields, field, no_fields, field_of, as_text,
}
use aibap_mcp.Errors.{Failure, new_error}
use aibap_mcp.Params.{require_string, Request}
use aibap_mcp.AbapGit.{
  decode_arg_list, no_objects, missing_field, SyncClient, PushRequest, abapgit_push,
}

-- A request with the given arguments.
pub required : Value → Result Failure Text
required (string s) = ok s
required _ = err (new_error (bytes "not a string"))

pub text_or : Text → Value → Text
text_or d (string s) = s
text_or d _ = d

pub flag_or : Bool → Value → Bool
flag_or d (bool b) = b
flag_or d _ = d

abbrev pub request : Fields → Request
request args = record {
  arguments = λ name. field_of name args;
  require = λ name. required (field_of name args);
  get_string = λ name d. text_or d (field_of name args);
  get_bool = λ name d. flag_or d (field_of name args);
  get_int = λ name d. d;
}

abbrev Pushes : Type 0
Pushes = List (PushRequest Text)

-- A host that logs the pushes.
abbrev host : SyncClient Pushes Text Text (Unit {0})
host = record {
  list_repos = λ w. (ok tt, w);
  pull_repo = λ pull w. (ok tt, w);
  push_repo = λ push w. (ok tt, push ∷ w);
  confirmation_of = λ entry. ok (as_text (field_of (bytes "obj_name") entry));
  object_ref_of = λ entry. ok (as_text (field_of (bytes "obj_name") entry));
}

abbrev program : Text → Value
program type = object (
    field (bytes "obj_type") (string type)
      (field (bytes "obj_name") (string (bytes "Z")) no_fields))

abbrev push_of : Value → Fields
push_of objects = field (bytes "repo") (string (bytes "R")) (
    field (bytes "message") (string (bytes "m"))
      (field (bytes "objects") objects (field (bytes "dry_run") (bool true) no_fields)))

nothing_to_push : abapgit_push host (request (push_of (list no_values))) [] ≡ (err no_objects, [])
unfolding abapgit_push require_string required field_of text_eq trim_space decode_arg_list
nothing_to_push = refl

blank_type :
    abapgit_push host (request (push_of (list (value (program (bytes " ")) no_values)))) []
    ≡ (err (missing_field (bytes "objects") 0 (bytes "obj_type")), [])
unfolding abapgit_push require_string required field_of text_eq trim_space decode_arg_list as_text
blank_type = refl
