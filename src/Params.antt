-- ===== src/Params.antt =====
-- tools/params.go: required and optional parameters of a tool call. `Request` has what the tools
-- ask of mcp-go's `CallToolRequest`: `arguments` is `GetArguments()[name]`, null where absent.
use aibap_mcp.Base.{
  ◌≡◌, inl, inr, Bool, false, [], ◌∷◌, ◌++◌, Text, bytes, is_empty, trim_space, if◌then◌else◌,
  Result, ok, err, ◌>>=◌, Result-cases, arith,
}
use aibap_mcp.Errors.{Failure, new_error, wrap}
use aibap_mcp.Debug.Values.{ℤ, Value, null, bool, float64, int, int64, string, list, object}

pub record Request : Type 0 where
  pub arguments : Text → Value
  pub require : Text → Result Failure Text
  pub get_string : Text → Text → Text
  pub get_bool : Text → Bool → Bool
  pub get_int : Text → ℤ → ℤ

-- `%q` on a name without quotes or escapes.
abbrev pub quoted : Text → Text
quoted s = b'"' ∷ (s ++ (b'"' ∷ []))

-- `requireRawString`
unfoldable pub require_raw_string : Request → Text → Result Failure Text
require_raw_string req name = elim (req.require name) [
  | ok v ↦ ok v
  | err e ↦ err (wrap (bytes "invalid required parameter " ++ (quoted name ++ bytes ": ")) e [])
]

-- `requireString`
unfoldable pub require_string : Request → Text → Result Failure Text
unfolding require_raw_string
require_string req name = do
  v ← require_raw_string req name
  let s = trim_space v in
      if is_empty s
      then err
          (new_error (bytes "required parameter " ++ (quoted name ++ bytes " must not be empty")))
      else ok s

-- `%T` of a decoded value.
type_name : Value → Text
type_name null = bytes "<nil>"
type_name (bool _) = bytes "bool"
type_name (float64 _) = bytes "float64"
type_name (int _) = bytes "int"
type_name (int64 _) = bytes "int64"
type_name (string _) = bytes "string"
type_name (list _) = bytes "[]interface {}"
type_name (object _) = bytes "map[string]interface {}"

-- `optionalBool`
unfoldable pub as_flag : Text → Value → Result Failure Bool
unfolding type_name
as_flag name null = ok false
as_flag name (bool b) = ok b
as_flag name v = err (
    new_error (
      bytes "parameter "
      ++ (quoted name ++ (bytes " must be a boolean (true or false), got " ++ type_name v))))

unfoldable pub optional_bool : Request → Text → Result Failure Bool
unfolding as_flag
optional_bool req name = as_flag name (req.arguments name)

-- A required string is not empty.
pub require_string_ne :
    (req : Request) (name v : Text) → require_string req name ≡ ok v → is_empty v ≡ false
unfolding require_string
require_string_ne req name v h = elim (Result-cases (require_raw_string req name)) [
  | inl (s, q) ↦ ground (arith, q, h)
  | inr (e, q) ↦ absurd (ground (arith, q, h))
]
