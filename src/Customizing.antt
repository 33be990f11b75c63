-- ===== src/Customizing.antt =====
-- tools/customizing_write.go: `update_customizing`.
pub mod Checked
pub mod Samples
use aibap_mcp.Base.{
  ℕ, suc, Bool, true, false, ◌&&◌, ◌||◌, not, Option, none, some, List, [], ◌∷◌, ◌++◌, Text, bytes,
  text_eq, to_lower, if◌then◌else◌, Result, ok, err, ◌>>=◌,
}
use aibap_mcp.Debug.Values.{
  Value, null, string, object, list, Values, no_values, value, Fields, no_fields, field,
}
use aibap_mcp.Errors.{Failure, new_error, wrap}
use aibap_mcp.Params.{Request, quoted}
use aibap_mcp.Transports.{Step, CustomizingEntry, BlackMagicClient}

-- `UpdateCustomizingResult`
pub record UpdateCustomizingResult : Type 0 where
  pub status : Text
  pub table : Text

-- What is wrong with the entry at an index.
pub data EntryFault : Type 0 where
  no_keys no_upsert_values delete_values : EntryFault
  invalid_op : Text → EntryFault

-- The errors of the tool: of the outside, of a JSON value that has not the type of the entries, and
-- of its own checks.
pub data UpdateError : Type 0 where
  failed : Failure → UpdateError
  invalid_format no_entries : UpdateError
  no_fallback : Text → UpdateError
  bad_entry : ℕ → EntryFault → UpdateError

-- What `json.Unmarshal` makes of a `map[string]string`: null leaves it empty, a null value is the
-- empty string, other types are refused.
unfoldable pub string_map : Fields → Result UpdateError (List (Text × Text))
string_map no_fields = ok []
string_map (field k (string v) fs) = do rest ← string_map fs; ok ((k, v) ∷ rest)
string_map (field k null fs) = do rest ← string_map fs; ok ((k, []) ∷ rest)
string_map (field k _ fs) = err invalid_format

unfoldable pub as_map : Value → Result UpdateError (List (Text × Text))
unfolding string_map
as_map null = ok []
as_map (object fs) = string_map fs
as_map _ = err invalid_format

unfoldable pub as_op : Value → Result UpdateError Text
as_op null = ok []
as_op (string s) = ok s
as_op _ = err invalid_format

-- A field of a struct, whose name `json.Unmarshal` compares without regard to case.
unfoldable pub struct_field : Text → Fields → Value
struct_field name no_fields = null
struct_field name (field k v fs) =
    let rest = struct_field name fs in if text_eq (to_lower k) name then v else rest

unfoldable pub entry_of : Value → Result UpdateError CustomizingEntry
unfolding as_map as_op struct_field
entry_of null = ok (record { keys = []; values = []; op = [] })
entry_of (object fs) = do
  keys ← as_map (struct_field (bytes "keys") fs)
  values ← as_map (struct_field (bytes "values") fs)
  op ← as_op (struct_field (bytes "op") fs)
  ok (record { keys = keys; values = values; op = op })
entry_of _ = err invalid_format

unfoldable pub entries_of : Values → Result UpdateError (List CustomizingEntry)
unfolding entry_of
entries_of no_values = ok []
entries_of (value v vs) = do e ← entry_of v; es ← entries_of vs; ok (e ∷ es)

unfoldable pub parse_entries : Value → Result UpdateError (List CustomizingEntry)
unfolding entries_of
parse_entries null = ok []
parse_entries (list vs) = entries_of vs
parse_entries _ = err invalid_format

abbrev pub has_none {ℓ} : {A : Type ℓ} → List A → Bool
has_none [] = true
has_none (_ ∷ _) = false

unfoldable pub check_op : CustomizingEntry → Option EntryFault
check_op e =
    let op = if has_none e.op then bytes "upsert" else e.op in
    if text_eq op (bytes "upsert")
    then (if has_none e.values then some no_upsert_values else none)
    else if text_eq op (bytes "delete")
    then (if has_none e.values then none else some delete_values)
    else some (invalid_op e.op)

unfoldable pub check_entry : CustomizingEntry → Option EntryFault
unfolding check_op
check_entry e = if has_none e.keys then some no_keys else check_op e

-- The first entry with a fault, and its index.
unfoldable pub check_entries : ℕ → List CustomizingEntry → Option (ℕ × EntryFault)
unfolding check_entry
check_entries i [] = none
check_entries i (e ∷ es) =
    let rest = check_entries (suc i) es in
    elim (check_entry e) [ some fault ↦ some (i, fault) | none ↦ rest ]

module _ {W : Type 0} (fallback : Option (BlackMagicClient W)) where
  unfoldable pub write_entries :
      Text → Text → List CustomizingEntry → W → Result UpdateError UpdateCustomizingResult × W
  unfolding check_entries
  write_entries table transport entries w = elim fallback [
    | none ↦ (err (no_fallback table), w)
    | some fb ↦ elim (check_entries 0 entries) [
      | some (i, fault) ↦ (err (bad_entry i fault), w)
      | none ↦
          let (answer, w') = fb.update_customizing table entries transport w in
          elim answer [
            | err e ↦ (err (failed e), w')
            | ok _ ↦ (ok (record { status = bytes "updated"; table = table }), w')
          ]
    ]
  ]

  unfoldable pub update_customizing_tool :
      Request → W → Result UpdateError UpdateCustomizingResult × W
  unfolding write_entries parse_entries
  update_customizing_tool req w =
      let table = req.get_string (bytes "table") [] in
      let transport = req.get_string (bytes "transport") [] in
      elim (parse_entries (req.arguments (bytes "entries"))) [
        | err e ↦ (err e, w)
        | ok entries ↦
            if has_none entries
            then (err no_entries, w)
            else write_entries table transport entries w
      ]
