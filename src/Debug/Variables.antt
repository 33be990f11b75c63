-- ===== src/Debug/Variables.antt =====
-- tools/debugrun_variables.go: `debug_get_variable`.
pub mod Checked
use aibap_mcp.Base.{
  ℕ, Bool, true, false, not, ◌&&◌, ◌||◌, Option, none, some, List, [], ◌∷◌, ◌++◌, Text, bytes,
  text_eq, is_empty, trim_space, to_upper, Result, ok, err, ◌>>=◌, if◌then◌else◌,
}
use aibap_mcp.Debug.State.{Failure}
use aibap_mcp.Debug.Values.{Value, null, bool, Fields, as_text, field_of, int_between}

default_table_rows : ℕ
default_table_rows = 20

max_table_rows : ℕ
max_table_rows = 100

-- `variableQuery`
pub record VariableQuery : Type 0 where
  pub name : Text
  pub expand : Bool
  pub table : Bool
  pub offset : ℕ
  pub limit : ℕ

pub data QueryError : Type 0 where
  name_required offset_range limit_range expand_or_table : QueryError

as_bool : Value → Bool
as_bool (bool b) = b
as_bool _ = false

-- An argument with a default, which must be a whole number in a range when it is given.
number_or : ℕ → Option ℕ → QueryError → Value → Result QueryError ℕ
number_or default high e null = ok default
number_or default high e v = elim (int_between 1 high v) [ none ↦ err e | some n ↦ ok n ]

is_given : Value → Bool
is_given null = false
is_given _ = true

with_table : Text → Bool → Bool → ℕ → ℕ → Result QueryError VariableQuery
with_table name expand table offset limit =
    if table && expand
    then err expand_or_table
    else ok (record { name = name; expand = expand; table = table; offset = offset; limit = limit })

with_page : Text → Bool → Value → Value → Result QueryError VariableQuery
unfolding with_table number_or default_table_rows max_table_rows
with_page name expand off lim = do
  offset ← number_or 1 none offset_range off
  limit ← number_or default_table_rows (some max_table_rows) limit_range lim
  with_table name expand true offset limit

-- `parseVariableQuery`
unfoldable pub parse_variable_query : Fields → Result QueryError VariableQuery
unfolding is_given with_page as_bool
parse_variable_query args =
    let name = trim_space (as_text (field_of (bytes "variable_name") args)) in
    let expand = as_bool (field_of (bytes "expand") args) in
    let off = field_of (bytes "offset") args in
    let lim = field_of (bytes "limit") args in
    if is_empty name
    then err name_required
    else if is_given off || is_given lim
    then with_page name expand off lim
    else ok (record { name = name; expand = expand; table = false; offset = 0; limit = 0 })

-- `adt.DebugVariable`
pub record DebugVariable : Type 0 where
  pub id : Text
  pub name : Text
  pub meta_type : Text
  pub actual_type : Text
  pub declared_type : Text
  pub value : Text
  pub table_lines : ℕ

by_id : Text → List DebugVariable → Option DebugVariable
by_id name [] = none
by_id name (v ∷ vs) = let rest = by_id name vs in if text_eq v.id name then some v else rest

-- `strings.EqualFold`, on ASCII.
equal_fold : Text → Text → Bool
equal_fold s t = text_eq (to_upper s) (to_upper t)

by_folded_id : Text → List DebugVariable → Option DebugVariable
unfolding equal_fold
by_folded_id name [] = none
by_folded_id name (v ∷ vs) =
    let rest = by_folded_id name vs in if equal_fold v.id name then some v else rest

only_or_folded : Text → List DebugVariable → Option DebugVariable
unfolding by_folded_id
only_or_folded name (v ∷ []) = some v
only_or_folded name vs = by_folded_id name vs

-- `findVariable`
pub find_variable : List DebugVariable → Text → Option DebugVariable
unfolding by_id only_or_folded
find_variable vs name = elim (by_id name vs) [ some v ↦ some v | none ↦ only_or_folded name vs ]

-- `adt.DebugChildVariables`: the links as pairs of a parent's and a child's ID.
pub record Children : Type 0 where
  pub links : List (Text × Text)
  pub variables : List DebugVariable

-- `DebugVariableChild`
pub record VariableChild : Type 0 where
  pub id : Text
  pub name : Text
  pub meta_type : Text
  pub type : Text
  pub value : Text
  pub table_lines : ℕ

-- The last variable with an ID, as a later entry of the map replaces an earlier one.
last_by_id : Text → List DebugVariable → Option DebugVariable
last_by_id id [] = none
last_by_id id (v ∷ vs) = elim (last_by_id id vs) [
  | some u ↦ some u
  | none ↦ if text_eq v.id id then some v else none
]

linked : Text → List (Text × Text) → List DebugVariable → List DebugVariable
unfolding last_by_id
linked parent [] vs = []
linked parent ((p, c) ∷ ls) vs =
    let rest = linked parent ls vs in
    elim (last_by_id c vs) [ none ↦ rest | some v ↦ if text_eq p parent then v ∷ rest else rest ]

child_of : DebugVariable → VariableChild
child_of v = record {
  id = v.id;
  name = v.name;
  meta_type = v.meta_type;
  type = if is_empty v.actual_type then v.declared_type else v.actual_type;
  value = v.value;
  table_lines = v.table_lines;
}

children : List DebugVariable → List VariableChild
unfolding child_of
children [] = []
children (v ∷ vs) = child_of v ∷ children vs

-- `childrenOf`
pub children_of : Children → Text → List VariableChild
unfolding linked children
children_of kids parent = elim (linked parent kids.links kids.variables) [
  | [] ↦ children kids.variables
  | v ∷ vs ↦ children (v ∷ vs)
]
