-- ===== src/Debug/Variables/Checked.antt =====
-- The bounds of a variable query (tools/debugrun_variables.go).
use aibap_mcp.Base.{
  ℕ, ◌≤◌, ◌≡◌, inl, inr, Bool, true, false, Option, none, some, Text, bytes, trim_space, is_empty,
  ok, Result-cases, Option-cases, arith,
}
use aibap_mcp.Debug.Values.{Value, null, Fields, as_text, field_of, int_between}
use aibap_mcp.Debug.Args.Checked.{int_between_lem}
use aibap_mcp.Debug.Variables.{
  VariableQuery, QueryError, offset_range, limit_range, number_or, with_table, with_page,
  default_table_rows, max_table_rows, as_bool, parse_variable_query,
}

number_or_bounds :
    (d h n : ℕ) (high : Option ℕ) (e : QueryError) (v : Value)
    → 1 ≤ d
    → (high ≡ some h → d ≤ h)
    → number_or d high e v ≡ ok n
    → (1 ≤ n) × (high ≡ some h → n ≤ h)
unfolding number_or
number_or_bounds d h n high e null low top q = ground arith
number_or_bounds d h n high e v low top q = elim (Option-cases (int_between 1 high v)) [
  | inl q' ↦ absurd (ground (arith, q, q'))
  | inr (m, q') ↦ ground (arith, q, q', int_between_lem 1 h m high v q')
]

-- What a query that was read may ask for.
abbrev pub Bounded : VariableQuery → Type 0
Bounded q =
    ((q.expand ≡ true → q.table ≡ false)
      × (q.table ≡ true → (1 ≤ q.offset) × (1 ≤ q.limit) × (q.limit ≤ 100)))

with_page-Bounded :
    (name : Text) (expand : Bool) (off lim : Value) (q : VariableQuery)
    → with_page name expand off lim ≡ ok q
    → Bounded q × (q.name ≡ name)
unfolding with_page with_table default_table_rows max_table_rows
with_page-Bounded name expand off lim q h =
    elim (Result-cases (number_or 1 none offset_range off)) [
      | inr (e, x) ↦ absurd (ground (arith, h, x))
      | inl (o, x) ↦ elim (Result-cases (number_or 20 (some 100) limit_range lim)) [
        | inr (e, y) ↦ absurd (ground (arith, h, x, y))
        | inl (l, y) ↦
            let ob =
              number_or_bounds 1 1 o none offset_range off (omega arith) (λ e. omega arith) x in
            let lb =
              number_or_bounds 20 100 l (some 100) limit_range lim (omega arith) (λ e. omega arith)
                y in
            ground (arith, h, x, y, ob, lb)
      ]
    ]

-- A variable query that is accepted names a variable, asks for children or for table rows but not
-- for both, and asks for 1 to 100 rows from row 1 on.
pub parse_variable_query_bounds :
    (args : Fields) (q : VariableQuery)
    → parse_variable_query args ≡ ok q
    → (is_empty q.name ≡ false) × Bounded q
unfolding parse_variable_query
parse_variable_query_bounds args q h =
    let name = trim_space (as_text (field_of (bytes "variable_name") args)) in
    let expand = as_bool (field_of (bytes "expand") args) in
    let off = field_of (bytes "offset") args in
    let lim = field_of (bytes "limit") args in
    let page = with_page-Bounded name expand off lim q in ground (arith, h, page)
