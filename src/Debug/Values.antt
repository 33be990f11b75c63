-- ===== src/Debug/Values.antt =====
-- Decoded JSON values, and `intArg` of tools/debugrun_args.go.
use aibap_mcp.Base.{
  ℕ, suc, Bool, false, ◌||◌, Option, none, some, [], Text, text_eq, if◌then◌else◌, ltb,
}

pub data ℤ : Type 0 where
  pos negsuc : ℕ → ℤ

-- A `float64`, by what `intArg` asks of it.
pub data Float : Type 0 where
  nan infinite fraction : Float
  whole : ℤ → Float

-- Go's `any`, as JSON decodes to it, and the integer types that `intArg` also takes.
mutual
  pub data Value : Type 0 where
    null : Value
    bool : Bool → Value
    float64 : Float → Value
    int int64 : ℤ → Value
    string : Text → Value
    list : Values → Value
    object : Fields → Value

  pub data Values : Type 0 where
    no_values : Values
    value : Value → Values → Values

  pub data Fields : Type 0 where
    no_fields : Fields
    field : Text → Value → Fields → Fields

-- `m[key]`, whose zero value is nil.
unfoldable pub field_of : Text → Fields → Value
field_of key no_fields = null
field_of key (field k v fs) = let rest = field_of key fs in if text_eq k key then v else rest

unfoldable pub as_text : Value → Text
as_text (string s) = s
as_text _ = []

-- 2 ^ 53
max_float_int : ℕ
max_float_int = 9007199254740992

magnitude : ℤ → ℕ
magnitude (pos n) = n
magnitude (negsuc n) = suc n

-- `intArg`
unfoldable pub int_arg : Value → Option ℤ
unfolding magnitude max_float_int
int_arg (float64 (whole n)) = if ltb max_float_int (magnitude n) then none else some n
int_arg (int n) = some n
int_arg (int64 n) = some n
int_arg _ = none

-- A whole number in a range.
unfoldable pub int_between : ℕ → Option ℕ → Value → Option ℕ
int_between low high v = elim (int_arg v) [
  | none ↦ none
  | some (negsuc _) ↦ none
  | some (pos n) ↦
      if ltb n low || (elim high [ none ↦ false | some h ↦ ltb h n ]) then none else some n
]
