-- ===== src/AbapGit/Checked.antt =====
-- What the lists of objects are after decoding, and what a push sends.
use aibap_mcp.Base.{
  ℕ, suc, ◌≡◌, refl, inl, inr, Bool, true, false, ◌&&◌, not, Option, none, some, List, [], ◌∷◌,
  Text, bytes, text_eq, trim_space, is_empty, length, all, contains, distinct, text_eq_iff, Result,
  ok, Result-cases, arith,
}
use aibap_mcp.Debug.Values.{
  Value, null, bool, object, list, Values, no_values, value, Fields, no_fields, field, field_of,
  as_text,
}
use aibap_mcp.Errors.{Failure}
use aibap_mcp.Customizing.{has_none}
use aibap_mcp.Params.{Request}
use aibap_mcp.AbapGit.{
  decode_list, set_field, check_fields, decode_entry, decode_entries, PushRequest, SyncClient,
}

unfoldable pub values_length : Values → ℕ
values_length no_values = 0
values_length (value v vs) = suc (values_length vs)

-- The flag that a value stands for, if it is one.
unfoldable pub flag_of : Value → Option Bool
flag_of null = some false
flag_of (bool b) = some b
flag_of _ = none

-- A field has a text that is not blank.
unfoldable pub present : Fields → Text → Bool
present entry f = not (is_empty (trim_space (as_text (field_of f entry))))

field_of-set_field :
    (f g v : Text) (entry : Fields)
    → text_eq f g ≡ false
    → field_of g (set_field f v entry) ≡ field_of g entry
unfolding field_of set_field
field_of-set_field f g v no_fields h = refl
field_of-set_field f g v (field k u fs) h =
    ground (arith, text_eq_iff k f, text_eq_iff k g, text_eq_iff f g, field_of-set_field f g v fs h)

all-set_field :
    (f v : Text) (entry : Fields) (gs : List Text)
    → contains gs f ≡ false
    → all (present (set_field f v entry)) gs ≡ all (present entry) gs
unfolding all contains present
all-set_field f v entry [] h = refl
all-set_field f v entry (g ∷ gs) h = ground (
  arith,
  text_eq_iff f g,
  text_eq_iff g f,
  field_of-set_field f g v entry,
  all-set_field f v entry gs,
)

check_fields_lem :
    (name : Text) (i : ℕ) (required : List Text) (entry checked : Fields)
    → distinct required ≡ true
    → check_fields name i required entry ≡ ok checked
    → all (present entry) required ≡ true
unfolding check_fields all present distinct
check_fields_lem name i [] entry checked d h = refl
check_fields_lem name i (f ∷ required) entry checked d h =
    let v = trim_space (as_text (field_of f entry)) in
    ground (
      arith,
      d,
      h,
      all-set_field f v entry required,
      check_fields_lem name i required (set_field f v entry) checked,
    )

-- An object, or a list of objects, in which the required fields are present.
unfoldable pub entry_complete : List Text → Value → Bool
entry_complete required (object entry) = all (present entry) required
entry_complete required _ = false

unfoldable pub complete : List Text → Values → Bool
unfolding entry_complete
complete required no_values = true
complete required (value v vs) = entry_complete required v && complete required vs

unfoldable pub is_complete : List Text → Value → Bool
unfolding complete
is_complete required null = true
is_complete required (list vs) = complete required vs
is_complete required _ = false

unfoldable pub count_of : Value → ℕ
unfolding values_length
count_of (list vs) = values_length vs
count_of _ = 0

module _ {T : Type 0} (unmarshal : Fields → Result Failure T) where
  decode_entry_lem :
      (name : Text) (i : ℕ) (required : List Text) (v : Value) (x : T)
      → distinct required ≡ true
      → decode_entry unmarshal name i required v ≡ ok x
      → entry_complete required v ≡ true
  unfolding decode_entry entry_complete
  decode_entry_lem name i required (object entry) x d h =
      elim (Result-cases (check_fields name i required entry)) [
        | inl (checked, q) ↦ check_fields_lem name i required entry checked d q
        | inr (_, q) ↦ absurd (ground (arith, q, h))
      ]
  decode_entry_lem name i required v x d h = ground (arith, h)

  decode_entries_lem :
      (name : Text) (i : ℕ) (required : List Text) (vs : Values) (out : List T)
      → distinct required ≡ true
      → decode_entries unmarshal name i required vs ≡ ok out
      → (length out ≡ values_length vs) × (complete required vs ≡ true)
  unfolding decode_entries complete values_length
  decode_entries_lem name i required no_values out d h = ground (arith, h)
  decode_entries_lem name i required (value v vs) out d h =
      elim (Result-cases (decode_entry unmarshal name i required v)) [
        | inl (x, q) ↦ elim (Result-cases (decode_entries unmarshal name (suc i) required vs)) [
          | inl (xs, r) ↦ ground (
            arith,
            q,
            r,
            h,
            decode_entry_lem name i required v x d q,
            decode_entries_lem name (suc i) required vs xs d r,
          )
          | inr (_, r) ↦ absurd (ground (arith, q, r, h))
        ]
        | inr (_, q) ↦ absurd (ground (arith, q, h))
      ]

  -- `decodeArgList` gives one entry per object of the argument, and only if the argument is absent
  -- or a list of objects in each of which every required field is there and not blank.
  pub decode_list_lem :
      (name : Text) (required : List Text) (v : Value) (out : List T)
      → distinct required ≡ true
      → decode_list unmarshal name required v ≡ ok out
      → (length out ≡ count_of v) × (is_complete required v ≡ true)
  unfolding decode_list count_of is_complete
  decode_list_lem name required (list vs) out d h = decode_entries_lem name 0 required vs out d h
  decode_list_lem name required null out d h = ground (arith, h)
  decode_list_lem name required v out d h = absurd (ground (arith, h))

module _ {W C O A : Type 0} (client : SyncClient W C O A) where
  open client use {push_repo, object_ref_of}

  -- The arguments of a push, once they are checked.
  pub record IsPush (req : Request) (push : PushRequest O) : Type 0 where
    pub has_repo : is_empty push.repo ≡ false
    pub has_message : is_empty push.message ≡ false
    pub has_objects : has_none push.objects ≡ false
    pub objects_complete :
        is_complete (bytes "obj_type" ∷ bytes "obj_name" ∷ []) (req.arguments (bytes "objects"))
        ≡ true
    pub dry_run_given : flag_of (req.arguments (bytes "dry_run")) ≡ some push.dry_run
