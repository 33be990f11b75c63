-- ===== src/Registration/Samples.antt =====
-- The theorems on registration at concrete tools and names.
use aibap_mcp.Base.{
  true, ◌≡◌, ◌⊎◌, refl, false, not, ◌||◌, none, some, [], ◌∷◌, length, ◌==◌, Text, bytes, text_eq,
  contains, if◌then◌else◌,
}
use aibap_mcp.Registration.{
  strict, prompt, irreversible_tools, meta_requires_user_interaction, yes, Tool, fields_of,
  token_of, annotate, all_groups, parse_tool_groups,
}
use aibap_mcp.Registration.Effects.{annotate_lem, parse_tool_groups_lem}

abbrev delete_tool : Tool
delete_tool = record { name = bytes "delete_object"; meta = none }

annotate_lem_example :
    let t = annotate strict delete_tool in
    (strict ≡ strict
      → contains irreversible_tools delete_tool.name ≡ true
      → (t.name ≡ delete_tool.name)
        × (token_of t ≡ token_of delete_tool)
        × (fields_of t meta_requires_user_interaction ≡ some yes)
        × ((key : Text)
            → text_eq key meta_requires_user_interaction ≡ false
            → fields_of t key ≡ fields_of delete_tool key))
    × ((strict ≡ prompt) ⊎ (contains irreversible_tools delete_tool.name ≡ false) → t ≡ delete_tool)
annotate_lem_example = annotate_lem strict delete_tool

parse_tool_groups_lem_example :
    parse_tool_groups (bytes "source" ∷ bytes "all" ∷ []) (bytes "debug") ≡ (
      if length (bytes "source" ∷ bytes "all" ∷ []) == 0
      then not (text_eq (bytes "debug") (bytes "debug"))
      else contains (bytes "source" ∷ bytes "all" ∷ []) (bytes "debug")
        || contains (bytes "source" ∷ bytes "all" ∷ []) (bytes "all"))
unfolding contains all_groups text_eq
parse_tool_groups_lem_example =
    parse_tool_groups_lem (bytes "source" ∷ bytes "all" ∷ []) (bytes "debug") refl
