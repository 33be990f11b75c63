-- ===== src/Registration/Effects.antt =====
-- What the consent mode and the group names make of the tools (tools/consent.go, tools/register.go).
use aibap_mcp.Base.{
  ◌≡◌, ◌⊎◌, refl, true, false, not, ◌||◌, some, List, [], ◌∷◌, length, ◌==◌, Text, bytes, text_eq,
  text_eq_iff, contains, ok, if◌then◌else◌, arith,
}
use mathlib.Core.Logic.{◌↔◌}
use aibap_mcp.Registration.{
  ConsentMode, strict, prompt, parse_consent_mode, irreversible_tools,
  meta_requires_user_interaction, yes, Tool, fields_of, token_of, marked, annotate, all_groups,
  is_default_off, Groups, default_groups, no_groups, with_group, with_all, add_names,
  parse_tool_groups,
}

-- Only the word "prompt" turns the annotations off; the mode is strict for no word and for "strict",
-- and any other word is an error.
pub parse_consent_mode_lem :
    (s : Text)
    → ((parse_consent_mode s ≡ ok prompt) ↔ (s ≡ bytes "prompt"))
      × ((parse_consent_mode s ≡ ok strict) ↔ ((s ≡ []) ⊎ (s ≡ bytes "strict")))
unfolding parse_consent_mode
parse_consent_mode_lem s =
    ground (arith, text_eq_iff s (bytes "strict"), text_eq_iff s (bytes "prompt"))

marked_lem :
    (t : Tool)
    → ((marked t).name ≡ t.name)
      × (token_of (marked t) ≡ token_of t)
      × (fields_of (marked t) meta_requires_user_interaction ≡ some yes)
      × ((key : Text)
          → text_eq key meta_requires_user_interaction ≡ false
          → fields_of (marked t) key ≡ fields_of t key)
unfolding marked fields_of token_of text_eq
marked_lem t = (refl, refl, refl, λ key q. ground (arith, q))

annotate_strict :
    (t : Tool)
    → contains irreversible_tools t.name ≡ true
    → let t' = annotate strict t in
      (t'.name ≡ t.name)
      × (token_of t' ≡ token_of t)
      × (fields_of t' meta_requires_user_interaction ≡ some yes)
      × ((key : Text)
          → text_eq key meta_requires_user_interaction ≡ false
          → fields_of t' key ≡ fields_of t key)
unfolding annotate
annotate_strict t h =
    let e : annotate strict t ≡ marked t = ground (arith, h) in rw e (marked_lem t)

annotate_other :
    (mode : ConsentMode) (t : Tool)
    → (mode ≡ prompt) ⊎ (contains irreversible_tools t.name ≡ false)
    → annotate mode t ≡ t
unfolding annotate
annotate_other mode t h = ground arith

-- In strict mode a tool that cannot be undone asks for the user on every call, and its name, its
-- progress token and its other meta fields are as they were. Every other tool, and every tool in
-- prompt mode, is registered as it is.
pub annotate_lem :
    (mode : ConsentMode) (t : Tool)
    → let t' = annotate mode t in
      (mode ≡ strict
        → contains irreversible_tools t.name ≡ true
        → (t'.name ≡ t.name)
          × (token_of t' ≡ token_of t)
          × (fields_of t' meta_requires_user_interaction ≡ some yes)
          × ((key : Text)
              → text_eq key meta_requires_user_interaction ≡ false
              → fields_of t' key ≡ fields_of t key))
      × ((mode ≡ prompt) ⊎ (contains irreversible_tools t.name ≡ false) → t' ≡ t)
annotate_lem strict t = (λ q h. annotate_strict t h, annotate_other strict t)
annotate_lem prompt t = (λ q h. absurd (ground arith), annotate_other prompt t)

add_names_lem :
    (names : List Text) (gs : Groups) (g : Text)
    → contains all_groups g ≡ true
    → add_names names gs g ≡ (gs g || (contains names g || contains names (bytes "all")))
unfolding add_names with_group with_all contains
add_names_lem [] gs g h = ground arith
add_names_lem (name ∷ names) gs g h = ground (
  arith,
  add_names_lem names (with_group name gs) g,
  text_eq_iff name (bytes "all"),
  text_eq_iff name g,
)

-- A group is enabled if it is named or "all" is; with no name, every group but "debug" is.
pub parse_tool_groups_lem :
    (names : List Text) (g : Text)
    → contains all_groups g ≡ true
    → parse_tool_groups names g ≡ (
        if length names == 0
        then not (text_eq g (bytes "debug"))
        else contains names g || contains names (bytes "all"))
unfolding parse_tool_groups default_groups is_default_off no_groups contains
parse_tool_groups_lem [] g h = ground (arith, h)
parse_tool_groups_lem (name ∷ names) g h =
    ground (arith, add_names_lem (name ∷ names) no_groups g h)
