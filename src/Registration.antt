-- ===== src/Registration.antt =====
-- Which tools are registered, and how: tools/consent.go and the groups of tools/register.go.
pub mod Effects
pub mod Samples
use aibap_mcp.Base.{
  ◌≡◌, Bool, true, false, not, ◌&&◌, ◌||◌, Option, none, some, List, [], ◌∷◌, Text, bytes, text_eq,
  is_empty, contains, Result, ok, err, if◌then◌else◌,
}

-- `ConsentMode`
pub data ConsentMode : Type 0 where
  strict prompt : ConsentMode

pub data ConsentError : Type 0 where
  unknown_consent_mode : Text → ConsentError

-- `ParseConsentMode`
unfoldable pub parse_consent_mode : Text → Result ConsentError ConsentMode
parse_consent_mode s =
    if is_empty s
    then ok strict
    else if text_eq s (bytes "strict")
    then ok strict
    else if text_eq s (bytes "prompt")
    then ok prompt
    else err (unknown_consent_mode s)

-- `irreversibleTools`
unfoldable pub irreversible_tools : List Text
irreversible_tools =
    bytes "delete_object"
    ∷ bytes "delete_transport"
    ∷ bytes "release_transport"
    ∷ bytes "rollback_transport"
    ∷ bytes "run_class"
    ∷ bytes "update_customizing"
    ∷ bytes "abapgit_pull"
    ∷ bytes "abapgit_push"
    ∷ []

-- `MetaRequiresUserInteraction`
abbrev pub meta_requires_user_interaction : Text
meta_requires_user_interaction = bytes "anthropic/requiresUserInteraction"

-- A value of a meta field: the Boolean `true`, or another one, which is not looked at.
pub data MetaValue : Type 0 where
  yes : MetaValue
  other : Text → MetaValue

-- What `annotate` reads and writes of an `mcp.Tool`.
pub record Meta : Type 0 where
  pub progress_token : Option Text
  pub additional_fields : Text → Option MetaValue

pub record Tool : Type 0 where
  pub name : Text
  pub meta : Option Meta

pub fields_of : Tool → Text → Option MetaValue
fields_of t key = elim t.meta [ none ↦ none | some m ↦ m.additional_fields key ]

pub token_of : Tool → Option Text
token_of t = elim t.meta [ none ↦ none | some m ↦ m.progress_token ]

marked : Tool → Tool
marked t = record t {
  meta = some (record {
    progress_token = token_of t;
    additional_fields =
        λ key. if text_eq key meta_requires_user_interaction then some yes else fields_of t key;
  });
}

is_prompt : ConsentMode → Bool
is_prompt prompt = true
is_prompt strict = false

-- `annotate`
unfoldable pub annotate : ConsentMode → Tool → Tool
unfolding marked is_prompt
annotate mode t = if is_prompt mode || not (contains irreversible_tools t.name) then t else marked t

-- `AllGroups`
unfoldable pub all_groups : List Text
all_groups =
    bytes "source"
    ∷ bytes "code-intelligence"
    ∷ bytes "objects"
    ∷ bytes "version"
    ∷ bytes "locking"
    ∷ bytes "testing"
    ∷ bytes "messages"
    ∷ bytes "shortdumps"
    ∷ bytes "transport"
    ∷ bytes "enhancements"
    ∷ bytes "debug"
    ∷ bytes "export"
    ∷ bytes "system"
    ∷ []

-- `defaultOffGroups`
pub is_default_off : Text → Bool
is_default_off g = text_eq g (bytes "debug")

-- Go's map of the enabled groups, by its lookup.
abbrev pub Groups : Type 0
Groups = Text → Bool

-- `DefaultGroups`
pub default_groups : Groups
unfolding is_default_off
default_groups g = contains all_groups g && not (is_default_off g)

no_groups : Groups
no_groups g = false

with_group : Text → Groups → Groups
with_group name gs g = text_eq name g || gs g

with_all : Groups → Groups
with_all gs g = contains all_groups g || gs g

-- The loop of `ParseToolGroups`, which returns at "all".
add_names : List Text → Groups → Groups
unfolding with_group with_all
add_names [] gs g = gs g
add_names (name ∷ names) gs g =
    let rest = add_names names (with_group name gs) g in
    if text_eq name (bytes "all") then with_all gs g else rest

-- `ParseToolGroups`
unfoldable pub parse_tool_groups : List Text → Groups
unfolding add_names default_groups no_groups
parse_tool_groups [] g = default_groups g
parse_tool_groups (name ∷ names) g = add_names (name ∷ names) no_groups g
