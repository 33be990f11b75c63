-- ===== src/Debug/Sessions/Users.antt =====
-- Whose run a debug tool acts on (tools/debugsession.go).
use aibap_mcp.Base.{
  ◌≡◌, inl, inr, refl, false, some, Text, [], ◌∷◌, is_empty, text_eq_iff, trim_space, to_upper,
  to_upper_idem, ok, Result-cases, Option-cases, arith,
}
use aibap_mcp.Debug.State.{TriggerKind, unit_tests, manual, gui, Hint}
use aibap_mcp.Debug.Run.{Run}
use aibap_mcp.Debug.Sessions.{
  Key, Sessions, resolve_user, tests_user, without_hint, run_user, check_run_key, attached_run,
}

to_upper-is_empty : (s : Text) → is_empty (to_upper s) ≡ is_empty s
unfolding to_upper
to_upper-is_empty [] = refl
to_upper-is_empty (c ∷ s) = refl

-- The user whose name stands in upper case is not the empty one.
abbrev pub IsUser : Text → Type 0
IsUser u = (to_upper u ≡ u) × (is_empty u ≡ false)

resolve_user-IsUser :
    (system logon user u : Text) → resolve_user system logon user ≡ ok u → IsUser u
unfolding resolve_user
resolve_user-IsUser system logon user u h = ground (
  arith,
  to_upper_idem (trim_space user),
  to_upper_idem (trim_space logon),
  to_upper-is_empty (trim_space user),
  to_upper-is_empty (trim_space logon),
)

without_hint-IsUser :
    (system logon user u : Text) (hint : Hint)
    → without_hint (resolve_user system logon user) ≡ ok (u, hint)
    → IsUser u
unfolding without_hint
without_hint-IsUser system logon user u hint h =
    elim (Result-cases (resolve_user system logon user)) [
      | inl (v, q) ↦ ground (arith, q, resolve_user-IsUser system logon user v q)
      | inr (e, q) ↦ absurd (ground (arith, q))
    ]

-- A run is made as a user whose name is not empty and in upper case. Unit tests run as the logon
-- user of the system if it is known: another user is refused.
pub run_user_lem :
    (kind : TriggerKind) (system logon user u : Text) (hint : Hint)
    → run_user kind system logon user ≡ ok (u, hint)
    → IsUser u
      × (kind ≡ unit_tests → is_empty (trim_space logon) ≡ false → u ≡ to_upper (trim_space logon))
unfolding run_user tests_user
run_user_lem unit_tests system logon user u hint h = ground (
  arith,
  to_upper_idem (trim_space user),
  to_upper_idem (trim_space logon),
  to_upper-is_empty (trim_space logon),
  text_eq_iff (to_upper (trim_space user)) (to_upper (trim_space logon)),
)
run_user_lem manual system logon user u hint h =
    let v = without_hint-IsUser system logon user u hint h in ground arith
run_user_lem gui system logon user u hint h =
    let v = without_hint-IsUser system logon user u hint h in ground arith

-- The run that a tool acts on while a debuggee is attached: it is the current one, on the active
-- system, and of the user given, if one is given.
pub attached_run_lem :
    (m : Sessions) (system user : Text) (r : Run)
    → attached_run m system user ≡ ok r
    → (key : Key) × (m.run ≡ some (key, r))
      × (key.system ≡ system)
      × (is_empty (trim_space user) ≡ false → key.user ≡ to_upper (trim_space user))
unfolding attached_run check_run_key
attached_run_lem m system user r h = elim (Option-cases m.run) [
  | inl q ↦ absurd (ground (arith, q))
  | inr ((key, s), q) ↦
      let made = text_eq_iff (to_upper (trim_space user)) key.user in
      let there = text_eq_iff system key.system in
      (
        key,
        ground (arith, q),
        ground (arith, q),
        ground (arith, q, to_upper-is_empty (trim_space user)),
      )
]
