-- ===== src/Locks/Tools.antt =====
-- tools/lock.go, tools/lock_list.go and the unlocking of tools/activate.go: the tools on locks.
pub mod Force
pub mod Listing
pub mod Unlock
use aibap_mcp.Base.{
  ℕ, Bool, true, Option, none, some, List, [], ◌∷◌, Text, is_empty, text_eq, cut_byte, sort, length,
  Result, ok, err, if◌then◌else◌, ◌==◌,
}
use aibap_mcp.Locks.Adt.{Adt, LockState, handle_of}
use aibap_mcp.Locks.Session.{
  Error, sap, no_lock_tracked, handle_mismatch, terminating_session, Session, Tracker, track,
  untrack, snapshot, forget_system,
}

pub record LockInfo : Type 0 where
  pub system : Text
  pub uri : Text
  pub lock_handle : Text
  pub etag : Text

-- `steer_to_sm12` says that the message carries the advice for orphaned locks.
pub record ForceUnlockResult : Type 0 where
  pub system : Text
  pub session_reset : Bool
  pub locks_cleared : ℕ
  pub steer_to_sm12 : Bool

pub record LockListResult : Type 0 where
  pub count : ℕ
  pub locks : List LockInfo

info : Text → LockState → LockInfo
info key l =
    let (system, uri) = cut_byte b':' key in
    record { system = system; uri = uri; lock_handle = l.lock_handle; etag = l.etag }

module _ (a : Adt) where
  open a use {get, set, delete, lock_key, lock_object, unlock_object, logout}

  held_infos : a.LockMap → List Text → List LockInfo
  unfolding info
  held_infos m [] = []
  held_infos m (key ∷ keys) =
      let rest = held_infos m keys in elim (get m key) [ none ↦ rest | some l ↦ info key l ∷ rest ]

  pub collect_tracked_locks : Tracker → a.LockMap → LockListResult
  unfolding held_infos
  collect_tracked_locks t m =
      let locks = held_infos m (sort (snapshot t)) in record { count = length locks; locks = locks }

  -- `lock_object`
  unfoldable pub lock_answer :
      Session a → Text → Result a.Failure Text → Result (Error a.Failure) Text × Session a
  lock_answer s uri (err e) = (err (sap e), s)
  lock_answer s uri (ok handle) =
      let key = lock_key s.active uri in
      (
        ok handle,
        record s { lock_map = set s.lock_map key handle []; tracker = track s.tracker key },
      )

  unfoldable pub lock : Session a → Text → Result (Error a.Failure) Text × Session a
  unfolding lock_answer
  lock s uri =
      let (answer, w) = lock_object uri s.world in lock_answer (record s { world = w }) uri answer

  -- `unlock_object`: the guards read the session lock map before SAP is asked.
  unfoldable pub unlock_answer :
      Session a
      → Text
      → Text
      → Result a.Failure (Unit {0})
      → Result (Error a.Failure) Text × Session a
  unlock_answer s key uri (err e) = (err (sap e), s)
  unlock_answer s key uri (ok _) =
      (ok uri, record s { lock_map = delete s.lock_map key; tracker = untrack s.tracker key })

  unfoldable pub send_unlock :
      Session a → Text → Text → Text → Result (Error a.Failure) Text × Session a
  unfolding unlock_answer
  send_unlock s key uri handle =
      let (answer, w) = unlock_object uri handle s.world in
      unlock_answer (record s { world = w }) key uri answer

  unfoldable pub unlock_state :
      Session a → Text → Text → Text → Option LockState → Result (Error a.Failure) Text × Session a
  unfolding send_unlock
  unlock_state s key uri handle none = (err (no_lock_tracked uri), s)
  unlock_state s key uri handle (some l) =
      if is_empty handle
      then send_unlock s key uri l.lock_handle
      else if text_eq handle l.lock_handle
      then send_unlock s key uri handle
      else (err (handle_mismatch uri), s)

  unfoldable pub unlock : Session a → Text → Text → Result (Error a.Failure) Text × Session a
  unfolding unlock_state
  unlock s uri handle =
      let key = lock_key s.active uri in unlock_state s key uri handle (get s.lock_map key)

  -- `force_unlock`
  unfoldable pub logout_answer :
      Session a
      → Result a.Failure (Unit {0})
      → Result (Error a.Failure) ForceUnlockResult × Session a
  logout_answer s (err e) = (err (terminating_session s.active e), s)
  logout_answer s (ok _) =
      let (t, m, cleared) = forget_system a s.tracker s.lock_map s.active in
      (
        ok (record {
          system = s.active;
          session_reset = true;
          locks_cleared = cleared;
          steer_to_sm12 = cleared == 0;
        }),
        record s { tracker = t; lock_map = m },
      )

  unfoldable pub force_unlock : Session a → Result (Error a.Failure) ForceUnlockResult × Session a
  unfolding logout_answer
  force_unlock s = let (answer, w) = logout s.world in logout_answer (record s { world = w }) answer

  -- `unlockBeforeActivate`: the answer of the unlock is ignored.
  unfoldable pub unlock_one : Session a → Text → Text → Text → Session a
  unlock_one s key uri handle =
      let (_, w) = unlock_object uri handle s.world in
      record s { world = w; lock_map = delete s.lock_map key; tracker = untrack s.tracker key }

  unfoldable pub unlock_before_activate : Session a → List Text → Session a
  unfolding unlock_one
  unlock_before_activate s [] = s
  unlock_before_activate s (uri ∷ uris) =
      let key = lock_key s.active uri in
      let handle = handle_of (get s.lock_map key) in
      unlock_before_activate (if is_empty handle then s else unlock_one s key uri handle) uris
