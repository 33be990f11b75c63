-- ===== src/Locks/Tools/Unlock.antt =====
-- What `unlock_object` and the unlocking before an activation do (tools/lock.go,
-- tools/activate.go).
use aibap_mcp.Base.{
  ◌≡◌, ◌⊎◌, refl, true, false, not, ◌&&◌, Option, some, none, List, [], ◌∷◌, Text, text_eq,
  text_eq_iff, text_eq_refl, is_empty, if◌then◌else◌, Result, ok, err, Result-cases, is_ok,
  Bool-cases, inl, inr, arith, contains,
}
use mathlib.Core.List.{map}
use aibap_mcp.Locks.Adt.{Adt, AdtLaws, handle_of, LockState}
use aibap_mcp.Locks.Session.{Session, Error, tracked}
use aibap_mcp.Locks.WriteLock.Resolve.{tracked-untrack}
use aibap_mcp.Locks.Tools.{
  unlock, unlock_state, send_unlock, unlock_answer, unlock_one, unlock_before_activate,
}

module _ (a : Adt) (l : AdtLaws a) where
  unlock_answer_success :
      (s : Session a) (key uri u : Text) (x : Result a.Failure (Unit {0}))
      → (unlock_answer a s key uri x).0 ≡ ok u
      → (is_ok x ≡ true)
        × (a.get (unlock_answer a s key uri x).1.lock_map key ≡ none)
        × (tracked (unlock_answer a s key uri x).1.tracker key ≡ false)
  unfolding unlock_answer
  unlock_answer_success s key uri u (err e) h = cc
  unlock_answer_success s key uri u (ok _) h =
      ground (
        arith,
        l.get-delete s.lock_map key key,
        tracked-untrack s.tracker key key,
        text_eq_refl key,
      )

  send_unlock_success :
      (s : Session a) (key uri handle u : Text)
      → (send_unlock a s key uri handle).0 ≡ ok u
      → (is_ok (a.unlock_object uri handle s.world).0 ≡ true)
        × (a.get (send_unlock a s key uri handle).1.lock_map key ≡ none)
        × (tracked (send_unlock a s key uri handle).1.tracker key ≡ false)
  unfolding send_unlock
  send_unlock_success s key uri handle u h = unlock_answer_success _ key uri u _ h

  abbrev pub Unlocked : Session a → Text → Text → Text → LockState → Session a → Type 0
  Unlocked s key uri given st s' =
      ((given ≡ []) ⊎ (given ≡ st.lock_handle))
      × (is_ok (a.unlock_object uri st.lock_handle s.world).0 ≡ true)
      × (a.get s'.lock_map key ≡ none)
      × (tracked s'.tracker key ≡ false)

  unlock_state_success :
      (s : Session a) (key uri given u : Text) (x : Option LockState)
      → (unlock_state a s key uri given x).0 ≡ ok u
      → (st : LockState) × (x ≡ some st)
        × (Unlocked s key uri given st (unlock_state a s key uri given x).1)
  unfolding unlock_state
  unlock_state_success s key uri given u none h = cc
  unlock_state_success s key uri [] u (some st) h =
      let (p, q, r) = send_unlock_success s key uri st.lock_handle u h in
      (st, refl, (inl refl, p, q, r))
  unlock_state_success s key uri (c ∷ cs) u (some st) h =
      elim (Bool-cases (text_eq (c ∷ cs) st.lock_handle)) [
        | inl same ↦
            let e = (text_eq_iff (c ∷ cs) st.lock_handle).0 same in
            let sent = send_unlock_success s key uri (c ∷ cs) u in
            (
              st,
              refl,
              (
                inr e,
                ground (arith, e, same, sent),
                ground (arith, e, same, sent),
                ground (arith, e, same, sent),
              ),
            )
        | inr other ↦ absurd (ground arith)
      ]

  -- If `unlock_object` succeeds, the lock map had a handle for the object, SAP accepted the unlock
  -- of exactly that handle, the caller gave none or the same one, and afterwards the object is
  -- neither in the lock map nor tracked.
  pub unlock_success :
      (s : Session a) (uri given u : Text)
      → (unlock a s uri given).0 ≡ ok u
      → let key = a.lock_key s.active uri in
        (st : LockState) × (a.get s.lock_map key ≡ some st)
        × (Unlocked s key uri given st (unlock a s uri given).1)
  unfolding unlock
  unlock_success s uri given u h =
      let key = a.lock_key s.active uri in
      unlock_state_success s key uri given u (a.get s.lock_map key) h

  -- If `unlock_object` fails, the lock map and the tracker are as they were.
  pub unlock_failure :
      (s : Session a) (uri given : Text) (e : Error a.Failure)
      → (unlock a s uri given).0 ≡ err e
      → ((unlock a s uri given).1.lock_map ≡ s.lock_map)
        × ((unlock a s uri given).1.tracker ≡ s.tracker)
  unfolding unlock unlock_state send_unlock unlock_answer
  unlock_failure s uri given e h = ground arith

  -- If `unlock_object` succeeds, the lock map had a handle for the object, SAP accepted the unlock
  -- of exactly that handle, the caller gave none or the same one, and afterwards the object is
  -- neither in the lock map nor tracked. If it fails, the lock map and the tracker are as they were.
  pub unlock_lem :
      (s : Session a) (uri given : Text)
      → let key = a.lock_key s.active uri in
        let (answer, s') = unlock a s uri given in
        ((u : Text) × (answer ≡ ok u)
          × (st : LockState) × (a.get s.lock_map key ≡ some st)
          × (Unlocked s key uri given st s'))
        ⊎ ((e : Error a.Failure) × (answer ≡ err e)
            × (s'.lock_map ≡ s.lock_map)
            × (s'.tracker ≡ s.tracker))
  unlock_lem s uri given = elim (Result-cases (unlock a s uri given).0) [
    | inl (u, q) ↦ let (st, h, d) = unlock_success s uri given u q in inl (u, q, st, h, d)
    | inr (e, q) ↦ let (m, t) = unlock_failure s uri given e q in inr (e, q, m, t)
  ]

  world-unlock_answer :
      (s : Session a) (key uri : Text) (x : Result a.Failure (Unit {0}))
      → (unlock_answer a s key uri x).1.world ≡ s.world
  unfolding unlock_answer
  world-unlock_answer s key uri (err e) = refl
  world-unlock_answer s key uri (ok _) = refl

  world-send_unlock :
      (s : Session a) (key uri handle : Text)
      → (send_unlock a s key uri handle).1.world ≡ (a.unlock_object uri handle s.world).1
  unfolding send_unlock
  world-send_unlock s key uri handle = world-unlock_answer _ key uri _

  -- No request, or the unlock of the handle of the entry `x`.
  abbrev pub AsksOwn : Session a → Text → Text → Option LockState → Session a → Type 0
  AsksOwn s uri given x s' =
      (s'.world ≡ s.world)
      ⊎ ((st : LockState) × (x ≡ some st)
          × ((given ≡ []) ⊎ (given ≡ st.lock_handle))
          × (s'.world ≡ (a.unlock_object uri st.lock_handle s.world).1))

  unlock_state_asks :
      (s : Session a) (key uri given : Text) (x : Option LockState)
      → AsksOwn s uri given x (unlock_state a s key uri given x).1
  unfolding unlock_state
  unlock_state_asks s key uri given none = inl refl
  unlock_state_asks s key uri [] (some st) =
      inr (st, refl, inl refl, world-send_unlock s key uri st.lock_handle)
  unlock_state_asks s key uri (c ∷ cs) (some st) =
      elim (Bool-cases (text_eq (c ∷ cs) st.lock_handle)) [
        | inl same ↦
            let e = (text_eq_iff (c ∷ cs) st.lock_handle).0 same in
            inr (st, refl, inr e, ground (arith, e, same, world-send_unlock s key uri (c ∷ cs)))
        | inr other ↦ inl (ground (arith, other))
      ]

  -- The only request that `unlock_object` ever sends is the unlock of the handle that the lock map
  -- has for the object; if there is none, or the caller gave another handle, SAP is not asked.
  pub unlock_sends_own :
      (s : Session a) (uri given : Text)
      → AsksOwn s uri given (a.get s.lock_map (a.lock_key s.active uri)) (unlock a s uri given).1
  unfolding unlock
  unlock_sends_own s uri given =
      unlock_state_asks s (a.lock_key s.active uri) uri given
        (a.get s.lock_map (a.lock_key s.active uri))

  -- One round of the loop before an activation.
  abbrev pub round : Session a → Text → Session a
  round s uri =
      let key = a.lock_key s.active uri in
      let handle = handle_of (a.get s.lock_map key) in
      if is_empty handle then s else unlock_one a s key uri handle

  pub get-round :
      (s : Session a) (uri j : Text)
      → a.get (round s uri).lock_map j ≡ (
          if text_eq (a.lock_key s.active uri) j && not (is_empty (handle_of (a.get s.lock_map j)))
          then none
          else a.get s.lock_map j)
  unfolding unlock_one
  get-round s uri j = ground (
    arith,
    l.get-delete s.lock_map (a.lock_key s.active uri) j,
    text_eq_iff (a.lock_key s.active uri) j,
  )

  pub active-round : (s : Session a) (uri : Text) → (round s uri).active ≡ s.active
  unfolding unlock_one
  active-round s uri = ground arith

  -- Before an activation exactly the entries with a handle of the listed objects leave the lock
  -- map, whether SAP accepted the unlock or not; every other entry stays.
  pub unlock_before_activate_exact :
      (s : Session a) (uris : List Text) (j : Text)
      → a.get (unlock_before_activate a s uris).lock_map j ≡ (
          if contains (map (a.lock_key s.active) uris) j
            && not (is_empty (handle_of (a.get s.lock_map j)))
          then none
          else a.get s.lock_map j)
  unfolding unlock_before_activate contains
  unlock_before_activate_exact s [] j = refl
  unlock_before_activate_exact s (uri ∷ uris) j =
      let ih = unlock_before_activate_exact (round s uri) uris j in
      let ih' = rw (active-round s uri) at ih in ground (arith, ih', get-round s uri j)
