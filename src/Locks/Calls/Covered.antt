-- ===== src/Locks/Calls/Covered.antt =====
-- Every handle in the lock map is tracked, under every sequence of tool calls: what `list_locks` shows
-- and `force_unlock` clears is all that the process holds.
use aibap_mcp.Base.{
  ◌≡◌, ◌∙◌, ◌++◌, starts_with, ◌⊎◌, Option, refl, ap, Bool, true, false, not, ◌&&◌, ◌||◌, some,
  none, List, [], ◌∷◌, Text, text_eq, text_eq_refl, text_eq_iff, is_empty, is_some, contains,
  contains-keep, Result, ok, err, Result-cases, Bool-cases, inl, inr, arith,
}
use aibap_mcp.Locks.Adt.{Adt, AdtLaws, LockState, handle_of}
use aibap_mcp.Locks.Session.{Session, Tracker, tracked, track, untrack, snapshot}
use aibap_mcp.Locks.WriteLock.Resolve.{tracked-track, tracked-untrack, tracked_ne}
use aibap_mcp.Locks.WriteLock.{
  release_auto_lock, after_unlock, store_lock, etag_of, reuse_or_lock, take_resolved,
  tracked_handle, relock, without_explicit, is_ecc, resolve_write_lock_handle,
}
use aibap_mcp.Locks.Session.{forget_system}
use aibap_mcp.Locks.Session.Forget.{snapshot-forget_system, get-forget_system}
use aibap_mcp.Locks.Tools.{
  lock, lock_answer, unlock, unlock_state, send_unlock, unlock_answer, force_unlock, logout_answer,
  unlock_one, unlock_before_activate,
}

contains-tracked : (t : Tracker) (j : Text) → contains (snapshot t) j ≡ tracked t j
unfolding tracked
contains-tracked t j = refl

tracked_own : (t : Tracker) (k : Text) → is_some t ≡ true → tracked (track t k) k ≡ true
tracked_own none k h = cc
tracked_own (some keys) k h = ground (arith, tracked-track keys k k, text_eq_refl k)

is_some-track : (t : Tracker) (k : Text) → is_some (track t k) ≡ is_some t
unfolding track
is_some-track none k = refl
is_some-track (some keys) k = refl

is_some-untrack : (t : Tracker) (k : Text) → is_some (untrack t k) ≡ is_some t
unfolding untrack
is_some-untrack none k = refl
is_some-untrack (some keys) k = refl

module _ (a : Adt) where
  -- There is a tracker, and the key `j` is tracked unless its handle is empty.
  abbrev pub CoveredBy : Text → a.LockMap → Tracker → Type 0
  CoveredBy j m t = (is_some t ≡ true) × ((is_empty (handle_of (a.get m j)) || tracked t j) ≡ true)

  abbrev pub Covered : Text → Session a → Type 0
  Covered j s = CoveredBy j s.lock_map s.tracker

module _ (a : Adt) (l : AdtLaws a) where
  -- A lock of the key `k` is tracked; at other keys the map's handle is the same.
  pub took :
      (m m' : a.LockMap) (t : Tracker) (k j : Text)
      → (text_eq k j ≡ false → handle_of (a.get m' j) ≡ handle_of (a.get m j))
      → CoveredBy a j m t
      → CoveredBy a j m' (track t k)
  took m m' t k j same (some_before, covered) = (
    is_some-track t k ∙ some_before,
    elim (Bool-cases (text_eq k j)) [
      | inl q ↦
          let own = tracked_own t k some_before in
          let here = (text_eq_iff k j).0 q in ground (arith, own, here)
      | inr q ↦ ground (arith, tracked_ne t k j q, same q, covered)
    ],
  )

  -- The key `k` is deleted and no longer tracked.
  gave :
      (m : a.LockMap) (t : Tracker) (k j : Text)
      → CoveredBy a j m t
      → CoveredBy a j (a.delete m k) (untrack t k)
  gave m t k j (some_before, covered) = (
    is_some-untrack t k ∙ some_before,
    ground (arith, l.get-delete m k j, tracked-untrack t k j, covered),
  )

  pub kept :
      (m m' : a.LockMap) (t : Tracker) (j : Text)
      → handle_of (a.get m' j) ≡ handle_of (a.get m j)
      → CoveredBy a j m t
      → CoveredBy a j m' t
  kept m m' t j same (some_before, covered) = (some_before, ground (arith, same, covered))

  pub lock-Covered : (s : Session a) (uri j : Text) → Covered a j s → Covered a j (lock a s uri).1
  unfolding lock lock_answer
  lock-Covered s uri j h = elim (Result-cases (a.lock_object uri s.world).0) [
    | inl (handle, q) ↦
        let k = a.lock_key s.active uri in
        rw (q, lock, lock_answer)
          (took s.lock_map _ s.tracker k j
            (λ ne. ground (arith, l.get-set s.lock_map k handle [] j, ne)) h)
    | inr (e, q) ↦ rw (q, lock, lock_answer) h
  ]

  unlock_answer-Covered :
      (s : Session a) (k uri j : Text) (x : Result a.Failure (Unit {0}))
      → Covered a j s
      → Covered a j (unlock_answer a s k uri x).1
  unfolding unlock_answer
  unlock_answer-Covered s k uri j (err e) h = h
  unlock_answer-Covered s k uri j (ok _) h = gave s.lock_map s.tracker k j h

  pub unlock-Covered :
      (s : Session a) (uri given j : Text) → Covered a j s → Covered a j (unlock a s uri given).1
  unfolding unlock
  unlock-Covered s uri given j h = go given (a.get s.lock_map (a.lock_key s.active uri))
    where
      k : Text
      k = a.lock_key s.active uri

      go : (given : Text) (x : Option LockState) → Covered a j (unlock_state a s k uri given x).1
      go given none = unfold unlock_state in h
      go [] (some st) = unfold unlock_state send_unlock in unlock_answer-Covered _ k uri j _ h
      go (c ∷ cs) (some st) = elim (Bool-cases (text_eq (c ∷ cs) st.lock_handle)) [
        | inl q ↦ rw (unlock_state, q, send_unlock) (unlock_answer-Covered _ k uri j _ h)
        | inr q ↦ rw (unlock_state, q) h
      ]

  is_some-forget :
      (t : Tracker) (m : a.LockMap) (system : Text)
      → is_some t ≡ true
      → is_some (forget_system a t m system).0 ≡ true
  unfolding forget_system
  is_some-forget none m system h = cc
  is_some-forget (some keys) m system h = refl

  tracked-forget :
      (t : Tracker) (m : a.LockMap) (system j : Text)
      → tracked (forget_system a t m system).0 j
        ≡ (not (starts_with (system ++ b':' ∷ []) j) && tracked t j)
  unfolding tracked
  tracked-forget t m system j = rw (snapshot-forget_system a t m system) (
      ground (arith, contains-keep (λ k. not (starts_with (system ++ b':' ∷ []) k)) j (snapshot t)))

  pub force-Covered : (s : Session a) (j : Text) → Covered a j s → Covered a j (force_unlock a s).1
  unfolding force_unlock logout_answer
  force-Covered s j (some_before, covered) = elim (Result-cases (a.logout s.world).0) [
    | inr (e, q) ↦ rw (q, force_unlock, logout_answer) (some_before, covered)
    | inl (_, q) ↦
        rw (q, force_unlock, logout_answer)
          (
            is_some-forget s.tracker s.lock_map s.active some_before,
            ground (
              arith,
              get-forget_system a l s.tracker s.lock_map s.active j,
              tracked-forget s.tracker s.lock_map s.active j,
              contains-tracked s.tracker j,
              covered,
            ),
          )
  ]

  round-Covered :
      (s : Session a) (k uri handle j : Text)
      → Covered a j s
      → Covered a j (unlock_one a s k uri handle)
  unfolding unlock_one
  round-Covered s k uri handle j h = gave s.lock_map s.tracker k j h

  pub activate-Covered :
      (s : Session a) (uris : List Text) (j : Text)
      → Covered a j s
      → Covered a j (unlock_before_activate a s uris)
  unfolding unlock_before_activate
  activate-Covered s [] j h = h
  activate-Covered s (uri ∷ uris) j h =
      let k = a.lock_key s.active uri in
      let handle = handle_of (a.get s.lock_map k) in
      elim (Bool-cases (is_empty handle)) [
        | inl q ↦ rw (unlock_before_activate, q) (activate-Covered s uris j h)
        | inr q ↦
            rw (unlock_before_activate, q)
              (activate-Covered (unlock_one a s k uri handle) uris j
                (round-Covered s k uri handle j h))
      ]

  pub release-Covered :
      (s : Session a) (k uri handle j : Text)
      → Covered a j s
      → Covered a j (release_auto_lock a s k uri handle)
  unfolding release_auto_lock
  release-Covered s k uri handle j h = elim (Result-cases (a.unlock_object uri handle s.world).0) [
    | inl (_, q) ↦ rw (q, release_auto_lock, after_unlock) (gave s.lock_map s.tracker k j h)
    | inr (e, q) ↦ rw (q, release_auto_lock, after_unlock) h
  ]

  store_lock-Covered :
      (s : Session a) (k uri : Text) (auto : Bool) (x : Result a.Failure Text) (j : Text)
      → Covered a j s
      → Covered a j (store_lock a s k uri auto x).1
  unfolding store_lock
  store_lock-Covered s k uri auto (err e) j h = h
  store_lock-Covered s k uri auto (ok x) j h =
      took s.lock_map _ s.tracker k j
        (λ ne. ground (arith, l.get-set s.lock_map k x (etag_of (a.get s.lock_map k)) j, ne)) h

  -- The answer of the lock map's resolution, after which a success is tracked.
  pub resolution :
      (k uri j : Text) (m : a.LockMap) (w : a.World) (t : Tracker)
      → let x = a.resolve_lock k uri [] m w in
        CoveredBy a j m t
        → ((h : Text) × (x.0 ≡ ok h) × (CoveredBy a j x.1 (track t k)))
          ⊎ ((e : a.Failure) × (x.0 ≡ err e) × (CoveredBy a j x.1 t))
  resolution k uri j m w t h = elim (Result-cases (a.resolve_lock k uri [] m w).0) [
    | inl (handle, q) ↦
        inl (handle, q, took m _ t k j (λ ne. ap handle_of (l.resolve_ne k uri m w j ne)) h)
    | inr (e, q) ↦ inr (e, q, rw (l.resolve_error k uri m w e q) h)
  ]

  reuse_or_lock-Covered :
      (s : Session a) (k uri j : Text) → Covered a j s → Covered a j (reuse_or_lock a s k uri).1
  unfolding reuse_or_lock take_resolved
  reuse_or_lock-Covered s k uri j h = elim (resolution k uri j s.lock_map s.world s.tracker h) [
    | inl (handle, q, c) ↦ rw (q, reuse_or_lock, take_resolved) c
    | inr (e, q, c) ↦ rw (q, reuse_or_lock, take_resolved) c
  ]

  pub resolve-Covered :
      (s : Session a) (k uri explicit : Text) (allow : Bool) (j : Text)
      → Covered a j s
      → Covered a j (resolve_write_lock_handle a s k uri explicit allow).1
  unfolding resolve_write_lock_handle tracked_handle relock without_explicit
  resolve-Covered s k uri (c ∷ cs) allow j h = h
  resolve-Covered s k uri [] allow j h =
      let s' : Session a = record s { world = (a.system_flavor s.world).1 } in
      elim (Bool-cases (is_ecc (a.system_flavor s.world).0)) [
        | inl q ↦
            rw (q, resolve_write_lock_handle, without_explicit) (store_lock-Covered _ k uri _ _ j h)
        | inr q ↦ elim (Bool-cases allow) [
          | inl y ↦
              rw (y, q, resolve_write_lock_handle, without_explicit)
                (reuse_or_lock-Covered s' k uri j h)
          | inr y ↦ rw (y, q, resolve_write_lock_handle, without_explicit) h
        ]
      ]
