-- ===== src/Locks/WriteLock/Release.antt =====
-- When a write owns the lock that it uses, and what its release does (tools/writelock.go,
-- tools/lockrollback.go).
use aibap_mcp.Base.{
  ◌≡◌, refl, Bool, true, false, not, ◌&&◌, none, [], Text, text_eq, text_eq_refl, is_empty,
  if◌then◌else◌, Result, ok, err, is_ok, Result-cases, ◌⊎◌, inl, inr, arith,
}
use aibap_mcp.Locks.Adt.{Adt, AdtLaws, handle_of}
use aibap_mcp.Locks.Session.{Session, Error, tracked, track, untrack}
use aibap_mcp.Locks.WriteLock.{
  Resolved, etag_of, lock_pre_existed, is_ecc, store_lock, relock, tracked_handle, take_resolved,
  reuse_or_lock, resolve_write_lock_handle, after_unlock, release_auto_lock,
}
use aibap_mcp.Locks.WriteLock.Resolve.{tracked-untrack}

module _ (a : Adt) (l : AdtLaws a) where
  -- The key's entry holds `h` and the key is tracked as `track` does it.
  abbrev pub Owns : Text → Text → Session a → Session a → Type 0
  Owns key h s s' = (handle_of (a.get s'.lock_map key) ≡ h) × (s'.tracker ≡ track s.tracker key)

  -- The key's handle and the tracker are as before.
  abbrev pub Unowned : Text → Session a → Session a → Type 0
  Unowned key s s' =
      (handle_of (a.get s'.lock_map key) ≡ handle_of (a.get s.lock_map key))
      × (s'.tracker ≡ s.tracker)

  store_lock-Owns :
      (s : Session a) (key uri : Text) (auto : Bool) (x : Result a.Failure Text) (r : Resolved)
      → (store_lock a s key uri auto x).0 ≡ ok r
      → Owns key r.handle s (store_lock a s key uri auto x).1
  unfolding store_lock
  store_lock-Owns s key uri auto (err e) r h = cc
  store_lock-Owns s key uri auto (ok x) r h =
      ground
        (arith, l.get-set s.lock_map key x (etag_of (a.get s.lock_map key)) key, text_eq_refl key)

  store_lock_error :
      (s : Session a) (key uri : Text) (auto : Bool) (x : Result a.Failure Text)
      (e : Error a.Failure)
      → (store_lock a s key uri auto x).0 ≡ err e
      → Unowned key s (store_lock a s key uri auto x).1
  unfolding store_lock
  store_lock_error s key uri auto (err _) e h = (refl, refl)
  store_lock_error s key uri auto (ok x) e h = cc

  store_lock_releases :
      (s : Session a) (key uri : Text) (auto : Bool) (x : Result a.Failure Text) (r : Resolved)
      → (store_lock a s key uri auto x).0 ≡ ok r
      → r.release_on_failure ≡ true
  unfolding store_lock
  store_lock_releases s key uri auto (err e) r h = cc
  store_lock_releases s key uri auto (ok x) r h = ground arith

  reuse_or_lock-Owns :
      (s : Session a) (key uri : Text) (r : Resolved)
      → (reuse_or_lock a s key uri).0 ≡ ok r
      → Owns key r.handle s (reuse_or_lock a s key uri).1
  unfolding reuse_or_lock take_resolved
  reuse_or_lock-Owns s key uri r h =
      ground (arith, l.resolve_stores key uri s.lock_map s.world r.handle)

  reuse_or_lock_error :
      (s : Session a) (key uri : Text) (e : Error a.Failure)
      → (reuse_or_lock a s key uri).0 ≡ err e
      → Unowned key s (reuse_or_lock a s key uri).1
  unfolding reuse_or_lock take_resolved
  reuse_or_lock_error s key uri e h =
      elim (Result-cases (a.resolve_lock key uri [] s.lock_map s.world).0) [
        | inl (x, p) ↦ ground arith
        | inr (x, p) ↦ ground (arith, l.resolve_error key uri s.lock_map s.world x p)
      ]

  -- If the lock is to be released on failure, the caller gave no handle, the handle is the one
  -- that the map now holds for the key, and the key is tracked.
  pub resolve-Owns :
      (s : Session a) (key uri explicit : Text) (allow : Bool) (r : Resolved)
      → (resolve_write_lock_handle a s key uri explicit allow).0 ≡ ok r
      → r.release_on_failure ≡ true
      → Owns key r.handle s (resolve_write_lock_handle a s key uri explicit allow).1
  unfolding resolve_write_lock_handle tracked_handle relock
  resolve-Owns s key uri explicit allow r h q =
      let w = (a.system_flavor s.world).1 in
      let s' : Session a = record s { world = w } in
      let s'' : Session a = record s { world = (a.lock_object uri w).1 } in
      ground (
        arith,
        store_lock-Owns s'' key uri (not (lock_pre_existed a s.lock_map key []))
            (a.lock_object uri w).0 r,
        reuse_or_lock-Owns s' key uri r,
      )

  -- A resolution that fails leaves the key's handle and the tracker as they were.
  pub resolve_error :
      (s : Session a) (key uri explicit : Text) (allow : Bool) (e : Error a.Failure)
      → (resolve_write_lock_handle a s key uri explicit allow).0 ≡ err e
      → Unowned key s (resolve_write_lock_handle a s key uri explicit allow).1
  unfolding resolve_write_lock_handle tracked_handle relock
  resolve_error s key uri explicit allow e h =
      let w = (a.system_flavor s.world).1 in
      let s' : Session a = record s { world = w } in
      let s'' : Session a = record s { world = (a.lock_object uri w).1 } in
      ground (
        arith,
        store_lock_error s'' key uri (not (lock_pre_existed a s.lock_map key []))
            (a.lock_object uri w).0 e,
        reuse_or_lock_error s' key uri e,
      )

  -- A lock that is not to be released on failure is the caller's: the handle that is used is the
  -- explicit one or, without one, the one that the map held, and the map's handle is as it was.
  pub resolve_keeps :
      (s : Session a) (key uri explicit : Text) (allow : Bool) (r : Resolved)
      → (resolve_write_lock_handle a s key uri explicit allow).0 ≡ ok r
      → r.release_on_failure ≡ false
      → (r.handle ≡ (if is_empty explicit then handle_of (a.get s.lock_map key) else explicit))
        × (handle_of (a.get (resolve_write_lock_handle a s key uri explicit allow).1.lock_map key)
            ≡ handle_of (a.get s.lock_map key))
  unfolding resolve_write_lock_handle tracked_handle relock reuse_or_lock take_resolved
      lock_pre_existed
  resolve_keeps s key uri explicit allow r h q =
      let w = (a.system_flavor s.world).1 in
      let s'' : Session a = record s { world = (a.lock_object uri w).1 } in
      ground (
        arith,
        store_lock_releases s'' key uri (not (lock_pre_existed a s.lock_map key []))
            (a.lock_object uri w).0 r,
        l.resolve_cached key uri s.lock_map w,
      )

  -- A release whose unlock succeeds drops the key from the map and the tracker; one whose unlock
  -- fails keeps both, so that the lock stays visible and recoverable.
  pub release_cases :
      (s : Session a) (key uri handle j : Text)
      → let s' = release_auto_lock a s key uri handle in
        let gone = is_ok (a.unlock_object uri handle s.world).0 && text_eq key j in
        (a.get s'.lock_map j ≡ (if gone then none else a.get s.lock_map j))
        × (tracked s'.tracker j ≡ (if gone then false else tracked s.tracker j))
  unfolding release_auto_lock
  release_cases s key uri handle j = elim (Result-cases (a.unlock_object uri handle s.world).0) [
    | inl (x, p) ↦
        rw (p, release_auto_lock) (l.get-delete s.lock_map key j, tracked-untrack s.tracker key j)
    | inr (x, p) ↦ rw (p, release_auto_lock) (refl, refl)
  ]

  -- Without a handle of the key before, a lock that is not to be released was not tracked either.
  pub resolve_untracked :
      (s : Session a) (key uri explicit : Text) (allow : Bool) (r : Resolved)
      → (resolve_write_lock_handle a s key uri explicit allow).0 ≡ ok r
      → r.release_on_failure ≡ false
      → handle_of (a.get s.lock_map key) ≡ []
      → (resolve_write_lock_handle a s key uri explicit allow).1.tracker ≡ s.tracker
  unfolding resolve_write_lock_handle tracked_handle relock reuse_or_lock take_resolved
      lock_pre_existed
  resolve_untracked s key uri explicit allow r h q none_before =
      let w = (a.system_flavor s.world).1 in
      let s'' : Session a = record s { world = (a.lock_object uri w).1 } in
      ground (
        arith,
        store_lock_releases s'' key uri (not (lock_pre_existed a s.lock_map key []))
            (a.lock_object uri w).0 r,
      )

  -- The caller owns the lock: it gave a handle, or the map had one and the system is not ECC.
  abbrev pub CallerOwns : Session a → Text → Text → Type 0
  CallerOwns s key explicit =
      (is_empty explicit ≡ false)
      ⊎ ((is_ecc (a.system_flavor s.world).0 ≡ false)
          × (is_empty (handle_of (a.get s.lock_map key)) ≡ false))

  pub resolve_callers :
      (s : Session a) (key uri explicit : Text) (allow : Bool) (r : Resolved)
      → CallerOwns s key explicit
      → (resolve_write_lock_handle a s key uri explicit allow).0 ≡ ok r
      → r.release_on_failure ≡ false
  unfolding resolve_write_lock_handle tracked_handle reuse_or_lock take_resolved lock_pre_existed
  resolve_callers s key uri explicit allow r owned h = ground arith

  -- A resolution leaves the tracker alone or tracks the key.
  pub tracker-resolve :
      (s : Session a) (key uri explicit : Text) (allow : Bool)
      → let t = (resolve_write_lock_handle a s key uri explicit allow).1.tracker in
        (t ≡ s.tracker) ⊎ (t ≡ track s.tracker key)
  unfolding resolve_write_lock_handle tracked_handle relock reuse_or_lock store_lock take_resolved
  tracker-resolve s key uri explicit allow = ground arith

  pub tracker-release :
      (s : Session a) (key uri handle : Text)
      → let t = (release_auto_lock a s key uri handle).tracker in
        (t ≡ s.tracker) ⊎ (t ≡ untrack s.tracker key)
  unfolding release_auto_lock after_unlock
  tracker-release s key uri handle = ground arith
