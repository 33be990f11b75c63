-- ===== src/Locks/WriteLock.antt =====
-- tools/writelock.go and tools/lockrollback.go: which lock handle a write uses, and the release of
-- a lock that a failed write had acquired.
pub mod Resolve
pub mod Release
use aibap_mcp.Base.{
  Bool, true, false, not, ◌||◌, Option, none, some, [], Text, is_empty, Result, ok, err,
  if◌then◌else◌,
}
use aibap_mcp.Locks.Adt.{Adt, LockState, Flavor, ecc, s4, handle_of}
use aibap_mcp.Locks.Session.{Error, sap, auto_lock_of, no_lock_tracked, Session, track, untrack}

-- The named results of `resolveWriteLockHandle`.
pub record Resolved : Type 0 where
  pub handle : Text
  pub auto_locked : Bool
  pub release_on_failure : Bool

abbrev pub etag_of : Option LockState → Text
etag_of none = []
etag_of (some l) = l.etag

unfoldable pub is_ecc {ℓ} : {F : Type ℓ} → Result F Flavor → Bool
is_ecc (ok ecc) = true
is_ecc (ok s4) = false
is_ecc (err _) = false

module _ (a : Adt) where
  open a use {get, set, delete, system_flavor, lock_object, unlock_object, resolve_lock}

  -- `lockPreExisted`
  unfoldable pub lock_pre_existed : a.LockMap → Text → Text → Bool
  lock_pre_existed m key explicit =
      not (is_empty explicit) || not (is_empty (handle_of (get m key)))

  -- The answer of `LockObject` on the ECC path.
  unfoldable pub store_lock :
      Session a
      → Text
      → Text
      → Bool
      → Result a.Failure Text
      → Result (Error a.Failure) Resolved × Session a
  store_lock s key uri auto (err e) = (err (auto_lock_of uri e), s)
  store_lock s key uri auto (ok h) = (
    ok (record { handle = h; auto_locked = auto; release_on_failure = true }),
    record s {
      lock_map = set s.lock_map key h (etag_of (get s.lock_map key));
      tracker = track s.tracker key;
    },
  )

  -- ECC: the cached handle is not trusted.
  unfoldable pub relock : Session a → Text → Text → Result (Error a.Failure) Resolved × Session a
  unfolding store_lock lock_pre_existed
  relock s key uri =
      let auto = not (lock_pre_existed s.lock_map key []) in
      let (answer, w) = lock_object uri s.world in
      store_lock (record s { world = w }) key uri auto answer

  -- A write that wants an earlier `lock_object`.
  unfoldable pub tracked_handle :
      Session a → Text → Text → Result (Error a.Failure) Resolved × Session a
  tracked_handle s key uri =
      let h = handle_of (get s.lock_map key) in
      (
        (if is_empty h
            then err (no_lock_tracked uri)
            else ok (record { handle = h; auto_locked = false; release_on_failure = false })),
        s,
      )

  unfoldable pub take_resolved :
      Session a
      → Text
      → Bool
      → Result a.Failure Text
      → Result (Error a.Failure) Resolved × Session a
  take_resolved s key auto (err e) = (err (sap e), s)
  take_resolved s key auto (ok h) = (
    ok (record { handle = h; auto_locked = auto; release_on_failure = auto }),
    record s { tracker = track s.tracker key },
  )

  -- The lock map's own resolution, which locks the object on a cache miss.
  unfoldable pub reuse_or_lock :
      Session a → Text → Text → Result (Error a.Failure) Resolved × Session a
  unfolding take_resolved lock_pre_existed
  reuse_or_lock s key uri =
      let auto = not (lock_pre_existed s.lock_map key []) in
      let (answer, m, w) = resolve_lock key uri [] s.lock_map s.world in
      take_resolved (record s { world = w; lock_map = m }) key auto answer

  unfoldable pub without_explicit :
      Session a → Text → Text → Bool → Result (Error a.Failure) Resolved × Session a
  unfolding is_ecc relock tracked_handle reuse_or_lock
  without_explicit s key uri allow =
      let (flavor, w) = system_flavor s.world in
      let s' : Session a = record s { world = w } in
      if is_ecc flavor
      then relock s' key uri
      else if allow
      then reuse_or_lock s' key uri
      else tracked_handle s' key uri

  unfoldable pub resolve_write_lock_handle :
      Session a → Text → Text → Text → Bool → Result (Error a.Failure) Resolved × Session a
  unfolding without_explicit
  resolve_write_lock_handle s key uri explicit allow =
      if is_empty explicit
      then without_explicit s key uri allow
      else (ok (record { handle = explicit; auto_locked = false; release_on_failure = false }), s)

  unfoldable pub after_unlock : Session a → Text → Result a.Failure (Unit {0}) → Session a
  after_unlock s key (err _) = s
  after_unlock s key (ok _) = record s {
    lock_map = delete s.lock_map key;
    tracker = untrack s.tracker key;
  }

  unfoldable pub release_auto_lock : Session a → Text → Text → Text → Session a
  unfolding after_unlock
  release_auto_lock s key uri handle =
      let (answer, w) = unlock_object uri handle s.world in
      after_unlock (record s { world = w }) key answer
