-- ===== src/Locks/WriteLock/Resolve.antt =====
-- What `resolveWriteLockHandle` and `releaseAutoLock` guarantee (tools/writelock.go,
-- tools/lockrollback.go).
use aibap_mcp.Base.{
  ◌≡◌, refl, Bool, true, false, ◌||◌, some, none, List, [], Text, text_eq, text_eq_refl, is_empty,
  contains, contains-insert, contains-remove, if◌then◌else◌, Result, ok, err, arith, ◌∙◌,
}
use aibap_mcp.Locks.Adt.{Adt, AdtLaws, ecc, handle_of}
use aibap_mcp.Locks.Session.{Session, Tracker, snapshot, tracked, track, untrack}
use aibap_mcp.Locks.WriteLock.{
  etag_of, store_lock, relock, tracked_handle, take_resolved, reuse_or_lock,
  resolve_write_lock_handle,
}

pub tracked-track :
    (keys : List Text) (k j : Text)
    → tracked (track (some keys) k) j ≡ (text_eq k j || tracked (some keys) j)
unfolding tracked track snapshot
tracked-track keys k j = contains-insert k j keys

pub tracked-untrack :
    (t : Tracker) (k j : Text)
    → tracked (untrack t k) j ≡ (if text_eq k j then false else tracked t j)
unfolding tracked untrack snapshot contains
tracked-untrack none k j = ground arith
tracked-untrack (some keys) k j = contains-remove k j keys

pub tracked_ne :
    (t : Tracker) (k j : Text) → text_eq k j ≡ false → tracked (track t k) j ≡ tracked t j
unfolding tracked track snapshot
tracked_ne none k j h = refl
tracked_ne (some keys) k j h = ground (arith, contains-insert k j keys)

module _ (a : Adt) (l : AdtLaws a) where
  -- On ECC without an explicit handle, whatever handle the map has for the key, the write locks
  -- the object anew: it uses the handle of that request, stores it with the old ETag and tracks
  -- the key, and will release it on failure.
  pub resolve_ecc_fresh :
      (s : Session a) (key uri h : Text) (allow : Bool)
      → (a.system_flavor s.world).0 ≡ ok ecc
      → (a.lock_object uri (a.system_flavor s.world).1).0 ≡ ok h
      → let r = resolve_write_lock_handle a s key uri [] allow in
        (r.0
          ≡ ok (record {
            handle = h;
            auto_locked = is_empty (handle_of (a.get s.lock_map key));
            release_on_failure = true;
          }))
        × (a.get r.1.lock_map key
            ≡ some (record { lock_handle = h; etag = etag_of (a.get s.lock_map key) }))
        × (r.1.tracker ≡ track s.tracker key)
  unfolding resolve_write_lock_handle
  resolve_ecc_fresh s key uri h allow hf hl =
      ground
        (arith, l.get-set s.lock_map key h (etag_of (a.get s.lock_map key)) key, text_eq_refl key)

  -- Nothing in the ledger but what belongs to one key differs.
  abbrev pub Elsewhere : Text → Session a → Session a → Text → Type 0
  Elsewhere key s s' j =
      (a.get s'.lock_map j ≡ a.get s.lock_map j) × (tracked s'.tracker j ≡ tracked s.tracker j)

  store_lock_ne :
      (s : Session a) (key uri : Text) (auto : Bool) (x : Result a.Failure Text) (j : Text)
      → text_eq key j ≡ false
      → Elsewhere key s (store_lock a s key uri auto x).1 j
  unfolding store_lock
  store_lock_ne s key uri auto (err e) j h = (refl, refl)
  store_lock_ne s key uri auto (ok x) j h = (
    rw (l.get-set s.lock_map key x (etag_of (a.get s.lock_map key)) j, h),
    tracked_ne s.tracker key j h,
  )

  take_resolved_ne :
      (s : Session a) (key : Text) (auto : Bool) (x : Result a.Failure Text) (j : Text)
      → text_eq key j ≡ false
      → Elsewhere key s (take_resolved a s key auto x).1 j
  unfolding take_resolved
  take_resolved_ne s key auto (err e) j h = (refl, refl)
  take_resolved_ne s key auto (ok x) j h = (refl, tracked_ne s.tracker key j h)

  relock_ne :
      (s : Session a) (key uri j : Text)
      → text_eq key j ≡ false
      → Elsewhere key s (relock a s key uri).1 j
  unfolding relock
  relock_ne s key uri j h = store_lock_ne _ key uri _ _ j h

  reuse_or_lock_ne :
      (s : Session a) (key uri j : Text)
      → text_eq key j ≡ false
      → Elsewhere key s (reuse_or_lock a s key uri).1 j
  unfolding reuse_or_lock
  reuse_or_lock_ne s key uri j h =
      let (p, q) = take_resolved_ne _ key _ _ j h in
      (p ∙ l.resolve_ne key uri s.lock_map s.world j h, q)

  -- Resolving a handle for one key leaves the ledger's other keys as they were.
  pub resolve_ne :
      (s : Session a) (key uri explicit : Text) (allow : Bool) (j : Text)
      → text_eq key j ≡ false
      → Elsewhere key s (resolve_write_lock_handle a s key uri explicit allow).1 j
  unfolding resolve_write_lock_handle tracked_handle
  resolve_ne s key uri explicit allow j h =
      let s' : Session a = record s { world = (a.system_flavor s.world).1 } in
      ground (arith, relock_ne s' key uri j h, reuse_or_lock_ne s' key uri j h)
