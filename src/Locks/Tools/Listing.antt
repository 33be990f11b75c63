-- ===== src/Locks/Tools/Listing.antt =====
-- `list_locks` of tools/lock_list.go reports the ledger: each object once, with what the map holds.
use aibap_mcp.Base.{
  ◌≡◌, refl, true, false, ◌&&◌, Option, some, none, List, [], ◌∷◌, ◌++◌, Text, text_eq, text_eq_iff,
  cut_byte, cut_byte-append, join-cut_byte, has_byte, contains, contains-sort, sort, sorted,
  sorted-sort, keep, all, all-sort, length-map, sym, is_some, if◌then◌else◌, arith, length,
}
use mathlib.Core.List.{map}
use aibap_mcp.Locks.Adt.{Adt, AdtLaws, LockState}
use aibap_mcp.Locks.Session.{Session, snapshot, tracked}
use aibap_mcp.Locks.Tools.{LockInfo, info, held_infos, collect_tracked_locks}

-- What a list of reports says of an object.
unfoldable pub reported : List LockInfo → Text → Text → Option LockState
reported [] system uri = none
reported (i ∷ is) system uri =
    if text_eq i.system system && text_eq i.uri uri
    then some (record { lock_handle = i.lock_handle; etag = i.etag })
    else reported is system uri

pub key_of : LockInfo → Text
key_of i = i.system ++ b':' ∷ i.uri

module _ (a : Adt) (l : AdtLaws a) where
  cut_key :
      (system uri : Text)
      → has_byte b':' system ≡ false
      → cut_byte b':' (a.lock_key system uri) ≡ (system, uri)
  cut_key system uri h = rw (l.lock_key_lem system uri) (cut_byte-append b':' system uri h)

  -- A key with a colon is the object's key exactly if it is cut into its system and URI.
  cut_test :
      (key system uri : Text)
      → has_byte b':' key ≡ true
      → has_byte b':' system ≡ false
      → (text_eq (cut_byte b':' key).0 system && text_eq (cut_byte b':' key).1 uri)
        ≡ text_eq key (a.lock_key system uri)
  cut_test key system uri hk hs = ground (
    arith,
    cut_key system uri hs,
    join-cut_byte b':' key hk,
    l.lock_key_lem system uri,
    text_eq_iff (cut_byte b':' key).0 system,
    text_eq_iff (cut_byte b':' key).1 uri,
    text_eq_iff key (a.lock_key system uri),
  )

  reported-held_infos :
      (m : a.LockMap) (keys : List Text) (system uri : Text)
      → all (has_byte b':') keys ≡ true
      → has_byte b':' system ≡ false
      → reported (held_infos a m keys) system uri
        ≡ (if contains keys (a.lock_key system uri) then a.get m (a.lock_key system uri) else none)
  unfolding reported held_infos info all contains
  reported-held_infos m [] system uri hk hs = refl
  reported-held_infos m (key ∷ keys) system uri hk hs = ground (
    arith,
    reported-held_infos m keys system uri,
    cut_test key system uri,
    text_eq_iff key (a.lock_key system uri),
  )

  -- `list_locks` says of an object exactly what the lock map holds for it if its key is tracked,
  -- and nothing if it is not. System names have no colon and every tracked key has one.
  pub list_locks_reports :
      (s : Session a) (system uri : Text)
      → all (has_byte b':') (snapshot s.tracker) ≡ true
      → has_byte b':' system ≡ false
      → reported (collect_tracked_locks a s.tracker s.lock_map).locks system uri ≡ (
          if tracked s.tracker (a.lock_key system uri)
          then a.get s.lock_map (a.lock_key system uri)
          else none)
  unfolding collect_tracked_locks tracked
  list_locks_reports s system uri hk hs = rw (
    reported-held_infos s.lock_map (sort (snapshot s.tracker)) system uri
        (rw (all-sort (has_byte b':') (snapshot s.tracker)) hk) hs,
    contains-sort (snapshot s.tracker) (a.lock_key system uri),
  )

  keys-held_infos :
      (m : a.LockMap) (keys : List Text)
      → all (has_byte b':') keys ≡ true
      → map key_of (held_infos a m keys) ≡ keep (λ k. is_some (a.get m k)) keys
  unfolding held_infos info key_of all keep
  keys-held_infos m [] h = refl
  keys-held_infos m (k ∷ keys) h = ground (arith, keys-held_infos m keys, join-cut_byte b':' k)

  -- The reported objects are the tracked keys that the lock map still holds, in the order of the
  -- sorted keys, and the count is their number. Every tracked key has a colon.
  pub list_locks_sorted :
      (s : Session a)
      → all (has_byte b':') (snapshot s.tracker) ≡ true
      → (map key_of (collect_tracked_locks a s.tracker s.lock_map).locks
          ≡ keep (λ k. is_some (a.get s.lock_map k)) (sort (snapshot s.tracker)))
        × (sorted (sort (snapshot s.tracker)) ≡ true)
        × ((collect_tracked_locks a s.tracker s.lock_map).count
            ≡ length (keep (λ k. is_some (a.get s.lock_map k)) (sort (snapshot s.tracker))))
  unfolding collect_tracked_locks
  list_locks_sorted s h =
      let e =
        keys-held_infos s.lock_map (sort (snapshot s.tracker))
          (rw (all-sort (has_byte b':') (snapshot s.tracker)) h) in
      (
        e,
        sorted-sort (snapshot s.tracker),
        rw (← e) (sym (length-map (held_infos a s.lock_map (sort (snapshot s.tracker))) key_of)),
      )

  -- `list_locks` says of an object exactly what the lock map holds for it if its key is tracked, and
  -- nothing if it is not; the reported objects are the tracked keys that the lock map still holds, in
  -- the order of the sorted keys, and the count is their number. System names have no colon and every
  -- tracked key has one.
  pub list_locks_lem :
      (s : Session a) (system uri : Text)
      → all (has_byte b':') (snapshot s.tracker) ≡ true
      → has_byte b':' system ≡ false
      → let r = collect_tracked_locks a s.tracker s.lock_map in
        let held = keep (λ k. is_some (a.get s.lock_map k)) (sort (snapshot s.tracker)) in
        (reported r.locks system uri ≡ (
          if tracked s.tracker (a.lock_key system uri)
          then a.get s.lock_map (a.lock_key system uri)
          else none))
        × (map key_of r.locks ≡ held)
        × (sorted (sort (snapshot s.tracker)) ≡ true)
        × (r.count ≡ length held)
  list_locks_lem s system uri hk hs =
      let (keys, order, count) = list_locks_sorted s hk in
      (list_locks_reports s system uri hk hs, keys, order, count)
