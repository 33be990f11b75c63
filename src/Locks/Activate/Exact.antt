-- ===== src/Locks/Activate/Exact.antt =====
-- What an activation asks of SAP, and what it leaves in the lock map and the tracker
-- (tools/activate.go).
use aibap_mcp.Base.{
  ◌≡◌, refl, not, ◌&&◌, ◌||◌, none, List, [], ◌∷◌, Text, text_eq, text_eq_iff, is_empty,
  if◌then◌else◌, arith, contains,
}
use mathlib.Core.List.{map}
use aibap_mcp.Locks.Adt.{Adt, AdtLaws, handle_of}
use aibap_mcp.Locks.Session.{Session, tracked}
use aibap_mcp.Locks.WriteLock.Resolve.{tracked-untrack}
use aibap_mcp.Locks.Tools.{unlock_before_activate, unlock_one}
use aibap_mcp.Locks.Tools.Unlock.{unlock_before_activate_exact, round, get-round, active-round}
use aibap_mcp.Locks.Activate.{activate_objects, sap_answer}

module _ (a : Adt) where
  -- The listed objects that the lock map `m` has a handle for, each once, with their handles; the
  -- keys `seen` are left out.
  unfoldable pub held : a.LockMap → Text → List Text → List Text → List (Text × Text)
  held m system seen [] = []
  held m system seen (uri ∷ uris) =
      let key = a.lock_key system uri in
      let handle = handle_of (a.get m key) in
      let rest = held m system (key ∷ seen) uris in
      if contains seen key || is_empty handle then rest else (uri, handle) ∷ rest

  -- The outside after the unlock of each of these.
  unfoldable pub send_unlocks : List (Text × Text) → a.World → a.World
  send_unlocks [] w = w
  send_unlocks ((uri, handle) ∷ ps) w = send_unlocks ps (a.unlock_object uri handle w).1

module _ (a : Adt) (l : AdtLaws a) where
  -- The handle of a key once the keys `seen` are released.
  abbrev Leaves : a.LockMap → List Text → a.LockMap → Type 0
  Leaves m seen m' =
      (j : Text) → handle_of (a.get m' j) ≡ (if contains seen j then [] else handle_of (a.get m j))

  round-Leaves :
      (m : a.LockMap) (seen : List Text) (s : Session a) (uri : Text)
      → Leaves m seen s.lock_map
      → Leaves m (a.lock_key s.active uri ∷ seen) (round a l s uri).lock_map
  unfolding contains unlock_one
  round-Leaves m seen s uri h j = ground (
    arith,
    h j,
    h (a.lock_key s.active uri),
    l.get-delete s.lock_map (a.lock_key s.active uri) j,
    text_eq_iff (a.lock_key s.active uri) j,
  )

  round-asks :
      (s : Session a) (uri : Text)
      → ((round a l s uri).active ≡ s.active)
        × ((round a l s uri).world ≡ (
            if is_empty (handle_of (a.get s.lock_map (a.lock_key s.active uri)))
            then s.world
            else (a.unlock_object uri
                (handle_of (a.get s.lock_map (a.lock_key s.active uri)))
                s.world).1))
  unfolding unlock_one
  round-asks s uri = ground arith

  released_asks :
      (m : a.LockMap) (seen : List Text) (s : Session a) (uris : List Text)
      → Leaves m seen s.lock_map
      → (unlock_before_activate a s uris).world
        ≡ send_unlocks a (held a m s.active seen uris) s.world
  unfolding unlock_before_activate held send_unlocks
  released_asks m seen s [] h = refl
  released_asks m seen s (uri ∷ uris) h =
      let key = a.lock_key s.active uri in
      let (same, asked) = round-asks s uri in
      let ih = released_asks m (key ∷ seen) (round a l s uri) uris (round-Leaves m seen s uri h) in
      ground (arith, ih, same, asked, h key)

  tracked-round :
      (s : Session a) (uri j : Text)
      → tracked (round a l s uri).tracker j ≡ (
          tracked s.tracker j
          && not (
              text_eq (a.lock_key s.active uri) j
              && not (is_empty (handle_of (a.get s.lock_map j)))))
  unfolding unlock_one
  tracked-round s uri j = ground (
    arith,
    tracked-untrack s.tracker (a.lock_key s.active uri) j,
    text_eq_iff (a.lock_key s.active uri) j,
  )

  tracked-released :
      (s : Session a) (uris : List Text) (j : Text)
      → tracked (unlock_before_activate a s uris).tracker j ≡ (
          tracked s.tracker j
          && not (
              contains (map (a.lock_key s.active) uris) j
              && not (is_empty (handle_of (a.get s.lock_map j)))))
  unfolding unlock_before_activate contains
  tracked-released s [] j = ground arith
  tracked-released s (uri ∷ uris) j =
      let ih = tracked-released (round a l s uri) uris j in
      let ih' = rw (active-round a l s uri) at ih in
      ground (arith, ih', tracked-round s uri j, get-round a l s uri j)

  -- `activate_objects` unlocks each listed object that the lock map has a handle for, once and with
  -- that handle, even if it is listed twice, and only then asks for the activation of the whole list;
  -- it reports SAP's answer to that. Whether SAP accepted an unlock or the activation or not, exactly
  -- those objects have left the lock map and the tracker.
  pub activate_objects_exact :
      (s : Session a) (uris : List Text) (j : Text)
      → let (answer, s') = activate_objects a s uris in
        let asked =
          a.activate_objects uris (send_unlocks a (held a s.lock_map s.active [] uris) s.world) in
        let gone =
          contains (map (a.lock_key s.active) uris) j
          && not (is_empty (handle_of (a.get s.lock_map j))) in
        (answer ≡ sap_answer asked.0)
        × (s'.world ≡ asked.1)
        × (a.get s'.lock_map j ≡ (if gone then none else a.get s.lock_map j))
        × (tracked s'.tracker j ≡ (tracked s.tracker j && not gone))
  unfolding activate_objects contains
  activate_objects_exact s uris j =
      let w = released_asks s.lock_map [] s uris (λ i. refl) in
      (rw w refl, rw w refl, unlock_before_activate_exact a l s uris j, tracked-released s uris j)
