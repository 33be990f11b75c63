-- ===== src/Locks/Session.antt =====
-- The process state that the lock and write tools share: the world behind the client, the session
-- lock map, the tracker of its keys (tools/locktracker.go), and the selected system.
pub mod Forget
use aibap_mcp.Base.{
  ℕ, suc, Bool, ◌&&◌, Option, none, some, List, [], ◌∷◌, ◌++◌, Text, starts_with, is_some, contains,
  insert, remove, if◌then◌else◌,
}
use aibap_mcp.Locks.Adt.{Adt}

-- A tool's error result, by the place that makes it.
pub data Error (F : Type 0) : Type 0 where
  sap : F → Error F
  auto_lock_of : Text → F → Error F
  auto_lock_failed : Error F → Error F
  no_lock_tracked : Text → Error F
  handle_mismatch : Text → Error F
  terminating_session : Text → F → Error F
  missing_parameter : Text → Error F
  empty_parameter : Text → Error F
  parse_operations : F → Error F
  patch_failed : F → Error F
  reading_file : F → Error F

-- A nil tracker is `none`.
abbrev pub Tracker : Type 0
Tracker = Option (List Text)

unfoldable pub track : Tracker → Text → Tracker
track none key = none
track (some keys) key = some (insert key keys)

unfoldable pub untrack : Tracker → Text → Tracker
untrack none key = none
untrack (some keys) key = some (remove key keys)

-- The keys in the order of the model; the source leaves the order open.
unfoldable pub snapshot : Tracker → List Text
snapshot none = []
snapshot (some keys) = keys

unfoldable pub tracked : Tracker → Text → Bool
unfolding snapshot
tracked t key = contains (snapshot t) key

module _ (a : Adt) where
  open a use {get, delete}

  -- The loop of `forgetSystem`: the lock map after it, the keys that stay, the handles cleared.
  pub forget_keys : Text → List Text → a.LockMap → a.LockMap × List Text × ℕ
  forget_keys prefix [] m = (m, [], 0)
  forget_keys prefix (key ∷ keys) m =
      let hit = starts_with prefix key in
      let held = hit && is_some (get m key) in
      let (m', rest, cleared) = forget_keys prefix keys (if held then delete m key else m) in
      (m', (if hit then rest else key ∷ rest), if held then suc cleared else cleared)

  unfoldable pub forget_system : Tracker → a.LockMap → Text → Tracker × a.LockMap × ℕ
  unfolding forget_keys
  forget_system none m system = (none, m, 0)
  forget_system (some keys) m system =
      let (m', rest, cleared) = forget_keys (system ++ b':' ∷ []) keys m in (some rest, m', cleared)

  pub record Session : Type 0 where
    pub world : a.World
    pub lock_map : a.LockMap
    pub tracker : Tracker
    pub active : Text
