-- ===== src/Locks/Adt.antt =====
-- What the lock tools use of the client library adtler, which is not part of the repository: the
-- session lock map (`adt.LockMap`), the key of an object, and the requests to the SAP system.
-- `World` is everything outside the process, which each request may change.
use aibap_mcp.Base.{
  ◌≡◌, ◌≢◌, false, Option, none, some, List, [], ◌∷◌, ◌++◌, Text, text_eq, Result, ok, err,
  if◌then◌else◌,
}

-- `adt.LockState`
pub record LockState : Type 0 where
  pub lock_handle : Text
  pub etag : Text

-- `adt.SystemFlavor`: ECC, or any other answer.
pub data Flavor : Type 0 where
  ecc s4 : Flavor

pub record Adt : Type 1 where
  pub World : Type 0
  pub Failure : Type 0
  pub LockMap : Type 0
  pub PatchOp : Type 0
  pub ActivationResult : Type 0
  pub InactiveObject : Type 0
  pub TextSymbol : Type 0
  pub SelectionText : Type 0
  pub get : LockMap → Text → Option LockState
  pub set : LockMap → Text → Text → Text → LockMap
  pub delete : LockMap → Text → LockMap
  pub update_etag : LockMap → Text → Text → LockMap
  pub lock_key : Text → Text → Text
  pub system_flavor : World → Result Failure Flavor × World
  pub lock_object : Text → World → Result Failure Text × World
  pub unlock_object : Text → Text → World → Result Failure (Unit {0}) × World
  pub logout : World → Result Failure (Unit {0}) × World
  pub get_source : Text → World → Result Failure (Text × Text) × World
  pub get_class_definition : Text → World → Result Failure (Text × Text) × World
  pub get_include_source : Text → Text → World → Result Failure (Text × Text) × World
  pub activate_objects : List Text → World → Result Failure ActivationResult × World
  pub get_inactive_objects : World → Result Failure (List InactiveObject) × World
  pub text_element_lock_uri : Text → Result Text Text
  pub set_text_elements :
      Text
      → List TextSymbol
      → List SelectionText
      → Text
      → Text
      → World
      → Result Failure (Unit {0}) × World
  pub set_source : Text → Text → Text → Text → Text → World → Result Failure Text × World
  pub set_include_source :
      Text → Text → Text → Text → Text → Text → World → Result Failure Text × World
  pub create_test_include : Text → Text → Text → World → Result Failure (Unit {0}) × World
  pub apply_patch_ops : Text → List PatchOp → Result Failure Text
  pub resolve_lock : Text → Text → Text → LockMap → World → Result Failure Text × LockMap × World
  pub resolve_etag : Text → Text → LockMap → World → Result Failure Text × LockMap × World

-- The handle that the lock map has for a key, empty if it has none.
abbrev pub handle_of : Option LockState → Text
handle_of none = []
handle_of (some l) = l.lock_handle

-- What the tools rely on: the map keeps what was stored per key; the key is `<system>:<uri>`;
-- `ResolveLock` gives back an explicit handle as it is, and without one reuses the map's handle or locks the object and stores
-- the new handle; `ResolveETag` and `UpdateETag` concern the ETag of their own key alone.
module _ (a : Adt) where
  open a use {get, set, delete, update_etag, lock_key, lock_object, resolve_lock, resolve_etag}

  pub record AdtLaws : Type 0 where
    pub get-set :
        (m : a.LockMap) (k h e j : Text)
        → get (set m k h e) j
          ≡ (if text_eq k j then some (record { lock_handle = h; etag = e }) else get m j)
    pub get-delete :
        (m : a.LockMap) (k j : Text) → get (delete m k) j ≡ (if text_eq k j then none else get m j)
    pub handle-update_etag :
        (m : a.LockMap) (k e : Text) → handle_of (get (update_etag m k e) k) ≡ handle_of (get m k)
    pub get-update_etag_ne :
        (m : a.LockMap) (k e j : Text) → text_eq k j ≡ false → get (update_etag m k e) j ≡ get m j
    pub lock_key_lem : (system uri : Text) → lock_key system uri ≡ system ++ b':' ∷ uri
    pub resolve_cached :
        (k u : Text) (m : a.LockMap) (w : a.World)
        → handle_of (get m k) ≢ []
        → resolve_lock k u [] m w ≡ (ok (handle_of (get m k)), m, w)
    pub resolve_miss_answer :
        (k u : Text) (m : a.LockMap) (w : a.World)
        → handle_of (get m k) ≡ []
        → (resolve_lock k u [] m w).0 ≡ (lock_object u w).0
    pub resolve_miss_world :
        (k u : Text) (m : a.LockMap) (w : a.World)
        → handle_of (get m k) ≡ []
        → (resolve_lock k u [] m w).2 ≡ (lock_object u w).1
    pub resolve_explicit :
        (k u h : Text) (m : a.LockMap) (w : a.World)
        → h ≢ []
        → resolve_lock k u h m w ≡ (ok h, m, w)
    pub resolve_stores :
        (k u : Text) (m : a.LockMap) (w : a.World) (h : Text)
        → (resolve_lock k u [] m w).0 ≡ ok h
        → handle_of (get (resolve_lock k u [] m w).1 k) ≡ h
    pub resolve_error :
        (k u : Text) (m : a.LockMap) (w : a.World) (e : a.Failure)
        → (resolve_lock k u [] m w).0 ≡ err e
        → (resolve_lock k u [] m w).1 ≡ m
    pub resolve_ne :
        (k u : Text) (m : a.LockMap) (w : a.World) (j : Text)
        → text_eq k j ≡ false
        → get (resolve_lock k u [] m w).1 j ≡ get m j
    pub resolve_etag_handle :
        (k u : Text) (m : a.LockMap) (w : a.World)
        → handle_of (get (resolve_etag k u m w).1 k) ≡ handle_of (get m k)
    pub resolve_etag_ne :
        (k u : Text) (m : a.LockMap) (w : a.World) (j : Text)
        → text_eq k j ≡ false
        → get (resolve_etag k u m w).1 j ≡ get m j
