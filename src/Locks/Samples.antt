-- ===== src/Locks/Samples.antt =====
-- A small SAP system and lock map that meet the hypotheses on adtler, and the theorems of the lock
-- component at concrete calls.
pub mod Writes
use aibap_mcp.Base.{
  ℕ, ◌+◌, ◌≡◌, refl, ◌⊎◌, Bool, true, false, Option, some, none, List, [], ◌∷◌, ◌++◌, Text, bytes,
  text_eq, text_eq_iff, is_empty, if◌then◌else◌, Result, ok, err, arith, inr,
}
use aibap_mcp.Base.{keep, starts_with, has_byte, distinct, sort, sorted, contains, all}
use mathlib.Core.List.{map}
use aibap_mcp.Locks.Session.{
  Session, Error, sap, handle_mismatch, terminating_session, tracked, track, snapshot,
}
use aibap_mcp.Locks.WriteLock.{is_ecc, resolve_write_lock_handle, release_auto_lock}
use aibap_mcp.Locks.WriteLock.Resolve.{resolve_ecc_fresh}
use aibap_mcp.Locks.Tools.{force_unlock, unlock, collect_tracked_locks, unlock_before_activate}
use aibap_mcp.Locks.Tools.Force.{force_unlock_exact, force_unlock_count}
use aibap_mcp.Locks.Tools.Listing.{
  reported, key_of, list_locks_lem, list_locks_reports, list_locks_sorted,
}
use aibap_mcp.Locks.Tools.Unlock.{
  Unlocked, AsksOwn, unlock_lem, unlock_success, unlock_failure, unlock_sends_own,
  unlock_before_activate_exact,
}
use aibap_mcp.Locks.Activate.{activate_objects}
use aibap_mcp.Locks.Activate.Exact.{held, send_unlocks, activate_objects_exact}
use aibap_mcp.Locks.Writes.{Write, patch, write, patch_source}
use aibap_mcp.Locks.Writes.Ledger.{write_elsewhere, write_failure_releases}
use aibap_mcp.Locks.Writes.Owner.{write_keeps_caller_lock, write_success_handle}
use aibap_mcp.Locks.Adt.{Adt, AdtLaws, LockState, Flavor, ecc, s4, handle_of}

data Failure : Type 0 where
  refused_write refused_logout : Failure

-- What the system answers: its flavor, whether it takes writes, whether it logs out, the next handle.
record World : Type 0 where
  flavor : Flavor
  takes_writes : Bool
  logs_out : Bool
  next : ℕ

abbrev LockMap : Type 0
LockMap = List (Text × LockState)

get : LockMap → Text → Option LockState
get [] k = none
get ((j, l) ∷ m) k = if text_eq j k then some l else get m k

delete : LockMap → Text → LockMap
delete [] k = []
delete ((j, l) ∷ m) k = let rest = delete m k in if text_eq j k then rest else (j, l) ∷ rest

set : LockMap → Text → Text → Text → LockMap
set m k h e = (k, record { lock_handle = h; etag = e }) ∷ m

update_etag : LockMap → Text → Text → LockMap
unfolding set get
update_etag m k e = elim (get m k) [ none ↦ m | some l ↦ set m k l.lock_handle e ]

lock_object : Text → World → Result Failure Text × World
lock_object uri w = (ok (w.next ∷ []), record w { next = w.next + 1 })

put_lock : Text → LockMap → Result Failure Text → World → Result Failure Text × LockMap × World
unfolding set
put_lock k m (ok h) w = (ok h, set m k h [], w)
put_lock k m (err e) w = (err e, m, w)

resolve_lock : Text → Text → Text → LockMap → World → Result Failure Text × LockMap × World
unfolding put_lock get lock_object
resolve_lock k uri explicit m w =
    if is_empty explicit
    then (let h = handle_of (get m k) in
        let (answer, w') = lock_object uri w in
        if is_empty h then put_lock k m answer w' else (ok h, m, w))
    else (ok explicit, m, w)

taken : {A : Type 0} → Bool → A → Failure → Result Failure A
taken true x e = ok x
taken false x e = err e

abbrev sample : Adt
sample = record {
  World = World;
  Failure = Failure;
  LockMap = LockMap;
  PatchOp = Text;
  ActivationResult = List Text;
  InactiveObject = Text;
  TextSymbol = Text;
  SelectionText = Text;
  get = get;
  set = set;
  delete = delete;
  update_etag = update_etag;
  lock_key = λ system uri. system ++ b':' ∷ uri;
  system_flavor = λ w. (ok w.flavor, w);
  lock_object = lock_object;
  unlock_object = λ uri handle w. (ok tt, w);
  logout = λ w. (taken w.logs_out tt refused_logout, w);
  get_source = λ uri w. (ok ([], []), w);
  get_class_definition = λ uri w. (ok ([], []), w);
  get_include_source = λ uri inc w. (ok ([], []), w);
  activate_objects = λ uris w. (ok uris, w);
  get_inactive_objects = λ w. (ok [], w);
  text_element_lock_uri = λ uri. ok uri;
  set_text_elements =
      λ uri symbols selections handle transport w. (taken w.takes_writes tt refused_write, w);
  set_source =
      λ uri source handle transport etag w. (taken w.takes_writes (bytes "e2") refused_write, w);
  set_include_source = λ uri inc source handle transport etag w.
      (taken w.takes_writes (bytes "e2") refused_write, w);
  create_test_include = λ uri handle transport w. (ok tt, w);
  apply_patch_ops = λ source ops. ok source;
  resolve_lock = resolve_lock;
  resolve_etag = λ key uri m w. (ok (bytes "e1"), m, w);
}

get-delete :
    (m : LockMap) (k j : Text) → get (delete m k) j ≡ (if text_eq k j then none else get m j)
unfolding get delete
get-delete [] k j = ground arith
get-delete ((i, l) ∷ m) k j =
    ground (arith, get-delete m k j, text_eq_iff i k, text_eq_iff i j, text_eq_iff k j)

handle-update_etag :
    (m : LockMap) (k e : Text) → handle_of (get (update_etag m k e) k) ≡ handle_of (get m k)
unfolding update_etag get set
handle-update_etag m k e = ground (arith, text_eq_iff k k)

get-update_etag_ne :
    (m : LockMap) (k e j : Text) → text_eq k j ≡ false → get (update_etag m k e) j ≡ get m j
unfolding update_etag get set
get-update_etag_ne m k e j h = ground arith

laws : AdtLaws sample
unfolding get set delete update_etag lock_object resolve_lock text_eq contains
laws = record {
  get-set = λ m k h e j. refl;
  get-delete = get-delete;
  handle-update_etag = handle-update_etag;
  get-update_etag_ne = get-update_etag_ne;
  lock_key_lem = λ system uri. refl;
  resolve_cached = λ k u m w h. ground (arith, h);
  resolve_miss_answer = λ k u m w h. ground (arith, h);
  resolve_miss_world = λ k u m w h. ground (arith, h);
  resolve_explicit = λ k u h m w ne. ground (arith, ne);
  resolve_stores = λ k u m w x h. ground (arith, h, text_eq_iff k k);
  resolve_error = λ k u m w e h. ground (arith, h);
  resolve_ne = λ k u m w j h. ground (arith, h);
  resolve_etag_handle = λ k u m w. refl;
  resolve_etag_ne = λ k u m w j h. refl;
}

abbrev sys_a : Text
sys_a = bytes "A"

abbrev obj : Text
obj = bytes "/prog/z1"

abbrev other : Text
other = bytes "/prog/z2"

abbrev key_a : Text
key_a = bytes "A:/prog/z1"

-- A system of a flavor that takes or refuses writes, with one object locked.
abbrev system : Flavor → Bool → Bool → World
system f w out = record { flavor = f; takes_writes = w; logs_out = out; next = 7 }

abbrev fresh : World → Session sample
fresh w = record { world = w; lock_map = []; tracker = some []; active = sys_a }

abbrev locked : World → Session sample
locked w = record {
  world = w;
  lock_map = (key_a, record { lock_handle = bytes "H"; etag = bytes "e0" }) ∷ [];
  tracker = some (key_a ∷ []);
  active = sys_a;
}

abbrev patch_obj : Write sample
patch_obj = patch obj [] [] (some (ok []))

resolve_ecc_fresh_example :
    ((resolve_write_lock_handle sample (locked (system ecc true true)) key_a obj [] true).0
      ≡ ok (record { handle = 7 ∷ []; auto_locked = false; release_on_failure = true }))
    × (get
          (resolve_write_lock_handle sample
            (locked (system ecc true true))
            key_a
            obj
            []
            true).1.lock_map
          key_a
        ≡ some (record { lock_handle = 7 ∷ []; etag = bytes "e0" }))
    × ((resolve_write_lock_handle sample
          (locked (system ecc true true))
          key_a
          obj
          []
          true).1.tracker
        ≡ track (some (key_a ∷ [])) key_a)
unfolding get lock_object text_eq contains
resolve_ecc_fresh_example =
    resolve_ecc_fresh sample laws (locked (system ecc true true)) key_a obj (7 ∷ []) true refl refl

force_unlock_exact_example :
    (get (force_unlock sample (locked (system s4 true true))).1.lock_map key_a ≡ none)
    × (tracked (force_unlock sample (locked (system s4 true true))).1.tracker key_a ≡ false)
unfolding text_eq tracked has_byte taken contains
force_unlock_exact_example =
    force_unlock_exact sample laws (locked (system s4 true true)) sys_a obj refl refl refl

list_locks_lem_example :
    let r =
      collect_tracked_locks sample (some (key_a ∷ [])) (locked (system s4 true true)).lock_map in
    (reported r.locks sys_a obj ≡ some (record { lock_handle = bytes "H"; etag = bytes "e0" }))
    × (map key_of r.locks ≡ key_a ∷ [])
    × (sorted (key_a ∷ []) ≡ true)
    × (r.count ≡ 1)
unfolding get text_eq tracked keep sort has_byte snapshot all contains
list_locks_lem_example =
    list_locks_lem sample laws (locked (system s4 true true)) sys_a obj refl refl

unlock_lem_example :
    let (answer, s') = unlock sample (locked (system s4 true true)) obj (bytes "X") in
    ((u : Text) × (answer ≡ ok u)
      × (st : LockState) × (get (locked (system s4 true true)).lock_map key_a ≡ some st)
      × Unlocked sample laws (locked (system s4 true true)) key_a obj (bytes "X") st s')
    ⊎ ((e : Error Failure) × (answer ≡ err e)
        × (s'.lock_map ≡ (locked (system s4 true true)).lock_map)
        × (s'.tracker ≡ (locked (system s4 true true)).tracker))
unlock_lem_example = unlock_lem sample laws (locked (system s4 true true)) obj (bytes "X")

activate_objects_exact_example :
    let s = locked (system s4 true true) in
    let (answer, s') = activate_objects sample s (other ∷ obj ∷ obj ∷ []) in
    (answer ≡ ok (other ∷ obj ∷ obj ∷ []))
    × (s'.world
        ≡ send_unlocks sample (held sample s.lock_map sys_a [] (other ∷ obj ∷ obj ∷ [])) s.world)
    × (get s'.lock_map key_a ≡ none)
    × (tracked s'.tracker key_a ≡ false)
unfolding get text_eq contains aibap_mcp.Locks.Activate.sap_answer tracked
activate_objects_exact_example =
    activate_objects_exact sample laws (locked (system s4 true true)) (other ∷ obj ∷ obj ∷ []) key_a
