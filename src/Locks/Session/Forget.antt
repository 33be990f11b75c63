-- ===== src/Locks/Session/Forget.antt =====
-- What `forgetSystem` of tools/locktracker.go leaves and clears.
use aibap_mcp.Base.{
  ◌≡◌, refl, Bool, true, false, not, ◌&&◌, none, some, List, [], ◌∷◌, ◌++◌, Text, starts_with,
  is_some, contains, text_eq, text_eq_iff, keep, length, distinct, if◌then◌else◌, arith,
}
use aibap_mcp.Locks.Adt.{Adt, AdtLaws}
use aibap_mcp.Locks.Session.{Tracker, forget_keys, forget_system, snapshot}

module _ (a : Adt) where
  forget_keys_rest :
      (p : Text) (keys : List Text) (m : a.LockMap)
      → (forget_keys a p keys m).1 ≡ keep (λ k. not (starts_with p k)) keys
  unfolding forget_keys keep
  forget_keys_rest p [] m = refl
  forget_keys_rest p (k ∷ keys) m = ground (
    arith,
    forget_keys_rest p keys (if starts_with p k && is_some (a.get m k) then a.delete m k else m),
  )

  -- The tracker keeps the keys of the other systems, in order.
  pub snapshot-forget_system :
      (t : Tracker) (m : a.LockMap) (system : Text)
      → snapshot (forget_system a t m system).0
        ≡ keep (λ k. not (starts_with (system ++ b':' ∷ []) k)) (snapshot t)
  unfolding forget_system snapshot keep
  snapshot-forget_system none m system = refl
  snapshot-forget_system (some keys) m system = forget_keys_rest (system ++ b':' ∷ []) keys m

  module _ (l : AdtLaws a) where
    dropped :
        (b : Bool) (m : a.LockMap) (k j : Text)
        → a.get (if b && is_some (a.get m k) then a.delete m k else m) j
          ≡ (if b && text_eq k j then none else a.get m j)
    dropped b m k j = ground (arith, l.get-delete m k j, text_eq_iff k j)

    forget_keys_get :
        (p : Text) (keys : List Text) (m : a.LockMap) (j : Text)
        → a.get (forget_keys a p keys m).0 j
          ≡ (if contains keys j && starts_with p j then none else a.get m j)
    unfolding forget_keys contains
    forget_keys_get p [] m j = refl
    forget_keys_get p (k ∷ keys) m j = ground (
      arith,
      forget_keys_get p keys (if starts_with p k && is_some (a.get m k) then a.delete m k else m) j,
      dropped (starts_with p k) m k j,
      text_eq_iff k j,
    )

    pub get-forget_system :
        (t : Tracker) (m : a.LockMap) (system j : Text)
        → a.get (forget_system a t m system).1 j ≡ (
            if contains (snapshot t) j && starts_with (system ++ b':' ∷ []) j
            then none
            else a.get m j)
    unfolding forget_system snapshot contains
    get-forget_system none m system j = refl
    get-forget_system (some keys) m system j = forget_keys_get (system ++ b':' ∷ []) keys m j

    -- The handles that the lock map holds under the prefix, among the given keys.
    abbrev pub held_under : Text → List Text → a.LockMap → List Text
    held_under p keys m = keep (λ k. starts_with p k && is_some (a.get m k)) keys

    held_under_ne :
        (p : Text) (keys : List Text) (m : a.LockMap) (k : Text) (b : Bool)
        → contains keys k ≡ false
        → held_under p keys (if b && is_some (a.get m k) then a.delete m k else m)
          ≡ held_under p keys m
    unfolding keep contains
    held_under_ne p [] m k b h = refl
    held_under_ne p (j ∷ keys) m k b h =
        ground
          (arith, held_under_ne p keys m k b, dropped b m k j, text_eq_iff k j, text_eq_iff j k)

    forget_keys_count :
        (p : Text) (keys : List Text) (m : a.LockMap)
        → distinct keys ≡ true
        → (forget_keys a p keys m).2 ≡ length (held_under p keys m)
    unfolding forget_keys distinct keep
    forget_keys_count p [] m h = refl
    forget_keys_count p (k ∷ keys) m h = ground (
      arith,
      forget_keys_count p keys (if starts_with p k && is_some (a.get m k) then a.delete m k else m),
      held_under_ne p keys m k (starts_with p k),
    )

    -- The count is the number of handles that the map held under the system's prefix.
    pub cleared-forget_system :
        (t : Tracker) (m : a.LockMap) (system : Text)
        → distinct (snapshot t) ≡ true
        → (forget_system a t m system).2 ≡ length (held_under (system ++ b':' ∷ []) (snapshot t) m)
    unfolding forget_system snapshot keep
    cleared-forget_system none m system h = refl
    cleared-forget_system (some keys) m system h = forget_keys_count (system ++ b':' ∷ []) keys m h
