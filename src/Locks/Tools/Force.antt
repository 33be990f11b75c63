-- ===== src/Locks/Tools/Force.antt =====
-- What `force_unlock` of tools/lock.go does to the ledger.
use aibap_mcp.Base.{
  ◌≡◌, ◌≢◌, sym, true, false, not, ◌&&◌, none, [], ◌∷◌, ◌++◌, Text, starts_with, starts_with-append,
  has_byte, prefix_determines, contains-keep, distinct, length, ok, if◌then◌else◌, Bool-cases, inl,
  inr, text_eq, text_eq_iff, ◌==◌, ◌∙◌,
}
use aibap_mcp.Locks.Adt.{Adt, AdtLaws}
use aibap_mcp.Locks.Session.{Session, snapshot, tracked}
use aibap_mcp.Locks.Session.Forget.{
  snapshot-forget_system, get-forget_system, held_under, cleared-forget_system,
}
use aibap_mcp.Locks.Tools.{force_unlock, logout_answer}
use mathlib.Core.Bool.{false≢true}
use mathlib.Core.List.{append_assoc}

module _ (a : Adt) (l : AdtLaws a) where
  own_prefix :
      (system uri : Text) → starts_with (system ++ b':' ∷ []) (a.lock_key system uri) ≡ true
  own_prefix system uri =
      rw (l.lock_key_lem system uri, ← append_assoc system (b':' ∷ []) uri)
        (starts_with-append (system ++ b':' ∷ []) uri)

  other_prefix :
      (system system' uri : Text)
      → has_byte b':' system ≡ false
      → has_byte b':' system' ≡ false
      → system ≢ system'
      → starts_with (system ++ b':' ∷ []) (a.lock_key system' uri) ≡ false
  other_prefix system system' uri h h' ne =
      elim (Bool-cases (starts_with (system ++ b':' ∷ []) (a.lock_key system' uri))) [
        | inl e ↦ absurd (
            ne (
              prefix_determines b':' system system' uri h h'
                (rw (l.lock_key_lem system' uri) at e)))
        | inr e ↦ e
      ]

  prefix_eq :
      (active system uri : Text)
      → has_byte b':' active ≡ false
      → has_byte b':' system ≡ false
      → starts_with (active ++ b':' ∷ []) (a.lock_key system uri) ≡ text_eq active system
  prefix_eq active system uri h h' = elim (Bool-cases (text_eq active system)) [
    | inl e ↦ rw (e, (text_eq_iff active system).0 e) (own_prefix system uri)
    | inr e ↦ rw e (
        other_prefix active system uri h h'
          (λ p. false≢true (sym e ∙ (text_eq_iff active system).1 p)))
  ]

  -- When the logout succeeds, exactly the active system's objects leave the ledger: a tracked one
  -- loses its handle in the lock map, none stays tracked, and the objects of every other system
  -- keep both. System names have no colon.
  pub force_unlock_exact :
      (s : Session a) (system uri : Text)
      → has_byte b':' s.active ≡ false
      → has_byte b':' system ≡ false
      → (a.logout s.world).0 ≡ ok tt
      → (a.get (force_unlock a s).1.lock_map (a.lock_key system uri) ≡ (
          if tracked s.tracker (a.lock_key system uri) && text_eq s.active system
          then none
          else a.get s.lock_map (a.lock_key system uri)))
        × (tracked (force_unlock a s).1.tracker (a.lock_key system uri)
            ≡ (tracked s.tracker (a.lock_key system uri) && not (text_eq s.active system)))
  unfolding force_unlock tracked
  force_unlock_exact s system uri ha hs h =
      rw (h, force_unlock, logout_answer)
        (
          rw (
            get-forget_system a l s.tracker s.lock_map s.active (a.lock_key system uri),
            prefix_eq s.active system uri ha hs,
          ),
          rw (snapshot-forget_system a s.tracker s.lock_map s.active) (
              rw (
                contains-keep (λ k. not (starts_with (s.active ++ b':' ∷ []) k))
                    (a.lock_key system uri) (snapshot s.tracker),
                prefix_eq s.active system uri ha hs,
              )),
        )

  -- The number that `force_unlock` reports is the number of the active system's tracked keys for
  -- which the lock map held a handle, and the advice on SM12 is given exactly when it is 0.
  pub force_unlock_count :
      (s : Session a)
      → distinct (snapshot s.tracker) ≡ true
      → (a.logout s.world).0 ≡ ok tt
      → (force_unlock a s).0
        ≡ ok (record {
          system = s.active;
          session_reset = true;
          locks_cleared =
              length (held_under a l (s.active ++ b':' ∷ []) (snapshot s.tracker) s.lock_map);
          steer_to_sm12 =
              length (held_under a l (s.active ++ b':' ∷ []) (snapshot s.tracker) s.lock_map) == 0;
        })
  unfolding force_unlock
  force_unlock_count s d h =
      rw (h, force_unlock) (rw (cleared-forget_system a l s.tracker s.lock_map s.active d))
