-- ===== src/Locks/Writes/Ledger.antt =====
-- What the write tools do to the lock ledger (tools/patch.go, tools/file_source.go,
-- tools/source.go), from the ways in which they end.
use aibap_mcp.Base.{
  ◌≡◌, ◌∙◌, ◌⊎◌, refl, ap, true, false, ◌&&◌, none, [], Text, text_eq, text_eq_refl, if◌then◌else◌,
  err, is_ok, Bool-cases, inl, inr, arith,
}
use aibap_mcp.Locks.Adt.{Adt, AdtLaws, handle_of}
use aibap_mcp.Locks.Session.{Session, Error, tracked, untrack}
use aibap_mcp.Locks.WriteLock.{Resolved, resolve_write_lock_handle}
use aibap_mcp.Locks.WriteLock.Resolve.{resolve_ne, Elsewhere}
use aibap_mcp.Locks.WriteLock.Release.{
  resolve_error, resolve_keeps, resolve_untracked, tracker-release, release_cases,
}
use aibap_mcp.Locks.Writes.{Write, write, uri_of, explicit_of, allows_auto_lock}
use aibap_mcp.Locks.Store.{roll_back}
use aibap_mcp.Locks.Writes.Outcome.{
  failed, done, Outcome, refused, unresolved, resolved, write-Outcome,
}

module _ (a : Adt) (l : AdtLaws a) where
  roll_back_cases :
      (s : Session a) (key uri : Text) (r : Resolved) (j : Text)
      → let s' = roll_back a s key uri r in
        let gone =
          r.release_on_failure
          && (is_ok (a.unlock_object uri r.handle s.world).0 && text_eq key j) in
        (a.get s'.lock_map j ≡ (if gone then none else a.get s.lock_map j))
        × (tracked s'.tracker j ≡ (if gone then false else tracked s.tracker j))
  unfolding roll_back
  roll_back_cases s key uri r j = ground (arith, release_cases a l s key uri r.handle j)

  tracker-roll_back :
      (s : Session a) (key uri : Text) (r : Resolved)
      → let t = (roll_back a s key uri r).tracker in (t ≡ s.tracker) ⊎ (t ≡ untrack s.tracker key)
  unfolding roll_back
  tracker-roll_back s key uri r = elim (Bool-cases r.release_on_failure) [
    | inl p ↦ rw (p, roll_back) (tracker-release a l s key uri r.handle)
    | inr p ↦ inl (rw p)
  ]

  -- The key of the object that a call writes.
  abbrev pub key_of_write : Session a → Write a → Text
  key_of_write s c = a.lock_key s.active (uri_of a c)

  -- A write tool leaves the lock map and the tracker as they were at every other key, however it
  -- ends.
  pub write_elsewhere :
      (s : Session a) (c : Write a) (j : Text)
      → text_eq (key_of_write s c) j ≡ false
      → (a.get (write a s c).1.lock_map j ≡ a.get s.lock_map j)
        × (tracked (write a s c).1.tracker j ≡ tracked s.tracker j)
  write_elsewhere s c j ne = go (write-Outcome a l s c)
    where
      key : Text
      key = key_of_write s c

      before :
          Elsewhere a l key s
            (resolve_write_lock_handle a s key
              (uri_of a c)
              (explicit_of a c)
              (allows_auto_lock a c)).1
            j
      before = resolve_ne a l s key (uri_of a c) (explicit_of a c) (allows_auto_lock a c) j ne

      go :
          Outcome a s key (uri_of a c) (explicit_of a c) (allows_auto_lock a c) (write a s c)
          → Elsewhere a l key s (write a s c).1 j
      go (refused e p) = rw p (refl, refl)
      go (unresolved e e' q p) = rw p before
      go (resolved r q (failed e s' same p)) = rw p (
          ground (
            arith,
            roll_back_cases s' key (uri_of a c) r j,
            before,
            same.rest j ne,
            ap (λ t. tracked t j) same.keys,
          ))
      go (resolved r q (done w s' same h p)) =
          rw p (ground (arith, before, same.rest j ne, ap (λ t. tracked t j) same.keys))

  -- If the object had no lock in the ledger and the system answers unlock requests, a write that
  -- fails leaves none: neither a handle in the lock map nor a tracked key.
  pub write_failure_releases :
      (s : Session a) (c : Write a) (e : Error a.Failure)
      → ((h : Text) (w : a.World) → is_ok (a.unlock_object (uri_of a c) h w).0 ≡ true)
      → handle_of (a.get s.lock_map (key_of_write s c)) ≡ []
      → tracked s.tracker (key_of_write s c) ≡ false
      → (write a s c).0 ≡ err e
      → (handle_of (a.get (write a s c).1.lock_map (key_of_write s c)) ≡ [])
        × (tracked (write a s c).1.tracker (key_of_write s c) ≡ false)
  write_failure_releases s c e unlocks no_handle untracked failure = go (write-Outcome a l s c)
    where
      key : Text
      key = key_of_write s c

      Clear : Session a → Type 0
      Clear s' = (handle_of (a.get s'.lock_map key) ≡ []) × (tracked s'.tracker key ≡ false)

      go :
          Outcome a s key (uri_of a c) (explicit_of a c) (allows_auto_lock a c) (write a s c)
          → Clear (write a s c).1
      go (refused _ p) = rw p (no_handle, untracked)
      go (unresolved x _ q p) =
          let (h, t) =
            resolve_error a l s key (uri_of a c) (explicit_of a c) (allows_auto_lock a c) x q in
          rw p (h ∙ no_handle, ap (λ t. tracked t key) t ∙ untracked)
      go (resolved r q (failed _ s' same p)) = elim (Bool-cases r.release_on_failure) [
        | inl rel ↦ rw p (
            ground (
              arith,
              rel,
              roll_back_cases s' key (uri_of a c) r key,
              unlocks r.handle s'.world,
              text_eq_refl key,
            ))
        | inr kept ↦ rw p (
            ground (
              arith,
              kept,
              no_handle,
              untracked,
              same.own,
              ap (λ t. tracked t key) same.keys,
              roll_back_cases s' key (uri_of a c) r key,
              resolve_keeps a l s key (uri_of a c) (explicit_of a c) (allows_auto_lock a c) r q
                  kept,
              ap (λ t. tracked t key)
                  (resolve_untracked a l s key (uri_of a c) (explicit_of a c) (allows_auto_lock a c)
                    r q kept no_handle),
            ))
      ]
      go (resolved r q (done w s' same h p)) = cc (p)
