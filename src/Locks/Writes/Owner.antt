-- ===== src/Locks/Writes/Owner.antt =====
-- Whose lock a write uses (tools/patch.go, tools/file_source.go, tools/source.go): a lock of the
-- caller survives the call, and a successful write used the handle that the ledger shows.
use aibap_mcp.Base.{◌≡◌, ◌∙◌, false, [], Text, ok, Bool-cases, inl, inr, arith}
use aibap_mcp.Locks.Adt.{Adt, AdtLaws, handle_of}
use aibap_mcp.Locks.Session.{Session}
use aibap_mcp.Locks.WriteLock.{Resolved, resolve_write_lock_handle}
use aibap_mcp.Locks.WriteLock.Release.{
  resolve-Owns, resolve_error, resolve_keeps, resolve_callers, CallerOwns,
}
use aibap_mcp.Locks.Writes.{Write, write, uri_of, explicit_of, allows_auto_lock}
use aibap_mcp.Locks.Store.{Written, roll_back}
use aibap_mcp.Locks.Writes.Outcome.{
  failed, done, Outcome, refused, unresolved, resolved, write-Outcome,
}
use aibap_mcp.Locks.Writes.Ledger.{key_of_write}

module _ (a : Adt) (l : AdtLaws a) where
  roll_back_kept :
      (s : Session a) (key uri : Text) (r : Resolved)
      → r.release_on_failure ≡ false
      → roll_back a s key uri r ≡ s
  unfolding roll_back
  roll_back_kept s key uri r h = rw h

  -- A write never takes the caller's lock away: if the caller gave a handle, or the lock map had
  -- one and the system is not ECC, the map's handle for the object is the same after the call,
  -- however it ends.
  pub write_keeps_caller_lock :
      (s : Session a) (c : Write a)
      → CallerOwns a l s (key_of_write a l s c) (explicit_of a c)
      → handle_of (a.get (write a s c).1.lock_map (key_of_write a l s c))
        ≡ handle_of (a.get s.lock_map (key_of_write a l s c))
  write_keeps_caller_lock s c owned = go (write-Outcome a l s c)
    where
      key : Text
      key = key_of_write a l s c

      kept :
          (r : Resolved)
          → (resolve_write_lock_handle a s key
              (uri_of a c)
              (explicit_of a c)
              (allows_auto_lock a c)).0
            ≡ ok r
          → r.release_on_failure ≡ false
      kept r q =
          resolve_callers a l s key (uri_of a c) (explicit_of a c) (allows_auto_lock a c) r owned q

      go :
          Outcome a s key (uri_of a c) (explicit_of a c) (allows_auto_lock a c) (write a s c)
          → handle_of (a.get (write a s c).1.lock_map key) ≡ handle_of (a.get s.lock_map key)
      go (refused _ p) = rw p
      go (unresolved x _ q p) =
          rw p
            ((resolve_error a l s key (uri_of a c) (explicit_of a c) (allows_auto_lock a c) x q).0)
      go (resolved r q (failed _ s' same p)) =
          rw (p, roll_back_kept s' key (uri_of a c) r (kept r q))
            (same.own
              ∙ (resolve_keeps a l s key (uri_of a c) (explicit_of a c) (allows_auto_lock a c) r q
                  (kept r q)).1)
      go (resolved r q (done w s' same h p)) = rw p (
          same.own
          ∙ (resolve_keeps a l s key (uri_of a c) (explicit_of a c) (allows_auto_lock a c) r q
              (kept r q)).1)

  -- A write that succeeds without an explicit handle reports the handle that the lock map then
  -- holds for the object.
  pub write_success_handle :
      (s : Session a) (c : Write a) (w : Written)
      → explicit_of a c ≡ []
      → (write a s c).0 ≡ ok w
      → handle_of (a.get (write a s c).1.lock_map (key_of_write a l s c)) ≡ w.lock_handle
  write_success_handle s c w implicit success = go (write-Outcome a l s c)
    where
      key : Text
      key = key_of_write a l s c

      go :
          Outcome a s key (uri_of a c) (explicit_of a c) (allows_auto_lock a c) (write a s c)
          → handle_of (a.get (write a s c).1.lock_map key) ≡ w.lock_handle
      go (refused _ p) = cc (p)
      go (unresolved x _ q p) = cc (p)
      go (resolved r q (failed _ s' same p)) = cc (p)
      go (resolved r q (done w' s' same h p)) = elim (Bool-cases r.release_on_failure) [
        | inl rel ↦ ground (
          arith,
          p,
          h,
          rel,
          same.own,
          resolve-Owns a l s key (uri_of a c) (explicit_of a c) (allows_auto_lock a c) r q rel,
        )
        | inr kept ↦ ground (
          arith,
          p,
          h,
          kept,
          same.own,
          implicit,
          resolve_keeps a l s key (uri_of a c) (explicit_of a c) (allows_auto_lock a c) r q kept,
        )
      ]
