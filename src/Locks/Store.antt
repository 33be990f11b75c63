-- ===== src/Locks/Store.antt =====
-- How a write of tools/patch.go and tools/file_source.go ends: the source is sent, and on any error
-- the lock that the call took is released.
use aibap_mcp.Base.{ℕ, suc, Bool, [], ◌∷◌, Text, Result, ok, err, if◌then◌else◌, ◌==◌}
use aibap_mcp.Locks.Adt.{Adt}
use aibap_mcp.Locks.Session.{Error, sap, Session}
use aibap_mcp.Locks.WriteLock.{Resolved, release_auto_lock}

-- What a write reports: the handle it used, whether the tool locked the object, the new ETag.
pub record Written : Type 0 where
  pub locked : Bool
  pub lock_handle : Text
  pub etag : Text

count_byte : ℕ → Text → ℕ
count_byte b [] = 0
count_byte b (c ∷ s) = let n = count_byte b s in if c == b then suc n else n

-- `len(strings.Split(source, "\n"))`
pub line_count : Text → ℕ
unfolding count_byte
line_count source = suc (count_byte 10 source)

module _ (a : Adt) where
  open a use {
    get, lock_key, update_etag, get_source, set_source, set_include_source, create_test_include,
    apply_patch_ops, resolve_etag,
  }

  -- An error after the lock was resolved: `if releaseOnFailure { releaseAutoLock(...) }`.
  unfoldable pub roll_back : Session a → Text → Text → Resolved → Session a
  roll_back s key uri r = if r.release_on_failure then release_auto_lock a s key uri r.handle else s

  unfoldable pub fail :
      Session a
      → Text
      → Text
      → Resolved
      → Error a.Failure
      → Result (Error a.Failure) Written × Session a
  unfolding roll_back
  fail s key uri r e = (err e, roll_back s key uri r)

  -- The answer of `SetSource`; `locked` is the flag that the tool reports.
  unfoldable pub stored :
      Session a
      → Text
      → Text
      → Resolved
      → Bool
      → Result a.Failure Text
      → Result (Error a.Failure) Written × Session a
  unfolding fail
  stored s key uri r locked (err e) = fail s key uri r (sap e)
  stored s key uri r locked (ok etag) = (
    ok (record { locked = locked; lock_handle = r.handle; etag = etag }),
    record s { lock_map = update_etag s.lock_map key etag },
  )

  unfoldable pub store :
      Session a
      → Text
      → Text
      → Text
      → Resolved
      → Bool
      → Text
      → Text
      → Result (Error a.Failure) Written × Session a
  unfolding stored
  store s key uri transport r locked source etag =
      let (answer, w) = set_source uri source r.handle transport etag s.world in
      stored (record s { world = w }) key uri r locked answer
