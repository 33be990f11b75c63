-- ===== src/Locks/Writes.antt =====
-- The write tools: tools/patch.go, tools/file_source.go, and the include tools of tools/source.go.
pub mod Outcome
pub mod Ledger
pub mod Owner
use aibap_mcp.Base.{
  ℕ, suc, Bool, true, false, Option, none, some, List, [], ◌∷◌, Text, is_empty, trim_space, Result,
  ok, err, if◌then◌else◌, ◌==◌, bytes,
}
use aibap_mcp.Locks.Adt.{Adt, handle_of}
use aibap_mcp.Locks.Session.{
  Error, sap, auto_lock_failed, no_lock_tracked, missing_parameter, empty_parameter,
  parse_operations, patch_failed, reading_file, Session,
}
use aibap_mcp.Locks.WriteLock.{Resolved, resolve_write_lock_handle, release_auto_lock}
use aibap_mcp.Locks.Store.{Written, fail, store}

module _ (a : Adt) where
  open a use {
    get, lock_key, update_etag, get_source, set_source, set_include_source, create_test_include,
    apply_patch_ops, resolve_etag,
  }

  patch_store :
      Session a
      → Text
      → Text
      → Text
      → Resolved
      → Text
      → Result a.Failure Text
      → Result (Error a.Failure) Written × Session a
  unfolding store fail
  patch_store s key uri transport r etag (err e) = fail a s key uri r (patch_failed e)
  patch_store s key uri transport r etag (ok source) =
      store a s key uri transport r r.auto_locked source etag

  patch_apply :
      Session a
      → Text
      → Text
      → Text
      → Resolved
      → List a.PatchOp
      → Result a.Failure (Text × Text)
      → Result (Error a.Failure) Written × Session a
  unfolding patch_store fail
  patch_apply s key uri transport r ops (err e) = fail a s key uri r (sap e)
  patch_apply s key uri transport r ops (ok (source, etag)) =
      patch_store s key uri transport r etag (apply_patch_ops source ops)

  patch_locked :
      Text
      → Text
      → Text
      → List a.PatchOp
      → Result (Error a.Failure) Resolved × Session a
      → Result (Error a.Failure) Written × Session a
  unfolding patch_apply
  patch_locked key uri transport ops (err e, s) = (err (auto_lock_failed e), s)
  patch_locked key uri transport ops (ok r, s) =
      let (answer, w) = get_source uri s.world in
      patch_apply (record s { world = w }) key uri transport r ops answer

  -- The `operations` argument: absent, not decodable, or a list.
  unfoldable pub patch_source :
      Session a
      → Text
      → Text
      → Text
      → Option (Result a.Failure (List a.PatchOp))
      → Result (Error a.Failure) Written × Session a
  unfolding patch_locked
  patch_source s uri transport explicit none = (err (missing_parameter (bytes "operations")), s)
  patch_source s uri transport explicit (some (err e)) = (err (parse_operations e), s)
  patch_source s uri transport explicit (some (ok ops)) =
      let key = lock_key s.active uri in
      patch_locked key uri transport ops (resolve_write_lock_handle a s key uri explicit true)

  file_etag :
      Session a
      → Text
      → Text
      → Text
      → Resolved
      → Text
      → Result a.Failure Text
      → Result (Error a.Failure) Written × Session a
  unfolding store fail
  file_etag s key uri transport r source (err e) = fail a s key uri r (sap e)
  file_etag s key uri transport r source (ok etag) = store a s key uri transport r true source etag

  file_locked :
      Text
      → Text
      → Text
      → Text
      → Result (Error a.Failure) Resolved × Session a
      → Result (Error a.Failure) Written × Session a
  unfolding file_etag
  file_locked key uri transport source (err e, s) = (err (auto_lock_failed e), s)
  file_locked key uri transport source (ok r, s) =
      let (answer, m, w) = resolve_etag key uri s.lock_map s.world in
      file_etag (record s { world = w; lock_map = m }) key uri transport r source answer

  -- `set_source_from_file`, with the answer of reading the file.
  pub set_source_from_file :
      Session a
      → Text
      → Text
      → Text
      → Result a.Failure Text
      → Result (Error a.Failure) Written × Session a
  unfolding file_locked
  set_source_from_file s uri transport explicit (err e) = (err (reading_file e), s)
  set_source_from_file s uri transport explicit (ok source) =
      let key = lock_key s.active uri in
      file_locked key uri transport source (resolve_write_lock_handle a s key uri explicit true)

  include_answer :
      Session a
      → Text
      → Text
      → Resolved
      → Result a.Failure Text
      → Result (Error a.Failure) Written × Session a
  unfolding fail
  include_answer s key uri r (err e) = fail a s key uri r (sap e)
  include_answer s key uri r (ok etag) =
      (ok (record { locked = r.auto_locked; lock_handle = r.handle; etag = etag }), s)

  include_locked :
      Text
      → Text
      → Text
      → Text
      → Text
      → Text
      → Result (Error a.Failure) Resolved × Session a
      → Result (Error a.Failure) Written × Session a
  unfolding include_answer
  include_locked key uri inc source transport etag (err e, s) = (err e, s)
  include_locked key uri inc source transport etag (ok r, s) =
      let (answer, w) = set_include_source uri inc source r.handle transport etag s.world in
      include_answer (record s { world = w }) key uri r answer

  -- `set_include_source`; `none` is an absent argument. The result's handle is not reported.
  pub set_include_source_tool :
      Session a
      → Text
      → Text
      → Option Text
      → Option Text
      → Text
      → Text
      → Result (Error a.Failure) Written × Session a
  unfolding include_locked
  set_include_source_tool s uri [] source etag explicit transport =
      (err (missing_parameter (bytes "include")), s)
  set_include_source_tool s uri (i ∷ nc) none etag explicit transport =
      (err (missing_parameter (bytes "source")), s)
  set_include_source_tool s uri (i ∷ nc) (some source) none explicit transport = (
    err (
        if is_empty (trim_space source)
        then empty_parameter (bytes "source")
        else missing_parameter (bytes "etag")),
    s,
  )
  set_include_source_tool s uri (i ∷ nc) (some source) (some etag) explicit transport =
      if is_empty (trim_space source)
      then (err (empty_parameter (bytes "source")), s)
      else let key = lock_key s.active uri in
        include_locked key uri (i ∷ nc) source transport etag
          (resolve_write_lock_handle a s key uri explicit false)

  created :
      Session a → Text → Result a.Failure (Unit {0}) → Result (Error a.Failure) Text × Session a
  created s uri (err e) = (err (sap e), s)
  created s uri (ok _) = (ok uri, s)

  -- `create_test_include`
  pub create_test_include_tool :
      Session a → Text → Text → Text → Result (Error a.Failure) Text × Session a
  unfolding created
  create_test_include_tool s uri explicit transport =
      let own = handle_of (get s.lock_map (lock_key s.active uri)) in
      let handle = if is_empty explicit then own else explicit in
      let (answer, w) = create_test_include uri handle transport s.world in
      if is_empty handle
      then (err (no_lock_tracked uri), s)
      else created (record s { world = w }) uri answer

  -- A call of one of the three tools that write source, with its arguments.
  pub data Write : Type 0 where
    patch : Text → Text → Text → Option (Result a.Failure (List a.PatchOp)) → Write
    from_file : Text → Text → Text → Result a.Failure Text → Write
    to_include : Text → Text → Option Text → Option Text → Text → Text → Write

  unfoldable pub write : Session a → Write → Result (Error a.Failure) Written × Session a
  write s (patch uri transport explicit ops) = patch_source s uri transport explicit ops
  write s (from_file uri transport explicit source) =
      set_source_from_file s uri transport explicit source
  write s (to_include uri inc source etag explicit transport) =
      set_include_source_tool s uri inc source etag explicit transport

  abbrev pub uri_of : Write → Text
  uri_of (patch uri _ _ _) = uri
  uri_of (from_file uri _ _ _) = uri
  uri_of (to_include uri _ _ _ _ _) = uri

  abbrev pub explicit_of : Write → Text
  explicit_of (patch _ _ explicit _) = explicit
  explicit_of (from_file _ _ explicit _) = explicit
  explicit_of (to_include _ _ _ _ explicit _) = explicit

  -- Only `set_include_source` refuses to lock the object itself.
  abbrev pub allows_auto_lock : Write → Bool
  allows_auto_lock (patch _ _ _ _) = true
  allows_auto_lock (from_file _ _ _ _) = true
  allows_auto_lock (to_include _ _ _ _ _ _) = false
