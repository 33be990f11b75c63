-- ===== src/Locks/Activate.antt =====
-- The tools of tools/activate.go, and the reading tools of tools/source.go on one object, which
-- share the session's lock map.
pub mod Exact
pub mod Reads
use aibap_mcp.Base.{
  Option, none, some, ℕ, List, [], ◌∷◌, Text, is_empty, length, Result, ok, err, if◌then◌else◌,
}
use aibap_mcp.Locks.Adt.{Adt}
use aibap_mcp.Locks.Session.{Error, sap, Session}
use aibap_mcp.Locks.Tools.{unlock_before_activate}

-- An answer of SAP as a tool reports it.
unfoldable pub sap_answer : {F A : Type 0} → Result F A → Result (Error F) A
sap_answer (err e) = err (sap e)
sap_answer (ok x) = ok x

pub record InactiveObjectsResult (A : Type 0) : Type 0 where
  pub count : ℕ
  pub objects : List A

unfoldable pub inactive_result :
    {F A : Type 0} → Result F (List A) → Result (Error F) (InactiveObjectsResult A)
inactive_result (err e) = err (sap e)
inactive_result (ok objects) = ok (record { count = length objects; objects = objects })

pub record SourceResult : Type 0 where
  pub source : Text
  pub etag : Text

pub record IncludeSourceResult : Type 0 where
  pub source : Text
  pub etag : Text
  pub include_name : Text

-- The failures of `get_include_source`.
pub data ReadError (F : Type 0) : Type 0 where
  missing_include : ReadError F
  read_failed : F → ReadError F

module _ (a : Adt) where
  unfoldable pub activate_objects :
      Session a → List Text → Result (Error a.Failure) a.ActivationResult × Session a
  unfolding sap_answer
  activate_objects s uris =
      let released = unlock_before_activate a s uris in
      let (answer, w) = a.activate_objects uris released.world in
      (sap_answer answer, record released { world = w })

  unfoldable pub activate_object :
      Session a → Text → Result (Error a.Failure) a.ActivationResult × Session a
  unfolding sap_answer
  activate_object s uri =
      let released = unlock_before_activate a s (uri ∷ []) in
      let (answer, w) = a.activate_objects (uri ∷ []) released.world in
      (sap_answer answer, record released { world = w })

  pub get_inactive_objects :
      Session a → Result (Error a.Failure) (InactiveObjectsResult a.InactiveObject) × Session a
  unfolding inactive_result
  get_inactive_objects s =
      let (answer, w) = a.get_inactive_objects s.world in
      (inactive_result answer, record s { world = w })

  -- `get_source` on one object: the new ETag goes to the lock map.
  unfoldable pub source_answer :
      Session a
      → Text
      → Result a.Failure (Text × Text)
      → Result (Error a.Failure) SourceResult × Session a
  source_answer s uri (err e) = (err (sap e), s)
  source_answer s uri (ok (source, etag)) = (
    ok (record { source = source; etag = etag }),
    record s { lock_map = a.update_etag s.lock_map (a.lock_key s.active uri) etag },
  )

  unfoldable pub get_source : Session a → Text → Result (Error a.Failure) SourceResult × Session a
  unfolding source_answer
  get_source s uri =
      let (answer, w) = a.get_source uri s.world in
      source_answer (record s { world = w }) uri answer

  definition_answer : Result a.Failure (Text × Text) → Result (Error a.Failure) SourceResult
  definition_answer (err e) = err (sap e)
  definition_answer (ok (source, etag)) = ok (record { source = source; etag = etag })

  pub get_class_definition : Session a → Text → Result (Error a.Failure) SourceResult × Session a
  unfolding definition_answer
  get_class_definition s uri =
      let (answer, w) = a.get_class_definition uri s.world in
      (definition_answer answer, record s { world = w })

  include_read :
      Text → Result a.Failure (Text × Text) → Result (ReadError a.Failure) IncludeSourceResult
  include_read inc (err e) = err (read_failed e)
  include_read inc (ok (source, etag)) =
      ok (record { source = source; etag = etag; include_name = inc })

  pub get_include_source :
      Session a → Text → Text → Result (ReadError a.Failure) IncludeSourceResult × Session a
  unfolding include_read
  get_include_source s uri inc =
      let (answer, w) = a.get_include_source uri inc s.world in
      if is_empty inc
      then (err missing_include, s)
      else (include_read inc answer, record s { world = w })
