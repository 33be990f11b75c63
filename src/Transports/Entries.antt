-- ===== src/Transports/Entries.antt =====
-- The tools of tools/transport.go and tools/transport_copies.go that fill and empty a request.
use aibap_mcp.Base.{
  Bool, true, false, Option, none, some, [], ◌++◌, Text, bytes, to_upper, trim_space, if◌then◌else◌,
  Result, ok, err,
}
use aibap_mcp.Errors.{Failure, Classifier, wrap, is_kind, not_supported}
use aibap_mcp.Params.{Request, require_string}
use aibap_mcp.Transports.{
  Step, TransportClient, TransportEntryFallback, TransportCopiesFallback, BlackMagicClient,
  AddToTransportResult, RemoveFromTransportResult, CopyTransportObjectsResult,
  AddPackageToTransportResult,
}

-- `normalizeName`
unfoldable pub normalize_name : Text → Text
normalize_name s = to_upper (trim_space s)

-- "ADT cannot <do this> here and the fallback failed: %w (ADT: %v)"
unfoldable pub both_failed : Text → Failure → Failure → Failure
both_failed what fb_err e =
    wrap (bytes "ADT cannot " ++ (what ++ bytes " here and the fallback failed: ")) fb_err
      (bytes " (ADT: " ++ (e.text ++ bytes ")"))

-- The handlers' answer to the fallback's error.
unfoldable pub fallback_answer {ℓ} :
    {A : Type ℓ} → Text → Failure → A → Result Failure (Unit {0}) → Result Failure A
fallback_answer what e res (err fb_err) = err (both_failed what fb_err e)
fallback_answer what e res (ok _) = ok res

module _ (c : Classifier) {W : Type 0} (client : TransportClient W)
    (fallback : Option (BlackMagicClient W)) where
  open client use {
    add_to_transport, remove_from_transport, copy_transport_objects, add_package_to_transport,
  }

  -- `entryFallbackFor`
  unfoldable pub entry_fallback_for :
      Result Failure (Unit {0}) → Option (Failure × TransportEntryFallback W)
  entry_fallback_for (ok _) = none
  entry_fallback_for (err e) =
      if is_kind (c.classify_error e) not_supported
      then (elim fallback [
        | none ↦ none
        | some fb ↦ elim fb.entry_fallback [ none ↦ none | some x ↦ some (e, x) ]
      ])
      else none

  -- `copiesFallbackFor`
  unfoldable pub copies_fallback_for :
      Result Failure (Unit {0}) → Option (Failure × TransportCopiesFallback W)
  copies_fallback_for (ok _) = none
  copies_fallback_for (err e) =
      if is_kind (c.classify_error e) not_supported
      then (elim fallback [
        | none ↦ none
        | some fb ↦ elim fb.copies_fallback [ none ↦ none | some x ↦ some (e, x) ]
      ])
      else none

  -- `addToTransportHandler`, with the parameters that it required.
  unfoldable pub add_entry : Text → Text → Text → Text → Step W AddToTransportResult
  unfolding entry_fallback_for fallback_answer
  add_entry pgmid obj_type obj_name transport w =
      let res : AddToTransportResult = record {
        pgmid = pgmid;
        object_type = obj_type;
        object_name = obj_name;
        transport = transport;
        added = true;
        via_fallback = false;
      } in
      let (answer, w') = add_to_transport pgmid obj_type obj_name transport w in
      elim (entry_fallback_for answer) [
        | some (e, fb) ↦
            let (fb_answer, w'') =
              fb.add_to_transport_fallback pgmid obj_type obj_name transport w' in
            (
              fallback_answer (bytes "record this entry") e (record res { via_fallback = true })
                  fb_answer,
              w'',
            )
        | none ↦ elim answer [ err e ↦ (err e, w') | ok _ ↦ (ok res, w') ]
      ]

  unfoldable pub add_to_transport_handler : Request → Step W AddToTransportResult
  unfolding add_entry
  add_to_transport_handler req w = elim (require_string req (bytes "object_type")) [
    | err e ↦ (err e, w)
    | ok obj_type ↦ elim (require_string req (bytes "object_name")) [
      | err e ↦ (err e, w)
      | ok obj_name ↦ elim (require_string req (bytes "transport")) [
        | err e ↦ (err e, w)
        | ok transport ↦
            let pgmid = to_upper (req.get_string (bytes "pgmid") (bytes "R3TR")) in
            add_entry pgmid (to_upper obj_type) obj_name transport w
      ]
    ]
  ]

  -- `removeFromTransportHandler`
  unfoldable pub remove_entry :
      Text → Text → Text → Text → Text → Text → Text → Step W RemoveFromTransportResult
  unfolding entry_fallback_for fallback_answer
  remove_entry task_nr parent_tr pgmid obj_type obj_name wb_type position w =
      let res : RemoveFromTransportResult = record {
        task_number = task_nr;
        object_name = obj_name;
        removed = true;
        via_fallback = false;
      } in
      let (answer, w') =
        remove_from_transport task_nr parent_tr pgmid obj_type obj_name wb_type position w in
      elim (entry_fallback_for answer) [
        | some (e, fb) ↦
            let (fb_answer, w'') =
              fb.remove_from_transport_fallback task_nr parent_tr pgmid obj_type obj_name w' in
            (
              fallback_answer (bytes "remove this entry") e (record res { via_fallback = true })
                  fb_answer,
              w'',
            )
        | none ↦ elim answer [ err e ↦ (err e, w') | ok _ ↦ (ok res, w') ]
      ]

  unfoldable pub remove_from_transport_handler : Request → Step W RemoveFromTransportResult
  unfolding remove_entry
  remove_from_transport_handler req =
      remove_entry (req.get_string (bytes "task_number") [])
        (req.get_string (bytes "parent_transport") []) (req.get_string (bytes "pgmid") [])
        (req.get_string (bytes "object_type") []) (req.get_string (bytes "object_name") [])
        (req.get_string (bytes "wb_type") []) (req.get_string (bytes "position") [])

  -- `copyTransportObjectsHandler`
  unfoldable pub copy_objects : Text → Text → Bool → Step W CopyTransportObjectsResult
  unfolding copies_fallback_for fallback_answer
  copy_objects source target with_doc w =
      let res : CopyTransportObjectsResult = record {
        source_request = source;
        target_request = target;
        copied = true;
        via_fallback = false;
      } in
      let (answer, w') = copy_transport_objects source target with_doc w in
      elim (copies_fallback_for answer) [
        | some (e, fb) ↦
            let (fb_answer, w'') = fb.copy_transport_objects_fallback source target with_doc w' in
            (
              fallback_answer (bytes "copy the entries") e (record res { via_fallback = true })
                  fb_answer,
              w'',
            )
        | none ↦ elim answer [ err e ↦ (err e, w') | ok _ ↦ (ok res, w') ]
      ]

  unfoldable pub copy_transport_objects_handler : Request → Step W CopyTransportObjectsResult
  unfolding copy_objects normalize_name
  copy_transport_objects_handler req w = elim (require_string req (bytes "source_request")) [
    | err e ↦ (err e, w)
    | ok source ↦ elim (require_string req (bytes "target_request")) [
      | err e ↦ (err e, w)
      | ok target ↦
          let with_doc = req.get_bool (bytes "with_documentation") true in
          copy_objects (normalize_name source) (normalize_name target) with_doc w
    ]
  ]

  -- `addPackageToTransportHandler`
  unfoldable pub add_package : Text → Text → Bool → Step W AddPackageToTransportResult
  unfolding copies_fallback_for fallback_answer
  add_package pkg target sub w =
      let res : AddPackageToTransportResult = record {
        package_name = pkg;
        target_request = target;
        include_subpackages = sub;
        added = true;
        via_fallback = false;
      } in
      let (answer, w') = add_package_to_transport pkg target sub w in
      elim (copies_fallback_for answer) [
        | some (e, fb) ↦
            let (fb_answer, w'') = fb.add_package_to_transport_fallback pkg target sub w' in
            (
              fallback_answer (bytes "add the package") e (record res { via_fallback = true })
                  fb_answer,
              w'',
            )
        | none ↦ elim answer [ err e ↦ (err e, w') | ok _ ↦ (ok res, w') ]
      ]

  unfoldable pub add_package_to_transport_handler : Request → Step W AddPackageToTransportResult
  unfolding add_package normalize_name
  add_package_to_transport_handler req w = elim (require_string req (bytes "package")) [
    | err e ↦ (err e, w)
    | ok pkg ↦ elim (require_string req (bytes "target_request")) [
      | err e ↦ (err e, w)
      | ok target ↦
          let sub = req.get_bool (bytes "include_subpackages") false in
          add_package (normalize_name pkg) (normalize_name target) sub w
    ]
  ]
