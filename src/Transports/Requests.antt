-- ===== src/Transports/Requests.antt =====
-- The tools of tools/transport.go on whole requests: create, release, delete, and their contents.
use aibap_mcp.Base.{
  Bool, true, false, Option, none, some, [], ◌∷◌, ◌++◌, Text, bytes, to_upper, trim_space, text_eq,
  is_empty, length, ◌||◌, if◌then◌else◌, Result, ok, err,
}
use aibap_mcp.Errors.{Failure, Classifier, new_error, wrap, is_kind, not_supported}
use aibap_mcp.Params.{Request, quoted, require_string}
use aibap_mcp.Transports.{
  Step, TransportState, modifiable, released, release_in_progress, unknown_state, TransportType,
  workbench, customizing, copies, CreateTransportOptions, ReleaseResult, TransportClient,
  BlackMagicClient, CreateTransportResult, CreateTransportTaskResult, ReleaseTransportResult,
  DeleteTransportResult, TransportObjectsResult,
}

-- The category that the user gave, in upper case.
unfoldable pub transport_type : Text → Option TransportType
transport_type s =
    if text_eq s (bytes "K")
    then some workbench
    else if text_eq s (bytes "W")
    then some customizing
    else if text_eq s (bytes "T")
    then some copies
    else none

abbrev pub letter_of : TransportType → Text
letter_of workbench = bytes "K"
letter_of customizing = bytes "W"
letter_of copies = bytes "T"

-- An em dash in UTF-8.
dash : Text
dash = 32 ∷ 226 ∷ 128 ∷ 148 ∷ 32 ∷ []

-- `State == adt.TransportStateModifiable` and `State == adt.TransportStateReleased`
abbrev pub is_modifiable : TransportState → Bool
is_modifiable modifiable = true
is_modifiable release_in_progress = false
is_modifiable released = false
is_modifiable unknown_state = false

abbrev pub is_released : TransportState → Bool
is_released released = true
is_released modifiable = false
is_released release_in_progress = false
is_released unknown_state = false

-- `releaseTransportResultOf`
unfoldable pub release_transport_result_of : Text → ReleaseResult → ReleaseTransportResult
release_transport_result_of transport res = record {
  transport = transport;
  released = is_released res.state;
  state = some res.state;
  raw_status = res.raw_status;
  via_fallback = false;
}

-- `zero_state` is the state of an `adt.ReleaseResult` that no call has filled.
module _ (c : Classifier) (zero_state : TransportState) {W : Type 0} (client : TransportClient W)
    (fallback : Option (BlackMagicClient W)) where
  open client use {
    create_transport, create_transport_task, release_transport, release_transport_with_tasks,
    delete_transport, get_transport_objects,
  }

  -- `create_transport`: the answer of the fallback.
  unfoldable pub created_by_fallback :
      Text → Failure → Result Failure Text → Result Failure CreateTransportResult
  created_by_fallback desc e answer =
      let failed : Failure → Result Failure CreateTransportResult = λ fb_err. err (
        wrap (bytes "ADT cannot create this request here and the fallback failed: ") fb_err
          (bytes " (ADT: " ++ (e.text ++ bytes ")"))) in
      elim answer [
        | err fb_err ↦ failed fb_err
        | ok number ↦
            if is_empty number
            then failed (new_error (bytes "the fallback returned no request number"))
            else ok (record { transport_number = number; description = desc; via_fallback = true })
      ]

  unfoldable pub create_unsupported :
      CreateTransportOptions → Failure → Step W CreateTransportResult
  unfolding created_by_fallback dash
  create_unsupported opts e w = elim fallback [
    | none ↦ (
      err (
          wrap [] e (
            dash
            ++ bytes
                "no fallback is configured: create the request in SE09 via the sapgui.mcp server")),
      w,
    )
    | some fb ↦
        let (answer, w') =
          fb.create_transport_fallback (letter_of opts.type) opts.target opts.description
            opts.package_name w in
        (created_by_fallback opts.description e answer, w')
  ]

  unfoldable pub create_checked : CreateTransportOptions → Step W CreateTransportResult
  unfolding create_unsupported
  create_checked opts w =
      let (answer, w') = create_transport opts w in
      elim answer [
        | err e ↦
            if is_kind (c.classify_error e) not_supported
            then create_unsupported opts e w'
            else (err e, w')
        | ok number ↦ (
          ok (record {
            transport_number = number;
            description = opts.description;
            via_fallback = false;
          }),
          w',
        )
      ]

  unfoldable pub create_transport_tool : Request → Step W CreateTransportResult
  unfolding create_checked transport_type
  create_transport_tool req w = elim (require_string req (bytes "category")) [
    | err e ↦ (err e, w)
    | ok cat ↦ elim (require_string req (bytes "description")) [
      | err e ↦ (err e, w)
      | ok desc ↦ elim (transport_type (to_upper (trim_space cat))) [
        | none ↦ (
          err (
              new_error (
                bytes "unknown category "
                ++ (quoted cat
                    ++ bytes ": use K (workbench), W (customizing) or T (transport of copies)"))),
          w,
        )
        | some type ↦
            create_checked
              (record {
                type = type;
                description = desc;
                package_name = req.get_string (bytes "package") [];
                target = to_upper (trim_space (req.get_string (bytes "target") []));
              })
              w
      ]
    ]
  ]

  -- `release_transport`: the release itself, whose result is never nil without an error.
  unfoldable pub send_release : Bool → Text → Step W ReleaseResult
  send_release include_tasks transport w =
      let (answer, w') =
        if include_tasks
        then release_transport_with_tasks transport w
        else release_transport transport w in
      elim answer [
        | err e ↦ (err e, w')
        | ok (some res) ↦ (ok res, w')
        | ok none ↦ (ok (record { transport = transport; state = zero_state; raw_status = [] }), w')
      ]

  -- `silentFail`: SAP answered 200, but the request stayed modifiable.
  unfoldable pub silent_fail : Result Failure ReleaseResult → Bool
  silent_fail (ok res) = is_modifiable res.state
  silent_fail (err _) = false

  abbrev is_err {ℓ κ} : {E : Type ℓ} {A : Type κ} → Result E A → Bool
  is_err (err _) = true
  is_err (ok _) = false

  unfoldable pub release_failed : Text → Result Failure ReleaseResult → Failure → Failure
  release_failed transport (err e) fb_err =
      wrap (bytes "ADT release failed and fallback also failed: ") fb_err
        (bytes " (ADT: " ++ (e.text ++ bytes ")"))
  release_failed transport (ok _) fb_err =
      wrap
        (bytes "ADT returned 200 but transport "
          ++ (transport ++ bytes " stayed modifiable; fallback also failed: "))
        fb_err []

  unfoldable pub by_fallback :
      Text → Result Failure ReleaseResult → BlackMagicClient W → Step W ReleaseTransportResult
  unfolding release_failed
  by_fallback transport answer fb w =
      let (fb_answer, w') = fb.release_transport_fallback transport w in
      elim fb_answer [
        | err fb_err ↦ (err (release_failed transport answer fb_err), w')
        | ok _ ↦ (
          ok (record {
            transport = transport;
            released = true;
            state = none;
            raw_status = [];
            via_fallback = true;
          }),
          w',
        )
      ]

  unfoldable pub without_fallback :
      Text → Result Failure ReleaseResult → Result Failure ReleaseTransportResult
  unfolding release_transport_result_of
  without_fallback transport (err e) = err e
  without_fallback transport (ok res) =
      if is_modifiable res.state
      then err (
          new_error (
            bytes "transport "
            ++ (transport
                ++ bytes
                    " released via ADT (returned 200) but status remained modifiable; configure a fallback or release via SE09 in the sap-desktop MCP")))
      else ok (release_transport_result_of transport res)

  unfoldable pub release_checked : Bool → Text → Step W ReleaseTransportResult
  unfolding send_release silent_fail by_fallback without_fallback
  release_checked include_tasks transport w =
      let (answer, w') = send_release include_tasks transport w in
      let failed : Bool = is_err answer || silent_fail answer in
      elim fallback [
        | none ↦ (without_fallback transport answer, w')
        | some fb ↦
            if failed
            then by_fallback transport answer fb w'
            else (without_fallback transport answer, w')
      ]

  unfoldable pub release_transport_tool : Request → Step W ReleaseTransportResult
  unfolding release_checked
  release_transport_tool req w = elim (require_string req (bytes "transport")) [
    | err e ↦ (err e, w)
    | ok transport ↦ release_checked (req.get_bool (bytes "include_tasks") false) transport w
  ]

  -- `delete_transport`, `create_transport_task` and `get_transport_objects`
  unfoldable pub delete_transport_tool : Request → Step W DeleteTransportResult
  delete_transport_tool req w = elim (require_string req (bytes "transport")) [
    | err e ↦ (err e, w)
    | ok transport ↦
        let (answer, w') = delete_transport transport w in
        elim answer [
          | err e ↦ (err e, w')
          | ok _ ↦ (ok (record { transport = transport; deleted = true }), w')
        ]
  ]

  unfoldable pub create_transport_task_tool : Request → Step W CreateTransportTaskResult
  create_transport_task_tool req w =
      let parent = req.get_string (bytes "parent_transport") [] in
      let desc = req.get_string (bytes "description") [] in
      let (answer, w') = create_transport_task parent (req.get_string (bytes "owner") []) desc w in
      elim answer [
        | err e ↦ (err e, w')
        | ok number ↦ (
          ok (record { task_number = number; parent_transport = parent; description = desc }),
          w',
        )
      ]

  unfoldable pub get_transport_objects_tool : Request → Step W TransportObjectsResult
  get_transport_objects_tool req w = elim (require_string req (bytes "transport")) [
    | err e ↦ (err e, w)
    | ok transport ↦
        let (answer, w') = get_transport_objects transport w in
        elim answer [
          | err e ↦ (err e, w')
          | ok objects ↦
              (ok (record { transport = transport; count = length objects; objects = objects }), w')
        ]
  ]
