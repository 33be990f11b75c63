-- ===== src/Transports/Samples.antt =====
-- A system without the newer actions of the transport organizer, which logs what it is asked, with
-- and without a fallback.
use aibap_mcp.Base.{
  ◌≡◌, refl, ◌⊎◌, true, false, Option, none, some, List, [], ◌∷◌, Text, bytes, text_eq, is_empty,
  if◌then◌else◌, ok, err,
}
use aibap_mcp.Errors.{ErrorKind, not_supported, unknown, is_kind, Failure, Classifier, new_error}
use aibap_mcp.Transports.{
  Step, TransportState, modifiable, release_in_progress, unknown_state, customizing,
  CreateTransportOptions, CreateTransportResult, ReleaseResult, ReleaseTransportResult,
  TransportClient, BlackMagicClient,
}
use aibap_mcp.Transports.Requests.{create_checked, release_checked}
use aibap_mcp.Transports.Release.{
  asked, ReportsState, ReportsFallback, release_reports, create_reports,
}
use aibap_mcp.Transports.Entries.{add_entry, remove_entry, copy_objects, add_package}
use aibap_mcp.Transports.Fallbacks.{
  add_promise, remove_promise, copy_promise, package_promise, entry_tools_lem,
}

abbrev pub Log : Type 0
Log = List Text

abbrev pub unsupported : Text
unsupported = bytes "not supported"

pub classify_error : Failure → ErrorKind
classify_error e = if text_eq e.text unsupported then not_supported else unknown

abbrev pub by_text : Classifier
by_text = record {
  classify_error = classify_error;
  locking_transport = λ a. none;
  is_transport_locked = λ a. none;
  is_enqueue_lock = λ a. none;
}

abbrev pub does : Text → Step Log (Unit {0})
does what w = (ok tt, what ∷ w)

abbrev pub refuses : {A : Type 0} → Step Log A
refuses w = (err (new_error unsupported), w)

-- The state that a release leaves: the silent failure of an ECC system for `DEVK1`.
release : Text → Step Log (Option ReleaseResult)
release transport w =
    let state : TransportState =
      if text_eq transport (bytes "DEVK1") then modifiable else release_in_progress in
    (
      ok (some (record { transport = transport; state = state; raw_status = [] })),
      bytes "release" ∷ w,
    )

abbrev ecc_client : TransportClient Log
ecc_client = record {
  get_transport_requests = λ options w. ((none, none), w);
  create_transport = λ options. refuses;
  create_transport_task = λ parent owner desc. refuses;
  release_transport = release;
  release_transport_with_tasks = release;
  delete_transport = λ transport. does (bytes "delete");
  get_transport_objects = λ transport w. (ok [], w);
  add_to_transport = λ pgmid type name transport. refuses;
  remove_from_transport = λ task parent pgmid type name wb_type position. refuses;
  copy_transport_objects = λ source target with_doc. refuses;
  add_package_to_transport = λ pkg target sub. refuses;
}

abbrev pub gui : BlackMagicClient Log
gui = record {
  release_transport_fallback = λ transport. does (bytes "gui release");
  create_transport_fallback = λ type target desc pkg w. (ok (bytes "DEVK9"), w);
  update_customizing = λ table entries transport. does (bytes "gui customizing");
  create_object_fallback = λ type name pkg desc transport. does (bytes "gui create");
  entry_fallback = some (record {
    add_to_transport_fallback = λ pgmid type name transport. does (bytes "gui add");
    remove_from_transport_fallback = λ task parent pgmid type name. does (bytes "gui remove");
  });
  copies_fallback = none;
}

abbrev options : CreateTransportOptions
options = record {
  type = customizing;
  description = bytes "Test";
  package_name = [];
  target = bytes "DUM";
}

abbrev created_by_gui : CreateTransportResult
created_by_gui = record {
  transport_number = bytes "DEVK9";
  description = bytes "Test";
  via_fallback = true;
}

abbrev gui_release : ReleaseTransportResult
gui_release = record {
  transport = bytes "DEVK1";
  released = true;
  state = none;
  raw_status = [];
  via_fallback = true;
}

entry_tools_lem_example :
    (add_entry by_text ecc_client (some gui) [] [] [] [] []
      ≡ add_promise by_text ecc_client (some gui) [] [] [] [] [])
    × (remove_entry by_text ecc_client (some gui) [] [] [] [] [] [] [] []
        ≡ remove_promise by_text ecc_client (some gui) [] [] [] [] [] [] [] [])
    × (copy_objects by_text ecc_client (some gui) [] [] true []
        ≡ copy_promise by_text ecc_client (some gui) [] [] true [])
    × (add_package by_text ecc_client (some gui) [] [] true []
        ≡ package_promise by_text ecc_client (some gui) [] [] true [])
entry_tools_lem_example =
    entry_tools_lem by_text ecc_client (some gui) [] [] [] [] [] [] [] [] [] [] true []

release_reports_example :
    let x = asked by_text unknown_state ecc_client (some gui) true (bytes "DEVK1") [] in
    let w' =
      (release_checked by_text unknown_state ecc_client (some gui) true (bytes "DEVK1") []).1 in
    (ReportsState by_text unknown_state ecc_client (some gui) (bytes "DEVK1") x (gui_release, w'))
    ⊎ (ReportsFallback by_text unknown_state ecc_client
        (some gui)
        (bytes "DEVK1")
        x
        (gui_release, w'))
unfolding release_checked release text_eq
release_reports_example =
    release_reports by_text unknown_state ecc_client (some gui) true (bytes "DEVK1") [] gui_release
      refl

create_reports_example :
    ((ecc_client.create_transport options []).0 ≡ ok (bytes "DEVK9")) × (true ≡ false)
    ⊎ ((e : Failure) × ((ecc_client.create_transport options []).0 ≡ err e)
        × (is_kind (classify_error e) not_supported ≡ true)
        × ((fb : BlackMagicClient Log) × (some gui ≡ some fb)
            × ((fb.create_transport_fallback (bytes "W") (bytes "DUM") (bytes "Test") [] []).0
                ≡ ok (bytes "DEVK9")))
        × (is_empty (bytes "DEVK9") ≡ false)
        × (true ≡ true))
unfolding create_checked is_kind classify_error text_eq new_error
create_reports_example =
    create_reports by_text unknown_state ecc_client (some gui) options [] created_by_gui refl
