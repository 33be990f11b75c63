-- ===== src/Transports.antt =====
-- What tools/transport.go and tools/transport_copies.go use of adtler's `TransportClient` and of
-- the fallbacks of tools/blackmagic.go, and the results of tools/results.go that they return.
pub mod Requests
pub mod Entries
pub mod Release
pub mod Fallbacks
pub mod Listing
pub mod Samples
use aibap_mcp.Base.{ℕ, Bool, Option, none, some, List, Text, Result, is_some, if◌then◌else◌}
use aibap_mcp.Debug.Values.{ℤ}
use aibap_mcp.Errors.{Failure, Classifier, is_kind, not_supported}

-- A request to the outside `W`.
abbrev pub Step {ℓ} : Type ℓ → Type ℓ → Type ℓ
Step W A = W → Result Failure A × W

-- `adt.TransportState`
pub data TransportState : Type 0 where
  modifiable release_in_progress released unknown_state : TransportState

-- `adt.TransportType`, as the letter that the tools take.
pub data TransportType : Type 0 where
  workbench customizing copies : TransportType

pub record CreateTransportOptions : Type 0 where
  pub type : TransportType
  pub description : Text
  pub package_name : Text
  pub target : Text

pub record ReleaseResult : Type 0 where
  pub transport : Text
  pub state : TransportState
  pub raw_status : Text

pub record TransportRequest : Type 0 where
  pub number : Text
  pub owner : Text
  pub description : Text
  pub state : TransportState
  pub raw_status : Text

pub record TransportRequestPage : Type 0 where
  pub requests : List TransportRequest
  pub next : Text

-- `adt.TransportListOptions`: a filter is what `UnmarshalText` makes of the status.
pub record TransportListOptions : Type 0 where
  pub user : Text
  pub limit : ℤ
  pub after : Text
  pub filter : Option Text

-- The list answers a page, an error, or both, as Go's pair can.
pub record TransportClient (W : Type 0) : Type 0 where
  pub get_transport_requests :
      TransportListOptions → W → (Option TransportRequestPage × Option Failure) × W
  pub create_transport : CreateTransportOptions → Step W Text
  pub create_transport_task : Text → Text → Text → Step W Text
  pub release_transport : Text → Step W (Option ReleaseResult)
  pub release_transport_with_tasks : Text → Step W (Option ReleaseResult)
  pub delete_transport : Text → Step W (Unit {0})
  pub get_transport_objects : Text → Step W (List Text)
  pub add_to_transport : Text → Text → Text → Text → Step W (Unit {0})
  pub remove_from_transport : Text → Text → Text → Text → Text → Text → Text → Step W (Unit {0})
  pub copy_transport_objects : Text → Text → Bool → Step W (Unit {0})
  pub add_package_to_transport : Text → Text → Bool → Step W (Unit {0})

-- `TransportEntryFallback`
pub record TransportEntryFallback (W : Type 0) : Type 0 where
  pub add_to_transport_fallback : Text → Text → Text → Text → Step W (Unit {0})
  pub remove_from_transport_fallback : Text → Text → Text → Text → Text → Step W (Unit {0})

-- `TransportCopiesFallback`
pub record TransportCopiesFallback (W : Type 0) : Type 0 where
  pub copy_transport_objects_fallback : Text → Text → Bool → Step W (Unit {0})
  pub add_package_to_transport_fallback : Text → Text → Bool → Step W (Unit {0})

-- `CustomizingEntry`
pub record CustomizingEntry : Type 0 where
  pub keys : List (Text × Text)
  pub values : List (Text × Text)
  pub op : Text

-- `BlackMagicClient`, with the optional interfaces that a type assertion finds.
pub record BlackMagicClient (W : Type 0) : Type 0 where
  pub release_transport_fallback : Text → Step W (Unit {0})
  pub create_transport_fallback : Text → Text → Text → Text → Step W Text
  pub update_customizing : Text → List CustomizingEntry → Text → Step W (Unit {0})
  pub create_object_fallback : Text → Text → Text → Text → Text → Step W (Unit {0})
  pub entry_fallback : Option (TransportEntryFallback W)
  pub copies_fallback : Option (TransportCopiesFallback W)

pub record AddToTransportResult : Type 0 where
  pub pgmid : Text
  pub object_type : Text
  pub object_name : Text
  pub transport : Text
  pub added : Bool
  pub via_fallback : Bool

pub record RemoveFromTransportResult : Type 0 where
  pub task_number : Text
  pub object_name : Text
  pub removed : Bool
  pub via_fallback : Bool

pub record CreateTransportResult : Type 0 where
  pub transport_number : Text
  pub description : Text
  pub via_fallback : Bool

pub record CreateTransportTaskResult : Type 0 where
  pub task_number : Text
  pub parent_transport : Text
  pub description : Text

-- A release through the fallback has no state.
pub record ReleaseTransportResult : Type 0 where
  pub transport : Text
  pub released : Bool
  pub state : Option TransportState
  pub raw_status : Text
  pub via_fallback : Bool

pub record DeleteTransportResult : Type 0 where
  pub transport : Text
  pub deleted : Bool

pub record TransportRequestsResult : Type 0 where
  pub count : ℕ
  pub transports : List TransportRequest
  pub next : Text
  pub warning : Text

pub record TransportObjectsResult : Type 0 where
  pub transport : Text
  pub count : ℕ
  pub objects : List Text

pub record CopyTransportObjectsResult : Type 0 where
  pub source_request : Text
  pub target_request : Text
  pub copied : Bool
  pub via_fallback : Bool

pub record AddPackageToTransportResult : Type 0 where
  pub package_name : Text
  pub target_request : Text
  pub include_subpackages : Bool
  pub added : Bool
  pub via_fallback : Bool
