-- ===== src/Transports/Listing.antt =====
-- `get_transport_requests` of tools/transport.go.
use aibap_mcp.Base.{
  Bool, Option, none, some, [], Text, bytes, is_empty, length, to_lower, if◌then◌else◌, Result, ok,
  err,
}
use aibap_mcp.Debug.Values.{pos}
use aibap_mcp.Errors.{Failure}
use aibap_mcp.Params.{Request}
use aibap_mcp.Transports.{
  Step, TransportRequestPage, TransportListOptions, TransportClient, TransportRequestsResult,
}

-- `transportRequestsResultOf`: the state of a request is sent as text, else a request is unchanged.
unfoldable pub transport_requests_result_of :
    Option TransportRequestPage → Text → TransportRequestsResult
transport_requests_result_of none warning = record {
  count = 0;
  transports = [];
  next = [];
  warning = warning;
}
transport_requests_result_of (some page) warning = record {
  count = length page.requests;
  transports = page.requests;
  next = page.next;
  warning = warning;
}

-- `unmarshal_filter` is adtler's `UnmarshalText` of a filter, `is_partial` asks for adtler's
-- `ErrTransportListPartial`.
module _ (unmarshal_filter : Text → Result Failure Text) (is_partial : Failure → Bool) {W : Type 0}
    (client : TransportClient W) where
  open client use {get_transport_requests}

  unfoldable pub list_options : Request → Result Failure TransportListOptions
  list_options req =
      let options : Option Text → TransportListOptions = λ filter. record {
        user = req.get_string (bytes "user") [];
        limit = req.get_int (bytes "limit") (pos 0);
        after = req.get_string (bytes "after") [];
        filter = filter;
      } in
      let status = req.get_string (bytes "status") [] in
      if is_empty status then ok (options none) else elim (unmarshal_filter (to_lower status)) [
        | err e ↦ err e
        | ok filter ↦ ok (options (some filter))
      ]

  -- What the page and the error of the answer become.
  unfoldable pub list_answer :
      Option TransportRequestPage × Option Failure → Result Failure TransportRequestsResult
  unfolding transport_requests_result_of
  list_answer (page, none) = ok (transport_requests_result_of page [])
  list_answer (none, some e) = err e
  list_answer (some page, some e) =
      if is_partial e then ok (transport_requests_result_of (some page) e.text) else err e

  unfoldable pub get_transport_requests_handler : Request → Step W TransportRequestsResult
  unfolding list_options list_answer
  get_transport_requests_handler req w = elim (list_options req) [
    | err e ↦ (err e, w)
    | ok options ↦ let (answer, w') = get_transport_requests options w in (list_answer answer, w')
  ]
