-- ===== src/Transports/Release.antt =====
-- What `release_transport` and `create_transport` report, and when they ask the fallback.
use aibap_mcp.Base.{
  ◌≡◌, ◌≢◌, refl, is_ok, ap, sym, ◌∙◌, inl, inr, ◌⊎◌, Bool, true, false, Option, none, some, [],
  Result, if◌then◌else◌, Text, is_empty, ok, err, Result-cases, Option-cases, Bool-cases, arith,
}
use aibap_mcp.Errors.{Failure, Classifier, is_kind, not_supported}
use aibap_mcp.Transports.{
  TransportState, modifiable, released, release_in_progress, unknown_state, ReleaseResult,
  TransportClient, BlackMagicClient, CreateTransportOptions, CreateTransportResult,
  ReleaseTransportResult,
}
use aibap_mcp.Transports.Requests.{
  letter_of, is_modifiable, release_transport_result_of, created_by_fallback, create_unsupported,
  create_checked, send_release, silent_fail, by_fallback, without_fallback, release_checked,
}

module _ (c : Classifier) (zero_state : TransportState) {W : Type 0} (client : TransportClient W)
    (fallback : Option (BlackMagicClient W)) where
  open client use {create_transport}

  -- The one request of a release.
  abbrev pub asked : Bool → Text → W → Result Failure (Option ReleaseResult) × W
  asked include_tasks transport w =
      if include_tasks
      then client.release_transport_with_tasks transport w
      else client.release_transport transport w

  -- SAP took the release and the state was read back, which is the zero state if nothing was read.
  abbrev pub Took : Result Failure (Option ReleaseResult) → ReleaseResult → Type 0
  Took answer res = (answer ≡ ok (some res)) ⊎ ((answer ≡ ok none) × (res.state ≡ zero_state))

  sent :
      (include_tasks : Bool) (transport : Text) (w : W)
      → let x = asked include_tasks transport w in
        let y = send_release c zero_state client fallback include_tasks transport w in
        (y.1 ≡ x.1)
        × (((e : Failure) × (x.0 ≡ err e) × (y.0 ≡ err e))
            ⊎ ((res : ReleaseResult) × (Took x.0 res) × (y.0 ≡ ok res)))
  unfolding send_release
  sent include_tasks transport w = elim (Result-cases (asked include_tasks transport w).0) [
    | inr (e, a) ↦ (ground (arith, a), inl (e, a, ground (arith, a)))
    | inl (o, a) ↦ elim (Option-cases o) [
      | inl b ↦ (
        ground (arith, a, b),
        inr (
          record { transport = transport; state = zero_state; raw_status = [] },
          inr (ground (arith, a, b), refl),
          ground (arith, a, b),
        ),
      )
      | inr (res, b) ↦
          (ground (arith, a, b), inr (res, inl (ground (arith, a, b)), ground (arith, a, b)))
    ]
  ]

  -- The result reports the state that was read back, which is not modifiable.
  abbrev pub ReportsState :
      Text → Result Failure (Option ReleaseResult) × W → ReleaseTransportResult × W → Type 0
  ReportsState transport x (r, w) =
      (res : ReleaseResult) × (Took x.0 res)
      × (res.state ≢ modifiable)
      × (r.transport ≡ transport)
      × (r.state ≡ some res.state)
      × (r.via_fallback ≡ false)
      × (((res.state ≡ released) × (r.released ≡ true))
          ⊎ ((res.state ≢ released) × (r.released ≡ false)))
      × (w ≡ x.1)

  -- The result reports the fallback's release, after ADT failed or left the request modifiable.
  abbrev pub ReportsFallback :
      Text → Result Failure (Option ReleaseResult) × W → ReleaseTransportResult × W → Type 0
  ReportsFallback transport x (r, w) =
      (fb : BlackMagicClient W) × (fallback ≡ some fb)
      × (((e : Failure) × (x.0 ≡ err e))
          ⊎ ((res : ReleaseResult) × (Took x.0 res) × (res.state ≡ modifiable)))
      × ((fb.release_transport_fallback transport x.1).0 ≡ ok tt)
      × (w ≡ (fb.release_transport_fallback transport x.1).1)
      × (r.transport ≡ transport)
      × (r.released ≡ true)
      × (r.state ≡ none)
      × (r.via_fallback ≡ true)

  state_cases : (s : TransportState) → (s ≡ modifiable) ⊎ (is_modifiable s ≡ false)
  state_cases modifiable = inl refl
  state_cases release_in_progress = inr refl
  state_cases released = inr refl
  state_cases unknown_state = inr refl

  report-state :
      (transport : Text) (res : ReleaseResult)
      → is_modifiable res.state ≡ false
      → let r = release_transport_result_of transport res in
        (res.state ≢ modifiable)
        × (((res.state ≡ released) × (r.released ≡ true))
            ⊎ ((res.state ≢ released) × (r.released ≡ false)))
  unfolding release_transport_result_of
  report-state transport res h = ground arith

  by_fallback_reports :
      (transport : Text) (answer : Result Failure ReleaseResult) (fb : BlackMagicClient W) (w : W)
      (r : ReleaseTransportResult)
      → let out = by_fallback c zero_state client fallback transport answer fb w in
        let sent_by = fb.release_transport_fallback transport w in
        out.0 ≡ ok r
        → (sent_by.0 ≡ ok tt)
          × (out.1 ≡ sent_by.1)
          × (r.transport ≡ transport)
          × (r.released ≡ true)
          × (r.state ≡ none)
          × (r.via_fallback ≡ true)
  unfolding by_fallback
  by_fallback_reports transport answer fb w r h =
      elim (Result-cases (fb.release_transport_fallback transport w).0) [
        | inl (u, q) ↦ (
          q,
          ground (arith, q),
          ground (arith, q, h),
          ground (arith, q, h),
          ground (arith, q, h),
          ground (arith, q, h),
        )
        | inr (e, q) ↦ absurd (ground (arith, q, h))
      ]

  -- How a release goes on after the answer `y` of the first request.
  continued :
      (include_tasks : Bool) (transport : Text) (w : W)
      → let y = send_release c zero_state client fallback include_tasks transport w in
        let out = release_checked c zero_state client fallback include_tasks transport w in
        ((res : ReleaseResult) × (y.0 ≡ ok res)
          × (is_modifiable res.state ≡ false)
          × (out ≡ (ok (release_transport_result_of transport res), y.1)))
        ⊎ ((((e : Failure) × (y.0 ≡ err e))
              ⊎ ((res : ReleaseResult) × (y.0 ≡ ok res) × (res.state ≡ modifiable)))
            × ((is_ok out.0 ≡ false)
                ⊎ ((fb : BlackMagicClient W) × (fallback ≡ some fb)
                    × (out ≡ by_fallback c zero_state client fallback transport y.0 fb y.1))))
  unfolding release_checked silent_fail without_fallback
  continued include_tasks transport w =
      let y = send_release c zero_state client fallback include_tasks transport w in
      elim (Result-cases y.0) [
        | inr (e, b) ↦ inr (
          inl (e, b),
          elim (Option-cases fallback) [
            | inl q ↦ inl (ground (arith, q, b))
            | inr (fb, q) ↦ inr (fb, q, ground (arith, q, b))
          ],
        )
        | inl (res, b) ↦ elim (state_cases res.state) [
          | inr m ↦ inl (
            res,
            b,
            m,
            elim (Option-cases fallback) [
              | inl q ↦ ground (arith, q, b, m)
              | inr (fb, q) ↦ ground (arith, q, b, m)
            ],
          )
          | inl m ↦ inr (
            inr (res, b, m),
            elim (Option-cases fallback) [
              | inl q ↦ inl (ground (arith, q, b, m))
              | inr (fb, q) ↦ inr (fb, q, ground (arith, q, b, m))
            ],
          )
        ]
      ]

  -- `release_transport` sends one request to ADT. If it then reports a release, either SAP took it and
  -- the state that was read back is not modifiable: the result has that state, says `released`
  -- exactly if it is released, and nothing more was asked; or ADT failed or left the request
  -- modifiable, and the fallback, asked once after that, released it: the result says so.
  pub release_reports :
      (include_tasks : Bool) (transport : Text) (w : W) (r : ReleaseTransportResult)
      → (release_checked c zero_state client fallback include_tasks transport w).0 ≡ ok r
      → let x = asked include_tasks transport w in
        let w' = (release_checked c zero_state client fallback include_tasks transport w).1 in
        (ReportsState transport x (r, w')) ⊎ (ReportsFallback transport x (r, w'))
  unfolding release_transport_result_of
  release_reports include_tasks transport w r h =
      let (same, sends) = sent include_tasks transport w in
      elim (continued include_tasks transport w) [
        | inl (res, b, m, out) ↦
            let k : release_transport_result_of transport res ≡ r = ground (arith, out, h) in
            let (n, d) = report-state transport res m in
            inl (
              res,
              ground (arith, b, sends),
              n,
              rw (← k) refl,
              rw (← k) refl,
              rw (← k) refl,
              rw (← k) d,
              ap (λ x. x.1) out ∙ same,
            )
        | inr (cause, inl none_ok) ↦ absurd (ground (arith, none_ok, h))
        | inr (cause, inr (fb, q, out)) ↦
            let y = send_release c zero_state client fallback include_tasks transport w in
            let (a1, a2, a3, a4, a5, a6) =
              by_fallback_reports transport y.0 fb y.1 r (ap (λ x. x.0) (sym out) ∙ h) in
            inr (
              fb,
              q,
              ground (arith, cause, sends),
              rw (← same) a1,
              rw (← same) (ap (λ x. x.1) out ∙ a2),
              a3,
              a4,
              a5,
              a6,
            )
      ]

  -- If `create_transport` succeeds, either ADT created the request whose number is reported; or ADT
  -- answered that it does not support the request, a fallback is configured, it was asked for
  -- the same request and answered with the number that is reported, which is not empty, and the
  -- result says that it is the fallback's.
  pub create_reports :
      (opts : CreateTransportOptions) (w : W) (r : CreateTransportResult)
      → (create_checked c zero_state client fallback opts w).0 ≡ ok r
      → let (answer, w') = create_transport opts w in
        ((answer ≡ ok r.transport_number) × (r.via_fallback ≡ false))
        ⊎ ((e : Failure) × (answer ≡ err e)
            × (is_kind (c.classify_error e) not_supported ≡ true)
            × ((fb : BlackMagicClient W) × (fallback ≡ some fb)
                × ((fb.create_transport_fallback
                      (letter_of opts.type)
                      opts.target
                      opts.description
                      opts.package_name
                      w').0
                    ≡ ok r.transport_number))
            × (is_empty r.transport_number ≡ false)
            × (r.via_fallback ≡ true))
  unfolding create_checked create_unsupported created_by_fallback
  create_reports opts w r h = elim (Result-cases (create_transport opts w).0) [
    | inl (number, a) ↦ inl (ground (arith, a, h))
    | inr (e, a) ↦ elim (Bool-cases (is_kind (c.classify_error e) not_supported)) [
      | inr k ↦ absurd (ground (arith, a, k, h))
      | inl k ↦ elim (Option-cases fallback) [
        | inl q ↦ absurd (ground (arith, a, k, q, h))
        | inr (fb, q) ↦
            let w' = (create_transport opts w).1 in
            let answer =
              fb.create_transport_fallback (letter_of opts.type) opts.target opts.description
                opts.package_name w' in
            elim (Result-cases answer.0) [
              | inl (number, b) ↦ inr (
                e,
                a,
                k,
                (fb, q, ground (arith, a, k, q, b, h)),
                ground (arith, a, k, q, b, h),
                ground (arith, a, k, q, b, h),
              )
              | inr (_, b) ↦ absurd (ground (arith, a, k, q, b, h))
            ]
      ]
    ]
  ]
