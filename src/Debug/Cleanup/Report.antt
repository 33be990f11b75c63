-- ===== src/Debug/Cleanup/Report.antt =====
-- What a cleanup reports, and that a second one does nothing (tools/debugrun_cleanup.go).
use aibap_mcp.Base.{
  ℕ, ◌+◌, ◌≡◌, refl, Bool, true, false, not, Option, none, some, List, [], ◌∷◌, ◌++◌, length,
  length-append, keep, keep-append, arith, if◌then◌else◌,
}
use mathlib.Core.List.{map, map-append}
use aibap_mcp.Debug.State.{
  stopped, external, debugger, Failure, Breakpoint, is_external, is_attached,
}
use aibap_mcp.Debug.Run.{Run}
use aibap_mcp.Debug.Lifecycle.{cleanup_start, cleanup_done, active}
use aibap_mcp.Debug.Steps.{Reach}
use aibap_mcp.Debug.Steps.Versions.{Over, Reach-StaysOver}
use aibap_mcp.Debug.Sap.{Sap, debug_session, cleanup_session}
use aibap_mcp.Debug.Cleanup.{
  CleanupReport, empty_report, failure_of, failure_unless_detached, add_answer, add_failed,
  remove_external, stop_external, remove_debugger, detach_attached, requests, cleanup_run,
}

-- How many of the breakpoints that meet a test are in a list, and in either list of a report.
abbrev pub number : (Breakpoint → Bool) → List Breakpoint → ℕ
number t bs = length (keep t bs)

abbrev pub reported : (Breakpoint → Bool) → CleanupReport → ℕ
reported t rep = number t rep.removed + number t (map (λ f. f.bp) rep.not_removed)

number-append :
    (t : Breakpoint → Bool) (bs cs : List Breakpoint)
    → number t (bs ++ cs) ≡ number t bs + number t cs
number-append t bs cs = ground (arith, keep-append t bs cs, length-append (keep t bs) (keep t cs))

reported-add_failed :
    (t : Breakpoint → Bool) (rep : CleanupReport) (b : Breakpoint) (e : Option Failure)
    → reported t (add_failed rep b e) ≡ reported t rep + number t (b ∷ [])
unfolding add_failed
reported-add_failed t rep b e = ground (
  arith,
  map-append (λ f. f.bp) rep.not_removed (record { bp = b; error = e } ∷ []),
  number-append t (map (λ f. f.bp) rep.not_removed) (b ∷ []),
)

reported-add_answer :
    (t : Breakpoint → Bool) (rep : CleanupReport) (b : Breakpoint) (e : Option Failure)
    → reported t (add_answer rep b e) ≡ reported t rep + number t (b ∷ [])
unfolding add_answer
reported-add_answer t rep b none = ground (arith, number-append t rep.removed (b ∷ []))
reported-add_answer t rep b (some e) = reported-add_failed t rep b (some e)

reported_none :
    (t : Breakpoint → Bool) (e : Option Failure)
    → reported t (record empty_report { listener_error = e }) ≡ 0
unfolding keep empty_report
reported_none t e = refl

-- What a cleanup is to account for: with a debuggee attached every breakpoint, else the external
-- ones, as those of debugger scope are gone with the attachment.
abbrev pub due : Bool → List Breakpoint → List Breakpoint
due attached bs = if attached then bs else keep is_external bs

module _ (p : Sap) where
  reported-remove_external :
      (t : Breakpoint → Bool) (bs : List Breakpoint) (rep : CleanupReport) (w : p.World)
      → reported t (remove_external p bs rep w).0 ≡ reported t rep + number t (keep is_external bs)
  unfolding remove_external keep
  reported-remove_external t [] rep w = ground arith
  reported-remove_external t (b ∷ bs) rep w =
      let (answer, w') = p.remove_breakpoint cleanup_session external b.id w in
      let next = add_answer rep b (failure_of answer) in
      ground (
        arith,
        reported-remove_external t bs rep w,
        reported-remove_external t bs (add_failed rep b none) w,
        reported-remove_external t bs next w',
        reported-add_failed t rep b none,
        reported-add_answer t rep b (failure_of answer),
      )

  reported-remove_debugger :
      (t : Breakpoint → Bool) (bs : List Breakpoint) (rep : CleanupReport) (w : p.World)
      → reported t (remove_debugger p bs rep w).0
        ≡ reported t rep + number t (keep (λ b. not (is_external b)) bs)
  unfolding remove_debugger keep
  reported-remove_debugger t [] rep w = ground arith
  reported-remove_debugger t (b ∷ bs) rep w =
      let (answer, w') = p.remove_breakpoint debug_session debugger b.id w in
      let next = add_answer rep b (failure_unless_detached answer) in
      ground (
        arith,
        reported-remove_debugger t bs rep w,
        reported-remove_debugger t bs next w',
        reported-add_answer t rep b (failure_unless_detached answer),
      )

  reported-stop_external :
      (t : Breakpoint → Bool) (bs : List Breakpoint) (w : p.World)
      → reported t (stop_external p bs empty_report w).0 ≡ number t (keep is_external bs)
  unfolding stop_external empty_report
  reported-stop_external t bs w =
      let (answer, w') = p.stop_listener cleanup_session w in
      ground (
        arith,
        reported_none t (failure_of answer),
        reported-remove_external t bs (record empty_report { listener_error = failure_of answer })
            w',
      )

  reported-detach_attached :
      (t : Breakpoint → Bool) (bs : List Breakpoint) (rep : CleanupReport) (w : p.World)
      → reported t (detach_attached p bs rep w).0
        ≡ reported t rep + number t (keep (λ b. not (is_external b)) bs)
  unfolding detach_attached
  reported-detach_attached t bs rep w = ground (arith, reported-remove_debugger t bs rep w)

  number-split :
      (t : Breakpoint → Bool) (bs : List Breakpoint)
      → number t (keep is_external bs) + number t (keep (λ b. not (is_external b)) bs) ≡ number t bs
  unfolding keep
  number-split t [] = ground arith
  number-split t (b ∷ bs) = ground (arith, number-split t bs)

  reported-requests :
      (t : Breakpoint → Bool) (attached : Bool) (bs : List Breakpoint) (w : p.World)
      → reported t (requests p attached bs w).0 ≡ number t (due attached bs)
  unfolding requests
  reported-requests t true bs w =
      let (rep, w') = stop_external p bs empty_report w in
      ground (
        arith,
        reported-stop_external t bs w,
        reported-detach_attached t bs rep w',
        number-split t bs,
      )
  reported-requests t false bs w = reported-stop_external t bs w

  -- A cleanup of an active run stops it, without a position or a listener failure, and reports each
  -- of the run's breakpoints exactly once, as removed or as not removed: with a debuggee attached
  -- all of them, otherwise the external ones.
  pub cleanup_reports :
      (r : Run) (meanwhile : Run → Run) (w : p.World)
      → active r ≡ true
      → let out = cleanup_run p r meanwhile w in
        ((t : Breakpoint → Bool)
          → reported t out.0 ≡ number t (due (is_attached r.st.status) r.st.breakpoints))
        × (out.1.st.status ≡ stopped)
        × (out.1.st.position ≡ none)
        × (out.1.fatal ≡ none)
  unfolding cleanup_run cleanup_start cleanup_done active
  cleanup_reports r meanwhile w h = (
    λ t. ground (arith, reported-requests t (is_attached r.st.status) r.st.breakpoints w),
    ground arith,
    ground arith,
    ground arith,
  )

  pub cleanup-Over :
      (r : Run) (meanwhile : Run → Run) (w : p.World) → Over (cleanup_run p r meanwhile w).1
  unfolding cleanup_run cleanup_start cleanup_done
  cleanup-Over r meanwhile w = ground arith

  Over-idle :
      (s : Run) (meanwhile : Run → Run) (w : p.World)
      → Over s
      → cleanup_run p s meanwhile w ≡ (empty_report, s, w)
  unfolding cleanup_run cleanup_start
  Over-idle s meanwhile w h = ground arith

  -- After a cleanup, and whatever the goroutines still do, another cleanup sends nothing, reports
  -- nothing and leaves the run as it is.
  pub cleanup_again :
      (r : Run) (meanwhile : Run → Run) (w : p.World) (s : Run) (meanwhile' : Run → Run)
      (w' : p.World)
      → Reach (cleanup_run p r meanwhile w).1 s
      → cleanup_run p s meanwhile' w' ≡ (empty_report, s, w')
  cleanup_again r meanwhile w s meanwhile' w' h =
      Over-idle s meanwhile' w' (Reach-StaysOver (cleanup-Over r meanwhile w) h).0
