-- ===== src/Debug/Requests/Guarded.antt =====
-- What the breakpoint tools do to an attached debuggee (tools/debugrun_breakpoints.go).
use aibap_mcp.Base.{
  ◌≡◌, refl, inl, inr, true, false, List, [], ◌∷◌, ◌++◌, Text, ok, Result-cases, arith,
}
use aibap_mcp.Debug.State.{debugger, Breakpoint, is_external, is_attached}
use aibap_mcp.Debug.Run.{Run, begin_call, end_call}
use aibap_mcp.Debug.Lifecycle.{append_breakpoint}
use aibap_mcp.Debug.Sap.{Sap, LineBreakpoint, debug_session}
use aibap_mcp.Debug.Results.{Rejected, check_results, check_results_sites, site, requested_site}
use aibap_mcp.Debug.Requests.{as_debugger, add_checked, add_answer, add_debugger}

module _ (p : Sap) (derive : Text → Text × Text) where
  add_checked_lem :
      (r : Run) (found : List Breakpoint × List Rejected)
      → (add_checked p derive r found).0 ≡ ok tt
      → (b : Breakpoint) × (bs : List Breakpoint) × (found ≡ (b ∷ bs, []))
        × ((add_checked p derive r found).1 ≡ append_breakpoint r (as_debugger b))
  unfolding add_checked
  add_checked_lem r ([], xs) h = cc
  add_checked_lem r (b ∷ bs, []) h = (b, bs, refl, refl)
  add_checked_lem r (b ∷ bs, x ∷ xs) h = cc

  -- A breakpoint that the attached debugger took is added behind the run's others, at the place
  -- asked for and with the scope of the debugger; the call was admitted, so a debuggee was attached
  -- and not being detached.
  pub add_debugger_success :
      (r : Run) (meanwhile : Run → Run) (bp : LineBreakpoint) (w : p.World)
      → let out = add_debugger p derive r meanwhile bp w in
        out.0 ≡ ok tt
        → (is_attached r.st.status ≡ true)
          × (r.detaching ≡ false)
          × ((b : Breakpoint) × (site b ≡ requested_site bp)
              × (is_external b ≡ false)
              × (out.1.st.breakpoints ≡ (meanwhile (begin_call r).0).st.breakpoints ++ b ∷ []))
  unfolding add_debugger begin_call end_call add_answer append_breakpoint
  add_debugger_success r meanwhile bp w h =
      elim (Result-cases (p.set_breakpoints debug_session debugger (bp ∷ []) w).0) [
        | inr (e, q) ↦ absurd (ground (arith, q, h))
        | inl (res, q) ↦
            let (b, bs, q', q'') =
              add_checked_lem (meanwhile (begin_call r).0) (check_results (bp ∷ []) res)
                (ground (arith, q, h)) in
            let there = check_results_sites (bp ∷ []) res (ground (arith, q')) in
            (
              ground (arith, h),
              ground (arith, h),
              (as_debugger b, ground (arith, there, q'), refl, ground (arith, q, q', q'')),
            )
      ]
