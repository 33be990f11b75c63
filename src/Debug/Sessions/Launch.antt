-- ===== src/Debug/Sessions/Launch.antt =====
-- What `debug_run` and `debug_stop` leave (tools/debugsession.go).
use aibap_mcp.Base.{
  ℕ, ◌+◌, ◌≤◌, ◌<◌, ◌≡◌, inl, inr, refl, Option, none, some, List, Text, ok, Result-cases,
  Option-cases, arith, text_eq_iff,
}
use mathlib.Core.List.{map}
use aibap_mcp.Debug.State.{listening, Breakpoint}
use aibap_mcp.Debug.Run.{Run, new_run, start_window}
use aibap_mcp.Debug.Lifecycle.{cleanup_start, cleanup_done}
use aibap_mcp.Debug.Steps.{Reach, here, next}
use aibap_mcp.Debug.Steps.Versions.{Over, Step-Publishes}
use aibap_mcp.Debug.Sap.{Sap, debug_session}
use aibap_mcp.Debug.Results.{site, requested_site}
use aibap_mcp.Debug.Breakpoints.{set_external}
use aibap_mcp.Debug.Breakpoints.Reset.{set_external_ok}
use aibap_mcp.Debug.Cleanup.{cleanup_run}
use aibap_mcp.Debug.Cleanup.Report.{cleanup-Over}
use aibap_mcp.Debug.Sessions.{
  Key, Sessions, versions_used, Order, first_run, started, clean, bound_to, same_key, open_session,
  stop, launch_answer, launch_run,
}

-- The run of a session, if there is one, is stopping or stopped.
abbrev pub IsOver : Option (Key × Run) → Type 0
IsOver run = (key : Key) (r : Run) → run ≡ some (key, r) → Over r

-- What the goroutines of a run make of it while SAP answers.
abbrev pub Interleaves : (Run → Run) → Type 0
Interleaves meanwhile = (r : Run) → Reach r (meanwhile r)

Reach-counter : {s r : Run} → Reach s r → s.counter ≤ r.counter
Reach-counter here = omega arith
Reach-counter (next p st) = let q = Reach-counter p in let q' = Step-Publishes st in ground arith

first_run-lem :
    (versions : ℕ) (o : Order) (set : List Breakpoint)
    → let r = first_run versions o set in
      (r.st.status ≡ listening) × (r.st.breakpoints ≡ set) × (r.st.version ≡ versions + 1)
unfolding first_run new_run start_window
first_run-lem versions o set = (refl, refl, refl)

module _ (p : Sap) (derive : Text → Text × Text) where
  cleanup_counter :
      (r : Run) (meanwhile : Run → Run) (w : p.World)
      → Interleaves meanwhile
      → r.counter ≤ (cleanup_run p r meanwhile w).1.counter
  unfolding cleanup_run cleanup_start cleanup_done
  cleanup_counter r meanwhile w h =
      let q = h (cleanup_start r).0 in let q' = Reach-counter q in ground arith

  clean-IsOver :
      (m : Sessions) (meanwhile : Run → Run) (w : p.World)
      → IsOver (clean p derive m meanwhile w).1.run
  unfolding clean
  clean-IsOver m meanwhile w = elim (Option-cases m.run) [
    | inl q ↦ λ key r e. absurd (ground (arith, q, e))
    | inr ((k, s), q) ↦ λ key r e. ground (arith, q, e, cleanup-Over p s meanwhile w)
  ]

  clean_counter :
      (m : Sessions) (meanwhile : Run → Run) (w : p.World)
      → Interleaves meanwhile
      → versions_used m ≤ versions_used (clean p derive m meanwhile w).1
  unfolding clean versions_used
  clean_counter m meanwhile w h = elim (Option-cases m.run) [
    | inl q ↦ ground (arith, q)
    | inr ((k, s), q) ↦ ground (arith, q, cleanup_counter s meanwhile w h)
  ]

  open_counter :
      (m : Sessions) (meanwhile : Run → Run) (key : Key) (w : p.World)
      → Interleaves meanwhile
      → versions_used m ≤ versions_used (open_session p derive m meanwhile key w).0
  unfolding open_session versions_used
  open_counter m meanwhile key w h = ground (arith, clean_counter m meanwhile w h)

  open_cur :
      (m : Sessions) (meanwhile : Run → Run) (key : Key) (w : p.World)
      → (open_session p derive m meanwhile key w).0.cur ≡ some key
  unfolding open_session bound_to same_key
  open_cur m meanwhile key w = elim (Option-cases m.cur) [
    | inl q ↦ ground (arith, q)
    | inr (k, q) ↦ ground (arith, q, text_eq_iff k.user key.user, text_eq_iff k.system key.system)
  ]

  -- After `debug_stop` there is no session, and the run, if there is one, is over.
  pub stop_lem :
      (m : Sessions) (meanwhile : Run → Run) (w : p.World)
      → let m' = (stop p derive m meanwhile w).1 in (m'.cur ≡ none) × IsOver m'.run
  unfolding stop
  stop_lem m meanwhile w = (ground arith, λ k r e. ground (arith, clean-IsOver m meanwhile w k r))

  -- If `launchRun` succeeds, the session is bound to the user and system asked for, and the run that
  -- it installs is a new one with that key: before its goroutines begin it listens, its breakpoints
  -- stand where they were asked for, and its version is greater than the process's version counter
  -- was. Meanwhile the goroutines of the run before it did only what some interleaving of their
  -- critical sections does.
  pub launch_success :
      (m : Sessions) (meanwhile : Run → Run) (o : Order) (key : Key) (w : p.World)
      → Interleaves meanwhile
      → (launch_run p derive m meanwhile o key w).0 ≡ ok tt
      → let m' = (launch_run p derive m meanwhile o key w).1 in
        (m'.cur ≡ some key)
        × ((r : Run) × (m'.run ≡ some (key, r))
            × (r.st.status ≡ listening)
            × (map site r.st.breakpoints ≡ map requested_site o.breakpoints)
            × (versions_used m < r.st.version))
  unfolding launch_run launch_answer started
  launch_success m meanwhile o key w h e =
      let m' = (clean p derive m meanwhile w).1 in
      let w' = (clean p derive m meanwhile w).2 in
      let (m'', w'') = open_session p derive m' meanwhile key w' in
      elim (Result-cases (set_external p derive debug_session o.breakpoints w'').0) [
        | inr (y, q) ↦ absurd (ground (arith, q, e))
        | inl (set, q) ↦
            let cur = open_cur m' meanwhile key w' in
            let low = clean_counter m meanwhile w h in
            let low' = open_counter m' meanwhile key w' h in
            let sets = set_external_ok p derive debug_session o.breakpoints w'' set q in
            let new = first_run-lem (versions_used m'') o set in
            (
              ground (arith, q, cur),
              (
                first_run (versions_used m'') o set,
                ground (arith, q),
                new.0,
                ground (arith, new, sets),
                ground (arith, new, low, low'),
              ),
            )
      ]
