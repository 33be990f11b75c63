-- ===== src/Debug/Breakpoints/Reset.antt =====
-- What `resetExternalBreakpoints` leaves in the run (tools/debugrun_breakpoints.go).
use aibap_mcp.Base.{
  ℕ, ◌≡◌, refl, true, not, ◌||◌, Option, none, some, List, [], ◌∷◌, ◌++◌, Text, keep, keep-append,
  keep-eq_of_all, all, Result, ok, err, Result-cases, Bool-cases, inl, inr, arith,
}
use mathlib.Core.List.{map, map-append, append-nil}
use aibap_mcp.Debug.State.{Breakpoint, is_external, is_attached, is_attaching, external}
use aibap_mcp.Debug.Run.{Run}
use aibap_mcp.Debug.Lifecycle.{replace_external}
use aibap_mcp.Debug.Sap.{Sap, Via, cleanup_session, LineBreakpoint}
use aibap_mcp.Debug.Results.{
  Rejected, check_results, check_results_counts, check_results_sites, site, requested_site,
}
use aibap_mcp.Debug.Breakpoints.{
  SetError, ResetError, caught_meanwhile, previous_restored, previous_lost, removal_failed,
  line_breakpoints, checked, set_answer, set_external, Stopped, drop_all, restored, set_again,
  after_delete, reset_external,
}

abbrev pub externals : Run → List Breakpoint
externals r = keep is_external r.st.breakpoints

abbrev pub debuggers : Run → List Breakpoint
debuggers r = keep (λ b. not (is_external b)) r.st.breakpoints

keep_none :
    (set : List Breakpoint) → all is_external set ≡ true → keep (λ b. not (is_external b)) set ≡ []
unfolding keep all
keep_none [] h = refl
keep_none (b ∷ bs) h = ground (arith, keep_none bs)

keep_debuggers :
    (bs : List Breakpoint)
    → (keep is_external (keep (λ b. not (is_external b)) bs) ≡ [])
      × (keep (λ b. not (is_external b)) (keep (λ b. not (is_external b)) bs)
          ≡ keep (λ b. not (is_external b)) bs)
unfolding keep
keep_debuggers [] = (refl, refl)
keep_debuggers (b ∷ bs) = ground (arith, keep_debuggers bs)

replaced :
    (r : Run) (set : List Breakpoint)
    → all is_external set ≡ true
    → (externals (replace_external r set) ≡ set)
      × (debuggers (replace_external r set) ≡ debuggers r)
unfolding replace_external
replaced r set h = ground (
  arith,
  keep-append is_external set (debuggers r),
  keep-append (λ b. not (is_external b)) set (debuggers r),
  keep-eq_of_all is_external set h,
  keep_none set h,
  keep_debuggers r.st.breakpoints,
  append-nil set,
)

-- The run's external breakpoints stand at the given sites, and its debugger-scope ones are those
-- of `r`.
abbrev pub At : List (Text × ℕ) → Run → Run → Type 0
At sites r r' = (map site (externals r') ≡ sites) × (debuggers r' ≡ debuggers r)

module _ (p : Sap) (derive : Text → Text × Text) where
  requested-line_breakpoints :
      (bs : List Breakpoint) → map requested_site (line_breakpoints p derive bs) ≡ map site bs
  unfolding line_breakpoints
  requested-line_breakpoints [] = refl
  requested-line_breakpoints (b ∷ bs) = ground (arith, requested-line_breakpoints bs)

  -- A set request that succeeds has set the requested sites, all external.
  abbrev pub Sets : List LineBreakpoint → List Breakpoint → Type 0
  Sets bps set = (map site set ≡ map requested_site bps) × (all is_external set ≡ true)

  checked_ok :
      (via : Via) (set set' : List Breakpoint) (rejected : List Rejected) (w : p.World)
      → (checked p derive via (set, rejected) w).0 ≡ ok set'
      → (rejected ≡ []) × (set ≡ set')
  unfolding checked
  checked_ok via set set' [] w h = ground arith
  checked_ok via set set' (x ∷ xs) w h = cc

  pub set_external_ok :
      (via : Via) (bps : List LineBreakpoint) (w : p.World) (set : List Breakpoint)
      → (set_external p derive via bps w).0 ≡ ok set
      → Sets bps set
  unfolding set_external set_answer all
  set_external_ok via [] w set h = ground arith
  set_external_ok via (b ∷ bs) w set h =
      elim (Result-cases (p.set_breakpoints via external (b ∷ bs) w).0) [
        | inl (res, q) ↦
            let w' = (p.set_breakpoints via external (b ∷ bs) w).1 in
            let found = check_results (b ∷ bs) res in
            ground (
              arith,
              q,
              checked_ok via found.0 set found.1 w',
              check_results_counts (b ∷ bs) res,
              check_results_sites (b ∷ bs) res,
            )
        | inr (e, q) ↦ absurd (ground (arith, q))
      ]

  replaced-At :
      (r : Run) (bps : List LineBreakpoint) (set : List Breakpoint)
      → Sets bps set
      → At (map requested_site bps) r (replace_external r set)
  replaced-At r bps set h = let (e, d) = replaced r set h.1 in (rw e h.0, d)

  -- The outcome of the last part of a reset, from the run `r` whose externals were `ext`.
  data Reset (r : Run) (ext : List Breakpoint) (bp : LineBreakpoint) (r' : Run)
      (x : Result ResetError (Unit {0})) : Type 0 where
    all_set : x ≡ ok tt → At (map site ext ++ requested_site bp ∷ []) r r' → Reset r ext bp r' x
    put_back :
        (e : SetError)
        → x ≡ err (previous_restored e)
        → At (map site ext) r r'
        → Reset r ext bp r' x
    lost : (e e' : SetError) → x ≡ err (previous_lost e e' ext) → At [] r r' → Reset r ext bp r' x

  restored_Reset :
      (r : Run) (ext : List Breakpoint) (bp : LineBreakpoint) (e : SetError)
      (x : Result SetError (List Breakpoint)) (w : p.World)
      → ((set : List Breakpoint) → x ≡ ok set → Sets (line_breakpoints p derive ext) set)
      → let out = restored p derive r ext e (x, w) in Reset r ext bp out.1 out.0
  unfolding restored
  restored_Reset r ext bp e (ok set) w h = put_back e refl (
      rw (← requested-line_breakpoints ext)
        (replaced-At r (line_breakpoints p derive ext) set (h set refl)))
  restored_Reset r ext bp e (err e') w h =
      lost e e' refl (replaced-At r [] [] (refl, unfold all in refl))

  set_again_Reset :
      (r : Run) (ext : List Breakpoint) (bp : LineBreakpoint)
      (x : Result SetError (List Breakpoint)) (w : p.World)
      → ((set : List Breakpoint) → x ≡ ok set → Sets (line_breakpoints p derive ext ++ bp ∷ []) set)
      → let out = set_again p derive r ext (x, w) in Reset r ext bp out.1 out.0
  unfolding set_again
  set_again_Reset r ext bp (ok set) w h = all_set refl (
      rw
        (
          ← requested-line_breakpoints ext,
          ← map-append requested_site (line_breakpoints p derive ext) (bp ∷ []),
        )
        (replaced-At r (line_breakpoints p derive ext ++ bp ∷ []) set (h set refl)))
  set_again_Reset r ext bp (err e) w h =
      restored_Reset r ext bp e _ _
        (λ set. set_external_ok cleanup_session (line_breakpoints p derive ext) w set)

  -- What a reset leaves that is not stopped by a debuggee or by a failed delete.
  after_delete_Reset :
      (r : Run) (ext : List Breakpoint) (bp : LineBreakpoint) (w : p.World)
      → let out = after_delete p derive r ext bp (none, w) in Reset r ext bp out.1 out.0
  unfolding after_delete
  after_delete_Reset r ext bp w =
      set_again_Reset r ext bp _ _
        (λ set. set_external_ok cleanup_session (line_breakpoints p derive ext ++ bp ∷ []) w set)

  -- All ends of a reset that began on the run `r`, which was `m` when its requests were answered.
  data Outcome (r m : Run) (bp : LineBreakpoint) (r' : Run) (x : Result ResetError (Unit {0}))
      : Type 0 where
    caught : x ≡ err caught_meanwhile → r' ≡ r → Outcome r m bp r' x
    delete_failed :
        (s : Stopped)
        → x ≡ err (removal_failed s.id s.failure s.gone)
        → r' ≡ drop_all p derive m s.gone
        → Outcome r m bp r' x
    tried : Reset m (externals r) bp r' x → Outcome r m bp r' x

  deleted-Outcome :
      (r m : Run) (bp : LineBreakpoint) (d : Option Stopped) (w : p.World)
      → let out = after_delete p derive m (externals r) bp (d, w) in Outcome r m bp out.1 out.0
  deleted-Outcome r m bp (some s) w = unfold after_delete in delete_failed s refl refl
  deleted-Outcome r m bp none w = tried (after_delete_Reset m (externals r) bp w)

  reset-Outcome :
      (r : Run) (meanwhile : Run → Run) (bp : LineBreakpoint) (w : p.World)
      → let out = reset_external p derive r meanwhile bp w in Outcome r (meanwhile r) bp out.1 out.0
  unfolding reset_external
  reset-Outcome r meanwhile bp w =
      elim (Bool-cases (is_attaching r.st.status || is_attached r.st.status)) [
        | inl q ↦ rw q (caught refl refl)
        | inr q ↦ rw q (deleted-Outcome r (meanwhile r) bp _ _)
      ]

  success-At :
      (r m : Run) (bp : LineBreakpoint) {r' : Run} {x : Result ResetError (Unit {0})}
      → Outcome r m bp r' x
      → x ≡ ok tt
      → At (map site (externals r) ++ requested_site bp ∷ []) m r'
  success-At r m bp (caught e q) h = cc
  success-At r m bp (delete_failed s e q) h = cc
  success-At r m bp (tried (all_set e a)) h = a
  success-At r m bp (tried (put_back s e a)) h = cc
  success-At r m bp (tried (lost s s' e a)) h = cc

  restored-At :
      (r m : Run) (bp : LineBreakpoint) {r' : Run} {x : Result ResetError (Unit {0})} (s : SetError)
      → Outcome r m bp r' x
      → x ≡ err (previous_restored s)
      → At (map site (externals r)) m r'
  restored-At r m bp s (caught e q) h = cc
  restored-At r m bp s (delete_failed t e q) h = cc
  restored-At r m bp s (tried (all_set e a)) h = cc
  restored-At r m bp s (tried (put_back t e a)) h = a
  restored-At r m bp s (tried (lost t t' e a)) h = cc

  -- If the reset succeeds, the run's external breakpoints stand where they stood when it began, in
  -- order, followed by the new one; its debugger-scope breakpoints are those that the run has once
  -- the requests are answered, whatever the other goroutines did to it meanwhile.
  pub reset_success :
      (r : Run) (meanwhile : Run → Run) (bp : LineBreakpoint) (w : p.World)
      → (reset_external p derive r meanwhile bp w).0 ≡ ok tt
      → At
          (map site (externals r) ++ requested_site bp ∷ [])
          (meanwhile r)
          (reset_external p derive r meanwhile bp w).1
  reset_success r meanwhile bp w h =
      success-At r (meanwhile r) bp (reset-Outcome r meanwhile bp w) h

  -- If the reset reports that the previous breakpoints are set again, the run's external
  -- breakpoints stand where they stood when it began, in order; its debugger-scope breakpoints are
  -- those that the run has once the requests are answered, whatever the other goroutines did to it
  -- meanwhile.
  pub reset_restored :
      (r : Run) (meanwhile : Run → Run) (bp : LineBreakpoint) (w : p.World) (s : SetError)
      → (reset_external p derive r meanwhile bp w).0 ≡ err (previous_restored s)
      → At (map site (externals r)) (meanwhile r) (reset_external p derive r meanwhile bp w).1
  reset_restored r meanwhile bp w s h =
      restored-At r (meanwhile r) bp s (reset-Outcome r meanwhile bp w) h
