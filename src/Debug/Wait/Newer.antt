-- ===== src/Debug/Wait/Newer.antt =====
-- `debug_wait` misses no change of the run (tools/debugrun.go).
use aibap_mcp.Base.{ℕ, ◌≤◌, ◌≡◌, List, [], ◌∷◌, ltb, arith}
use aibap_mcp.Debug.Values.{pos}
use aibap_mcp.Debug.Run.{Run}
use aibap_mcp.Debug.Steps.{Reach}
use aibap_mcp.Debug.Steps.Versions.{Reach-version}
use aibap_mcp.Debug.Wait.{wait_until, is_newer}

-- Each read sees what some interleaving made of the run since the read before.
abbrev pub Reads : Run → List Run → Run → Type 0
Reads r [] last = Reach r last
Reads r (r' ∷ rs) last = Reach r r' × Reads r' rs last

Reads-version :
    (r : Run) (rs : List Run) (last : Run)
    → r.st.version ≤ r.counter
    → Reads r rs last
    → r.st.version ≤ last.st.version
Reads-version r [] last v p = (Reach-version v p).0
Reads-version r (r' ∷ rs) last v p =
    let q = Reach-version v p.0 in let q' = Reads-version r' rs last q.1 p.1 in omega (arith, q, q')

-- `debug_wait` with `since_version`, while other goroutines change the run in any interleaving:
-- the state that it returns is newer than `since_version` exactly if the run is by the time the
-- wait ends, and its version lies between the run's at the first read and at the end.
pub wait_until_lem :
    (since : ℕ) (r : Run) (rs : List Run) (last : Run)
    → r.st.version ≤ r.counter
    → Reads r rs last
    → let version = (wait_until (is_newer (pos since)) r rs last).0.version in
      (ltb since version ≡ ltb since last.st.version)
      × (r.st.version ≤ version)
      × (version ≤ last.st.version)
unfolding wait_until is_newer
wait_until_lem since r [] last v p = let q = Reach-version v p in ground (arith, q)
wait_until_lem since r (r' ∷ rs) last v p =
    let q = Reach-version v p.0 in
    let below = Reads-version r (r' ∷ rs) last v p in
    let rest = wait_until_lem since r' rs last q.1 p.1 in ground (arith, q, below, rest)
