-- ===== src/Debug/Sessions/Samples.antt =====
-- The theorems on debug sessions at concrete calls.
use aibap_mcp.Base.{◌≡◌, ◌<◌, refl, true, false, some, [], ◌∷◌, Text, bytes, text_eq}
use mathlib.Core.List.{map}
use aibap_mcp.Debug.State.{listening, manual, no_hint, Instructions}
use aibap_mcp.Debug.Run.{Run, new_run, listen_answer, attach_answer}
use aibap_mcp.Debug.Steps.{here}
use aibap_mcp.Debug.Results.{site, check_results}
use aibap_mcp.Debug.Breakpoints.{set_external}
use aibap_mcp.Debug.Samples.{sample, no_object, second, halted, source}
use aibap_mcp.Debug.Cleanup.{cleanup_run}
use aibap_mcp.Debug.Lifecycle.{cleanup_start}
use aibap_mcp.Debug.Sessions.{Key, Sessions, Order, versions_used, clean, open_session, launch_run}
use aibap_mcp.Debug.Sessions.Launch.{launch_success}

abbrev dev : Text
dev = bytes "DEV"

abbrev anna : Text
anna = bytes "ANNA"

abbrev key : Key
key = record { user = anna; system = dev }

abbrev with_run : Sessions
with_run = record { cur = some key; run = some (key, halted); versions = 0 }

abbrev texts : Instructions
texts = record { steps = []; notes = []; user = anna }

abbrev order : Order
order = record {
  kind = manual;
  breakpoints = second ∷ [];
  hint = no_hint;
  triggerer = false;
  manual_text = texts;
  gui_text = texts;
}

abbrev two : Order
two = record order { breakpoints = second ∷ second ∷ [] }

launch_success_example :
    let m = (launch_run sample no_object with_run (λ r. r) order key true).1 in
    (m.cur ≡ some key)
    × ((r : Run) × (m.run ≡ some (key, r))
        × (r.st.status ≡ listening)
        × (map site r.st.breakpoints ≡ (source, 9) ∷ [])
        × (versions_used with_run < r.st.version))
unfolding launch_run set_external open_session clean text_eq cleanup_run cleanup_start attach_answer
    listen_answer new_run check_results
launch_success_example =
    launch_success sample no_object with_run (λ r. r) order key true (λ r. here) refl
