-- ===== src/Locks/Samples/Writes.antt =====
-- The theorems on the write tools, on the text elements and on sequences of calls at concrete calls.
use aibap_mcp.Base.{◌≡◌, refl, some, none, ok, true, false, [], ◌∷◌, bytes, text_eq, inr}
use aibap_mcp.Base.{contains}
use aibap_mcp.Locks.Session.{sap, tracked}
use aibap_mcp.Locks.WriteLock.{is_ecc, resolve_write_lock_handle, release_auto_lock}
use aibap_mcp.Locks.Writes.{write, patch_source}
use aibap_mcp.Locks.Writes.Ledger.{write_failure_releases}
use aibap_mcp.Locks.Writes.Owner.{write_keeps_caller_lock}
use aibap_mcp.Locks.TextElements.{TextElements, set_text_elements}
use aibap_mcp.Locks.TextElements.Rollback.{Settled, set_text_elements_lem}
use aibap_mcp.Locks.Calls.Covered.{Covered}
use aibap_mcp.Locks.Adt.{ecc, s4, handle_of}
use aibap_mcp.Locks.Samples.{
  refused_write, get, lock_object, taken, sample, laws, obj, key_a, system, fresh, locked,
  patch_obj,
}

write_failure_releases_example :
    (handle_of (get (write sample (fresh (system ecc false true)) patch_obj).1.lock_map key_a) ≡ [])
    × (tracked (write sample (fresh (system ecc false true)) patch_obj).1.tracker key_a ≡ false)
unfolding write patch_source resolve_write_lock_handle release_auto_lock get lock_object text_eq
    tracked contains taken
write_failure_releases_example =
    write_failure_releases sample laws (fresh (system ecc false true)) patch_obj (sap refused_write)
      (λ h w. refl) refl refl refl

write_keeps_caller_lock_example :
    handle_of (get (write sample (locked (system s4 false true)) patch_obj).1.lock_map key_a)
    ≡ bytes "H"
unfolding get text_eq is_ecc contains
write_keeps_caller_lock_example =
    write_keeps_caller_lock sample laws (locked (system s4 false true)) patch_obj (inr (refl, refl))

abbrev texts : TextElements sample
texts = record {
  uri = obj;
  transport = [];
  handle = [];
  symbols = some (ok (bytes "001" ∷ []));
  selections = none;
}

set_text_elements_lem_example :
    Settled sample laws key_a [] (set_text_elements sample (fresh (system s4 false true)) texts)
unfolding get
set_text_elements_lem_example =
    set_text_elements_lem sample laws (fresh (system s4 false true)) texts obj refl refl
      (λ h w. refl)
