-- ===== src/Locks/Calls.antt =====
-- Sequences of tool calls on one session, and the invariant of the tracker that they keep
-- (tools/locktracker.go with all of its callers).
pub mod Covered
pub mod Ledger
use aibap_mcp.Base.{
  ◌≡◌, ◌⊎◌, refl, ap, Bool, true, false, not, ◌&&◌, Option, some, none, List, [], ◌∷◌, ◌++◌, Text,
  text_eq, has_byte, has_byte-append, starts_with, distinct, distinct-insert, distinct-keep,
  contains, insert, remove, keep, all, if◌then◌else◌, Result, ok, err, Result-cases, Bool-cases,
  inl, inr, arith, is_empty,
}
use aibap_mcp.Locks.Adt.{Adt, AdtLaws, handle_of}
use aibap_mcp.Locks.Session.{Session, Tracker, snapshot, track, untrack}
use aibap_mcp.Locks.Session.Forget.{snapshot-forget_system}
use aibap_mcp.Locks.WriteLock.Release.{tracker-resolve, tracker-release}
use aibap_mcp.Locks.Writes.{Write, write, uri_of, explicit_of, allows_auto_lock}
use aibap_mcp.Locks.Store.{roll_back}
use aibap_mcp.Locks.Writes.Outcome.{failed, done, refused, unresolved, resolved, write-Outcome}
use aibap_mcp.Locks.Tools.{lock, unlock, force_unlock}
use aibap_mcp.Locks.TextElements.{TextElements, set_text_elements}
use aibap_mcp.Locks.Activate.{activate_objects, activate_object, get_source}

-- A tool call, or the selection of another system.
pub data Call (a : Adt) : Type 0 where
  locks : Text → Call a
  unlocks : Text → Text → Call a
  force_unlocks : Call a
  activates : List Text → Call a
  activates_one : Text → Call a
  reads : Text → Call a
  sets_text_elements : TextElements a → Call a
  writes : Write a → Call a
  selects : Text → Call a

module _ (a : Adt) where
  pub call : Session a → Call a → Session a
  call s (locks uri) = (lock a s uri).1
  call s (unlocks uri given) = (unlock a s uri given).1
  call s force_unlocks = (force_unlock a s).1
  call s (activates uris) = (activate_objects a s uris).1
  call s (activates_one uri) = (activate_object a s uri).1
  call s (reads uri) = (get_source a s uri).1
  call s (sets_text_elements t) = (set_text_elements a s t).1
  call s (writes c) = (write a s c).1
  call s (selects name) = record s { active = name }

  pub calls : Session a → List (Call a) → Session a
  calls s [] = s
  calls s (c ∷ cs) = calls (call s c) cs
