-- ===== src/Locks/Calls/Ledger.antt =====
-- Every handle in the lock map is tracked, under every sequence of calls of the tools that lock, write,
-- activate and read (tools/locktracker.go with all of its callers).
use aibap_mcp.Locks.Adt.{Adt}
use aibap_mcp.Locks.Session.{Session}
use aibap_mcp.Locks.Writes.Outcome.{Outcome}
use aibap_mcp.Locks.TextElements.{TextElements}
use aibap_mcp.Locks.Calls.Covered.{Covered}
