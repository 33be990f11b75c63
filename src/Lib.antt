-- ===== src/Lib.antt =====
-- aibap.mcp serves SAP's ABAP development tools (ADT) to a model over the Model Context
-- Protocol. This library models the parts of it that keep state of their own, in the Go package
-- tools: the ledger of locks with the tools that write source, the debugger tools, the tools
-- that write transports, customizing, objects and abapGit repositories with their fallbacks,
-- the hints of errors, the registration of tools; the start and the end of the process
-- (main.go, config), and the package logging.
--
-- Parts and files. Paths of the program are from the repository's root, paths of this library
-- from this file.
-- [Base] Boolean tests, Go strings as lists of bytes, list lemmas, Go's pair of a value and an
--   error.
-- [Locks/Adt] what the lock tools use of adtler, the library that talks to SAP, as a record of
--   operations, and what they rely on of its lock map, as a record of laws. It stands for code
--   outside the repository and is a parameter of the other files of Locks.
-- [Locks/Session] tools/locktracker.go and the state of a session: the lock map, the tracked
--   keys, the active system, and the world behind SAP.
-- [Locks/WriteLock] tools/writelock.go (resolveWriteLockHandle) and tools/lockrollback.go
--   (releaseAutoLock, lockPreExisted).
-- [Locks/Tools] the handlers of tools/lock.go, collectTrackedLocks of tools/lock_list.go, and
--   unlockBeforeActivate of tools/activate.go.
-- [Locks/Activate] the handlers of tools/activate.go, and get_source on one object,
--   get_class_definition and get_include_source of tools/source.go.
-- [Locks/TextElements] set_text_elements of tools/textelements.go.
-- [Locks/Store, Locks/Writes] the handlers of tools/patch.go, tools/file_source.go, and
--   set_include_source and create_test_include of tools/source.go.
-- [Locks/Calls] sequences of calls of these tools, and what they keep of the ledger.
-- [Debug/State, Debug/Run, Debug/Lifecycle] the state of a debug run and each critical section
--   of its goroutines as a function (tools/debugrun.go, and parts of tools/debugsession.go,
--   tools/debugrun_cleanup.go and tools/debugrun_breakpoints.go). What SAP answered is an
--   argument.
-- [Debug/Steps] every interleaving of these critical sections, as a step relation, with its
--   invariants.
-- [Debug/Sap] what the debugger tools ask of adtler's DebugSession. Each request takes a world
--   and gives an answer and a world.
-- [Debug/Results, Debug/Values, Debug/Args] tools/debugrun_args.go. Debug/Breakpoints,
--   Debug/Requests: tools/debugrun_breakpoints.go. Debug/Cleanup: tools/debugrun_cleanup.go.
--   Debug/Sessions: tools/debugsession.go. Debug/Variables: tools/debugrun_variables.go.
-- [Registration] tools/consent.go, and the groups of tools/register.go.
-- [Debug/Instructions] tools/debugrun_instructions.go. [Debug/Excerpt] sourceExcerpt of
--   tools/debugrun.go.
-- [Debug/Wait] debug_wait and waitUntil. [Debug/Tools] the arguments and results of
--   tools/debugger.go.
-- [Errors] Go errors by what the tools ask of them. Errors/Hints: matchHint and errorResult of
--   tools/errors.go, abapGitSyncHint of tools/abapgitsync.go. Errors/Retry: when a retry is
--   advised.
-- [Params] tools/params.go, on what the tools ask of mcp-go's CallToolRequest.
-- [Transports] the interfaces of tools/blackmagic.go and adtler's TransportClient as records;
--   Transports/Requests, Transports/Listing and Transports/Entries: the handlers of
--   tools/transport.go and tools/transport_copies.go. Transports/Fallbacks states one rule for
--   the fallback of four tools.
-- [Customizing] tools/customizing_write.go. [AbapGit] tools/abapgitsync.go. [Objects]
--   tools/object.go.
-- [Reads] get_source on a list (tools/source.go), tools/query.go, tools/verify.go.
-- [Server] main.go, config/config.go and tools/shutdown.go.
-- [Logging] logging/papertrail.go: writing a line, with one reconnect. Logging/Line: the line.
--   Logging/Setup: logging/logging.go. Logging/Fanout: logging/fanout.go.
-- [The modules named Samples] small systems that meet the hypotheses, and the theorems at
--   concrete calls.
--
-- How the parts interact. A write tool resolves a handle (WriteLock), sends its requests, and
-- on failure releases the lock that it took itself; the ledger that list_locks and force_unlock
-- read is the session that it returns. launchRun, the core of debug_run (Sessions), cleans up
-- the run before it (Cleanup), sets the breakpoints (Breakpoints) and starts a run (Run), on
-- which the listener, the trigger, the idle timer and the tools then act in any order (Steps).
-- Where an operation waits for SAP between two critical sections, a function argument says what
-- the other goroutines make of the run meanwhile.
--
-- Modelling choices. Strings are lists of bytes; white space and upper case are those of ASCII,
-- lower case that of ASCII and Latin-1. A hint is a constructor, not its text. The errors of
-- adtler are records of what errors.As finds in them, and what adtler says of an error is a
-- parameter. A tool that asks adtler or a fallback takes a world and gives an answer and a
-- world, so that an equation between worlds says what was asked. The goroutines of get_source
-- finish in the order of a list. The tracker's set is a list without order of its own. Times
-- are the nanoseconds left of a budget; timers and contexts are answers of the outside. Error
-- messages are carried as the data that they are written from. Loops are structural recursion,
-- so there is no fuel. The process-wide version counter is a number in the run.
--
-- Not modelled: the batch, analysis and export tools, which forward to adtler and shape its
-- answers; the login command; the texts of the hints and of the server's instructions; flags
-- and signals. Of the debugger, reading the stack and the source, the wait of startRun after
-- launchRun, and the field ListeningUntil. Of a write's result, the counts of lines.
pub mod Base
pub mod Locks
pub mod Debug
pub mod Registration
pub mod Logging
pub mod Errors
pub mod Params
pub mod Transports
pub mod Customizing
pub mod AbapGit
pub mod Server
pub mod Reads
pub mod Objects
