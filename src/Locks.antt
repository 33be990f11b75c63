-- ===== src/Locks.antt =====
-- The lock ledger and the write tools that use it.
pub mod Adt
pub mod Session
pub mod WriteLock
pub mod Tools
pub mod Activate
pub mod TextElements
pub mod Store
pub mod Writes
pub mod Calls
pub mod Samples
