-- ===== src/Reads.antt =====
-- The tools that read: `get_source` and `getStringOrSlice`, `run_query`, `verify_source`.
pub mod Multi
pub mod Order
pub mod Query
pub mod Samples
