-- ===== src/Debug.antt =====
-- The debugger tools: one run at a time, its state, its breakpoints and its cleanup.
pub mod State
pub mod Run
pub mod Lifecycle
pub mod Steps
pub mod Sap
pub mod Results
pub mod Breakpoints
pub mod Cleanup
pub mod Values
pub mod Args
pub mod Sessions
pub mod Requests
pub mod Variables
pub mod Instructions
pub mod Wait
pub mod Tools
pub mod Excerpt
pub mod Samples
