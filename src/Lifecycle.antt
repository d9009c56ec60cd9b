-- ===== src/Lifecycle.antt =====
-- internal/shim/lifecycle: the shim's state machine and the order of its cleanup.
pub mod State
pub mod Edges
pub mod Histories
pub mod Cleanup
mod Tests
