-- ===== src/Shim.antt =====
-- internal/shim/task and internal/shim/lifecycle/vm.go: the task service of the shim.
pub mod Connection
pub mod Service
pub mod Shutdown
pub mod Create
pub mod Delete
pub mod Requests
pub mod Exec
pub mod History
pub mod Retry
mod Tests
