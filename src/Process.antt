-- ===== src/Process.antt =====
-- internal/guest/vminit/process: the state machines of a container's init process and of its exec
-- processes, with the methods that they drive.
pub mod State
pub mod Init
pub mod Exec
mod Tests
