-- ===== src/ExitTracker.antt =====
-- internal/guest/vminit/task/exit_tracker.go: how the exits of processes are matched to them.
-- Containers and processes are identified by numbers, which stand for their pointers. Each method
-- of a component is one step, since it runs under the component's mutex. Subscription numbers and
-- channels do not wrap.
pub mod Detector
pub mod Coordinator
pub mod Registry
pub mod Tracker
pub mod EarlyExits
pub mod Waiters
mod Tests
