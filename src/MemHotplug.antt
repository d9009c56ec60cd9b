-- ===== src/MemHotplug.antt =====
-- internal/shim/memhotplug/controller.go: the controller that adds and removes memory of a VM.
-- QEMU, the guest, the cgroup statistics and the clock are outside code: each call is put on a
-- trace, newest first, and its answer is any function of the trace before it.
pub mod Controller
mod Lifetime
pub mod Target
pub mod Scale
pub mod Slots
pub mod Dimms
pub mod Bounds
pub mod Pressure
mod Streak
pub mod Guest
pub mod Alignment
mod Tests
