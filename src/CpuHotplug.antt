-- ===== src/CpuHotplug.antt =====
-- internal/shim/cpuhotplug/controller.go: the controller that adds and removes vCPUs of a VM.
-- QEMU, the guest, the cgroup statistics and the clock are outside code: each call is put on a
-- trace, newest first, and its answer is any function of the trace before it.
pub mod Controller
pub mod Sample
pub mod Scale
pub mod Check
pub mod Lifetime
pub mod Bounds
pub mod Plug
pub mod Hysteresis
mod Tests
