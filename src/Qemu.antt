-- ===== src/Qemu.antt =====
-- internal/host/vm/qemu: the virtual machine of a container, from its making to its shutdown.
pub mod Instance
pub mod Command
pub mod Start
pub mod Shutdown
pub mod Holding
pub mod Devices
pub mod Memory
mod Tests
