-- ===== src/Mounts.antt =====
-- internal/shim/platform/mounts and internal/host/mountutil: from the mounts of a root file system
-- on the host, over the disks of the virtual machine, to the mounts in the guest.
pub mod Data
pub mod Transform
pub mod Format
pub mod Mounting
pub mod Machine
mod Tests
