-- ===== src/Resources.antt =====
-- internal/shim/resources/config.go and the defaults of internal/host/vm/qemu/instance.go: the size
-- of the virtual machine for a container.
pub mod Config
pub mod Limits
mod Tests
