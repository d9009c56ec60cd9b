-- ===== src/Vsock.antt =====
-- internal/vsock/allocator.go: leases of vsock context identifiers (CIDs) by lock files.
pub mod Allocator
pub mod Search
pub mod Exclusive
pub mod Cooldown
mod Tests
