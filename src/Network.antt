-- ===== src/Network.antt =====
-- internal/host/network: the network of a container, set up once and torn down.
pub mod Setup
pub mod Plugins
mod Tests
