-- ===== src/Registry/Health.antt =====
-- The health checks of pkg/mpc/registry.go: checkPeersHealth, which evicts a peer from Consul after
-- five failed probes in a row, and the text that a node answers with.
mod Eviction
mod Message
unfoldable pub use Eviction.*
unfoldable pub use Message.*
