-- ===== src/Node.antt =====
-- The node's session factory, pkg/mpc/node.go: which sessions it opens, with which committee, and
-- which it refuses.
pub mod Sessions
pub mod Keygen
pub mod Signing
pub mod Reshare
mod Examples
