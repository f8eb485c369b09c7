-- ===== src/Core.antt =====
-- crates/mirror-pool-core: the protocol's domain types and the life of a round.
pub mod Defs
pub mod Validation
pub mod Lifecycle
pub mod Rounds
