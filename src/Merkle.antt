-- ===== src/Merkle.antt =====
-- crates/mirror-pool-merkle: deterministic Merkle cohorts.
pub mod Defs
pub mod Sorting
pub mod Leaves
pub mod Levels
pub mod Paths
pub mod Soundness
pub mod Cohorts
pub mod Proofs
