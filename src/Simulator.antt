-- ===== src/Simulator.antt =====
-- crates/mirror-pool-simulator: the synthetic evaluation of privacy and synchronization.
pub mod Defs
pub mod Counting
pub mod Metrics
pub mod Groups
pub mod Observations
pub mod Evaluation
pub mod Reports
pub mod Fingerprints
pub mod Ablation
