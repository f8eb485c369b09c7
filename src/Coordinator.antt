-- ===== src/Coordinator.antt =====
-- crates/mirror-pool-coordinator: the service that collects tickets and seals cohorts.
pub mod Defs
pub mod Rates
pub mod Limits
