-- ===== src/Store.antt =====
-- crates/mirror-pool-store: the durable store of the coordinator.
pub mod Tables
pub mod Defs
pub mod Sealing
pub mod Lookups
pub mod Loop
pub mod Writing
pub mod Sealed
pub mod Serving
pub mod Totality
pub mod Accepting
pub mod Scheduling
pub mod Succeeding
