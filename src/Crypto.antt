-- ===== src/Crypto.antt =====
-- crates/mirror-pool-crypto: signed coordination tickets.
pub mod Defs
pub mod Tickets
