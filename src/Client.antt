-- ===== src/Client.antt =====
-- crates/mirror-pool-client: the participants' library.
pub mod Defs
pub mod Cohorts
pub mod Memo
pub mod Instructions
pub mod Building
