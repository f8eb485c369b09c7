-- ===== src/CommandLine.antt =====
-- crates/mirror-pool-cli: the command line of operators and participants.
pub mod Files
pub mod Commands
pub mod Actions
pub mod Keeping
pub mod Steps
pub mod Pools
pub mod Rounds
pub mod Tickets
pub mod Preparing
