-- ===== src/Program.antt =====
-- programs/mirror-pool-program: the on-chain coordination program.
pub mod Runtime
pub mod Handlers
pub mod Admin
pub mod Transitions
pub mod Effects
pub mod Conditions
pub mod Refinement
pub mod Dispatch
pub mod Life
pub mod Opening
pub mod Registering
pub mod Closing
pub mod Performing
pub mod Journeys
pub mod Running
