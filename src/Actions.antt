-- ===== src/Actions.antt =====
-- crates/mirror-pool-actions: the actions of participants and the policy that guards them.
pub mod Defs
pub mod Templates
pub mod Policy
