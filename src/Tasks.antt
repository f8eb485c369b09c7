-- ===== src/Tasks.antt =====
-- xtask: the tasks of the repository, of which the evidence is modelled.
pub mod Scenarios
pub mod Manifest
pub mod Evidence
pub mod Writing
pub mod Generating
pub mod Binding
