-- ===== src/Tests.antt =====
-- Examples of the theorems, at inputs where their hypotheses hold.
mod Host
mod OnChain
mod Openings
mod Lives
mod Tickets
mod Stores
mod Policies
mod Rounds
mod Cohorts
mod Clients
mod Building
mod Evaluations
mod Formats
mod Values
mod Commands
mod Evidence
mod Journeys
