-- ===== src/Lib.antt =====
-- mirror-pool: coordination of cohorts of participants who act in a shared window of slots.
--
-- A pool has an authority and a policy: how many participants, which delays and which window. A
-- round of a pool collects participants, is sealed, gets a release slot, opens its execution
-- window, and is finalized or cancelled. The domain crate defines policies and rounds off
-- chain; the Merkle crate turns the tickets of a round into a tree whose root is published; the
-- coordinator takes signed tickets in under limits and keeps them, roots and proofs in a SQLite
-- store; the Solana program keeps pools, rounds and transparent registrations in accounts and
-- checks every step. The simulator measures a round against a fixed-window baseline; the
-- command line keeps the policies, rounds, tickets and plans of one participant in JSON files;
-- the build tasks write the evidence of the simulations and check it.
--
-- Files:
-- - Prelude and its children: tests on the native numbers, lists, results with the checked
--   arithmetic of Rust, byte strings.
-- - Core: crates/mirror-pool-core/src/lib.rs. Core/Defs has the types and the operations
--   (PoolConfig::compute_hash, validate; RoundState::can_transition_to; Round::transition,
--   register, seal, schedule_release); a method on &mut self returns the round that it leaves
--   and its result. Core/Validation, Core/Lifecycle and Core/Rounds are about validation, the
--   graph of states and sequences of calls.
-- - Merkle: crates/mirror-pool-merkle/src/lib.rs. Merkle/Defs has MerkleCohort::build, root,
--   proof and CohortProof::verify. Merkle/Sorting, Leaves, Levels, Paths and Soundness carry
--   the lemmas, Merkle/Cohorts is about build and Merkle/Proofs about proof and verify.
-- - Crypto: crates/mirror-pool-crypto/src/lib.rs. Crypto/Defs has JoinTicket::create, verify,
--   commitment and key_id; Crypto/Tickets is about them.
-- - Store: crates/mirror-pool-store/src/lib.rs. Store/Tables has the tables and the SQL
--   statements on them, Store/Defs the methods of Store, Store/Sealing its seal_cohort. The
--   methods root and proof are root_of and proof_of. Store/Lookups, Loop, Writing and Sealed
--   carry the lemmas; Store/Serving is about seal_cohort and the reads after it, Store/Totality
--   about its panics and loops, Store/Succeeding about when it succeeds, Store/Accepting about
--   tickets and Store/Scheduling about schedules.
-- - Coordinator: crates/mirror-pool-coordinator/src/lib.rs. Coordinator/Defs has check_rate,
--   submit_ticket (its part under the lock of the store is enter), seal, proof and the
--   handlers; Coordinator/Rates is about check_rate, Coordinator/Limits about the tickets that
--   a round takes in.
-- - Actions: crates/mirror-pool-actions/src/lib.rs. Actions/Defs has SafetyPolicy::validate and
--   is_loopback, Actions/Templates the methods of the four templates, Actions/Policy is about
--   both.
-- - Client: crates/mirror-pool-client/src/lib.rs. Client/Defs has the functions on tickets and
--   cohorts, verify_round_configuration and execute_local_memo (from its first validation on:
--   send_memo); Client/Cohorts is about cohorts and proofs, Client/Memo about
--   execute_local_memo. Client/Instructions has the builders of instructions, and
--   Client/Building is about what the program does with them.
-- - Program: programs/mirror-pool-program/src/lib.rs. Program/Runtime has accounts, records,
--   errors and helpers, Program/Handlers the instructions that create accounts (initialize,
--   open_round, register_transparent), Program/Admin those of an authority (publish_root, seal,
--   schedule, begin, finalize, cancel, close) and the dispatch. Program/Transitions says what
--   an instruction may do to a round; Program/Conditions, Effects, Refinement and Dispatch
--   relate the handlers to it; Program/Life is about sequences of transitions, Program/Running
--   about sequences of calls of dispatch; Program/Performing and Journeys are about when the
--   instructions succeed; Program/Opening, Registering and Closing are about the instructions
--   that create and close accounts.
-- - Simulator: crates/mirror-pool-simulator/src/lib.rs. Simulator/Defs has scenarios and the
--   loop of evaluate (its body is observe), Simulator/Counting and Simulator/Metrics the rest
--   of metrics and evaluate. Simulator/Groups, Observations and Evaluation carry the lemmas;
--   Simulator/Reports is about reports, Simulator/Fingerprints and Simulator/Ablation about
--   observers of fewer features.
-- - CommandLine: crates/mirror-pool-cli/src/main.rs. CommandLine/Files has the file system and
--   read_json, write_new_json and write_private; CommandLine/Commands the commands pool create
--   and inspect, round open and inspect, ticket create and submit, proof verify (proof_verify),
--   the configuration of coordinator run and the end of evaluate; CommandLine/Actions those on
--   actions and the match of main on the commands pool, round, ticket, proof, action, observe
--   and evaluate (run); init, doctor, report, evidence and coordinator are not commands of this
--   model. CommandLine/Steps carries the lemmas; CommandLine/Keeping is about the files that
--   are there, CommandLine/Pools, Rounds, Tickets and Preparing about commands one after the
--   other.
-- - Tasks: xtask/src/main.rs. Tasks/Scenarios has the scenarios of generate, Tasks/Manifest the
--   manifest of the evidence and the search for patterns, Tasks/Evidence generate (from its
--   reports on: write_evidence) and verify, on the file system of CommandLine/Files.
--   Tasks/Writing carries the lemmas on the files, Tasks/Generating is about generate and
--   verify one after the other, Tasks/Binding about what verify accepts.
-- - Tests: concrete inputs, and a runtime whose codecs meet the laws that are assumed.
--
-- Correspondence: a bank maps a key to its account, so two account infos with one key share an
-- account, as in the runtime. A handler takes the bank and returns the new bank or the error;
-- on an error the runtime discards what was written. The guards of a handler, in the order of
-- the source, are the definitions whose names start with refuses, and window_passed and
-- may_finalize where a guard reads the clock. Numbers are natural numbers; a sum that the
-- source checks is compared with the modulus of its type.
--
-- Parameters: the BLAKE3 function, Ed25519, hex, serde_json and borsh, the Solana runtime
-- (program addresses, the clock, rent, account creation), the answers of the client's RPC node
-- and its wallet, f64 with its operations, ChaCha20Rng, what the operating system refuses to a
-- file, the clock and the random bytes of the command line, and the formats of the evidence.
-- Laws that are assumed of them are arguments of the theorems: borsh reads back what it wrote,
-- for accounts also with bytes behind it; the search for a program address finds one;
-- serde_json reads back what it wrote; a signature has 64 bytes and verifies under its key;
-- digests have 32 bytes; a generator draws within its range; rounding keeps an index within its
-- bound. SQLite is taken to fail only on a constraint, and each method to run alone on the
-- database.
--
-- Fuel: the loop that builds a tree runs on fuel, one round for each leaf, which is enough
-- since a round halves a level that has more than one node. All else is structural recursion. A
-- panic of the simulator is the outer error of its result.
--
-- Not modelled: the client's inspect_rpc; opening and migrating the database, the HTTP server
-- and the RPC clock; the commands init, doctor, report and evidence, the serving of coordinator
-- run, and the parsing of arguments; the tasks setup, demo, full-demo and its benchmark;
-- logging and formatting.
pub mod Prelude
pub mod Core
pub mod Merkle
pub mod Crypto
pub mod Store
pub mod Client
pub mod Coordinator
pub mod Actions
pub mod Program
pub mod Simulator
pub mod CommandLine
pub mod Tasks
mod Tests
