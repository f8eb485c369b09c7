-- ===== src/Store/Defs.antt =====
-- crates/mirror-pool-store/src/lib.rs: the methods of `Store`. A method on `&mut self` returns the
-- database that it leaves with its result. Each writes in one transaction or one statement, so an
-- error leaves the database as it was. JSON (the crate serde_json) is a parameter.
use mirror_pool.Prelude.{
  ℕ, not, ◌&&◌, ◌||◌, Option, none, some, List, [], ◌∷◌, Bytes, codes, ltb, ◌==◌, if◌then◌else◌,
  Result, ok, err, ◌>>=◌, ◌>>◌, fail_if, ok_or, map_err, length, u32_mod,
}
use mirror_pool.Core.Defs.{Digest32, PoolConfig, Round, RoundState}
use mirror_pool.Merkle.Defs.{CohortProof, MerkleCohort, proof}
use mirror_pool.Crypto.Defs.{JoinTicket, TicketJson, commitment}
use mirror_pool.Store.Tables.{
  SqliteError, StoreError, sqlite, constraint_violation, out_of_range, serialization,
  invalid_ticket, duplicate_ticket, conflicting_schedule, RoundRow, Database, and_then, merkle_err,
  as_i64, digest, insert_ticket, commitments, find_root, find_proof, insert_proof, find_schedule,
  insert_schedule, find_pool, find_round, upsert_round, has_snapshot, is_there,
}

-- `serde_json::to_string` and `from_str` at the stored types.
pub record Json (T : Type 0) : Type 0 where
  pub to_string : T → Option Bytes
  pub from_str : Bytes → Option T

-- `format!("{:?}", state).to_lowercase()`
abbrev pub lower_name : RoundState → Bytes
lower_name RoundState.draft = codes "draft"
lower_name RoundState.registration = codes "registration"
lower_name RoundState.threshold_reached = codes "thresholdreached"
lower_name RoundState.sealed = codes "sealed"
lower_name RoundState.release_scheduled = codes "releasescheduled"
lower_name RoundState.execution_window = codes "executionwindow"
lower_name RoundState.finalizing = codes "finalizing"
lower_name RoundState.completed = codes "completed"
lower_name RoundState.cancelled = codes "cancelled"
lower_name RoundState.expired = codes "expired"

unfoldable pub event :
    Option Digest32 → Option ℕ → Bytes → Digest32 → Database → Result Database StoreError
unfolding as_i64
event pool none kind payload db = ok (record db {
  immutable_events =
      record { pool_id = pool; round_id = none; event_type = kind; payload_hash = payload }
      ∷ db.immutable_events;
})
event pool (some round) kind payload db = do
  id ← as_i64 round
  ok (record db {
    immutable_events =
        record { pool_id = pool; round_id = some id; event_type = kind; payload_hash = payload }
        ∷ db.immutable_events;
  })

-- The row of a read, as a value or the error of its JSON.
unfoldable pub parse : {T : Type 0} → Json T → Option Bytes → Result (Option T) StoreError
parse json none = ok none
parse json (some text) = do value ← ok_or (json.from_str text) serialization; ok (some value)

unfoldable pub insert_pool : Json PoolConfig → Database → PoolConfig → Result Database StoreError
unfolding find_pool has_snapshot
insert_pool json db pool = do
  text ← ok_or (json.to_string pool) serialization
  fail_if (not (length pool.pool_id == 32) || is_there (find_pool db.pools pool.pool_id))
      (sqlite constraint_violation)
  ok (record db {
    pools = record { pool_id = pool.pool_id; config_json = text } ∷ db.pools;
    configuration_snapshots =
        if has_snapshot db.configuration_snapshots pool.configuration_hash
        then db.configuration_snapshots
        else record { hash = pool.configuration_hash; config_json = text }
          ∷ db.configuration_snapshots;
  })

unfoldable pub put_round : Json Round → Database → Round → Result Database StoreError
unfolding as_i64 find_pool upsert_round
put_round json db round = do
  id ← as_i64 round.round_id
  text ← ok_or (json.to_string round) serialization
  fail_if (not (is_there (find_pool db.pools round.pool_id))) (sqlite constraint_violation)
  ok (record db {
    rounds =
        upsert_round
          (record {
            pool_id = round.pool_id;
            round_id = id;
            round_json = text;
            state = lower_name round.state;
          })
          db.rounds;
  })

abbrev pub round_json_of : Option RoundRow → Option Bytes
round_json_of none = none
round_json_of (some row) = some row.round_json

-- `Store::round`
unfoldable pub round : Json Round → Database → Digest32 → ℕ → Result (Option Round) StoreError
unfolding as_i64 find_round parse
round json db pool round_id = do
  id ← as_i64 round_id
  parse json (round_json_of (find_round db.rounds pool id))

-- The result of the statement of `accept_ticket`, with what follows it.
unfoldable pub accepted :
    JoinTicket → Digest32 → Result Database SqliteError → Result (Database × Digest32) StoreError
unfolding event
accepted ticket leaf (err constraint_violation) = err duplicate_ticket
accepted ticket leaf (err out_of_range) = err (sqlite out_of_range)
accepted ticket leaf (ok db) = do
  db' ← event (some ticket.pool_id) (some ticket.round_id) (codes "ticket_accepted") leaf db
  ok (db', leaf)

-- `Store::root`. A stored size is a `u32` or is refused.
unfoldable pub root_of : Database → Digest32 → ℕ → Result (Option (Digest32 × ℕ)) StoreError
unfolding as_i64 find_root digest
root_of db pool round_id = do
  id ← as_i64 round_id
  elim (find_root db.cohort_roots pool id) [
    | none ↦ ok none
    | some row ↦ do
      fail_if (not (ltb row.cohort_size u32_mod)) (sqlite out_of_range)
      bytes ← digest row.root
      ok (some (bytes, row.cohort_size))
  ]

-- `Store::proof`
unfoldable pub proof_of :
    Json CohortProof → Database → Digest32 → ℕ → Digest32 → Result (Option CohortProof) StoreError
unfolding as_i64 find_proof parse
proof_of json db pool round_id leaf = do
  id ← as_i64 round_id
  parse json (find_proof db.cohort_proofs pool id leaf)

unfoldable pub schedule_release : Database → Digest32 → ℕ → ℕ → ℕ → Result Database StoreError
unfolding as_i64 find_schedule insert_schedule
schedule_release db pool round_id release end_slot = do
  id ← as_i64 round_id
  elim (find_schedule db.release_schedules pool id) [
    | some row ↦
        if (row.release_slot == release) && (row.window_end_slot == end_slot)
        then ok db
        else err conflicting_schedule
    | none ↦ do
      start ← as_i64 release
      last ← as_i64 end_slot
      insert_schedule
          (record { pool_id = pool; round_id = id; release_slot = start; window_end_slot = last })
          db
  ]

unfoldable pub ticket_count : Database → Digest32 → ℕ → Result ℕ StoreError
unfolding as_i64 commitments
ticket_count db pool round_id = do
  id ← as_i64 round_id
  let count = length (commitments db.join_tickets pool id)
  fail_if (not (ltb count u32_mod)) (sqlite out_of_range)
  ok count

-- The loop that reads the leaves.
unfoldable pub digests : List Bytes → Result (List Digest32) StoreError
unfolding digest
digests [] = ok []
digests (row ∷ rows) = do leaf ← digest row; leaves ← digests rows; ok (leaf ∷ leaves)

module _ (blake3 : Bytes → Bytes) where
  module _ (tickets : TicketJson) (stored : Json JoinTicket) where
    unfoldable pub accept_ticket : Database → JoinTicket → Result (Database × Digest32) StoreError
    unfolding as_i64 insert_ticket accepted commitment
    accept_ticket db ticket = do
      leaf ← map_err (commitment tickets blake3 ticket) invalid_ticket
      id ← as_i64 ticket.round_id
      text ← ok_or (stored.to_string ticket) serialization
      accepted ticket leaf (
          insert_ticket
            (record {
              pool_id = ticket.pool_id;
              round_id = id;
              commitment = leaf;
              coordination_key = ticket.coordination_public_key;
              ticket_json = text;
            })
            db)

  module _ (json : Json CohortProof) where
    -- One pass of the loop of `seal_cohort`; `none` is a panic of `proof`.
    unfoldable pub store_proof :
        MerkleCohort → Digest32 → ℕ → Digest32 → Database → Option (Result Database StoreError)
    unfolding as_i64 insert_proof
    store_proof tree pool round_id leaf db = and_then (merkle_err (proof tree leaf round_id)) (λ p.
        some (do
          id ← as_i64 round_id
          text ← ok_or (json.to_string p) serialization
          insert_proof
              (record { pool_id = pool; round_id = id; commitment = leaf; proof_json = text }) db))

    unfoldable pub store_proofs :
        MerkleCohort → Digest32 → ℕ → List Digest32 → Database → Option (Result Database StoreError)
    unfolding store_proof
    store_proofs tree pool round_id [] db = some (ok db)
    store_proofs tree pool round_id (leaf ∷ leaves) db =
        and_then (store_proof tree pool round_id leaf db)
          (λ db'. store_proofs tree pool round_id leaves db')
