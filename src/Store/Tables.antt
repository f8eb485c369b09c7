-- ===== src/Store/Tables.antt =====
-- crates/mirror-pool-store/src/lib.rs: the tables of the migration and the statements on them.
-- A table is the list of its rows, the newest first. The columns that hold the time of a write, which
-- nothing reads, are left out. SQLite itself is taken to work: a statement fails only where it breaks
-- a constraint of its table.
use mirror_pool.Prelude.{
  ℕ, Bool, true, false, not, ◌&&◌, ◌||◌, Option, none, some, List, [], ◌∷◌, Bytes, bytes_eq, ltb,
  ◌==◌, if◌then◌else◌, Result, ok, err, length, i64_mod,
}
use mirror_pool.Core.Defs.{Digest32}
use mirror_pool.Merkle.Defs.{MerkleError}

-- `rusqlite::Error`: `constraint_violation` is its error code of that name, `out_of_range` a column
-- that does not fit the type it is read as.
pub data SqliteError : Type 0 where
  constraint_violation out_of_range : SqliteError

pub data StoreError : Type 0 where
  sqlite : SqliteError → StoreError
  serialization invalid_ticket duplicate_ticket threshold_not_reached merkle conflicting_schedule
        count_overflow corrupt_database :
      StoreError

-- A result of code that may panic, and what follows it: `none` is the panic.
abbrev pub and_then :
    {A B : Type 0}
    → Option (Result A StoreError)
    → (A → Option (Result B StoreError))
    → Option (Result B StoreError)
and_then none next = none
and_then (some (err e)) next = some (err e)
and_then (some (ok a)) next = next a

-- `map_err(|_| StoreError::Merkle)` on such a result.
abbrev pub merkle_err : {A : Type 0} → Option (Result A MerkleError) → Option (Result A StoreError)
merkle_err none = none
merkle_err (some (err e)) = some (err merkle)
merkle_err (some (ok a)) = some (ok a)

pub record PoolRow : Type 0 where
  pub pool_id : Bytes
  pub config_json : Bytes

pub record SnapshotRow : Type 0 where
  pub hash : Bytes
  pub config_json : Bytes

pub record RoundRow : Type 0 where
  pub pool_id : Bytes
  pub round_id : ℕ
  pub round_json : Bytes
  pub state : Bytes

pub record TicketRow : Type 0 where
  pub pool_id : Bytes
  pub round_id : ℕ
  pub commitment : Bytes
  pub coordination_key : Bytes
  pub ticket_json : Bytes

pub record RootRow : Type 0 where
  pub pool_id : Bytes
  pub round_id : ℕ
  pub root : Bytes
  pub cohort_size : ℕ

pub record ProofRow : Type 0 where
  pub pool_id : Bytes
  pub round_id : ℕ
  pub commitment : Bytes
  pub proof_json : Bytes

pub record ScheduleRow : Type 0 where
  pub pool_id : Bytes
  pub round_id : ℕ
  pub release_slot : ℕ
  pub window_end_slot : ℕ

pub record EventRow : Type 0 where
  pub pool_id : Option Bytes
  pub round_id : Option ℕ
  pub event_type : Bytes
  pub payload_hash : Bytes

-- The tables that the store reads or writes. The primary key of `immutable_events` is the position
-- of a row, counted from the oldest.
pub record Database : Type 0 where
  pub pools : List PoolRow
  pub configuration_snapshots : List SnapshotRow
  pub rounds : List RoundRow
  pub join_tickets : List TicketRow
  pub cohort_roots : List RootRow
  pub cohort_proofs : List ProofRow
  pub release_schedules : List ScheduleRow
  pub immutable_events : List EventRow

-- An integer column holds an `i64`.
unfoldable pub as_i64 : ℕ → Result ℕ StoreError
as_i64 value = if ltb value i64_mod then ok value else err count_overflow

-- `Vec<u8>` to `[u8; 32]`
unfoldable pub digest : Bytes → Result Digest32 StoreError
digest bytes = if length bytes == 32 then ok bytes else err corrupt_database

-- The primary key or prefix of a primary key that most tables share.
unfoldable pub is_at : Bytes → ℕ → Bytes → ℕ → Bool
is_at pool round pool_id round_id = bytes_eq pool_id pool && (round_id == round)

-- UNIQUE on `commitment`, UNIQUE on pool, round and key.
unfoldable pub clashes : TicketRow → TicketRow → Bool
unfolding is_at
clashes new old =
    bytes_eq old.commitment new.commitment
    || (is_at new.pool_id new.round_id old.pool_id old.round_id
        && bytes_eq old.coordination_key new.coordination_key)

unfoldable pub any_clash : TicketRow → List TicketRow → Bool
unfolding clashes
any_clash new [] = false
any_clash new (row ∷ rows) = clashes new row || any_clash new rows

unfoldable pub insert_ticket : TicketRow → Database → Result Database SqliteError
unfolding any_clash
insert_ticket row db =
    if not (length row.commitment == 32) || any_clash row db.join_tickets
    then err constraint_violation
    else ok (record db { join_tickets = row ∷ db.join_tickets })

-- `SELECT commitment FROM join_tickets WHERE pool_id=?1 AND round_id=?2`, without its order.
unfoldable pub commitments : List TicketRow → Bytes → ℕ → List Bytes
unfolding is_at
commitments [] pool round = []
commitments (row ∷ rows) pool round =
    let rest = commitments rows pool round in
    if is_at pool round row.pool_id row.round_id then row.commitment ∷ rest else rest

-- `SELECT root, cohort_size FROM cohort_roots WHERE pool_id=?1 AND round_id=?2`
unfoldable pub find_root : List RootRow → Bytes → ℕ → Option RootRow
unfolding is_at
find_root [] pool round = none
find_root (row ∷ rows) pool round =
    let rest = find_root rows pool round in
    if is_at pool round row.pool_id row.round_id then some row else rest

abbrev pub is_there {ℓ} : {A : Type ℓ} → Option A → Bool
is_there none = false
is_there (some a) = true

unfoldable pub insert_root : RootRow → Database → Result Database StoreError
unfolding find_root
insert_root row db =
    if not (length row.root == 32) || is_there (find_root db.cohort_roots row.pool_id row.round_id)
    then err (sqlite constraint_violation)
    else ok (record db { cohort_roots = row ∷ db.cohort_roots })

-- `SELECT proof_json FROM cohort_proofs WHERE pool_id=?1 AND round_id=?2 AND commitment=?3`
unfoldable pub find_proof : List ProofRow → Bytes → ℕ → Bytes → Option Bytes
unfolding is_at
find_proof [] pool round commitment = none
find_proof (row ∷ rows) pool round commitment =
    let rest = find_proof rows pool round commitment in
    if is_at pool round row.pool_id row.round_id && bytes_eq row.commitment commitment
    then some row.proof_json
    else rest

unfoldable pub insert_proof : ProofRow → Database → Result Database StoreError
unfolding find_proof
insert_proof row db =
    if is_there (find_proof db.cohort_proofs row.pool_id row.round_id row.commitment)
    then err (sqlite constraint_violation)
    else ok (record db { cohort_proofs = row ∷ db.cohort_proofs })

unfoldable pub find_schedule : List ScheduleRow → Bytes → ℕ → Option ScheduleRow
unfolding is_at
find_schedule [] pool round = none
find_schedule (row ∷ rows) pool round =
    let rest = find_schedule rows pool round in
    if is_at pool round row.pool_id row.round_id then some row else rest

unfoldable pub insert_schedule : ScheduleRow → Database → Result Database StoreError
unfolding find_schedule
insert_schedule row db =
    if is_there (find_schedule db.release_schedules row.pool_id row.round_id)
    then err (sqlite constraint_violation)
    else ok (record db { release_schedules = row ∷ db.release_schedules })

unfoldable pub find_pool : List PoolRow → Bytes → Option PoolRow
find_pool [] pool = none
find_pool (row ∷ rows) pool =
    let rest = find_pool rows pool in if bytes_eq row.pool_id pool then some row else rest

unfoldable pub find_round : List RoundRow → Bytes → ℕ → Option RoundRow
unfolding is_at
find_round [] pool round = none
find_round (row ∷ rows) pool round =
    let rest = find_round rows pool round in
    if is_at pool round row.pool_id row.round_id then some row else rest

-- `ON CONFLICT(pool_id, round_id) DO UPDATE`
unfoldable pub upsert_round : RoundRow → List RoundRow → List RoundRow
unfolding is_at
upsert_round new [] = new ∷ []
upsert_round new (row ∷ rows) =
    let rest = upsert_round new rows in
    if is_at new.pool_id new.round_id row.pool_id row.round_id then new ∷ rows else row ∷ rest

unfoldable pub has_snapshot : List SnapshotRow → Bytes → Bool
has_snapshot [] hash = false
has_snapshot (row ∷ rows) hash = bytes_eq row.hash hash || has_snapshot rows hash
