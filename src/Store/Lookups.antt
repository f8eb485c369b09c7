-- ===== src/Store/Lookups.antt =====
-- What the inserts of crates/mirror-pool-store leave of the rows that were there.
use mirror_pool.Prelude.{
  ℕ, ◌≡◌, true, ◌&&◌, some, Bytes, bytes_eq, bytes_eq_iff, bytes_eq_refl, Bool-cases, inl, inr, ok,
  arith, ◌≢◌,
}
use mirror_pool.Store.Tables.{
  RootRow, ProofRow, ScheduleRow, Database, is_at, find_root, insert_root, find_proof, insert_proof,
  find_schedule, insert_schedule,
}

pub is_at_refl : (pool : Bytes) (round : ℕ) → is_at pool round pool round ≡ true
unfolding is_at
is_at_refl pool round = ground (arith, bytes_eq_refl pool)

pub is_at_sound :
    (pool : Bytes) (round : ℕ) (pool' : Bytes) (round' : ℕ)
    → is_at pool round pool' round' ≡ true
    → (pool' ≡ pool) × (round' ≡ round)
unfolding is_at
is_at_sound pool round pool' round' h = ground (arith, bytes_eq_iff pool' pool)

-- A proof that is stored is found.
pub insert_proof-finds :
    (row : ProofRow) (db : Database) {db' : Database}
    → insert_proof row db ≡ ok db'
    → find_proof db'.cohort_proofs row.pool_id row.round_id row.commitment ≡ some row.proof_json
unfolding insert_proof
insert_proof-finds row db h =
    ground (arith, is_at_refl row.pool_id row.round_id, bytes_eq_refl row.commitment)

-- A proof that was there is still found after another insert.
pub insert_proof-keeps :
    (row : ProofRow) (db : Database) (pool : Bytes) (round : ℕ) (leaf text : Bytes) {db' : Database}
    → insert_proof row db ≡ ok db'
    → find_proof db.cohort_proofs pool round leaf ≡ some text
    → find_proof db'.cohort_proofs pool round leaf ≡ some text
unfolding insert_proof
insert_proof-keeps row db pool round leaf text h found =
    elim (Bool-cases (is_at pool round row.pool_id row.round_id && bytes_eq row.commitment leaf)) [
      | inl same ↦
          let (p, q) = is_at_sound pool round row.pool_id row.round_id (ground arith) in
          let c : row.commitment ≡ leaf = ground (arith, bytes_eq_iff row.commitment leaf) in
          absurd (ground arith)
      | inr other ↦ ground arith
    ]

-- What is found under another leaf is as it was.
pub insert_proof-elsewhere :
    (row : ProofRow) (db : Database) (pool : Bytes) (round : ℕ) (leaf : Bytes) {db' : Database}
    → insert_proof row db ≡ ok db'
    → row.commitment ≢ leaf
    → find_proof db'.cohort_proofs pool round leaf ≡ find_proof db.cohort_proofs pool round leaf
unfolding insert_proof
insert_proof-elsewhere row db pool round leaf h other =
    ground (arith, bytes_eq_iff row.commitment leaf)

pub insert_root-finds :
    (row : RootRow) (db : Database) {db' : Database}
    → insert_root row db ≡ ok db'
    → find_root db'.cohort_roots row.pool_id row.round_id ≡ some row
unfolding insert_root
insert_root-finds row db h = ground (arith, is_at_refl row.pool_id row.round_id)

pub insert_root-keeps :
    (row : RootRow) (db : Database) (pool : Bytes) (round : ℕ) {found : RootRow} {db' : Database}
    → insert_root row db ≡ ok db'
    → find_root db.cohort_roots pool round ≡ some found
    → find_root db'.cohort_roots pool round ≡ some found
unfolding insert_root
insert_root-keeps row db pool round h found =
    elim (Bool-cases (is_at pool round row.pool_id row.round_id)) [
      | inl same ↦
          let (p, q) = is_at_sound pool round row.pool_id row.round_id same in absurd (ground arith)
      | inr other ↦ ground arith
    ]

pub insert_schedule-keeps :
    (row : ScheduleRow) (db : Database) (pool : Bytes) (round : ℕ) {found : ScheduleRow}
    {db' : Database}
    → insert_schedule row db ≡ ok db'
    → find_schedule db.release_schedules pool round ≡ some found
    → find_schedule db'.release_schedules pool round ≡ some found
unfolding insert_schedule
insert_schedule-keeps row db pool round h found =
    elim (Bool-cases (is_at pool round row.pool_id row.round_id)) [
      | inl same ↦
          let (p, q) = is_at_sound pool round row.pool_id row.round_id same in absurd (ground arith)
      | inr other ↦ ground arith
    ]
