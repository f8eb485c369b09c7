-- ===== src/Store/Writing.antt =====
-- What `seal_cohort` of crates/mirror-pool-store reads and writes outside of its loop.
use mathlib.Core.Path.{subst}
use mirror_pool.Prelude.{
  ℕ, ◌<◌, ◌≡◌, Option, some, List, [], ◌∷◌, Bytes, ok, arith, sym, ◌∙◌, ap, i64_mod, ok-injective,
  >>=-eq-ok, map_err, map_err-ok, length,
}
use mirror_pool.Core.Defs.{Digest32}
use mirror_pool.Merkle.Defs.{MerkleCohort, sort, root}
use mirror_pool.Store.Tables.{
  merkle, RootRow, Database, as_i64, digest, commitments, find_root, insert_root,
}
use mirror_pool.Store.Defs.{event, digests}
use mirror_pool.Store.Sealing.{read_leaves, insert_new_root, finish_seal}
use mirror_pool.Store.Lookups.{insert_root-finds}
use mirror_pool.Store.Loop.{as_i64-ok}

pub digests-ok :
    (rows : List Bytes) {leaves : List Digest32} → digests rows ≡ ok leaves → leaves ≡ rows
unfolding digests digest
digests-ok [] h = sym (ok-injective h)
digests-ok (row ∷ rows) h =
    let (leaf, one, h₁) = >>=-eq-ok (digest row) _ h in
    let (leaves, rest, made) = >>=-eq-ok (digests rows) _ h₁ in
    let same : leaf ≡ row = ground arith in
    sym (ok-injective made) ∙ (λ i. same i ∷ digests-ok rows rest i)

pub read_leaves-ok :
    (db : Database) (pool : Digest32) (round_id : ℕ) {leaves : List Digest32}
    → read_leaves db pool round_id ≡ ok leaves
    → (round_id < i64_mod) × (leaves ≡ sort (commitments db.join_tickets pool round_id))
unfolding read_leaves
read_leaves-ok db pool round_id {leaves} h =
    let (id, in_range, h₁) = >>=-eq-ok (as_i64 round_id) _ h in
    let (fits, same) = as_i64-ok round_id in_range in
    (fits, digests-ok _ h₁ ∙ ap (λ (n : ℕ). sort (commitments db.join_tickets pool n)) same)

-- The events are all that `finish_seal` changes.
pub record SameTables (db db' : Database) : Type 0 where
  pub tickets : db'.join_tickets ≡ db.join_tickets
  pub roots : db'.cohort_roots ≡ db.cohort_roots
  pub proofs : db'.cohort_proofs ≡ db.cohort_proofs
  pub schedules : db'.release_schedules ≡ db.release_schedules

pub event-ok :
    (pool : Option Digest32) (round_id : ℕ) (kind : Bytes) (payload : Digest32) (db : Database)
    {db' : Database}
    → event pool (some round_id) kind payload db ≡ ok db'
    → SameTables db db'
unfolding event
event-ok pool round_id kind payload db h =
    let (id, in_range, h₁) = >>=-eq-ok (as_i64 round_id) _ h in ground arith

pub finish_seal-ok :
    (pool : Digest32) (round_id : ℕ) (r : Digest32) (count : ℕ) (db : Database) {db' : Database}
    {r' : Digest32} {n : ℕ}
    → finish_seal pool round_id r count db ≡ ok (db', (r', n))
    → SameTables db db' × (r' ≡ r) × (n ≡ count)
unfolding finish_seal
finish_seal-ok pool round_id r count db {db'} {r'} {n} h =
    let (db₁, logged, h₁) = >>=-eq-ok (event (some pool) (some round_id) _ r db) _ h in
    let same : ◌≡◌ {A = Database × (Digest32 × ℕ)} (db₁, (r, count)) (db', (r', n)) =
      ok-injective h₁ in
    (
      subst (λ d. SameTables db d) (ap (λ (x : Database × (Digest32 × ℕ)). x.0) same)
          (event-ok (some pool) round_id _ r db logged),
      sym (ap (λ (x : Database × (Digest32 × ℕ)). x.1.0) same),
      sym (ap (λ (x : Database × (Digest32 × ℕ)). x.1.1) same),
    )

insert_root-ok :
    (row : RootRow) (db : Database) {db' : Database}
    → insert_root row db ≡ ok db'
    → (db'.join_tickets ≡ db.join_tickets) × (length row.root ≡ 32)
unfolding insert_root
insert_root-ok row db h = ground arith

new_root :
    (db : Database) (pool : Digest32) (round_id count : ℕ) (tree : MerkleCohort) {id : ℕ}
    {db₁ db' : Database} {r₁ r : Digest32}
    → id ≡ round_id
    → ◌≡◌ {A = Database × Digest32} (db₁, r₁) (db', r)
    → root tree ≡ ok r₁
    → insert_root (record { pool_id = pool; round_id = id; root = r₁; cohort_size = count }) db
      ≡ ok db₁
    → (root tree ≡ ok r)
      × (find_root db'.cohort_roots pool round_id
          ≡ some (record { pool_id = pool; round_id = round_id; root = r; cohort_size = count }))
      × (db'.join_tickets ≡ db.join_tickets)
      × (length r ≡ 32)
new_root db pool round_id count tree {id} {db₁} {r₁ = r₁} same_id made rooted inserted =
    let (tickets, sized) = insert_root-ok _ db inserted in
    subst
      (λ x.
        (root tree ≡ ok x.1)
        × (find_root x.0.cohort_roots pool round_id
            ≡ some
                (record { pool_id = pool; round_id = round_id; root = x.1; cohort_size = count }))
        × (x.0.join_tickets ≡ db.join_tickets)
        × (length x.1 ≡ 32))
      made
      (
        rooted,
        subst
            (λ n.
              find_root db₁.cohort_roots pool n
              ≡ some (record { pool_id = pool; round_id = n; root = r₁; cohort_size = count }))
            same_id (insert_root-finds _ db inserted),
        tickets,
        sized,
      )

-- The proofs are left alone by the row of a new root.
pub insert_new_root-proofs :
    (db : Database) (pool : Digest32) (round_id count : ℕ) (tree : MerkleCohort) {db' : Database}
    {r : Digest32}
    → insert_new_root db pool round_id count tree ≡ ok (db', r)
    → db'.cohort_proofs ≡ db.cohort_proofs
unfolding insert_new_root insert_root
insert_new_root-proofs db pool round_id count tree {db'} {r} h =
    let (r₁, rooted, h₁) = >>=-eq-ok (map_err (root tree) merkle) _ h in
    let (id, in_range, h₂) = >>=-eq-ok (as_i64 round_id) _ h₁ in
    let (db₁, inserted, made) = >>=-eq-ok (insert_root _ db) _ h₂ in ground arith

pub insert_new_root-ok :
    (db : Database) (pool : Digest32) (round_id count : ℕ) (tree : MerkleCohort) {db' : Database}
    {r : Digest32}
    → insert_new_root db pool round_id count tree ≡ ok (db', r)
    → (root tree ≡ ok r)
      × (find_root db'.cohort_roots pool round_id
          ≡ some (record { pool_id = pool; round_id = round_id; root = r; cohort_size = count }))
      × (db'.join_tickets ≡ db.join_tickets)
      × (length r ≡ 32)
unfolding insert_new_root
insert_new_root-ok db pool round_id count tree {db'} {r} h =
    let (r₁, rooted, h₁) = >>=-eq-ok (map_err (root tree) merkle) _ h in
    let (id, in_range, h₂) = >>=-eq-ok (as_i64 round_id) _ h₁ in
    let (db₁, inserted, made) = >>=-eq-ok (insert_root _ db) _ h₂ in
    let (_, same_id) = as_i64-ok round_id in_range in
    new_root db pool round_id count tree same_id (ok-injective made)
      (map_err-ok (root tree) merkle rooted) inserted
