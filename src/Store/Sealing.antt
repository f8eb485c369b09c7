-- ===== src/Store/Sealing.antt =====
-- crates/mirror-pool-store/src/lib.rs: `Store::seal_cohort`.
use mirror_pool.Prelude.{
  ℕ, not, Option, none, some, List, Bytes, codes, ltb, if◌then◌else◌, Result, ok, err, ◌>>=◌,
  map_err, length, u32_mod,
}
use mirror_pool.Core.Defs.{Digest32}
use mirror_pool.Merkle.Defs.{CohortProof, MerkleCohort, sort, build, root}
use mirror_pool.Store.Tables.{
  StoreError, threshold_not_reached, merkle, count_overflow, Database, and_then, merkle_err, as_i64,
  commitments, insert_root,
}
use mirror_pool.Store.Defs.{Json, event, root_of, digests, store_proofs}

-- `SELECT commitment … ORDER BY commitment`, with the loop over its rows.
unfoldable pub read_leaves : Database → Digest32 → ℕ → Result (List Digest32) StoreError
unfolding as_i64 commitments digests
read_leaves db pool round_id = do
  id ← as_i64 round_id
  digests (sort (commitments db.join_tickets pool id))

unfoldable pub insert_new_root :
    Database → Digest32 → ℕ → ℕ → MerkleCohort → Result (Database × Digest32) StoreError
unfolding as_i64 insert_root
insert_new_root db pool round_id count tree = do
  r ← map_err (root tree) merkle
  id ← as_i64 round_id
  db' ← insert_root (record { pool_id = pool; round_id = id; root = r; cohort_size = count }) db
  ok (db', r)

-- The event and the return value, after the loop of the proofs.
unfoldable pub finish_seal :
    Digest32 → ℕ → Digest32 → ℕ → Database → Result (Database × (Digest32 × ℕ)) StoreError
unfolding event
finish_seal pool round_id r count db = do
  db' ← event (some pool) (some round_id) (codes "cohort_sealed") r db
  ok (db', (r, count))

module _ (blake3 : Bytes → Bytes) (json : Json CohortProof) where
  unfoldable pub store_tree :
      Database
      → Digest32
      → ℕ
      → List Digest32
      → MerkleCohort
      → Option (Result (Database × (Digest32 × ℕ)) StoreError)
  unfolding insert_new_root finish_seal store_proofs
  store_tree db pool round_id leaves tree =
      and_then (some (insert_new_root db pool round_id (length leaves) tree)) (λ (db', r).
        and_then (store_proofs blake3 json tree pool round_id leaves db')
          (λ db''. some (finish_seal pool round_id r (length leaves) db'')))

  unfoldable pub seal_leaves :
      Database
      → Digest32
      → ℕ
      → ℕ
      → List Digest32
      → Option (Result (Database × (Digest32 × ℕ)) StoreError)
  unfolding store_tree
  seal_leaves db pool round_id minimum leaves =
      if not (ltb (length leaves) u32_mod)
      then some (err count_overflow)
      else if ltb (length leaves) minimum
      then some (err threshold_not_reached)
      else and_then (merkle_err (build blake3 leaves))
          (λ tree. store_tree db pool round_id leaves tree)

  -- What `seal_cohort` does after its look at the root.
  unfoldable pub seal_if_new :
      Database
      → Digest32
      → ℕ
      → ℕ
      → Option (Digest32 × ℕ)
      → Option (Result (Database × (Digest32 × ℕ)) StoreError)
  unfolding read_leaves seal_leaves
  seal_if_new db pool round_id minimum (some existing) = some (ok (db, existing))
  seal_if_new db pool round_id minimum none =
      and_then (some (read_leaves db pool round_id))
        (λ leaves. seal_leaves db pool round_id minimum leaves)

  -- The database that is left, with the root and the count. `none` is a panic of `proof`, or a loop of
  -- `build` that does not end.
  unfoldable pub seal_cohort :
      Database → Digest32 → ℕ → ℕ → Option (Result (Database × (Digest32 × ℕ)) StoreError)
  unfolding root_of seal_if_new
  seal_cohort db pool round_id minimum =
      and_then (some (root_of db pool round_id))
        (λ found. seal_if_new db pool round_id minimum found)
