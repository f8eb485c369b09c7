-- ===== src/Store/Totality.antt =====
-- `Store::seal_cohort` of crates/mirror-pool-store: panics and loops.
use mathlib.Core.List.{Memᴰ}
use mirror_pool.Prelude.{
  ℕ, ◌≡◌, Option, none, some, List, [], ◌∷◌, Bytes, Result, ok, err, arith, refl, u32_mod, inl, inr,
  ltb, Bool-cases, length,
}
use mirror_pool.Core.Defs.{Digest32}
use mirror_pool.Merkle.Defs.{CohortProof, MerkleCohort, MerkleError, build, proof}
use mirror_pool.Merkle.Cohorts.{build_total}
use mirror_pool.Merkle.Proofs.{HasProof, verify-proof}
use mirror_pool.Store.Tables.{
  StoreError, merkle, count_overflow, threshold_not_reached, Database, and_then, merkle_err,
}
use mirror_pool.Store.Defs.{Json, root_of, store_proof, store_proofs}
use mirror_pool.Store.Sealing.{
  read_leaves, insert_new_root, store_tree, seal_leaves, seal_if_new, seal_cohort,
}

and_then_total :
    {A B : Type 0} (m : Option (Result A StoreError)) (next : A → Option (Result B StoreError))
    → (result : Result A StoreError) × (m ≡ some result)
    → ((a : A) → (result : Result B StoreError) × (next a ≡ some result))
    → (result : Result B StoreError) × (and_then m next ≡ some result)
and_then_total none next (result, e) total = absurd (ground arith)
and_then_total (some (err e)) next found total = (err e, refl)
and_then_total (some (ok a)) next found total = total a

module _ (blake3 : Bytes → Bytes) (json : Json CohortProof) where
  store_proof_total :
      (tree : MerkleCohort) (pool : Digest32) (round_id : ℕ) (leaf : Digest32) (db : Database)
      → HasProof blake3 tree leaf round_id
      → (result : Result Database StoreError) × (store_proof blake3 json tree pool round_id leaf db
          ≡ some result)
  unfolding store_proof
  store_proof_total tree pool round_id leaf db (p, r, rooted, proved, _, _, _) =
      and_then_total (merkle_err (proof tree leaf round_id)) _ (ok p, rw proved) (λ p. (_, refl))

  store_proofs_total :
      (tree : MerkleCohort) (pool : Digest32) (round_id : ℕ) (leaves : List Digest32)
      (db : Database)
      → ((leaf : Digest32) → Memᴰ leaf leaves → HasProof blake3 tree leaf round_id)
      → (result : Result Database StoreError) × (store_proofs blake3 json tree pool round_id leaves
            db
          ≡ some result)
  unfolding store_proofs
  store_proofs_total tree pool round_id [] db f = (ok db, refl)
  store_proofs_total tree pool round_id (leaf ∷ leaves) db f =
      and_then_total (store_proof blake3 json tree pool round_id leaf db) _
        (store_proof_total tree pool round_id leaf db (f leaf (Memᴰ.head refl)))
        (λ db'. store_proofs_total tree pool round_id leaves db' (λ d m. f d (Memᴰ.tail m)))

  store_tree_total :
      (db : Database) (pool : Digest32) (round_id : ℕ) (leaves : List Digest32)
      (tree : MerkleCohort)
      → ((leaf : Digest32) → Memᴰ leaf leaves → HasProof blake3 tree leaf round_id)
      → (result : Result (Database × (Digest32 × ℕ)) StoreError) × (store_tree blake3 json db pool
            round_id leaves tree
          ≡ some result)
  unfolding store_tree
  store_tree_total db pool round_id leaves tree f =
      and_then_total (some (insert_new_root db pool round_id (length leaves) tree)) _ (_, refl)
        (λ (db', r).
          and_then_total (store_proofs blake3 json tree pool round_id leaves db') _
            (store_proofs_total tree pool round_id leaves db' f) (λ db''. (_, refl)))

  tree_total :
      (db : Database) (pool : Digest32) (round_id : ℕ) (leaves : List Digest32)
      (result : Result MerkleCohort MerkleError)
      → build blake3 leaves ≡ some result
      → (sealed : Result (Database × (Digest32 × ℕ)) StoreError) × (and_then
            (merkle_err (build blake3 leaves))
            (λ tree. store_tree blake3 json db pool round_id leaves tree)
          ≡ some sealed)
  tree_total db pool round_id leaves (err e) built = (err merkle, rw built)
  tree_total db pool round_id leaves (ok tree) built =
      let (sealed, e) =
        store_tree_total db pool round_id leaves tree
          (λ leaf m. verify-proof blake3 leaves leaf round_id built m) in
      (sealed, rw built e)

  seal_leaves_total :
      (db : Database) (pool : Digest32) (round_id minimum : ℕ) (leaves : List Digest32)
      → (result : Result (Database × (Digest32 × ℕ)) StoreError) × (seal_leaves blake3 json db pool
            round_id minimum leaves
          ≡ some result)
  unfolding seal_leaves
  seal_leaves_total db pool round_id minimum leaves =
      elim (Bool-cases (ltb (length leaves) u32_mod)) [
        | inr large ↦ (err count_overflow, rw large)
        | inl small ↦ elim (Bool-cases (ltb (length leaves) minimum)) [
          | inl few ↦ (err threshold_not_reached, rw (small, few))
          | inr many ↦
              let (result, total) = build_total blake3 leaves in
              let (sealed, e) = tree_total db pool round_id leaves result total in
              (sealed, rw (small, many) e)
        ]
      ]

  seal_if_new_total :
      (db : Database) (pool : Digest32) (round_id minimum : ℕ) (found : Option (Digest32 × ℕ))
      → (result : Result (Database × (Digest32 × ℕ)) StoreError) × (seal_if_new blake3 json db pool
            round_id minimum found
          ≡ some result)
  unfolding seal_if_new
  seal_if_new_total db pool round_id minimum (some existing) = (_, refl)
  seal_if_new_total db pool round_id minimum none =
      and_then_total (some (read_leaves db pool round_id)) _ (_, refl)
        (λ leaves. seal_leaves_total db pool round_id minimum leaves)

  -- `seal_cohort` never panics, and its loops come to an end: it returns a result on every database.
  pub seal_cohort_total :
      (db : Database) (pool : Digest32) (round_id minimum : ℕ)
      → (result : Result (Database × (Digest32 × ℕ)) StoreError) × (seal_cohort blake3 json db pool
            round_id minimum
          ≡ some result)
  unfolding seal_cohort
  seal_cohort_total db pool round_id minimum =
      and_then_total (some (root_of db pool round_id)) _ (_, refl)
        (λ found. seal_if_new_total db pool round_id minimum found)
