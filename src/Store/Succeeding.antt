-- ===== src/Store/Succeeding.antt =====
-- When `Store::seal_cohort` of crates/mirror-pool-store seals a round.
use mathlib.Core.List.{Mem, Memᴰ, Nodup, Nodup-cons}
use mathlib.Core.List.Perm
use mathlib.Core.Path.{subst}
use mirror_pool.Prelude.{
  ℕ, ◌<◌, ◌≤◌, ◌≡◌, ◌≢◌, inl, inr, false, true, Option, none, some, List, [], ◌∷◌, Bytes, Result,
  ok, arith, refl, sym, ◌∙◌, ap, i64_mod, u32_mod, length, All, Bool-cases, bytes_eq, bytes_eq_iff,
  ◌==◌, ◌/◌, ◌%◌, codes, ok-injective, ltb,
}
use mirror_pool.Core.Defs.{Digest32}
use mirror_pool.Merkle.Defs.{CohortProof, MerkleCohort, sort, root, climb, max_leaves}
use mirror_pool.Merkle.Sorting.{length-sort}
use mirror_pool.Merkle.Leaves.{sort-permutes, All-sort}
use mirror_pool.Merkle.Soundness.{IsArray32, branch-IsArray32}
use mirror_pool.Merkle.Cohorts.{IsCohort, build-iff-IsCohort}
use mirror_pool.Merkle.Proofs.{HasProof, verify-proof, verify_lem}
use mirror_pool.Store.Tables.{
  StoreError, ProofRow, Database, and_then, merkle_err, as_i64, digest, commitments, find_root,
  find_proof, insert_proof, insert_root,
}
use mirror_pool.Store.Defs.{Json, root_of, digests, event, store_proof, store_proofs}
use mirror_pool.Store.Sealing.{
  read_leaves, insert_new_root, finish_seal, store_tree, seal_leaves, seal_if_new, seal_cohort,
}
use mirror_pool.Store.Accepting.{IsConsistent}

find_proof-other :
    (row : ProofRow) (rows : List ProofRow) (pool : Digest32) (round_id : ℕ) (leaf : Digest32)
    → bytes_eq row.commitment leaf ≡ false
    → find_proof rows pool round_id leaf ≡ none
    → find_proof (row ∷ rows) pool round_id leaf ≡ none
unfolding find_proof
find_proof-other row rows pool round_id leaf other free = ground arith

apart : (x y : Bytes) → x ≢ y → bytes_eq x y ≡ false
apart x y other = elim (Bool-cases (bytes_eq x y)) [
  | inl same ↦ absurd (other ((bytes_eq_iff x y).0 same))
  | inr e ↦ e
]

-- An action that succeeded, and what follows it.
and_then-goes :
    {A B : Type 0} {m : Option (Result A StoreError)} {a : A}
    → m ≡ some (ok a)
    → (next : A → Option (Result B StoreError)) → and_then m next ≡ next a
and_then-goes e next = rw e

digests-goes : (rows : List Bytes) → All IsArray32 rows → digests rows ≡ ok rows
unfolding digests digest
digests-goes [] sized = refl
digests-goes (row ∷ rows) sized = ground (arith, digests-goes rows sized.1, sized.0)

read_leaves-goes :
    (db : Database) (pool : Digest32) (round_id : ℕ)
    → round_id < i64_mod
    → All IsArray32 (commitments db.join_tickets pool round_id)
    → read_leaves db pool round_id ≡ ok (sort (commitments db.join_tickets pool round_id))
unfolding read_leaves as_i64
read_leaves-goes db pool round_id fits sized = ground (
  arith,
  digests-goes (sort (commitments db.join_tickets pool round_id))
      (All-sort IsArray32 (commitments db.join_tickets pool round_id) sized),
)

root_of-none :
    (db : Database) (pool : Digest32) (round_id : ℕ)
    → round_id < i64_mod
    → find_root db.cohort_roots pool round_id ≡ none
    → root_of db pool round_id ≡ ok none
unfolding root_of as_i64
root_of-none db pool round_id fits free = ground arith

insert_new_root-goes :
    (db : Database) (pool : Digest32) (round_id count : ℕ) (tree : MerkleCohort) (r : Digest32)
    → round_id < i64_mod
    → root tree ≡ ok r
    → length r ≡ 32
    → find_root db.cohort_roots pool round_id ≡ none
    → insert_new_root db pool round_id count tree
      ≡ ok (
        record db {
          cohort_roots =
              record { pool_id = pool; round_id = round_id; root = r; cohort_size = count }
              ∷ db.cohort_roots;
        },
        r,
      )
unfolding insert_new_root as_i64 insert_root
insert_new_root-goes db pool round_id count tree r fits rooted sized free = ground arith

finish_seal-goes :
    (pool : Digest32) (round_id : ℕ) (r : Digest32) (count : ℕ) (db : Database)
    → round_id < i64_mod
    → (db' : Database) × (finish_seal pool round_id r count db ≡ ok (db', (r, count)))
unfolding finish_seal event as_i64
finish_seal-goes pool round_id r count db fits = (
  record db {
    immutable_events =
        record {
          pool_id = some pool;
          round_id = some round_id;
          event_type = codes "cohort_sealed";
          payload_hash = r;
        }
        ∷ db.immutable_events;
  },
  ground arith,
)

module _ (blake3 : Bytes → Bytes) (digest_length : (b : Bytes) → IsArray32 (blake3 b)) where
  climb-IsArray32 :
      (ss : List Digest32) (node : Digest32) (i : ℕ)
      → IsArray32 node
      → IsArray32 (climb blake3 node i ss)
  unfolding climb
  climb-IsArray32 [] node i sized = sized
  climb-IsArray32 (s ∷ ss) node i sized =
      climb-IsArray32 ss _ (i / 2) (branch-IsArray32 blake3 digest_length node s (i % 2 == 0))

  root-IsArray32 :
      (tree : MerkleCohort) (leaf r : Digest32) (round_id : ℕ)
      → IsArray32 leaf
      → HasProof blake3 tree leaf round_id
      → root tree ≡ ok r
      → IsArray32 r
  root-IsArray32 tree leaf r round_id sized (p, r', rooted, proved, of_leaf, _, accepted) at =
      let (_, _, climbs) = (verify_lem blake3 p r' round_id).0 accepted in
      let same : climb blake3 p.leaf_hash p.leaf_index p.sibling_hashes ≡ r =
        climbs ∙ ok-injective (sym rooted ∙ at) in
      subst IsArray32 same
        (climb-IsArray32 p.sibling_hashes p.leaf_hash p.leaf_index (ap length of_leaf ∙ sized))

  module _ (json : Json CohortProof)
      (writes : (p : CohortProof) → (text : Bytes) × (json.to_string p ≡ some text)) where
    store_proof-goes :
        (tree : MerkleCohort) (pool : Digest32) (round_id : ℕ) (leaf : Digest32) (db : Database)
        → round_id < i64_mod
        → HasProof blake3 tree leaf round_id
        → find_proof db.cohort_proofs pool round_id leaf ≡ none
        → (text : Bytes) × (store_proof blake3 json tree pool round_id leaf db
            ≡ some (
                ok (record db {
                  cohort_proofs =
                      record {
                        pool_id = pool;
                        round_id = round_id;
                        commitment = leaf;
                        proof_json = text;
                      }
                      ∷ db.cohort_proofs;
                })))
    unfolding store_proof as_i64 insert_proof
    store_proof-goes tree pool round_id leaf db fits (p, r, rooted, proved, _, _, _) free =
        let (text, e) = writes p in
        (text, and_then-goes (ap merkle_err proved) _ ∙ ap some (ground arith))

    -- The loop succeeds where every leaf has a proof and none is stored.
    store_proofs-goes :
        (tree : MerkleCohort) (pool : Digest32) (round_id : ℕ) (leaves : List Digest32)
        (db : Database)
        → round_id < i64_mod
        → Nodup leaves
        → ((leaf : Digest32) → Memᴰ leaf leaves → HasProof blake3 tree leaf round_id)
        → ((leaf : Digest32)
            → Memᴰ leaf leaves
            → find_proof db.cohort_proofs pool round_id leaf ≡ none)
        → (db' : Database) × (store_proofs blake3 json tree pool round_id leaves db ≡ some (ok db'))
    unfolding store_proofs
    store_proofs-goes tree pool round_id [] db fits distinct proofs free = (db, refl)
    store_proofs-goes tree pool round_id (leaf ∷ leaves) db fits distinct proofs free =
        let (fresh, distinct') = Nodup-cons.0 distinct in
        let (text, e) =
          store_proof-goes tree pool round_id leaf db fits (proofs leaf (Memᴰ.head refl))
            (free leaf (Memᴰ.head refl)) in
        let (db', rest) =
          store_proofs-goes tree pool round_id leaves _ fits distinct'
            (λ other m. proofs other (Memᴰ.tail m))
            (λ other m.
              find_proof-other _ db.cohort_proofs pool round_id other
                (apart leaf other (λ same. fresh (subst (λ x. Mem x leaves) (sym same) ∣ m ∣₁)))
                (free other (Memᴰ.tail m))) in
        (db', and_then-goes e _ ∙ rest)

    store_tree-goes :
        (db : Database) (pool : Digest32) (round_id : ℕ) (leaves : List Digest32)
        (tree : MerkleCohort)
        → round_id < i64_mod
        → Nodup leaves
        → All IsArray32 leaves
        → 0 < length leaves
        → ((leaf : Digest32) → Memᴰ leaf leaves → HasProof blake3 tree leaf round_id)
        → find_root db.cohort_roots pool round_id ≡ none
        → ((leaf : Digest32) → find_proof db.cohort_proofs pool round_id leaf ≡ none)
        → (db' : Database) × (r : Digest32) × (store_tree blake3 json db pool round_id leaves tree
            ≡ some (ok (db', (r, length leaves))))
    unfolding store_tree
    store_tree-goes db pool round_id [] tree fits distinct sized many proofs new free =
        absurd (omega arith)
    store_tree-goes db pool round_id (leaf ∷ leaves) tree fits distinct sized many proofs new free =
        let has = proofs leaf (Memᴰ.head refl) in
        let sized_root = root-IsArray32 tree leaf has.1 round_id sized.0 has has.2 in
        let count = length (leaf ∷ leaves) in
        let started =
          insert_new_root-goes db pool round_id count tree has.1 fits has.2 sized_root new in
        let (db₂, looped) =
          store_proofs-goes tree pool round_id (leaf ∷ leaves)
            (record db {
              cohort_roots =
                  record { pool_id = pool; round_id = round_id; root = has.1; cohort_size = count }
                  ∷ db.cohort_roots;
            })
            fits distinct proofs (λ other m. free other) in
        let (db₃, finished) = finish_seal-goes pool round_id has.1 count db₂ fits in
        (db₃, has.1, and_then-goes (ap some started) _ ∙ and_then-goes looped _ ∙ ap some finished)

    seal_leaves-goes :
        (db : Database) (pool : Digest32) (round_id minimum : ℕ) (leaves : List Digest32)
        → round_id < i64_mod
        → IsCohort leaves
        → All IsArray32 leaves
        → minimum ≤ length leaves
        → find_root db.cohort_roots pool round_id ≡ none
        → ((leaf : Digest32) → find_proof db.cohort_proofs pool round_id leaf ≡ none)
        → (db' : Database) × (r : Digest32) × (seal_leaves blake3 json db pool round_id minimum
              leaves
            ≡ some (ok (db', (r, length leaves))))
    unfolding seal_leaves
    seal_leaves-goes db pool round_id minimum leaves fits cohort sized many new free =
        let (tree, built) = (build-iff-IsCohort blake3 leaves).1 cohort in
        let (db', r, e) =
          store_tree-goes db pool round_id leaves tree fits cohort.distinct sized cohort.nonempty
            (λ leaf m. verify-proof blake3 leaves leaf round_id built m) new free in
        let small : ltb (length leaves) u32_mod ≡ true = ground (arith, cohort.bounded) in
        let enough : ltb (length leaves) minimum ≡ false = ground arith in
        (db', r, rw (small, enough) (and_then-goes (ap merkle_err built) _ ∙ e))

    -- A round is sealed, with all of its tickets, where no root and no proof is stored for it yet and it
    -- has 1 to 100000 tickets, the minimum or more. Of the database it is asked that the commitments of a
    -- round are distinct and have 32 bytes, as accept_ticket keeps them; digests are assumed to have 32
    -- bytes, and proofs to have a text.
    pub seal_cohort_succeeds :
        (db : Database) (pool : Digest32) (round_id minimum : ℕ)
        → IsConsistent db
        → round_id < i64_mod
        → find_root db.cohort_roots pool round_id ≡ none
        → ((leaf : Digest32) → find_proof db.cohort_proofs pool round_id leaf ≡ none)
        → 0 < length (commitments db.join_tickets pool round_id)
        → length (commitments db.join_tickets pool round_id) ≤ max_leaves
        → minimum ≤ length (commitments db.join_tickets pool round_id)
        → (db' : Database) × (r : Digest32) × (seal_cohort blake3 json db pool round_id minimum
            ≡ some (ok (db', (r, length (commitments db.join_tickets pool round_id)))))
    unfolding seal_cohort seal_if_new
    seal_cohort_succeeds db pool round_id minimum consistent fits new free some_leaf few many =
        let leaves = commitments db.join_tickets pool round_id in
        let (distinct, sized) = consistent pool round_id in
        let n = length-sort leaves in
        let (db', r, e) =
          seal_leaves-goes db pool round_id minimum (sort leaves) fits
            (record {
              nonempty = omega (arith, n);
              bounded = omega (arith, n);
              distinct = Perm.nodup (Perm.symm (sort-permutes leaves)) distinct;
            })
            (All-sort IsArray32 leaves sized) (omega (arith, n)) new free in
        (
          db',
          r,
          and_then-goes (ap some (root_of-none db pool round_id fits new)) _
              ∙ and_then-goes (ap some (read_leaves-goes db pool round_id fits sized)) _
              ∙ e
              ∙ ap (λ (k : ℕ). some (ok (db', (r, k)))) n,
        )
