-- ===== src/Store/Serving.antt =====
-- `Store::seal_cohort` of crates/mirror-pool-store, with the reads `root` and `proof` after it.
use mathlib.Core.List.{Memᴰ}
use mathlib.Core.Option.{some-injective}
use mathlib.Core.Path.{subst}
use mirror_pool.Prelude.{
  ℕ, ◌<◌, ◌≤◌, ◌≡◌, none, some, List, [], ◌∷◌, Bytes, ok, arith, refl, sym, ◌∙◌, ap, i64_mod,
  u32_mod, inl, inr, ok-injective, Option-cases, length, All,
}
use mirror_pool.Core.Defs.{Digest32}
use mirror_pool.Merkle.Defs.{CohortProof, MerkleCohort, sort, root, verify}
use mirror_pool.Merkle.Sorting.{length-sort, mem-sort}
use mirror_pool.Merkle.Proofs.{HasProof, verify-proof}
use mirror_pool.Store.Tables.{Database, as_i64, digest, commitments, find_root, find_proof}
use mirror_pool.Store.Defs.{Json, root_of, proof_of, parse}
use mirror_pool.Store.Sealing.{seal_if_new, seal_cohort}
use mirror_pool.Store.Loop.{Stored, and_then-ok}
use mirror_pool.Store.Sealed.{seal_cohort-trace}

All-intro : {P : Bytes → Type 0} (l : List Bytes) → ((d : Bytes) → Memᴰ d l → P d) → All P l
All-intro [] f = tt
All-intro (d ∷ l) f = (f d (Memᴰ.head refl), All-intro l (λ e m. f e (Memᴰ.tail m)))

pub root_of_lem :
    (db : Database) (pool : Digest32) (round_id : ℕ) (r : Digest32) (n : ℕ)
    → round_id < i64_mod
    → n < u32_mod
    → length r ≡ 32
    → find_root db.cohort_roots pool round_id
      ≡ some (record { pool_id = pool; round_id = round_id; root = r; cohort_size = n })
    → root_of db pool round_id ≡ ok (some (r, n))
unfolding root_of as_i64 digest
root_of_lem db pool round_id r n fits small sized found = ground arith

module _ (blake3 : Bytes → Bytes) (json : Json CohortProof) where
  -- `Store::proof` yields a proof of the leaf that `verify` accepts for `r` and the round.
  abbrev pub Serves : Database → Digest32 → ℕ → Digest32 → Digest32 → Type 0
  Serves db pool round_id r leaf =
      (p : CohortProof) × (proof_of json db pool round_id leaf ≡ ok (some p))
      × (p.leaf_hash ≡ leaf)
      × (verify blake3 p r round_id ≡ ok tt)

  proof_of_lem :
      (db : Database) (pool : Digest32) (round_id : ℕ) (leaf : Digest32) (p : CohortProof)
      (text : Bytes)
      → round_id < i64_mod
      → find_proof db.cohort_proofs pool round_id leaf ≡ some text
      → json.from_str text ≡ some p
      → proof_of json db pool round_id leaf ≡ ok (some p)
  unfolding proof_of as_i64 parse
  proof_of_lem db pool round_id leaf p text fits found read = ground arith

  serve :
      (law : (p : CohortProof) (text : Bytes)
        → json.to_string p ≡ some text
        → json.from_str text ≡ some p)
      (db : Database) (pool : Digest32) (round_id : ℕ) (r leaf : Digest32) (tree : MerkleCohort)
      → round_id < i64_mod
      → root tree ≡ ok r
      → HasProof blake3 tree leaf round_id
      → Stored blake3 json tree pool round_id leaf db
      → Serves db pool round_id r leaf
  serve law db pool round_id r leaf tree fits rooted (p, r', rooted', proved, of_leaf, _, accepted)
        s =
      let same_p : p ≡ s.p = ok-injective (some-injective _ _ (sym proved ∙ s.proved)) in
      let same_r : r' ≡ r = ok-injective (sym rooted' ∙ rooted) in
      (
        s.p,
        proof_of_lem db pool round_id leaf s.p s.text fits s.found (law s.p s.text s.encoded),
        subst (λ (q : CohortProof). q.leaf_hash ≡ leaf) same_p of_leaf,
        subst (λ q. verify blake3 q r round_id ≡ ok tt) same_p
            (subst (λ x. verify blake3 p x round_id ≡ ok tt) same_r accepted),
      )

  -- Where `seal_cohort` seals a round that had no root, the count is that of the tickets of the round
  -- and reaches the minimum, `root` reads the root and count back, and `proof` gives, for the
  -- commitment of each of these tickets, a proof of it that `verify` accepts for that root and round.
  -- JSON is assumed to read a proof back.
  pub seal_cohort-Serves :
      (law : (p : CohortProof) (text : Bytes)
        → json.to_string p ≡ some text
        → json.from_str text ≡ some p)
      (db : Database) (pool : Digest32) (round_id minimum : ℕ) {db' : Database} {r : Digest32}
      {n : ℕ}
      → root_of db pool round_id ≡ ok none
      → seal_cohort blake3 json db pool round_id minimum ≡ some (ok (db', (r, n)))
      → (n ≡ length (commitments db.join_tickets pool round_id))
        × (minimum ≤ n)
        × (root_of db' pool round_id ≡ ok (some (r, n)))
        × (db'.join_tickets ≡ db.join_tickets)
        × All (Serves db' pool round_id r) (commitments db.join_tickets pool round_id)
  seal_cohort-Serves law db pool round_id minimum {db'} {r} {n} new h =
      let t = seal_cohort-trace blake3 json db pool round_id minimum new h in
      let leaves = commitments db.join_tickets pool round_id in
      (
        t.counted ∙ length-sort leaves,
        t.enough,
        root_of_lem db' pool round_id r n t.fits t.small t.sized t.recorded,
        t.same_tickets,
        All-intro leaves (λ leaf m.
            serve law db' pool round_id r leaf t.tree t.fits t.rooted
              (verify-proof blake3 (sort leaves) leaf round_id t.built (mem-sort leaves m))
              (t.proofs leaf (mem-sort leaves m))),
      )

  pub again_existing :
      (db : Database) (pool : Digest32) (round_id again : ℕ) (existing : Digest32 × ℕ)
      {x : Database × (Digest32 × ℕ)}
      → root_of db pool round_id ≡ ok (some existing)
      → ◌≡◌ {A = Database × (Digest32 × ℕ)} (db, existing) x
      → seal_cohort blake3 json x.0 pool round_id again ≡ some (ok x)
  unfolding seal_cohort seal_if_new
  again_existing db pool round_id again existing sealed same =
      subst (λ x. seal_cohort blake3 json x.0 pool round_id again ≡ some (ok x)) same
        (rw (sealed, seal_if_new))

  -- `seal_cohort` leaves the tickets alone.
  pub seal_cohort-tickets :
      (db : Database) (pool : Digest32) (round_id minimum : ℕ) {x : Database × (Digest32 × ℕ)}
      → seal_cohort blake3 json db pool round_id minimum ≡ some (ok x)
      → x.0.join_tickets ≡ db.join_tickets
  unfolding seal_cohort seal_if_new
  seal_cohort-tickets db pool round_id minimum {x} h =
      let (found, looked, h₁) = and_then-ok (some (root_of db pool round_id)) _ h in
      elim (Option-cases found) [
        | inl nothing ↦
            (seal_cohort-trace blake3 json db pool round_id minimum
              (some-injective _ _ looked ∙ ap ok nothing) h).same_tickets
        | inr (existing, e) ↦
            ap (λ (y : Database × (Digest32 × ℕ)). y.0.join_tickets)
              (sym (
                ok-injective (
                  some-injective _ _
                    (ap (λ o. seal_if_new blake3 json db pool round_id minimum o) (sym e) ∙ h₁))))
      ]

  -- A cohort is sealed once: after a seal that succeeded, sealing the round again, for any minimum,
  -- returns the same root and count and changes nothing.
  pub seal_cohort_again :
      (db : Database) (pool : Digest32) (round_id minimum again : ℕ) {db' : Database} {r : Digest32}
      {n : ℕ}
      → seal_cohort blake3 json db pool round_id minimum ≡ some (ok (db', (r, n)))
      → seal_cohort blake3 json db' pool round_id again ≡ some (ok (db', (r, n)))
  unfolding seal_cohort seal_if_new
  seal_cohort_again db pool round_id minimum again {db'} {r} {n} h =
      let (found, looked, h₁) = and_then-ok (some (root_of db pool round_id)) _ h in
      elim (Option-cases found) [
        | inl nothing ↦
            let new : root_of db pool round_id ≡ ok none =
              some-injective _ _ looked ∙ ap ok nothing in
            let t = seal_cohort-trace blake3 json db pool round_id minimum new h in
            let sealed = root_of_lem db' pool round_id r n t.fits t.small t.sized t.recorded in
            rw (sealed, seal_if_new)
        | inr (existing, e) ↦
            again_existing db pool round_id again existing (some-injective _ _ looked ∙ ap ok e) (
              ok-injective (
                some-injective _ _
                  (ap (λ o. seal_if_new blake3 json db pool round_id minimum o) (sym e) ∙ h₁)))
      ]
