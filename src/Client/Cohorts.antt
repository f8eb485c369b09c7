-- ===== src/Client/Cohorts.antt =====
-- The cohort of a list of tickets, in crates/mirror-pool-client/src/lib.rs.
use mathlib.Core.List.{Memᴰ}
use mathlib.Core.Option.{some-injective}
use mathlib.Core.Path.{subst}
use mirror_pool.Prelude.{
  ℕ, ◌≡◌, Option, none, some, List, [], ◌∷◌, Bytes, Result, ok, err, arith, refl, sym, ◌∙◌, ap,
  ok-injective, >>=-eq-ok, map_err, map_err-ok,
}
use mirror_pool.Core.Defs.{Digest32}
use mirror_pool.Merkle.Defs.{CohortProof, MerkleCohort, MerkleError, build, root, proof, verify}
use mirror_pool.Merkle.Proofs.{verify-proof}
use mirror_pool.Crypto.Defs.{JoinTicket, TicketJson, commitment}
use mirror_pool.Client.Defs.{
  ClientError, as_merkle, cohort_of, proof_for, ticket_leaves, build_merkle_cohort,
  generate_cohort_proof, verify_cohort_proof,
}

as_merkle-ok :
    {A : Type 0} (m : Option (Result A MerkleError)) {a : A}
    → as_merkle m ≡ some (ok a)
    → m ≡ some (ok a)
as_merkle-ok none h = absurd (ground arith)
as_merkle-ok (some (err e)) h = absurd (ground arith)
as_merkle-ok (some (ok b)) h = ap (λ x. some (ok x)) (ok-injective (some-injective _ _ h))

cohort_of-ok :
    (blake3 : Bytes → Bytes) (made : Result (List Digest32) ClientError) {cohort : MerkleCohort}
    → cohort_of blake3 made ≡ some (ok cohort)
    → (leaves : List Digest32) × (made ≡ ok leaves) × (build blake3 leaves ≡ some (ok cohort))
cohort_of-ok blake3 (err e) h = absurd (ground arith)
cohort_of-ok blake3 (ok leaves) h = (leaves, refl, as_merkle-ok (build blake3 leaves) h)

module _ (json : TicketJson) (blake3 : Bytes → Bytes) where
  ticket_leaves-mem :
      (ts : List JoinTicket) {t : JoinTicket} {leaves : List Digest32}
      → ticket_leaves json blake3 ts ≡ ok leaves
      → Memᴰ t ts
      → (leaf : Digest32) × (commitment json blake3 t ≡ ok leaf) × Memᴰ leaf leaves
  unfolding ticket_leaves
  ticket_leaves-mem [] h m = elim m [ ]
  ticket_leaves-mem (x ∷ xs) h (Memᴰ.head e) =
      let first = map_err (commitment json blake3 x) ClientError.ticket in
      let (leaf, made, h₁) = >>=-eq-ok first _ h in
      let (rest, others, h₂) = >>=-eq-ok (ticket_leaves json blake3 xs) _ h₁ in
      let committed = map_err-ok (commitment json blake3 x) ClientError.ticket made in
      (leaf, rw e committed, subst (λ ls. Memᴰ leaf ls) (ok-injective h₂) (Memᴰ.head refl))
  ticket_leaves-mem (x ∷ xs) h (Memᴰ.tail m) =
      let first = map_err (commitment json blake3 x) ClientError.ticket in
      let (top, made, h₁) = >>=-eq-ok first _ h in
      let (rest, others, h₂) = >>=-eq-ok (ticket_leaves json blake3 xs) _ h₁ in
      let (leaf, committed, at) = ticket_leaves-mem xs others m in
      (leaf, committed, subst (λ ls. Memᴰ leaf ls) (ok-injective h₂) (Memᴰ.tail at))

  build_merkle_cohort-ok :
      (ts : List JoinTicket) {cohort : MerkleCohort}
      → build_merkle_cohort json blake3 ts ≡ some (ok cohort)
      → (leaves : List Digest32) × (ticket_leaves json blake3 ts ≡ ok leaves)
        × (build blake3 leaves ≡ some (ok cohort))
  unfolding build_merkle_cohort
  build_merkle_cohort-ok ts h = cohort_of-ok blake3 (ticket_leaves json blake3 ts) h

  generate_cohort_proof-ok :
      (cohort : MerkleCohort) (t : JoinTicket) (round : ℕ) {leaf : Digest32} {p : CohortProof}
      → commitment json blake3 t ≡ ok leaf
      → proof cohort leaf round ≡ some (ok p)
      → generate_cohort_proof json blake3 cohort t round ≡ some (ok p)
  unfolding generate_cohort_proof
  generate_cohort_proof-ok cohort t round e q =
      ap (λ c. proof_for cohort round (map_err c ClientError.ticket)) e ∙ ap as_merkle q

  verify_cohort_proof-ok :
      (p : CohortProof) (r : Digest32) (round : ℕ)
      → verify blake3 p r round ≡ ok tt
      → verify_cohort_proof json blake3 p r round ≡ ok tt
  unfolding verify_cohort_proof
  verify_cohort_proof-ok p r round e = rw e

  -- The root of a cohort, and the proof that the client makes of a ticket and accepts: its leaf is the
  -- commitment of that ticket.
  abbrev pub HasTicketProof : MerkleCohort → JoinTicket → ℕ → Type 0
  HasTicketProof cohort t round =
      (p : CohortProof) × (r : Digest32) × (root cohort ≡ ok r)
      × (generate_cohort_proof json blake3 cohort t round ≡ some (ok p))
      × (commitment json blake3 t ≡ ok p.leaf_hash)
      × (verify_cohort_proof json blake3 p r round ≡ ok tt)

  -- For every ticket of which `build_merkle_cohort` has built a cohort, `generate_cohort_proof` gives,
  -- without a panic, a proof for any round whose leaf is the commitment of that ticket, and
  -- `verify_cohort_proof` accepts it for the cohort's root and that round.
  pub generate-verify :
      (ts : List JoinTicket) (t : JoinTicket) (round : ℕ) {cohort : MerkleCohort}
      → build_merkle_cohort json blake3 ts ≡ some (ok cohort)
      → Memᴰ t ts
      → HasTicketProof cohort t round
  generate-verify ts t round {cohort} h m =
      let (leaves, made, built) = build_merkle_cohort-ok ts h in
      let (leaf, committed, at) = ticket_leaves-mem ts made m in
      let (p, r, top, proved, of_leaf, _, accepted) =
        verify-proof blake3 leaves leaf round built at in
      (
        p,
        r,
        top,
        generate_cohort_proof-ok cohort t round committed proved,
        committed ∙ ap ok (sym of_leaf),
        verify_cohort_proof-ok p r round accepted,
      )
