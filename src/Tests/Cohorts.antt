-- ===== src/Tests/Cohorts.antt =====
-- Examples for crates/mirror-pool-merkle, with a toy hash of 32 bytes.
use mathlib.Core.List.{Mem, Memᴰ}
use mirror_pool.Prelude.{
  ℕ, ◌+◌, ◌%◌, ◌≡◌, ◌↔◌, ◌⊎◌, some, List, [], ◌∷◌, Bytes, ok, refl, replicate, bytes_eq, bytes_lt,
}
use mirror_pool.Core.Defs.{Digest32}
use mirror_pool.Merkle.Defs.{MerkleCohort, CohortProof, build, root, verify, all_but_last}
use mirror_pool.Merkle.Soundness.{IsArray32, Collision}
use mirror_pool.Merkle.Cohorts.{IsCohort, build-iff-IsCohort}
use mirror_pool.Merkle.Proofs.{HasProof, verify-proof, verify-mem}

abbrev pub sum : Bytes → ℕ
sum [] = 0
sum (x ∷ xs) = x + sum xs

abbrev pub node : ℕ → Digest32
node k = replicate 32 k

abbrev pub digest : Bytes → Bytes
digest b = node (sum b % 256)

pub digest_length : (b : Bytes) → IsArray32 (digest b)
digest_length b = refl

abbrev leaves : List Digest32
leaves = node 3 ∷ node 1 ∷ node 2 ∷ []

abbrev cohort : MerkleCohort
cohort = record {
  leaves = node 1 ∷ node 2 ∷ node 3 ∷ [];
  levels = (node 1 ∷ node 2 ∷ node 3 ∷ []) ∷ (node 58 ∷ node 154 ∷ []) ∷ (node 90 ∷ []) ∷ [];
}

builds : build digest leaves ≡ some (ok cohort)
unfolding build bytes_lt bytes_eq
builds = refl

certificate : CohortProof
certificate = record {
  leaf_hash = node 2;
  leaf_index = 1;
  sibling_hashes = node 1 ∷ node 154 ∷ [];
  merkle_root = node 90;
  round_id = 5;
}

accepted : verify digest certificate (node 90) 5 ≡ ok tt
unfolding certificate verify bytes_eq
accepted = refl

build-iff-IsCohort_example :
    ((t : MerkleCohort) × (build digest leaves ≡ some (ok t))) ↔ IsCohort leaves
build-iff-IsCohort_example = build-iff-IsCohort digest leaves

verify-proof_example : HasProof digest cohort (node 2) 5
verify-proof_example =
    verify-proof digest leaves (node 2) 5 builds (Memᴰ.tail (Memᴰ.tail (Memᴰ.head refl)))

rooted : root cohort ≡ ok (node 90)
unfolding root
rooted = refl

verify-mem_example : (certificate.round_id ≡ 5) × (Mem (node 2) leaves ⊎ Collision digest)
unfolding certificate all_but_last
verify-mem_example =
    verify-mem digest digest_length leaves certificate (node 90) 5 builds rooted
      (refl, (refl, (refl, tt))) refl (refl, (refl, tt)) refl accepted
