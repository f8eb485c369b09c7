-- ===== src/Merkle/Proofs.antt =====
-- `MerkleCohort::proof` and `CohortProof::verify` of crates/mirror-pool-merkle.
use mathlib.Core.List.{Mem, Memᴰ}
use mathlib.Core.List.Perm
use mathlib.Core.Option.{some-injective}
use mathlib.Core.Path.{subst}
use native.Mathlib.Nat.{pow-suc}
use mirror_pool.Prelude.{
  ℕ, suc, ◌+◌, ◌*◌, ◌/◌, ◌%◌, ◌^◌, ◌<◌, ◌≡◌, ◌↔◌, Option, none, some, List, [], ◌∷◌, Bytes, arith,
  refl, sym, ◌∙◌, ap, length, get_elem?, All, if◌then◌else◌, ◌⊎◌, inl, inr, ◌==◌, u32_mod,
  get_elem?-lt, Option-cases, bytes_eq_iff, ok, ok-injective,
}
use mirror_pool.Core.Defs.{Digest32}
use mirror_pool.Merkle.Defs.{
  MerkleCohort, CohortProof, sort, position, parent, build, root, proof, climb, verify,
  all_but_last, last_level, sibling, cons_if, siblings,
}
use mirror_pool.Merkle.Sorting.{length-sort, mem-sort, position-mem}
use mirror_pool.Merkle.Leaves.{sort-permutes, All-sort}
use mirror_pool.Merkle.Paths.{grow-Leads}
use mirror_pool.Merkle.Soundness.{IsArray32, Collision, Reaches-mem}
use mirror_pool.Merkle.Cohorts.{build-ok}

length-siblings :
    (ls : List (List Digest32)) (i : ℕ) {ss : List Digest32}
    → siblings ls i ≡ some ss
    → length ss ≡ length ls
unfolding siblings
length-siblings [] i {ss} h = cc
length-siblings (l ∷ ls) i {ss} h = elim (Option-cases (siblings ls (i / 2))) [
  | inl fails ↦ absurd (ground arith)
  | inr (ss', e) ↦ counted (sibling l i) ss' (rw e at h) (length-siblings ls (i / 2) e)
]
  where
    counted :
        (o : Option Digest32) (ss' : List Digest32)
        → cons_if o (some ss') ≡ some ss
        → length ss' ≡ length ls
        → length ss ≡ suc (length ls)
    counted none ss' h n = cc
    counted (some s) ss' h n = ap length (sym (some-injective _ _ h)) ∙ ap suc n

proof_lem :
    (t : MerkleCohort) (leaf r : Digest32) (round i : ℕ) (ss : List Digest32)
    → position leaf t.leaves ≡ some i
    → i < u32_mod
    → siblings (all_but_last t.levels) i ≡ some ss
    → last_level t.levels ≡ some (r ∷ [])
    → proof t leaf round
      ≡ some (
          ok (record {
            leaf_hash = leaf;
            leaf_index = i;
            sibling_hashes = ss;
            merkle_root = r;
            round_id = round;
          }))
unfolding proof
proof_lem t leaf r round i ss at small collected top = ground arith

root_lem : (t : MerkleCohort) (r : Digest32) → last_level t.levels ≡ some (r ∷ []) → root t ≡ ok r
unfolding root
root_lem t r h = ground arith

get_elem?-first : (l : List Digest32) → 0 < length l → (d : Digest32) × (get_elem? l 0 ≡ some d)
get_elem?-first [] h = absurd (omega arith)
get_elem?-first (d ∷ ds) h = (d, refl)

module _ (blake3 : Bytes → Bytes) where
  pub verify_lem :
      (p : CohortProof) (r : Digest32) (round : ℕ)
      → (verify blake3 p r round ≡ ok tt) ↔ (
          (p.round_id ≡ round)
          × (p.merkle_root ≡ r)
          × (climb blake3 p.leaf_hash p.leaf_index p.sibling_hashes ≡ r))
  unfolding verify
  verify_lem p r round =
      let at_root = bytes_eq_iff p.merkle_root r in
      let climbs = bytes_eq_iff (climb blake3 p.leaf_hash p.leaf_index p.sibling_hashes) r in
      ((λ h. ground (arith, at_root, climbs)), (λ h. ground (arith, at_root, climbs)))

  -- The statement of `verify-proof` for one cohort.
  abbrev pub HasProof : MerkleCohort → Digest32 → ℕ → Type 0
  HasProof t leaf round =
      (p : CohortProof) × (r : Digest32) × (root t ≡ ok r)
      × (proof t leaf round ≡ some (ok p))
      × (p.leaf_hash ≡ leaf)
      × (length p.sibling_hashes ≡ length (all_but_last t.levels))
      × (verify blake3 p r round ≡ ok tt)

  -- A cohort has a root, and for each of its leaves `proof` gives, without a panic, a proof of that
  -- leaf of the height of the tree, which `verify` accepts for that root and the round asked for.
  pub verify-proof :
      (leaves : List Digest32) (leaf : Digest32) (round : ℕ) {t : MerkleCohort}
      → build blake3 leaves ≡ some (ok t)
      → Memᴰ leaf leaves
      → HasProof t leaf round
  verify-proof leaves leaf round b m =
      let (ls, g, built, c) = build-ok blake3 leaves b in
      let (i, at, got) = position-mem (sort leaves) (mem-sort leaves m) in
      let (ss, r, collected, top, climbs) =
        grow-Leads blake3 (length leaves) (sort leaves) i g got in
      let p : CohortProof = record {
        leaf_hash = leaf;
        leaf_index = i;
        sibling_hashes = ss;
        merkle_root = r;
        round_id = round;
      } in
      subst (λ t. HasProof t leaf round) (sym built)
        (
          p,
          r,
          root_lem _ r top,
          proof_lem _ leaf r round i ss at
              (omega (arith, length-sort leaves, get_elem?-lt (sort leaves) i got, c.bounded))
              collected top,
          refl,
          length-siblings _ i collected,
          (verify_lem p r round).1 (refl, refl, climbs),
        )

  -- A proof that `verify` accepts for the root of a cohort, with as many siblings as the tree has
  -- levels below the root, proves a leaf of the cohort, or yields a collision of the hash. Its round
  -- is the one asked for. The hypotheses are that digests have 32 bytes, as their type has.
  pub verify-mem :
      (digest_length : (b : Bytes) → IsArray32 (blake3 b)) (leaves : List Digest32)
      (p : CohortProof) (r : Digest32) (round : ℕ) {t : MerkleCohort}
      → build blake3 leaves ≡ some (ok t)
      → root t ≡ ok r
      → All IsArray32 leaves
      → IsArray32 p.leaf_hash
      → All IsArray32 p.sibling_hashes
      → length p.sibling_hashes ≡ length (all_but_last t.levels)
      → verify blake3 p r round ≡ ok tt
      → (p.round_id ≡ round) × (Mem p.leaf_hash leaves ⊎ Collision blake3)
  verify-mem digest_length leaves p r round {t} b top al an as' n v =
      let (ls, g, built, c) = build-ok blake3 leaves b in
      let (same_round, _, climbs) = (verify_lem p r round).0 v in
      let (d, got) =
        get_elem?-first (sort leaves) (omega (arith, length-sort leaves, c.nonempty)) in
      let (_, r', _, top', _) = grow-Leads blake3 (length leaves) (sort leaves) 0 g got in
      let root' : root t ≡ ok r' = subst (λ t. root t ≡ ok r') (sym built) (root_lem _ r' top') in
      let same : r' ≡ r = ok-injective (sym root' ∙ top) in
      let height : length p.sibling_hashes ≡ length (all_but_last ls) =
        subst (λ t. length p.sibling_hashes ≡ length (all_but_last t.levels)) built n in
      (
        same_round,
        elim (Reaches-mem blake3 digest_length (length leaves) (sort leaves) p.leaf_hash
            p.leaf_index p.sibling_hashes g (All-sort IsArray32 leaves al) an as'
            (height, rw same at top', climbs)) [
              | inl m ↦ inl ((Perm.mem_iff (sort-permutes leaves)).0 ∣ m ∣₁)
              | inr x ↦ inr x
            ],
      )

  climb-index :
      (node : Digest32) (i k : ℕ) (ss : List Digest32)
      → climb blake3 node (i + k * 2 ^ length ss) ss ≡ climb blake3 node i ss
  unfolding climb
  climb-index node i k [] = refl
  climb-index node i k (s ∷ ss) =
      let double : k * 2 ^ suc (length ss) ≡ 2 * (k * 2 ^ length ss) =
        omega (arith, ap (λ (t : ℕ). k * t) (pow-suc 2 (length ss))) in
      let parity : (i + k * 2 ^ suc (length ss)) % 2 ≡ i % 2 = omega (arith, double) in
      let half : (i + k * 2 ^ suc (length ss)) / 2 ≡ i / 2 + k * 2 ^ length ss =
        omega (arith, double) in
      rw (parity, half)
        (climb-index (if i % 2 == 0 then parent blake3 node s else parent blake3 s node) (i / 2) k
          ss)

  -- `verify` reads only as many bits of the index as there are siblings: adding a multiple of
  -- 2 ^ n to the index of an accepted proof with n siblings gives another accepted proof.
  pub verify-index :
      (p : CohortProof) (r : Digest32) (round k : ℕ)
      → let shifted = p.leaf_index + k * 2 ^ length p.sibling_hashes in
        verify blake3 (record p { leaf_index = shifted }) r round ≡ verify blake3 p r round
  unfolding verify
  verify-index p r round k = rw (climb-index p.leaf_hash p.leaf_index k p.sibling_hashes)

  -- `verify` does not know the height of the tree: without its first sibling, an accepted proof of a
  -- node proves the parent of the two, an inner node, as if it were a leaf.
  pub verify-parent :
      (p : CohortProof) (r : Digest32) (round : ℕ) (s : Digest32) (ss : List Digest32)
      → p.sibling_hashes ≡ s ∷ ss
      → let i = p.leaf_index in
        let node =
          if i % 2 == 0 then parent blake3 p.leaf_hash s else parent blake3 s p.leaf_hash in
        verify blake3
          (record p { leaf_hash = node; leaf_index = i / 2; sibling_hashes = ss })
          r
          round
        ≡ verify blake3 p r round
  unfolding verify
  verify-parent p r round s ss e = rw e
