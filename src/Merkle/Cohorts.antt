-- ===== src/Merkle/Cohorts.antt =====
-- `MerkleCohort::build` of crates/mirror-pool-merkle.
use mathlib.Core.List.{Perm, Nodup}
use mirror_pool.Prelude.{
  ◌<◌, ◌≤◌, ◌≡◌, ◌↔◌, false, Option, none, some, List, [], ◌∷◌, Bytes, arith, refl, sym, ◌∙◌, ap,
  length, if◌then◌else◌, inl, inr, ltb, Bool-cases, Option-cases, Result, ok, err,
}
use mirror_pool.Core.Defs.{Digest32, is_empty}
use mirror_pool.Merkle.Defs.{
  MerkleCohort, MerkleError, empty_tree, too_many_leaves, duplicate_leaf, max_leaves, sort, repeats,
  grow, build,
}
use mirror_pool.Merkle.Sorting.{sort-Perm, length-sort}
use mirror_pool.Merkle.Leaves.{repeats-sort}
use mirror_pool.Merkle.Levels.{grow_total}

-- The leaf lists of which a cohort is built.
pub record IsCohort (leaves : List Digest32) : Type 0 where
  pub nonempty : 0 < length leaves
  pub bounded : length leaves ≤ max_leaves
  pub distinct : Nodup leaves

is_empty-sort : (l : List Digest32) → is_empty (sort l) ≡ is_empty l
is_empty-sort l = by_length (sort l) l (length-sort l)
  where
    by_length : (xs ys : List Digest32) → length xs ≡ length ys → is_empty xs ≡ is_empty ys
    by_length [] [] n = refl
    by_length [] (y ∷ ys) n = absurd (omega arith)
    by_length (x ∷ xs) [] n = absurd (omega arith)
    by_length (x ∷ xs) (y ∷ ys) n = refl

nonempty-length : (l : List Digest32) → is_empty l ≡ false → 0 < length l
nonempty-length [] h = cc
nonempty-length (d ∷ ds) h = omega arith

length-nonempty : (l : List Digest32) → 0 < length l → is_empty l ≡ false
length-nonempty [] h = absurd (omega arith)
length-nonempty (d ∷ ds) h = refl

module _ (blake3 : Bytes → Bytes) where
  -- The checks and the loop of `build`, over the sorted leaves alone.
  of_sorted : List Digest32 → Option (Result MerkleCohort MerkleError)
  of_sorted l =
      if is_empty l
      then some (err empty_tree)
      else if ltb max_leaves (length l)
      then some (err too_many_leaves)
      else if repeats l
      then some (err duplicate_leaf)
      else elim (grow blake3 (length l) l) [
        | none ↦ none
        | some ls ↦ some (ok (record { leaves = l; levels = ls }))
      ]

  build-of_sorted : (leaves : List Digest32) → build blake3 leaves ≡ of_sorted (sort leaves)
  unfolding build of_sorted
  build-of_sorted leaves = rw (is_empty-sort leaves, length-sort leaves)

  grow-sort :
      (leaves : List Digest32)
      → 0 < length leaves
      → (ls : List (List Digest32)) × (grow blake3 (length leaves) (sort leaves) ≡ some ls)
  grow-sort leaves p =
      grow_total blake3 (length leaves) (sort leaves) (omega (arith, length-sort leaves))
        (omega (arith, length-sort leaves))

  pub build-ok :
      (leaves : List Digest32) {t : MerkleCohort}
      → build blake3 leaves ≡ some (ok t)
      → (ls : List (List Digest32)) × (grow blake3 (length leaves) (sort leaves) ≡ some ls)
        × (t ≡ record { leaves = sort leaves; levels = ls })
        × IsCohort leaves
  unfolding build
  build-ok leaves {t} b = elim (Option-cases (grow blake3 (length leaves) (sort leaves))) [
    | inl out ↦ ground arith
    | inr (ls, g) ↦ (
      ls,
      g,
      ground arith,
      record {
        nonempty = nonempty-length leaves (ground arith);
        bounded = ground arith;
        distinct = (repeats-sort leaves).0 (ground arith);
      },
    )
  ]

  -- `build` comes to an end on every list of leaves: a round for each leaf is enough for its loop.
  pub build_total :
      (leaves : List Digest32)
      → (result : Result MerkleCohort MerkleError) × (build blake3 leaves ≡ some result)
  unfolding build
  build_total leaves = elim (Bool-cases (is_empty leaves)) [
    | inl nothing ↦ (err empty_tree, rw nothing)
    | inr something ↦
        let (ls, g) = grow-sort leaves (nonempty-length leaves something) in
        (
          (if ltb max_leaves (length leaves)
              then err too_many_leaves
              else if repeats (sort leaves)
              then err duplicate_leaf
              else ok (record { leaves = sort leaves; levels = ls })),
          ground arith,
        )
  ]

  build_complete :
      (leaves : List Digest32)
      → IsCohort leaves
      → (t : MerkleCohort) × (build blake3 leaves ≡ some (ok t))
  unfolding build
  build_complete leaves c =
      let (ls, g) = grow-sort leaves c.nonempty in
      (
        record { leaves = sort leaves; levels = ls },
        ground (arith, length-nonempty leaves c.nonempty, (repeats-sort leaves).1 c.distinct),
      )

  -- `build` succeeds exactly on 1 to 100000 leaves none of which occurs twice.
  pub build-iff-IsCohort :
      (leaves : List Digest32)
      → ((t : MerkleCohort) × (build blake3 leaves ≡ some (ok t))) ↔ IsCohort leaves
  build-iff-IsCohort leaves = ((λ built. (build-ok leaves built.1).3), build_complete leaves)

  -- The order in which leaves arrive has no influence on the cohort that is built, or on the error.
  pub build-Perm : {xs ys : List Digest32} → Perm xs ys → build blake3 xs ≡ build blake3 ys
  build-Perm {xs} {ys} p =
      build-of_sorted xs ∙ ap of_sorted (sort-Perm p) ∙ sym (build-of_sorted ys)
