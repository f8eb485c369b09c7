-- ===== src/Store/Sealed.antt =====
-- `Store::seal_cohort` of crates/mirror-pool-store: what it leaves for `root` and `proof` to read.
use mathlib.Core.List.{Memᴰ}
use mathlib.Core.Option.{some-injective}
use mathlib.Core.Path.{subst}
use mirror_pool.Prelude.{
  ℕ, ◌<◌, ◌≤◌, ◌≡◌, none, some, List, Bytes, ok, arith, sym, ◌∙◌, ap, i64_mod, u32_mod, inl, inr,
  ltb, ok-injective, Bool-cases, length,
}
use mirror_pool.Core.Defs.{Digest32}
use mirror_pool.Merkle.Defs.{CohortProof, MerkleCohort, sort, build, root}
use mirror_pool.Store.Tables.{
  RootRow, ProofRow, Database, and_then, merkle_err, commitments, find_root, find_proof,
}
use mirror_pool.Store.Defs.{Json, root_of, store_proofs}
use mirror_pool.Store.Sealing.{
  read_leaves, insert_new_root, store_tree, seal_leaves, seal_if_new, seal_cohort,
}
use mirror_pool.Store.Loop.{
  Stored, store_proofs-Stored, store_proofs-elsewhere, and_then-ok, merkle_err-ok,
}
use mirror_pool.Store.Writing.{
  read_leaves-ok, finish_seal-ok, insert_new_root-ok, insert_new_root-proofs,
}

module _ (blake3 : Bytes → Bytes) (json : Json CohortProof) where
  -- What a seal of a round that had no root went through.
  pub record SealTrace (db db' : Database) (pool : Digest32) (round_id minimum : ℕ) (r : Digest32)
      (n : ℕ) (leaves : List Digest32) : Type 0 where
    pub fits : round_id < i64_mod
    pub counted : n ≡ length leaves
    pub small : n < u32_mod
    pub enough : minimum ≤ n
    pub tree : MerkleCohort
    pub built : build blake3 leaves ≡ some (ok tree)
    pub rooted : root tree ≡ ok r
    pub recorded :
        find_root db'.cohort_roots pool round_id
        ≡ some (record { pool_id = pool; round_id = round_id; root = r; cohort_size = n })
    pub sized : length r ≡ 32
    pub same_tickets : db'.join_tickets ≡ db.join_tickets
    pub proofs :
        (leaf : Digest32) → Memᴰ leaf leaves → Stored blake3 json tree pool round_id leaf db'
    pub elsewhere :
        (other : Digest32)
        → ¬ Memᴰ other leaves
        → find_proof db'.cohort_proofs pool round_id other
          ≡ find_proof db.cohort_proofs pool round_id other

  store_tree-trace :
      (db : Database) (pool : Digest32) (round_id minimum : ℕ) (leaves : List Digest32)
      (tree : MerkleCohort) {db' : Database} {r : Digest32} {n : ℕ}
      → round_id < i64_mod
      → length leaves < u32_mod
      → minimum ≤ length leaves
      → build blake3 leaves ≡ some (ok tree)
      → store_tree blake3 json db pool round_id leaves tree ≡ some (ok (db', (r, n)))
      → SealTrace db db' pool round_id minimum r n leaves
  unfolding store_tree
  store_tree-trace db pool round_id minimum leaves tree {db'} {r} {n} fits small enough built h =
      let ((db₁, r₁), started, h₁) =
        and_then-ok (some (insert_new_root db pool round_id (length leaves) tree)) _ h in
      let (db₂, looped, h₂) =
        and_then-ok (store_proofs blake3 json tree pool round_id leaves db₁) _ h₁ in
      let (rooted, recorded, tickets, sized) =
        insert_new_root-ok db pool round_id (length leaves) tree (some-injective _ _ started) in
      let (grown, stored) = store_proofs-Stored blake3 json tree pool round_id leaves db₁ looped in
      let (same, same_r, same_n) =
        finish_seal-ok pool round_id r₁ (length leaves) db₂ (some-injective _ _ h₂) in
      let back_r : r₁ ≡ r = sym same_r in
      let back_n : length leaves ≡ n = sym same_n in
      record {
        fits = fits;
        counted = same_n;
        small = subst (λ k. k < u32_mod) (sym same_n) small;
        enough = subst (λ k. minimum ≤ k) (sym same_n) enough;
        tree = tree;
        built = built;
        rooted = rooted ∙ ap ok (sym same_r);
        recorded =
            ap (λ (rows : List RootRow). find_root rows pool round_id)
              (same.roots ∙ grown.others.roots)
            ∙ recorded
            ∙ (λ i. some (record {
              pool_id = pool;
              round_id = round_id;
              root = back_r i;
              cohort_size = back_n i;
            }));
        sized = ap length same_r ∙ sized;
        same_tickets = same.tickets ∙ grown.others.tickets ∙ tickets;
        proofs = λ leaf m.
            let s = stored leaf m in
            record {
              p = s.p;
              text = s.text;
              proved = s.proved;
              encoded = s.encoded;
              found =
                  ap (λ (rows : List ProofRow). find_proof rows pool round_id leaf) same.proofs
                  ∙ s.found;
            };
        elsewhere = λ other out.
            ap (λ (rows : List ProofRow). find_proof rows pool round_id other) same.proofs
            ∙ store_proofs-elsewhere blake3 json tree pool round_id leaves other db₁ looped out
            ∙ ap (λ (rows : List ProofRow). find_proof rows pool round_id other)
                (insert_new_root-proofs db pool round_id (length leaves) tree
                  (some-injective _ _ started));
      }

  seal_leaves-trace :
      (db : Database) (pool : Digest32) (round_id minimum : ℕ) (leaves : List Digest32)
      {db' : Database} {r : Digest32} {n : ℕ}
      → round_id < i64_mod
      → seal_leaves blake3 json db pool round_id minimum leaves ≡ some (ok (db', (r, n)))
      → SealTrace db db' pool round_id minimum r n leaves
  unfolding seal_leaves
  seal_leaves-trace db pool round_id minimum leaves {db'} {r} {n} fits h =
      elim (Bool-cases (ltb (length leaves) u32_mod)) [
        | inr large ↦ absurd (ground arith)
        | inl small ↦ elim (Bool-cases (ltb (length leaves) minimum)) [
          | inl few ↦ absurd (ground arith)
          | inr many ↦
              let h₁ : and_then (merkle_err (build blake3 leaves))
                    (λ tree. store_tree blake3 json db pool round_id leaves tree)
                  ≡ some (ok (db', (r, n))) =
                rw (small, many, seal_leaves) at h in
              let (tree, built, h₂) = and_then-ok (merkle_err (build blake3 leaves)) _ h₁ in
              store_tree-trace db pool round_id minimum leaves tree fits (ground arith)
                (ground arith) (merkle_err-ok (build blake3 leaves) built) h₂
        ]
      ]

  pub seal_cohort-trace :
      (db : Database) (pool : Digest32) (round_id minimum : ℕ) {db' : Database} {r : Digest32}
      {n : ℕ}
      → root_of db pool round_id ≡ ok none
      → seal_cohort blake3 json db pool round_id minimum ≡ some (ok (db', (r, n)))
      → SealTrace db db' pool round_id minimum r n
          (sort (commitments db.join_tickets pool round_id))
  unfolding seal_cohort seal_if_new
  seal_cohort-trace db pool round_id minimum {db'} {r} {n} new h =
      let (found, looked, h₁) = and_then-ok (some (root_of db pool round_id)) _ h in
      let same : found ≡ none = ok-injective (sym (some-injective _ _ looked) ∙ new) in
      let h₂ : seal_if_new blake3 json db pool round_id minimum none ≡ some (ok (db', (r, n))) =
        subst (λ o. seal_if_new blake3 json db pool round_id minimum o ≡ some (ok (db', (r, n))))
          same h₁ in
      let (leaves, read, h₃) = and_then-ok (some (read_leaves db pool round_id)) _ h₂ in
      let (fits, sorted) = read_leaves-ok db pool round_id (some-injective _ _ read) in
      subst (λ l. SealTrace db db' pool round_id minimum r n l) sorted
        (seal_leaves-trace db pool round_id minimum leaves fits h₃)
