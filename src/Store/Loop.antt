-- ===== src/Store/Loop.antt =====
-- The loop of `seal_cohort` in crates/mirror-pool-store, which stores the proofs.
use mathlib.Core.List.{Memᴰ}
use mathlib.Core.Option.{some-injective}
use mathlib.Core.Path.{subst}
use mirror_pool.Prelude.{
  ℕ, ◌<◌, ◌≡◌, ◌≢◌, Option, none, some, List, [], ◌∷◌, Bytes, Result, ok, err, arith, refl, sym,
  ◌∙◌, ap, i64_mod, ok-injective, supplied, >>=-eq-ok,
}
use mirror_pool.Core.Defs.{Digest32}
use mirror_pool.Merkle.Defs.{CohortProof, MerkleCohort, MerkleError, proof}
use mirror_pool.Store.Tables.{
  StoreError, ProofRow, Database, and_then, merkle_err, as_i64, find_proof, insert_proof,
}
use mirror_pool.Store.Defs.{Json, store_proof, store_proofs}
use mirror_pool.Store.Lookups.{insert_proof-finds, insert_proof-elsewhere, insert_proof-keeps}

-- The tables that the loop leaves alone.
pub record SameElse (db db' : Database) : Type 0 where
  pub tickets : db'.join_tickets ≡ db.join_tickets
  pub roots : db'.cohort_roots ≡ db.cohort_roots
  pub schedules : db'.release_schedules ≡ db.release_schedules

pub and_then-ok :
    {A B : Type 0} (m : Option (Result A StoreError)) (next : A → Option (Result B StoreError))
    {b : B}
    → and_then m next ≡ some (ok b)
    → (a : A) × (m ≡ some (ok a)) × (next a ≡ some (ok b))
and_then-ok none next h = absurd (ground arith)
and_then-ok (some (err e)) next h = absurd (ground arith)
and_then-ok (some (ok a)) next h = (a, refl, h)

pub merkle_err-ok :
    {A : Type 0} (m : Option (Result A MerkleError)) {a : A}
    → merkle_err m ≡ some (ok a)
    → m ≡ some (ok a)
merkle_err-ok none h = absurd (ground arith)
merkle_err-ok (some (err e)) h = absurd (ground arith)
merkle_err-ok (some (ok b)) h = ap (λ x. some (ok x)) (ok-injective (some-injective _ _ h))

pub as_i64-ok : (n : ℕ) {m : ℕ} → as_i64 n ≡ ok m → (n < i64_mod) × (m ≡ n)
unfolding as_i64
as_i64-ok n h = ground arith

module _ (blake3 : Bytes → Bytes) (json : Json CohortProof) where
  -- A proof of the tree that is stored under its leaf.
  pub record Stored (tree : MerkleCohort) (pool : Digest32) (round_id : ℕ) (leaf : Digest32)
      (db : Database) : Type 0 where
    pub p : CohortProof
    pub text : Bytes
    pub proved : proof tree leaf round_id ≡ some (ok p)
    pub encoded : json.to_string p ≡ some text
    pub found : find_proof db.cohort_proofs pool round_id leaf ≡ some text

  store_proof-ok :
      (tree : MerkleCohort) (pool : Digest32) (round_id : ℕ) (leaf : Digest32) (db : Database)
      {db' : Database}
      → store_proof blake3 json tree pool round_id leaf db ≡ some (ok db')
      → (p : CohortProof) × (text : Bytes) × (proof tree leaf round_id ≡ some (ok p))
        × (json.to_string p ≡ some text)
        × (insert_proof
              (record { pool_id = pool; round_id = round_id; commitment = leaf; proof_json = text })
              db
            ≡ ok db')
  unfolding store_proof
  store_proof-ok tree pool round_id leaf db {db'} h =
      let (p, ok_p, h₁) = and_then-ok (merkle_err (proof tree leaf round_id)) _ h in
      let (id, in_range, h₂) = >>=-eq-ok (as_i64 round_id) _ (some-injective _ _ h₁) in
      let (text, encoded, h₃) = supplied (json.to_string p) _ _ h₂ in
      let (_, same) = as_i64-ok round_id in_range in
      (
        p,
        text,
        merkle_err-ok (proof tree leaf round_id) ok_p,
        encoded,
        subst
            (λ n.
              insert_proof
                (record { pool_id = pool; round_id = n; commitment = leaf; proof_json = text }) db
              ≡ ok db')
            same h₃,
      )

  insert_proof-SameElse :
      (row : ProofRow) (db : Database) {db' : Database}
      → insert_proof row db ≡ ok db'
      → SameElse db db'
  unfolding insert_proof
  insert_proof-SameElse row db h = ground arith

  -- Nothing that was stored is lost, and the other tables are as they were.
  pub record Grown (pool : Digest32) (round_id : ℕ) (db db' : Database) : Type 0 where
    pub keeps :
        (leaf text : Bytes)
        → find_proof db.cohort_proofs pool round_id leaf ≡ some text
        → find_proof db'.cohort_proofs pool round_id leaf ≡ some text
    pub others : SameElse db db'

  store_proof-Grown :
      (tree : MerkleCohort) (pool : Digest32) (round_id : ℕ) (leaf : Digest32) (db : Database)
      {db' : Database}
      → store_proof blake3 json tree pool round_id leaf db ≡ some (ok db')
      → Stored tree pool round_id leaf db' × Grown pool round_id db db'
  store_proof-Grown tree pool round_id leaf db h =
      let (p, text, proved, encoded, inserted) = store_proof-ok tree pool round_id leaf db h in
      (
        record {
          p = p;
          text = text;
          proved = proved;
          encoded = encoded;
          found = insert_proof-finds _ db inserted;
        },
        record {
          keeps = λ other found_text found.
              insert_proof-keeps _ db pool round_id other found_text inserted found;
          others = insert_proof-SameElse _ db inserted;
        },
      )

  store_proof-elsewhere :
      (tree : MerkleCohort) (pool : Digest32) (round_id : ℕ) (leaf other : Digest32) (db : Database)
      {db' : Database}
      → store_proof blake3 json tree pool round_id leaf db ≡ some (ok db')
      → leaf ≢ other
      → find_proof db'.cohort_proofs pool round_id other
        ≡ find_proof db.cohort_proofs pool round_id other
  store_proof-elsewhere tree pool round_id leaf other db h ne =
      let (p, text, proved, encoded, inserted) = store_proof-ok tree pool round_id leaf db h in
      insert_proof-elsewhere _ db pool round_id other inserted ne

  -- The loop stores a proof for no digest that is not among its leaves.
  pub store_proofs-elsewhere :
      (tree : MerkleCohort) (pool : Digest32) (round_id : ℕ) (leaves : List Digest32)
      (other : Digest32) (db : Database) {db' : Database}
      → store_proofs blake3 json tree pool round_id leaves db ≡ some (ok db')
      → ¬ Memᴰ other leaves
      → find_proof db'.cohort_proofs pool round_id other
        ≡ find_proof db.cohort_proofs pool round_id other
  unfolding store_proofs
  store_proofs-elsewhere tree pool round_id [] other db h out =
      ap (λ (d : Database). find_proof d.cohort_proofs pool round_id other)
        (sym (ok-injective (some-injective _ _ h)))
  store_proofs-elsewhere tree pool round_id (leaf ∷ leaves) other db h out =
      let (db₁, first, h₁) = and_then-ok (store_proof blake3 json tree pool round_id leaf db) _ h in
      store_proofs-elsewhere tree pool round_id leaves other db₁ h₁ (λ m. out (Memᴰ.tail m))
      ∙ store_proof-elsewhere tree pool round_id leaf other db first (λ e. out (Memᴰ.head (sym e)))

  Grown-trans :
      {pool : Digest32} {round_id : ℕ} {a b c : Database}
      → Grown pool round_id a b
      → Grown pool round_id b c
      → Grown pool round_id a c
  Grown-trans g g' = record {
    keeps = λ leaf text found. g'.keeps leaf text (g.keeps leaf text found);
    others = record {
      tickets = g'.others.tickets ∙ g.others.tickets;
      roots = g'.others.roots ∙ g.others.roots;
      schedules = g'.others.schedules ∙ g.others.schedules;
    };
  }

  Grown-same : {pool : Digest32} {round_id : ℕ} {a b : Database} → a ≡ b → Grown pool round_id a b
  Grown-same {pool} {round_id} {a} e =
      subst (λ b. Grown pool round_id a b) e
        (record {
          keeps = λ leaf text found. found;
          others = record { tickets = refl; roots = refl; schedules = refl };
        })

  Stored-Grown :
      {tree : MerkleCohort} {pool : Digest32} {round_id : ℕ} {leaf : Digest32} {a b : Database}
      → Stored tree pool round_id leaf a
      → Grown pool round_id a b
      → Stored tree pool round_id leaf b
  Stored-Grown {leaf = leaf} s g = record {
    p = s.p;
    text = s.text;
    proved = s.proved;
    encoded = s.encoded;
    found = g.keeps leaf s.text s.found;
  }

  either :
      {tree : MerkleCohort} {pool : Digest32} {round_id : ℕ} {leaf : Digest32}
      {leaves : List Digest32} {a b : Database} (d : Digest32)
      → Memᴰ d (leaf ∷ leaves)
      → Stored tree pool round_id leaf a
      → Grown pool round_id a b
      → ((e : Digest32) → Memᴰ e leaves → Stored tree pool round_id e b)
      → Stored tree pool round_id d b
  either {tree} {pool} {round_id} {b = b} d (Memᴰ.head e) s g rest =
      subst (λ x. Stored tree pool round_id x b) (sym e) (Stored-Grown s g)
  either d (Memᴰ.tail m) s g rest = rest d m

  -- After the loop, every leaf has a proof of the tree stored under it.
  pub store_proofs-Stored :
      (tree : MerkleCohort) (pool : Digest32) (round_id : ℕ) (leaves : List Digest32)
      (db : Database) {db' : Database}
      → store_proofs blake3 json tree pool round_id leaves db ≡ some (ok db')
      → Grown pool round_id db db'
        × ((leaf : Digest32) → Memᴰ leaf leaves → Stored tree pool round_id leaf db')
  unfolding store_proofs
  store_proofs-Stored tree pool round_id [] db h =
      (Grown-same (ok-injective (some-injective _ _ h)), λ leaf m. elim m [ ])
  store_proofs-Stored tree pool round_id (leaf ∷ leaves) db h =
      let (db₁, first, h₁) = and_then-ok (store_proof blake3 json tree pool round_id leaf db) _ h in
      let (stored, grown) = store_proof-Grown tree pool round_id leaf db first in
      let (grown', all_stored) = store_proofs-Stored tree pool round_id leaves db₁ h₁ in
      (Grown-trans grown grown', λ d m. either d m stored grown' all_stored)
