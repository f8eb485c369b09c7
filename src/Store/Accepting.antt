-- ===== src/Store/Accepting.antt =====
-- `Store::accept_ticket` of crates/mirror-pool-store.
use mathlib.Core.HLevel.{⊥_prop}
use mathlib.Core.Logic.Or
use mathlib.Core.List.Perm
use mathlib.Core.List.{Mem, Nodup, Nodup-cons, mem-cons, not-mem-nil}
use mathlib.Core.Path.{subst}
use mirror_pool.Prelude.{
  ℕ, ◌<◌, ◌≡◌, false, none, some, List, [], ◌∷◌, Bytes, Result, ok, err, arith, refl, sym, ◌∙◌, ap,
  i64_mod, inl, inr, bytes_eq_iff, ok-injective, supplied, >>=-eq-ok, Bool-cases, map_err,
  map_err-ok, length, All,
}
use mirror_pool.Core.Defs.{Digest32}
use mirror_pool.Merkle.Defs.{CohortProof}
use mirror_pool.Crypto.Defs.{JoinTicket, TicketJson, commitment}
use mirror_pool.Store.Tables.{
  SqliteError, constraint_violation, out_of_range, invalid_ticket, TicketRow, ProofRow, Database,
  as_i64, is_at, clashes, any_clash, insert_ticket, commitments, find_proof,
}
use mirror_pool.Store.Defs.{Json, event, accepted, accept_ticket, root_of, proof_of, parse}
use mirror_pool.Store.Sealing.{seal_cohort}
use mirror_pool.Store.Lookups.{is_at_refl}
use mirror_pool.Store.Loop.{as_i64-ok}
use mirror_pool.Store.Serving.{again_existing, root_of_lem}
use mirror_pool.Store.Sealed.{seal_cohort-trace}
use mirror_pool.Merkle.Leaves.{sort-permutes}
use mirror_pool.Store.Writing.{event-ok}

-- The row that `accept_ticket` inserts.
abbrev pub row_of : JoinTicket → Digest32 → Bytes → TicketRow
row_of t leaf text = record {
  pool_id = t.pool_id;
  round_id = t.round_id;
  commitment = leaf;
  coordination_key = t.coordination_public_key;
  ticket_json = text;
}

-- What an accepted ticket has met, and what it leaves.
pub record Accepted (db db' : Database) (row : TicketRow) : Type 0 where
  pub sized : length row.commitment ≡ 32
  pub fresh : any_clash row db.join_tickets ≡ false
  pub added : db'.join_tickets ≡ row ∷ db.join_tickets
  pub same_roots : db'.cohort_roots ≡ db.cohort_roots
  pub same_proofs : db'.cohort_proofs ≡ db.cohort_proofs
  pub same_schedules : db'.release_schedules ≡ db.release_schedules

insert_ticket-ok :
    (row : TicketRow) (db : Database) {db' : Database}
    → insert_ticket row db ≡ ok db'
    → Accepted db db' row
unfolding insert_ticket
insert_ticket-ok row db h = ground arith

accepted-ok :
    (t : JoinTicket) (row : TicketRow) (db : Database) {db' : Database} {leaf : Digest32}
    → accepted t row.commitment (insert_ticket row db) ≡ ok (db', leaf)
    → Accepted db db' row × (leaf ≡ row.commitment)
unfolding accepted
accepted-ok t row db {db'} {leaf} h = by_statement (insert_ticket row db) refl h
  where
    by_statement :
        (m : Result Database SqliteError)
        → insert_ticket row db ≡ m
        → accepted t row.commitment m ≡ ok (db', leaf)
        → Accepted db db' row × (leaf ≡ row.commitment)
    by_statement (err constraint_violation) e h = absurd (ground arith)
    by_statement (err out_of_range) e h = absurd (ground arith)
    by_statement (ok db₁) e h =
        let a = insert_ticket-ok row db e in
        let (db₂, logged, made) =
          >>=-eq-ok (event (some t.pool_id) (some t.round_id) _ row.commitment db₁) _ h in
        let same = event-ok (some t.pool_id) t.round_id _ row.commitment db₁ logged in
        let pair : ◌≡◌ {A = Database × Digest32} (db₂, row.commitment) (db', leaf) =
          ok-injective made in
        (
          subst (λ d. Accepted db d row) (ap (λ (x : Database × Digest32). x.0) pair)
              (record {
                sized = a.sized;
                fresh = a.fresh;
                added = same.tickets ∙ a.added;
                same_roots = same.roots ∙ a.same_roots;
                same_proofs = same.proofs ∙ a.same_proofs;
                same_schedules = same.schedules ∙ a.same_schedules;
              }),
          sym (ap (λ (x : Database × Digest32). x.1) pair),
        )

at_place :
    {db db' : Database} (t : JoinTicket) (text : Bytes) {id : ℕ} {leaf₁ leaf : Digest32}
    → id ≡ t.round_id
    → leaf₁ ≡ leaf
    → Accepted db db' (record {
      pool_id = t.pool_id;
      round_id = id;
      commitment = leaf₁;
      coordination_key = t.coordination_public_key;
      ticket_json = text;
    })
    → Accepted db db' (row_of t leaf text)
at_place {db} {db'} t text {leaf₁ = leaf₁} same_id same_leaf a =
    subst (λ d. Accepted db db' (row_of t d text)) same_leaf
      (subst
        (λ n. Accepted db db' (record {
          pool_id = t.pool_id;
          round_id = n;
          commitment = leaf₁;
          coordination_key = t.coordination_public_key;
          ticket_json = text;
        }))
        same_id a)

root_of-local :
    (db db' : Database) (pool : Digest32) (round_id : ℕ)
    → db'.cohort_roots ≡ db.cohort_roots
    → root_of db' pool round_id ≡ root_of db pool round_id
unfolding root_of
root_of-local db db' pool round_id same = rw same

proof_of-none :
    (json : Json CohortProof) (db : Database) (pool : Digest32) (round_id : ℕ) (leaf : Digest32)
    → round_id < i64_mod
    → find_proof db.cohort_proofs pool round_id leaf ≡ none
    → proof_of json db pool round_id leaf ≡ ok none
unfolding proof_of as_i64 parse
proof_of-none json db pool round_id leaf fits absent = ground arith

pub commitments-at :
    (row : TicketRow) (rows : List TicketRow)
    → commitments (row ∷ rows) row.pool_id row.round_id
      ≡ row.commitment ∷ commitments rows row.pool_id row.round_id
unfolding commitments
commitments-at row rows = ground (arith, is_at_refl row.pool_id row.round_id)

commitments-fresh :
    (row : TicketRow) (rows : List TicketRow) (pool : Bytes) (round : ℕ)
    → any_clash row rows ≡ false
    → ¬ Mem row.commitment (commitments rows pool round)
unfolding commitments any_clash clashes
commitments-fresh row [] pool round fresh m = not-mem-nil m
commitments-fresh row (old ∷ rows) pool round fresh m =
    elim (Bool-cases (is_at pool round old.pool_id old.round_id)) [
      | inl here ↦
          Or.elim ⊥_prop (mem-cons.0 (rw here at m))
            (λ p. absurd (ground (arith, bytes_eq_iff old.commitment row.commitment)))
            (commitments-fresh row rows pool round (ground arith))
      | inr elsewhere ↦ commitments-fresh row rows pool round (ground arith) (rw elsewhere at m)
    ]

cons-consistent :
    (row : TicketRow) (rows : List TicketRow) (pool : Bytes) (round : ℕ)
    → length row.commitment ≡ 32
    → any_clash row rows ≡ false
    → Nodup (commitments rows pool round)
      × All (λ (d : Bytes). length d ≡ 32) (commitments rows pool round)
    → Nodup (commitments (row ∷ rows) pool round)
      × All (λ (d : Bytes). length d ≡ 32) (commitments (row ∷ rows) pool round)
unfolding commitments
cons-consistent row rows pool round sized fresh c =
    elim (Bool-cases (is_at pool round row.pool_id row.round_id)) [
      | inl here ↦
          rw here (Nodup-cons.1 (commitments-fresh row rows pool round fresh, c.0), (sized, c.1))
      | inr elsewhere ↦ rw elsewhere c
    ]

-- The commitments of every round are distinct and have 32 bytes.
abbrev pub IsConsistent : Database → Type 0
IsConsistent db =
    (pool : Digest32) (round : ℕ)
    → Nodup (commitments db.join_tickets pool round)
      × All (λ (d : Bytes). length d ≡ 32) (commitments db.join_tickets pool round)

module _ (blake3 : Bytes → Bytes) (tickets : TicketJson) (stored : Json JoinTicket) where
  pub accept_ticket-ok :
      (db : Database) (t : JoinTicket) {db' : Database} {leaf : Digest32}
      → accept_ticket blake3 tickets stored db t ≡ ok (db', leaf)
      → (commitment tickets blake3 t ≡ ok leaf)
        × (t.round_id < i64_mod)
        × (text : Bytes) × Accepted db db' (row_of t leaf text)
  unfolding accept_ticket
  accept_ticket-ok db t {db'} {leaf} h =
      let (leaf₁, committed, h₁) =
        >>=-eq-ok (map_err (commitment tickets blake3 t) invalid_ticket) _ h in
      let (id, in_range, h₂) = >>=-eq-ok (as_i64 t.round_id) _ h₁ in
      let (text, encoded, h₃) = supplied (stored.to_string t) _ _ h₂ in
      let (fits, same_id) = as_i64-ok t.round_id in_range in
      let (a, same) = accepted-ok t _ db h₃ in
      (
        map_err-ok (commitment tickets blake3 t) invalid_ticket committed ∙ ap ok (sym same),
        fits,
        text,
        at_place t text same_id (sym same) a,
      )

  -- A round that had no root and no proofs was sealed, and a ticket of it is accepted after that. It
  -- counts as accepted but gets no proof: its commitment joins those of the round, but the root stays
  -- what it was, also if the round is sealed again under any minimum, and `proof` finds nothing for it.
  pub late_ticket :
      (json : Json CohortProof) (db : Database) (t : JoinTicket) (minimum again : ℕ) {r : Digest32}
      {n : ℕ} {db₁ db' : Database} {leaf : Digest32}
      → root_of db t.pool_id t.round_id ≡ ok none
      → ((d : Digest32) → find_proof db.cohort_proofs t.pool_id t.round_id d ≡ none)
      → seal_cohort blake3 json db t.pool_id t.round_id minimum ≡ some (ok (db₁, (r, n)))
      → accept_ticket blake3 tickets stored db₁ t ≡ ok (db', leaf)
      → (seal_cohort blake3 json db' t.pool_id t.round_id again ≡ some (ok (db', (r, n))))
        × (proof_of json db' t.pool_id t.round_id leaf ≡ ok none)
        × (commitments db'.join_tickets t.pool_id t.round_id
            ≡ leaf ∷ commitments db.join_tickets t.pool_id t.round_id)
  late_ticket json db t minimum again {r} {n} {db₁} {db'} {leaf} new unproved seals h =
      let trace = seal_cohort-trace blake3 json db t.pool_id t.round_id minimum new seals in
      let (_, fits, text, a) = accept_ticket-ok db₁ t h in
      let before = commitments db.join_tickets t.pool_id t.round_id in
      let same : commitments db₁.join_tickets t.pool_id t.round_id ≡ before =
        ap (λ (rows : List TicketRow). commitments rows t.pool_id t.round_id) trace.same_tickets in
      let fresh : ¬ Mem leaf before =
        subst (λ l. ¬ Mem leaf l) same
          (commitments-fresh (row_of t leaf text) db₁.join_tickets t.pool_id t.round_id a.fresh) in
      (
        again_existing blake3 json db' t.pool_id t.round_id again (r, n)
            (root_of-local db₁ db' t.pool_id t.round_id a.same_roots
              ∙ root_of_lem db₁ t.pool_id t.round_id r n trace.fits trace.small trace.sized
                  trace.recorded)
            refl,
        proof_of-none json db' t.pool_id t.round_id leaf fits (
            ap (λ (rows : List ProofRow). find_proof rows t.pool_id t.round_id leaf) a.same_proofs
            ∙ trace.elsewhere leaf (λ m. fresh ((Perm.mem_iff (sort-permutes before)).0 ∣ m ∣₁))
            ∙ unproved leaf),
        ap (λ (rows : List TicketRow). commitments rows t.pool_id t.round_id) a.added
            ∙ commitments-at (row_of t leaf text) db₁.join_tickets
            ∙ ap (◌∷◌ leaf) same,
      )

  -- `accept_ticket` keeps the commitments of every round distinct and of 32 bytes.
  pub accept_ticket-IsConsistent :
      (db : Database) (t : JoinTicket) {db' : Database} {leaf : Digest32}
      → IsConsistent db
      → accept_ticket blake3 tickets stored db t ≡ ok (db', leaf)
      → IsConsistent db'
  accept_ticket-IsConsistent db t {db'} {leaf} c h pool round =
      let (_, fits, text, a) = accept_ticket-ok db t h in
      subst
        (λ rows.
          Nodup (commitments rows pool round)
          × All (λ (d : Bytes). length d ≡ 32) (commitments rows pool round))
        (sym a.added)
        (cons-consistent (row_of t leaf text) db.join_tickets pool round a.sized a.fresh
          (c pool round))
