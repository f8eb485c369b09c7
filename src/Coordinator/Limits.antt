-- ===== src/Coordinator/Limits.antt =====
-- The bounds of crates/mirror-pool-coordinator: on the tickets of a round.
use mirror_pool.Prelude.{
  ℕ, ◌<◌, ◌≤◌, ◌≡◌, Option, none, some, List, [], ◌∷◌, Bytes, leb, Result, ok, err, map_err,
  map_err-ok, ok-injective, >>=-eq-ok, guarded, length, arith, refl, sym, ◌∙◌, ap, leb-false→lt,
}
use mathlib.Core.Path.{subst}
use mirror_pool.Core.Defs.{Digest32}
use mirror_pool.Merkle.Defs.{CohortProof}
use mirror_pool.Crypto.Defs.{JoinTicket, TicketJson, Ed25519, verify, commitment}
use mirror_pool.Crypto.Tickets.{IsValid, verify-iff-IsValid}
use mirror_pool.Store.Tables.{StoreError, TicketRow, Database, commitments, as_i64}
use mirror_pool.Store.Defs.{Json, ticket_count, accept_ticket}
use mirror_pool.Store.Loop.{as_i64-ok}
use mirror_pool.Store.Sealing.{seal_cohort}
use mirror_pool.Store.Serving.{seal_cohort-tickets}
use mirror_pool.Store.Accepting.{row_of, accept_ticket-ok, commitments-at}
use mirror_pool.Coordinator.Defs.{
  CoordinatorConfig, CoordinatorError, invalid_ticket, Coordinator, check_rate, from_store, keep,
  try_enter, enter, seal,
}

from_store-ok : {A : Type 0} (m : Result A StoreError) {a : A} → from_store m ≡ ok a → m ≡ ok a
from_store-ok (ok b) h = ap ok (ok-injective h)
from_store-ok (err e) h = cc

ticket_count-ok :
    (db : Database) (pool : Digest32) (round_id : ℕ) {n : ℕ}
    → ticket_count db pool round_id ≡ ok n
    → n ≡ length (commitments db.join_tickets pool round_id)
unfolding ticket_count
ticket_count-ok db pool round_id {n} h =
    let (id, in_range, h₁) = >>=-eq-ok (as_i64 round_id) _ h in
    let (_, same) = as_i64-ok round_id in_range in
    let (_, h₂) = guarded _ _ _ h₁ in
    sym (ok-injective h₂) ∙ ap (λ (i : ℕ). length (commitments db.join_tickets pool i)) same

added_at :
    (row : TicketRow) (rows : List TicketRow) {pool : Bytes} {round : ℕ}
    → row.pool_id ≡ pool
    → row.round_id ≡ round
    → commitments (row ∷ rows) pool round ≡ row.commitment ∷ commitments rows pool round
added_at row rows {pool} {round} p q =
    subst (λ n. commitments (row ∷ rows) pool n ≡ row.commitment ∷ commitments rows pool n) q
      (subst
        (λ k.
          commitments (row ∷ rows) k row.round_id
          ≡ row.commitment ∷ commitments rows k row.round_id)
        p (commitments-at row rows))

-- One of the atomic steps of the coordinator. The steps of several requests may interleave.
pub data Event : Type 0 where
  rating : ℕ → ℕ → Event
  entering : JoinTicket → ℕ → Event
  sealing : Event

-- A step that panics leaves the coordinator as it was.
abbrev pub after_seal : {A : Type 0} → Coordinator → Option (Coordinator × A) → Coordinator
after_seal c none = c
after_seal c (some (c', result)) = c'

-- The number of tickets of the coordinator's round.
abbrev pub size : Coordinator → ℕ
size c =
    length (commitments c.database.join_tickets c.config.binding.pool_id c.config.binding.round_id)

abbrev pub Fits : Coordinator → Coordinator → Type 0
Fits c c' = (c'.config ≡ c.config) × (size c' ≤ c.config.maximum_participants)

module _ (blake3 : Bytes → Bytes) (tickets : TicketJson) (ed25519 : Ed25519)
    (stored : Json JoinTicket) where
  -- What a ticket that entered has met, and what it leaves.
  pub record Entered (config : CoordinatorConfig) (db db' : Database) (t : JoinTicket) (now : ℕ)
      (leaf : Digest32) : Type 0 where
    pub valid : IsValid tickets ed25519 t now config.binding
    pub committed : commitment tickets blake3 t ≡ ok leaf
    pub room :
        length (commitments db.join_tickets config.binding.pool_id config.binding.round_id)
        < config.maximum_participants
    pub added :
        commitments db'.join_tickets config.binding.pool_id config.binding.round_id
        ≡ leaf ∷ commitments db.join_tickets config.binding.pool_id config.binding.round_id

  -- A ticket is taken in only if it is valid for the coordinator's own pool, round and template at the
  -- slot and the round has room; the round then has its commitment, and no other, in addition.
  pub try_enter-Entered :
      (config : CoordinatorConfig) (db : Database) (t : JoinTicket) (now : ℕ) {db' : Database}
      {leaf : Digest32}
      → try_enter blake3 tickets ed25519 stored config db t now ≡ ok (db', leaf)
      → Entered config db db' t now leaf
  unfolding try_enter
  try_enter-Entered config db t now {db'} {leaf} h =
      let (_, verified, h₁) =
        >>=-eq-ok (map_err (verify tickets ed25519 t now config.binding) invalid_ticket) _ h in
      let (count, counted, h₂) =
        >>=-eq-ok (from_store (ticket_count db config.binding.pool_id config.binding.round_id)) _
          h₁ in
      let (room, h₃) = guarded (leb config.maximum_participants count) _ _ h₂ in
      let valid =
        (verify-iff-IsValid tickets ed25519 t now config.binding).0
          (map_err-ok (verify tickets ed25519 t now config.binding) invalid_ticket verified) in
      let (committed, _, text, a) =
        accept_ticket-ok blake3 tickets stored db t
          (from_store-ok (accept_ticket blake3 tickets stored db t) h₃) in
      record {
        valid = valid;
        committed = committed;
        room =
            subst (λ k. k < config.maximum_participants)
              (ticket_count-ok db config.binding.pool_id config.binding.round_id
                (from_store-ok _ counted))
              (leb-false→lt config.maximum_participants count room);
        added =
            ap
              (λ (rows : List TicketRow).
                commitments rows config.binding.pool_id config.binding.round_id)
              a.added
            ∙ added_at (row_of t leaf text) db.join_tickets valid.pool valid.round;
      }

  module _ (json : Json CohortProof) where
    unfoldable pub step : Coordinator → Event → Coordinator
    unfolding check_rate enter seal
    step c (rating now reset) = record c {
      rate = (check_rate c.config.requests_per_minute c.rate now reset).0;
    }
    step c (entering t slot) = (enter blake3 tickets ed25519 stored c t slot).0
    step c sealing = after_seal c (seal blake3 json c)

    unfoldable pub steps : Coordinator → List Event → Coordinator
    unfolding step
    steps c [] = c
    steps c (e ∷ es) = steps (step c e) es

    enter-Fits :
        (c : Coordinator) (t : JoinTicket) (slot : ℕ)
        → size c ≤ c.config.maximum_participants
        → Fits c (enter blake3 tickets ed25519 stored c t slot).0
    unfolding enter
    enter-Fits c t slot within =
        by_result (try_enter blake3 tickets ed25519 stored c.config c.database t slot) refl
      where
        by_result :
            (m : Result (Database × Digest32) CoordinatorError)
            → try_enter blake3 tickets ed25519 stored c.config c.database t slot ≡ m
            → Fits c (record c { database = (keep c.database m).0 })
        by_result (err e) same = (refl, within)
        by_result (ok (db', leaf)) same =
            let entered = try_enter-Entered c.config c.database t slot same in
            (
              refl,
              subst (λ (l : List Bytes). length l ≤ c.config.maximum_participants)
                  (sym entered.added) (omega (arith, entered.room)),
            )

    seal-Fits :
        (c : Coordinator)
        → size c ≤ c.config.maximum_participants
        → Fits c (after_seal c (seal blake3 json c))
    unfolding seal
    seal-Fits c within =
        by_result
          (seal_cohort blake3 json c.database c.config.binding.pool_id c.config.binding.round_id
            c.config.minimum_participants)
          refl
      where
        by_result :
            (m : Option (Result (Database × (Digest32 × ℕ)) StoreError))
            → seal_cohort blake3 json c.database c.config.binding.pool_id c.config.binding.round_id
                c.config.minimum_participants
              ≡ m
            → Fits c (
                after_seal c (elim m [
                  | none ↦ none
                  | some result ↦
                      let left = keep c.database (from_store result) in
                      some (record c { database = left.0 }, left.1)
                ]))
        by_result none same = (refl, within)
        by_result (some (err e)) same = (refl, within)
        by_result (some (ok (db', x))) same = (
          refl,
          subst
              (λ (rows : List TicketRow).
                length (commitments rows c.config.binding.pool_id c.config.binding.round_id)
                ≤ c.config.maximum_participants)
              (sym (seal_cohort-tickets blake3 json c.database _ _ _ same)) within,
        )

    step-Fits :
        (c : Coordinator) (e : Event) → size c ≤ c.config.maximum_participants → Fits c (step c e)
    unfolding step
    step-Fits c (rating now reset) within = (refl, within)
    step-Fits c (entering t slot) within = enter-Fits c t slot within
    step-Fits c sealing within = seal-Fits c within

    -- However the steps of requests interleave, the round never holds more tickets than the configured
    -- maximum, if it did not at the start.
    pub steps-bounded :
        (c : Coordinator) (es : List Event)
        → size c ≤ c.config.maximum_participants
        → size (steps c es) ≤ c.config.maximum_participants
    unfolding steps
    steps-bounded c [] within = within
    steps-bounded c (e ∷ es) within =
        let (same, fits) = step-Fits c e within in
        subst (λ (k : CoordinatorConfig). size (steps (step c e) es) ≤ k.maximum_participants) same
          (steps-bounded (step c e) es (
            subst (λ (k : CoordinatorConfig). size (step c e) ≤ k.maximum_participants) (sym same)
              fits))
