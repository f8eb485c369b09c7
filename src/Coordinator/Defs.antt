-- ===== src/Coordinator/Defs.antt =====
-- crates/mirror-pool-coordinator/src/lib.rs: the coordinator and its handlers. An instant is the number
-- of nanoseconds on the monotonic clock; the slot is what the slot source returns. The two mutexes make
-- `check_rate` and `enter` (the rest of `submit_ticket`) atomic, so that they are separate steps.
use mirror_pool.Prelude.{
  ℕ, ◌+◌, ◌-◌, not, Option, none, some, Bytes, leb, ltb, ◌==◌, if◌then◌else◌, Result, ok, err,
  ◌>>=◌, ◌>>◌, fail_if, ok_or, map_err, length, u32_mod,
}
use mirror_pool.Core.Defs.{Digest32}
use mirror_pool.Merkle.Defs.{CohortProof}
use mirror_pool.Crypto.Defs.{JoinTicket, TicketBinding, TicketJson, Ed25519, verify}
use mirror_pool.Store.Tables.{StoreError, duplicate_ticket, conflicting_schedule, Database}
use mirror_pool.Store.Defs.{Json, ticket_count, accept_ticket, proof_of}
use mirror_pool.Store.Sealing.{seal_cohort}

-- The address to listen on is left out.
pub record CoordinatorConfig : Type 0 where
  pub binding : TicketBinding
  pub minimum_participants : ℕ
  pub maximum_participants : ℕ
  pub requests_per_minute : ℕ
  pub max_body_bytes : ℕ

-- `io` is an error of the listener.
pub data CoordinatorError : Type 0 where
  invalid_ticket invalid_commitment rate_limited cohort_full proof_not_found rpc_clock io :
      CoordinatorError
  store : StoreError → CoordinatorError

pub record RateState : Type 0 where
  pub window_started : ℕ
  pub accepted : ℕ

pub record Coordinator : Type 0 where
  pub config : CoordinatorConfig
  pub database : Database
  pub rate : RateState

-- `Coordinator::new`, at an instant.
unfoldable pub new : CoordinatorConfig → Database → ℕ → Coordinator
new config database now = record {
  config = config;
  database = database;
  rate = record { window_started = now; accepted = 0 };
}

-- `Duration::from_secs(60)`
abbrev pub minute : ℕ
minute = 60000000000

abbrev pub saturating_succ : ℕ → ℕ
saturating_succ n = if ltb (n + 1) u32_mod then n + 1 else n

-- The window as `check_rate` leaves it before its check: the first instant is that of `elapsed`, the
-- second that of the reset.
unfoldable pub roll : RateState → ℕ → ℕ → RateState
roll rate now reset =
    if leb minute (now - rate.window_started)
    then record { window_started = reset; accepted = 0 }
    else rate

unfoldable pub check_rate : ℕ → RateState → ℕ → ℕ → RateState × Result Unit CoordinatorError
unfolding roll
check_rate limit rate now reset =
    let rolled = roll rate now reset in
    if leb limit rolled.accepted
    then (rolled, err rate_limited)
    else (record rolled { accepted = saturating_succ rolled.accepted }, ok tt)

-- `CoordinatorError::from` on the error of the store.
abbrev pub from_store : {A : Type 0} → Result A StoreError → Result A CoordinatorError
from_store (ok a) = ok a
from_store (err e) = err (store e)

-- `IntoResponse for CoordinatorError`: the status code.
unfoldable pub status : CoordinatorError → ℕ
status invalid_ticket = 400
status invalid_commitment = 400
status rate_limited = 429
status cohort_full = 409
status proof_not_found = 404
status (store duplicate_ticket) = 409
status (store conflicting_schedule) = 409
status rpc_clock = 503
status (store e) = 500
status io = 500

-- The database that a store method leaves, and its value.
abbrev pub keep :
    {A : Type 0}
    → Database
    → Result (Database × A) CoordinatorError
    → Database × Result A CoordinatorError
keep db (ok (db', a)) = (db', ok a)
keep db (err e) = (db, err e)

module _ (blake3 : Bytes → Bytes) where
  module _ (tickets : TicketJson) (ed25519 : Ed25519) (stored : Json JoinTicket) where
    -- `submit_ticket` after `check_rate`, as a result.
    unfoldable pub try_enter :
        CoordinatorConfig
        → Database
        → JoinTicket
        → ℕ
        → Result (Database × Digest32) CoordinatorError
    unfolding verify ticket_count accept_ticket
    try_enter config db ticket current_slot = do
      map_err (verify tickets ed25519 ticket current_slot config.binding) invalid_ticket
      count ← from_store (ticket_count db config.binding.pool_id config.binding.round_id)
      fail_if (leb config.maximum_participants count) cohort_full
      from_store (accept_ticket blake3 tickets stored db ticket)

    unfoldable pub enter :
        Coordinator → JoinTicket → ℕ → Coordinator × Result Digest32 CoordinatorError
    unfolding try_enter
    enter c ticket current_slot =
        let left = keep c.database (try_enter c.config c.database ticket current_slot) in
        (record c { database = left.0 }, left.1)

    unfoldable pub submit_ticket :
        Coordinator → JoinTicket → ℕ → ℕ → ℕ → Coordinator × Result Digest32 CoordinatorError
    unfolding check_rate enter
    submit_ticket c ticket current_slot now reset =
        let checked = check_rate c.config.requests_per_minute c.rate now reset in
        let c' : Coordinator = record c { rate = checked.0 } in
        let entered = enter c' ticket current_slot in
        elim checked.1 [ err e ↦ (c', err e) | ok passed ↦ entered ]

    -- The handler of `/v1/tickets`, with what the slot source returned.
    unfoldable pub submit :
        Coordinator
        → Result ℕ CoordinatorError
        → JoinTicket
        → ℕ
        → ℕ
        → Coordinator × Result Digest32 CoordinatorError
    unfolding submit_ticket
    submit c (err e) ticket now reset = (c, err e)
    submit c (ok current_slot) ticket now reset = submit_ticket c ticket current_slot now reset

  module _ (json : Json CohortProof) where
    -- `none` is a panic of the store.
    unfoldable pub seal :
        Coordinator → Option (Coordinator × Result (Digest32 × ℕ) CoordinatorError)
    unfolding seal_cohort
    seal c =
        elim (seal_cohort blake3 json c.database c.config.binding.pool_id c.config.binding.round_id
          c.config.minimum_participants) [
            | none ↦ none
            | some result ↦
                let left = keep c.database (from_store result) in
                some (record c { database = left.0 }, left.1)
          ]

  unfoldable pub proof :
      Json CohortProof → Coordinator → Digest32 → Result (Option CohortProof) CoordinatorError
  unfolding proof_of
  proof json c commitment =
      from_store
        (proof_of json c.database c.config.binding.pool_id c.config.binding.round_id commitment)

  -- The handler of `/v1/proofs/{commitment}`; `hex::decode` is the parameter `decode`.
  unfoldable pub proof_handler :
      Json CohortProof
      → (decode : Bytes → Option Bytes) → Coordinator
      → Bytes
      → Result CohortProof CoordinatorError
  unfolding proof
  proof_handler json decode c hex_value = do
    bytes ← ok_or (decode hex_value) invalid_commitment
    fail_if (not (length bytes == 32)) invalid_commitment
    found ← proof json c bytes
    ok_or found proof_not_found
