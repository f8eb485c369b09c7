-- ===== src/Tests/Stores.antt =====
-- Examples for crates/mirror-pool-store and crates/mirror-pool-coordinator.
use mathlib.Core.Option.{some-injective}
use mathlib.Core.List.{Nodup-nil}
use mirror_pool.Prelude.{
  ℕ, zero, suc, ◌+◌, ◌≤◌, ◌≡◌, Option, none, some, List, [], ◌∷◌, Bytes, Result, ok, err, refl,
  bytes_eq, bytes_lt, length, arith, All,
}
use mirror_pool.Core.Defs.{Digest32, hash}
use mirror_pool.Merkle.Defs.{CohortProof, sort, build, root, proof}
use mirror_pool.Crypto.Defs.{JoinTicket}
use mirror_pool.Store.Tables.{StoreError, Database, commitments, find_proof, find_root}
use mirror_pool.Store.Defs.{Json, accept_ticket, root_of, proof_of, schedule_release}
use mirror_pool.Store.Sealing.{seal_cohort}
use mirror_pool.Store.Serving.{Serves, seal_cohort-Serves, seal_cohort_again}
use mirror_pool.Store.Accepting.{IsConsistent, late_ticket, accept_ticket-IsConsistent}
use mirror_pool.Store.Totality.{seal_cohort_total}
use mirror_pool.Store.Succeeding.{seal_cohort_succeeds}
use mirror_pool.Coordinator.Defs.{CoordinatorConfig, RateState, Coordinator, try_enter}
use mirror_pool.Coordinator.Rates.{passed, passed-bounded}
use mirror_pool.Coordinator.Limits.{
  Entered, try_enter-Entered, Event, rating, entering, sealing, steps, size, steps-bounded,
}
use mirror_pool.Tests.Host.{put, chunk, chunk-put}
use mirror_pool.Tests.Cohorts.{digest, digest_length}
use mirror_pool.Tests.Tickets.{
  scheme, ticket_json, encode_ticket, decode_ticket, ticket_for, leaf_for, binding,
}

abbrev put_all : List Bytes → Bytes
put_all [] = []
put_all (s ∷ ss) = put s (put_all ss)

abbrev take_all : ℕ → Bytes → List Bytes
take_all zero xs = []
take_all (suc n) xs = let (s, rest) = chunk xs in s ∷ take_all n rest

take_all-put_all : (ss : List Bytes) → take_all (length ss) (put_all ss) ≡ ss
take_all-put_all [] = refl
take_all-put_all (s ∷ ss) = simp (chunk-put, take_all-put_all ss)

abbrev encode_proof : CohortProof → Bytes
encode_proof p =
    p.leaf_index
    ∷ p.round_id
    ∷ length p.sibling_hashes
    ∷ put p.leaf_hash (put p.merkle_root (put_all p.sibling_hashes))

abbrev decode_proof : Bytes → Option CohortProof
decode_proof (i ∷ round ∷ n ∷ xs) =
    let (leaf, xs₁) = chunk xs in
    let (r, xs₂) = chunk xs₁ in
    some (record {
      leaf_hash = leaf;
      leaf_index = i;
      sibling_hashes = take_all n xs₂;
      merkle_root = r;
      round_id = round;
    })
decode_proof _ = none

abbrev proof_json : Json CohortProof
proof_json = record { to_string = λ p. some (encode_proof p); from_str = decode_proof }

encode_proof-decode : (p : CohortProof) → decode_proof (encode_proof p) ≡ some p
encode_proof-decode p = simp (chunk-put, take_all-put_all p.sibling_hashes)

proof_json_law :
    (p : CohortProof) (text : Bytes)
    → proof_json.to_string p ≡ some text
    → proof_json.from_str text ≡ some p
proof_json_law p text e = rw (← some-injective _ _ e) (encode_proof-decode p)

abbrev stored : Json JoinTicket
stored = record { to_string = λ t. some (encode_ticket t); from_str = decode_ticket }

abbrev empty : Database
empty = record {
  pools = [];
  configuration_snapshots = [];
  rounds = [];
  join_tickets = [];
  cohort_roots = [];
  cohort_proofs = [];
  release_schedules = [];
  immutable_events = [];
}

abbrev database_of : Result (Database × Digest32) StoreError → Database
database_of (ok (db, leaf)) = db
database_of (err e) = empty

abbrev sealed_of :
    Option (Result (Database × (Digest32 × ℕ)) StoreError) → Database × (Digest32 × ℕ)
sealed_of (some (ok x)) = x
sealed_of _ = (empty, ([], 0))

abbrev one_ticket : Database
one_ticket = database_of (accept_ticket digest ticket_json stored empty (ticket_for 3))

abbrev two_tickets : Database
two_tickets = database_of (accept_ticket digest ticket_json stored one_ticket (ticket_for 4))

abbrev sealed : Database × (Digest32 × ℕ)
sealed = sealed_of (seal_cohort digest proof_json two_tickets (1 ∷ []) 5 2)

accepts :
    accept_ticket digest ticket_json stored one_ticket (ticket_for 4) ≡ ok (two_tickets, leaf_for 4)
unfolding accept_ticket bytes_eq put hash
accepts = refl

seals : seal_cohort digest proof_json two_tickets (1 ∷ []) 5 2 ≡ some (ok sealed)
unfolding seal_cohort accept_ticket bytes_eq bytes_lt put hash sort build root proof
seals = refl

unsealed : root_of two_tickets (1 ∷ []) 5 ≡ ok none
unfolding root_of accept_ticket bytes_eq put hash
unsealed = refl

seal_cohort-Serves_example :
    (sealed.1.1 ≡ length (commitments two_tickets.join_tickets (1 ∷ []) 5))
    × (2 ≤ sealed.1.1)
    × (root_of sealed.0 (1 ∷ []) 5 ≡ ok (some (sealed.1.0, sealed.1.1)))
    × (sealed.0.join_tickets ≡ two_tickets.join_tickets)
    × All
        (Serves digest proof_json sealed.0 (1 ∷ []) 5 sealed.1.0)
        (commitments two_tickets.join_tickets (1 ∷ []) 5)
seal_cohort-Serves_example =
    seal_cohort-Serves digest proof_json proof_json_law two_tickets (1 ∷ []) 5 2 unsealed seals

seal_cohort_again_example : seal_cohort digest proof_json sealed.0 (1 ∷ []) 5 9 ≡ some (ok sealed)
seal_cohort_again_example = seal_cohort_again digest proof_json two_tickets (1 ∷ []) 5 2 9 seals

seal_cohort_total_example :
    (result : Result (Database × (Digest32 × ℕ)) StoreError) × (seal_cohort digest proof_json
        two_tickets
        (1 ∷ [])
        5
        2
      ≡ some result)
seal_cohort_total_example = seal_cohort_total digest proof_json two_tickets (1 ∷ []) 5 2

abbrev after_late : Database
after_late = database_of (accept_ticket digest ticket_json stored sealed.0 (ticket_for 6))

comes_late :
    accept_ticket digest ticket_json stored sealed.0 (ticket_for 6) ≡ ok (after_late, leaf_for 6)
unfolding seal_cohort accept_ticket bytes_eq bytes_lt put hash sort build root proof
comes_late = refl

unproved : (d : Digest32) → find_proof two_tickets.cohort_proofs (1 ∷ []) 5 d ≡ none
unfolding accept_ticket find_proof bytes_eq put hash
unproved d = refl

late_ticket_example :
    (seal_cohort digest proof_json after_late (1 ∷ []) 5 9
      ≡ some (ok (after_late, (sealed.1.0, sealed.1.1))))
    × (proof_of proof_json after_late (1 ∷ []) 5 (leaf_for 6) ≡ ok none)
    × (commitments after_late.join_tickets (1 ∷ []) 5
        ≡ leaf_for 6 ∷ commitments two_tickets.join_tickets (1 ∷ []) 5)
late_ticket_example =
    late_ticket digest ticket_json stored proof_json two_tickets (ticket_for 6) 2 9 unsealed
      unproved seals comes_late

empty-IsConsistent : IsConsistent empty
unfolding commitments
empty-IsConsistent pool round = (Nodup-nil, tt)

accepts_first :
    accept_ticket digest ticket_json stored empty (ticket_for 3) ≡ ok (one_ticket, leaf_for 3)
unfolding accept_ticket bytes_eq put hash
accepts_first = refl

accept_ticket-IsConsistent_example : IsConsistent one_ticket
accept_ticket-IsConsistent_example =
    accept_ticket-IsConsistent digest ticket_json stored empty (ticket_for 3) empty-IsConsistent
      accepts_first

two_tickets-IsConsistent : IsConsistent two_tickets
two_tickets-IsConsistent =
    accept_ticket-IsConsistent digest ticket_json stored one_ticket (ticket_for 4)
      (accept_ticket-IsConsistent digest ticket_json stored empty (ticket_for 3) empty-IsConsistent
        accepts_first)
      accepts

no_root : find_root two_tickets.cohort_roots (1 ∷ []) 5 ≡ none
unfolding accept_ticket find_root bytes_eq put hash
no_root = refl

no_proof : (leaf : Digest32) → find_proof two_tickets.cohort_proofs (1 ∷ []) 5 leaf ≡ none
unfolding accept_ticket find_proof bytes_eq put hash
no_proof leaf = refl

two_commitments : length (commitments two_tickets.join_tickets (1 ∷ []) 5) ≡ 2
unfolding accept_ticket commitments bytes_eq put hash
two_commitments = refl

seal_cohort_succeeds_example :
    (db' : Database) × (r : Digest32) × (seal_cohort digest proof_json two_tickets (1 ∷ []) 5 2
      ≡ some (ok (db', (r, length (commitments two_tickets.join_tickets (1 ∷ []) 5)))))
seal_cohort_succeeds_example =
    seal_cohort_succeeds digest digest_length proof_json (λ p. (encode_proof p, refl)) two_tickets
      (1 ∷ []) 5 2 two_tickets-IsConsistent (omega arith) no_root no_proof
      (omega (arith, two_commitments)) (omega (arith, two_commitments))
      (omega (arith, two_commitments))

abbrev scheduled : Database
scheduled = record empty {
  release_schedules =
      record { pool_id = 1 ∷ []; round_id = 5; release_slot = 30; window_end_slot = 34 } ∷ [];
}

schedules : schedule_release empty (1 ∷ []) 5 30 34 ≡ ok scheduled
unfolding schedule_release
schedules = refl

abbrev fresh_window : RateState
fresh_window = record { window_started = 0; accepted = 0 }

abbrev requests : List (ℕ × ℕ)
requests = (1, 2) ∷ (3, 4) ∷ (5, 6) ∷ []

passed-bounded_example : 0 + passed 2 fresh_window requests ≤ 2
passed-bounded_example =
    passed-bounded 2 fresh_window requests (omega arith) (omega arith)
      (omega arith, (omega arith, (omega arith, tt)))

abbrev config : CoordinatorConfig
config = record {
  binding = binding;
  minimum_participants = 2;
  maximum_participants = 3;
  requests_per_minute = 2;
  max_body_bytes = 16384;
}

enters :
    try_enter digest ticket_json scheme stored config one_ticket (ticket_for 4) 50
    ≡ ok (two_tickets, leaf_for 4)
unfolding try_enter accept_ticket bytes_eq put hash
enters = refl

try_enter-Entered_example :
    Entered digest ticket_json scheme stored config one_ticket two_tickets
      (ticket_for 4)
      50
      (leaf_for 4)
try_enter-Entered_example =
    try_enter-Entered digest ticket_json scheme stored config one_ticket (ticket_for 4) 50 enters

abbrev service : Coordinator
service = record { config = config; database = empty; rate = fresh_window }

abbrev events : List Event
events =
    rating 1 2
    ∷ entering (ticket_for 3) 50
    ∷ entering (ticket_for 4) 50
    ∷ sealing
    ∷ entering (ticket_for 6) 50
    ∷ entering (ticket_for 7) 50
    ∷ []

starts_empty : size service ≤ 3
unfolding commitments
starts_empty = omega arith

steps-bounded_example : size (steps digest ticket_json scheme stored proof_json service events) ≤ 3
steps-bounded_example =
    steps-bounded digest ticket_json scheme stored proof_json service events starts_empty
