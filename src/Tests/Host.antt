-- ===== src/Tests/Host.antt =====
-- A concrete runtime for programs/mirror-pool-program: codecs that meet the laws assumed of borsh, and
-- a small bank. It shows that the hypotheses can hold, and serves the examples.
use mathlib.Core.List.{append_assoc}
use mathlib.Core.Option.{some-injective}
use mirror_pool.Prelude.{
  ℕ, ◌≡◌, Bool, true, false, Option, none, some, List, [], ◌∷◌, ◌++◌, Bytes, ok, refl, ap, length,
  take, drop, take-append, drop-append, replicate, if◌then◌else◌, ◌==◌,
}
use mirror_pool.Program.Runtime.{
  Backend, State, PoolAccount, RoundAccount, ParticipantRecord, Codec, Host, store,
}
use mirror_pool.Program.Effects.{RoundTrips}

-- A byte string behind its length.
unfoldable pub put : Bytes → Bytes → Bytes
put xs rest = length xs ∷ (xs ++ rest)

unfoldable pub chunk : Bytes → Bytes × Bytes
chunk [] = ([], [])
chunk (n ∷ xs) = (take n xs, drop n xs)

pub chunk-put : (xs rest : Bytes) → chunk (put xs rest) ≡ (xs, rest)
unfolding chunk put
chunk-put xs rest = λ i. (take-append xs rest i, drop-append xs rest i)

pub put-append : (xs ys rest : Bytes) → put xs ys ++ rest ≡ put xs (ys ++ rest)
unfolding put
put-append xs ys rest = ap (◌∷◌ (length xs)) (append_assoc xs ys rest)

abbrev pub state_code : State → ℕ
state_code State.registration = 0
state_code State.threshold_reached = 1
state_code State.sealed = 2
state_code State.release_scheduled = 3
state_code State.execution_window = 4
state_code State.finalizing = 5
state_code State.completed = 6
state_code State.cancelled = 7
state_code State.expired = 8

abbrev pub state_of : ℕ → State
state_of n =
    if n == 0
    then State.registration
    else if n == 1
    then State.threshold_reached
    else if n == 2
    then State.sealed
    else if n == 3
    then State.release_scheduled
    else if n == 4
    then State.execution_window
    else if n == 5
    then State.finalizing
    else if n == 6
    then State.completed
    else if n == 7
    then State.cancelled
    else State.expired

state_of-state_code : (s : State) → state_of (state_code s) ≡ s
state_of-state_code State.registration = refl
state_of-state_code State.threshold_reached = refl
state_of-state_code State.sealed = refl
state_of-state_code State.release_scheduled = refl
state_of-state_code State.execution_window = refl
state_of-state_code State.finalizing = refl
state_of-state_code State.completed = refl
state_of-state_code State.cancelled = refl
state_of-state_code State.expired = refl

abbrev pub encode_round : RoundAccount → Bytes
encode_round r =
    r.version
    ∷ r.bump
    ∷ r.round_id
    ∷ state_code r.state
    ∷ r.registration_deadline
    ∷ r.accepted_count
    ∷ r.release_slot
    ∷ r.window_end_slot
    ∷ put r.pool (put r.template_hash (put r.cohort_root (put r.metrics_hash [])))

abbrev pub decode_round : Bytes → Option RoundAccount
decode_round (v ∷ bump ∷ id ∷ st ∷ deadline ∷ count ∷ release ∷ end_slot ∷ xs) =
    let (pool, xs₁) = chunk xs in
    let (template, xs₂) = chunk xs₁ in
    let (root, xs₃) = chunk xs₂ in
    let (metrics, _) = chunk xs₃ in
    some (record {
      version = v;
      bump = bump;
      pool = pool;
      round_id = id;
      state = state_of st;
      registration_deadline = deadline;
      template_hash = template;
      accepted_count = count;
      cohort_root = root;
      release_slot = release;
      window_end_slot = end_slot;
      metrics_hash = metrics;
    })
decode_round _ = none

abbrev pub rounds : Codec RoundAccount
rounds = record { to_vec = λ r. some (encode_round r); deserialize = decode_round }

encode_round-decode :
    (r : RoundAccount) (rest : Bytes) → decode_round (encode_round r ++ rest) ≡ some r
encode_round-decode r rest = simp (put-append, chunk-put, state_of-state_code)

pub rounds-RoundTrips : RoundTrips rounds
rounds-RoundTrips r bytes rest e = rw (← some-injective _ _ e) (encode_round-decode r rest)

abbrev pub backend_code : Backend → ℕ
backend_code Backend.transparent_registry = 0
backend_code Backend.merkle_cohort = 1

abbrev pub backend_of : ℕ → Backend
backend_of n = if n == 0 then Backend.transparent_registry else Backend.merkle_cohort

pub backend_of-backend_code : (k : Backend) → backend_of (backend_code k) ≡ k
backend_of-backend_code Backend.transparent_registry = refl
backend_of-backend_code Backend.merkle_cohort = refl

abbrev pub bool_code : Bool → ℕ
bool_code true = 1
bool_code false = 0

bool_code-test : (k : Bool) → (bool_code k == 1) ≡ k
bool_code-test true = refl
bool_code-test false = refl

abbrev pub encode_pool : PoolAccount → Bytes
encode_pool p =
    p.version
    ∷ p.bump
    ∷ p.min_participants
    ∷ p.max_participants
    ∷ p.min_release_delay
    ∷ p.max_release_delay
    ∷ p.execution_window
    ∷ backend_code p.backend
    ∷ p.next_round
    ∷ bool_code p.paused
    ∷ put p.authority (put p.pool_id (put p.template_hash []))

abbrev pub decode_pool : Bytes → Option PoolAccount
decode_pool (v ∷ bump ∷ low ∷ high ∷ early ∷ late ∷ window ∷ backend ∷ next ∷ paused ∷ xs) =
    let (authority, xs₁) = chunk xs in
    let (id, xs₂) = chunk xs₁ in
    let (template, _) = chunk xs₂ in
    some (record {
      version = v;
      bump = bump;
      authority = authority;
      pool_id = id;
      template_hash = template;
      min_participants = low;
      max_participants = high;
      min_release_delay = early;
      max_release_delay = late;
      execution_window = window;
      backend = backend_of backend;
      next_round = next;
      paused = paused == 1;
    })
decode_pool _ = none

abbrev pub pools : Codec PoolAccount
pools = record { to_vec = λ p. some (encode_pool p); deserialize = decode_pool }

encode_pool-decode : (p : PoolAccount) (rest : Bytes) → decode_pool (encode_pool p ++ rest) ≡ some p
encode_pool-decode p rest = simp (put-append, chunk-put, backend_of-backend_code, bool_code-test)

pub pools-RoundTrips : RoundTrips pools
pools-RoundTrips p bytes rest e = rw (← some-injective _ _ e) (encode_pool-decode p rest)

abbrev pub encode_participant : ParticipantRecord → Bytes
encode_participant p = p.version ∷ p.bump ∷ put p.round (put p.coordination_key [])

abbrev pub decode_participant : Bytes → Option ParticipantRecord
decode_participant (v ∷ bump ∷ xs) =
    let (round, xs₁) = chunk xs in
    let (key, _) = chunk xs₁ in
    some (record { version = v; bump = bump; round = round; coordination_key = key })
decode_participant _ = none

abbrev pub participants : Codec ParticipantRecord
participants = record {
  to_vec = λ p. some (encode_participant p);
  deserialize = decode_participant;
}

encode_participant-decode :
    (p : ParticipantRecord) (rest : Bytes)
    → decode_participant (encode_participant p ++ rest) ≡ some p
encode_participant-decode p rest = simp (put-append, chunk-put)

pub participants-RoundTrips : RoundTrips participants
participants-RoundTrips p bytes rest e =
    rw (← some-injective _ _ e) (encode_participant-decode p rest)

-- The number in the last seed.
abbrev pub bump_of : List Bytes → ℕ
bump_of [] = 0
bump_of ((n ∷ []) ∷ []) = n
bump_of (seed ∷ seeds) = bump_of seeds

-- A program address is the key that its bump names; the system program hands out zeroed space.
abbrev pub host_at : ℕ → Host
host_at slot = record {
  create_program_address = λ seeds program_id. some (bump_of seeds ∷ []);
  clock_slot = ok slot;
  minimum_balance = ok (λ size. size);
  create_account = λ b payer account lamports space owner seeds. ok (
      store b account
        (record { owner = owner; lamports = lamports; contents = replicate space 0 }));
  system_program = 0 ∷ [];
  u64_le_bytes = λ n. n ∷ [];
  try_from_slice = λ input. none;
  pools = pools;
  rounds = rounds;
  participants = participants;
}
