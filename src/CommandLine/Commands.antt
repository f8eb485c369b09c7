-- ===== src/CommandLine/Commands.antt =====
-- crates/mirror-pool-cli/src/main.rs: the commands on pools, rounds, tickets, proofs and evaluations. What
-- they print is left out. Command lines that clap refuses do not get here.
use mirror_pool.Prelude.{
  ℕ, ◌*◌, ◌==◌, Option, none, some, [], ◌∷◌, Bytes, codes, Result, ok, err, length, checked_add,
  u64_mod, if◌then◌else◌,
}
use mirror_pool.Core.Defs.{
  Digest32, PrivacyBackend, GovernancePolicy, CompletionPolicy, Cluster, UnixTime, PoolConfig,
  Round, RoundState, schema_version, zero32, hash, compute_hash, validate,
}
use mirror_pool.Merkle.Defs.{CohortProof, verify}
use mirror_pool.Crypto.Defs.{JoinTicket, TicketBinding, TicketJson, Ed25519}
use mirror_pool.Store.Defs.{Json}
use mirror_pool.Actions.Defs.{ActionParameters, PreparedAction}
use mirror_pool.Client.Defs.{verify_round_configuration, create_join_ticket}
use mirror_pool.Coordinator.Defs.{CoordinatorConfig}
use mirror_pool.Simulator.Defs.{Scenario, narrow_window, default_features}
use mirror_pool.CommandLine.Files.{
  CliError, Io, ◌>>=◌, ◌>>◌, lift, reject, require, read, read_json, write_new_json, write_private,
  write,
}

pub data BackendArg : Type 0 where
  transparent merkle : BackendArg

abbrev pub backend_of : BackendArg → PrivacyBackend
backend_of transparent = PrivacyBackend.transparent_registry
backend_of merkle = PrivacyBackend.merkle_cohort

-- `PoolCommand::Create` without its output.
pub record PoolArgs : Type 0 where
  pub authority : Bytes
  pub minimum : ℕ
  pub maximum : ℕ
  pub backend : BackendArg
  pub registration_slots : ℕ
  pub execution_window_slots : ℕ

pub record TicketBindingFile : Type 0 where
  pub binding : TicketBinding
  pub expiry_slot : ℕ

pub record LocalTicket : Type 0 where
  pub ticket : JoinTicket
  pub coordination_secret : Bytes
  pub nonce : Bytes

-- What lies outside: hashes, keys, texts and clocks, the formats of the files, and what is drawn at
-- random. `current_slot` is what `inspect_rpc` gives.
pub record World : Type 0 where
  pub blake3 : Bytes → Bytes
  pub config_to_vec : PoolConfig → Option Bytes
  pub from_str : Bytes → Option Bytes
  pub hex_decode : Bytes → Option Bytes
  pub pools : Json PoolConfig
  pub rounds : Json Round
  pub bindings : Json TicketBindingFile
  pub local_tickets : Json LocalTicket
  pub tickets : Json JoinTicket
  pub proofs : Json CohortProof
  pub parameters : Json ActionParameters
  pub actions : Json PreparedAction
  pub ticket_json : TicketJson
  pub ed25519 : Ed25519
  pub current_slot : Option ℕ
  pub now : UnixTime
  pub pool_id : Bytes
  pub secret : Bytes
  pub nonce : Bytes

-- The evaluation that `mirror-pool evaluate` runs.
unfoldable pub scenario_of :
    {F : Type 0} → (participants seed window_slots : ℕ) → F → BackendArg → Scenario F
scenario_of participants seed window_slots dropout_rate backend = record {
  scenario_version = 1;
  seed = seed;
  participant_count = participants;
  backend = backend_of backend;
  release_strategy = narrow_window;
  execution_window_slots = window_slots;
  dropout_rate = dropout_rate;
  longitudinal_periods = 1;
  observer_features = default_features;
}

abbrev pub memo_program_id : Bytes
memo_program_id = codes "MemoSq4gqABAXKb96qnH8TysNcWxMyWCqXgDLGmfcHr"

module _ (w : World) where
  -- The configuration of `pool create` before its hash is set.
  unfoldable pub new_pool : PoolArgs → (authority memo : Bytes) → PoolConfig
  unfolding hash
  new_pool args authority memo = record {
    pool_id = w.pool_id;
    version = schema_version;
    governance = GovernancePolicy.single_authority authority;
    action_template_hash = hash w.blake3 (codes "action-template") (codes "memo-v1");
    min_participants = args.minimum;
    max_participants = args.maximum;
    registration_duration_slots = args.registration_slots;
    min_release_delay_slots = 2;
    max_release_delay_slots = 50;
    execution_window_slots = args.execution_window_slots;
    max_timing_dispersion_slots = args.execution_window_slots;
    privacy_backend = backend_of args.backend;
    allowed_clusters = Cluster.localnet ∷ [];
    allowed_program_ids = memo ∷ [];
    completion_policy = CompletionPolicy.redacted_receipt;
    created_at_unix = w.now;
    configuration_hash = zero32;
  }

  unfoldable pub pool_create : PoolArgs → (output : Bytes) → Io Unit
  unfolding new_pool compute_hash validate
  pool_create args output = do
    authority ← lift (require (w.from_str args.authority) CliError.invalid_key)
    memo ← lift (require (w.from_str memo_program_id) CliError.invalid_key)
    digest ← lift (reject (compute_hash w.blake3 w.config_to_vec (new_pool args authority memo)))
    let config : PoolConfig = record (new_pool args authority memo) { configuration_hash = digest }
    lift (reject (validate w.blake3 w.config_to_vec config))
    write_new_json w.pools output config

  -- The configuration that `pool inspect` prints.
  unfoldable pub pool_inspect : Bytes → Io PoolConfig
  unfolding validate
  pool_inspect path = do
    value ← read_json w.pools path
    lift (reject (validate w.blake3 w.config_to_vec value))
    lift (ok value)

  unfoldable pub new_round : PoolConfig → (round_id slot deadline : ℕ) → Round
  new_round config round_id slot deadline = record {
    pool_id = config.pool_id;
    round_id = round_id;
    state = RoundState.registration;
    registration_start_slot = slot;
    registration_deadline_slot = deadline;
    release_slot = none;
    execution_window_start = none;
    execution_window_end = none;
    expected_cohort_size = config.min_participants;
    accepted_cohort_size = 0;
    cohort_merkle_root = none;
    action_template_hash = config.action_template_hash;
    privacy_backend = config.privacy_backend;
    cancellation_reason = none;
    final_metrics_hash = none;
  }

  -- The slot that is given, or that of the RPC node.
  abbrev pub slot_of : Option ℕ → Result ℕ CliError
  slot_of (some value) = ok value
  slot_of none = require w.current_slot CliError.rejected

  unfoldable pub round_open :
      (pool output : Bytes) → (round_id : ℕ) → (current_slot : Option ℕ) → Io Unit
  unfolding validate new_round verify_round_configuration
  round_open pool output round_id current_slot = do
    config ← read_json w.pools pool
    lift (reject (validate w.blake3 w.config_to_vec config))
    slot ← lift (slot_of current_slot)
    deadline ← lift (
        require (checked_add u64_mod slot config.registration_duration_slots)
          CliError.deadline_overflow)
    let value = new_round config round_id slot deadline
    lift (reject (verify_round_configuration w.blake3 w.config_to_vec config value))
    write_new_json w.rounds output value

  unfoldable pub round_inspect : Bytes → Io Round
  round_inspect path = read_json w.rounds path

  unfoldable pub ticket_create : (binding output : Bytes) → Io Unit
  unfolding create_join_ticket
  ticket_create binding output = do
    bound ← read_json w.bindings binding
    (ticket, nonce) ← lift (
        reject (
          create_join_ticket w.ticket_json w.blake3 w.ed25519 w.nonce w.secret bound.binding
            bound.expiry_slot))
    write_private w.local_tickets output
        (record { ticket = ticket; coordination_secret = w.secret; nonce = nonce })

  -- `serde_json::from_slice(&bytes).or_else(...)`
  abbrev pub own_ticket : Option LocalTicket → Option JoinTicket
  own_ticket none = none
  own_ticket (some l) = some l.ticket

  abbrev pub or_local : Option JoinTicket → Bytes → Option JoinTicket
  or_local (some t) bytes = some t
  or_local none bytes = own_ticket (w.local_tickets.from_str bytes)

  -- The ticket that `ticket submit` posts to the coordinator.
  unfoldable pub ticket_submit : Bytes → Io JoinTicket
  ticket_submit path = do
    bytes ← read path
    lift (require (or_local (w.tickets.from_str bytes) bytes) CliError.json)

  unfoldable pub parse_digest : Bytes → Result Digest32 CliError
  parse_digest value = elim (w.hex_decode value) [
    | none ↦ err CliError.invalid_digest
    | some bytes ↦ if length bytes == 32 then ok bytes else err CliError.invalid_digest
  ]

  unfoldable pub proof_verify : (proof root : Bytes) → (round_id : ℕ) → Io Unit
  unfolding parse_digest verify
  proof_verify proof root round_id = do
    value ← read_json w.proofs proof
    digest ← lift (parse_digest root)
    lift (reject (verify w.blake3 value digest round_id))

  -- The configuration with which `coordinator run` serves.
  unfoldable pub coordinator_config :
      (pool_id template_hash : Bytes)
      → (round_id minimum maximum : ℕ) → Result CoordinatorConfig CliError
  unfolding parse_digest
  coordinator_config pool_id template_hash round_id minimum maximum = elim (parse_digest pool_id) [
    | err e ↦ err e
    | ok pool ↦ elim (parse_digest template_hash) [
      | err e ↦ err e
      | ok template ↦ ok (record {
        binding = record { pool_id = pool; round_id = round_id; action_template_hash = template };
        minimum_participants = minimum;
        maximum_participants = maximum;
        requests_per_minute = 120;
        max_body_bytes = 16 * 1024;
      })
    ]
  ]

  -- `evaluate_command`, from the text of its report on.
  unfoldable pub evaluate_output : (output : Option Bytes) → (text : Bytes) → Io Unit
  unfolding write
  evaluate_output none text = lift (ok tt)
  evaluate_output (some path) text = write path text
