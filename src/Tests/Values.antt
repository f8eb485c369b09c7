-- ===== src/Tests/Values.antt =====
-- The formats of the values in the files of crates/mirror-pool-cli.
use mirror_pool.Prelude.{ℕ, zero, suc, ◌≡◌, Bytes, refl, ◌==◌, if◌then◌else◌}
use mirror_pool.Core.Defs.{
  PrivacyBackend, GovernancePolicy, CompletionPolicy, Cluster, UnixTime, PoolConfig, Round,
  RoundState,
}
use mirror_pool.Crypto.Defs.{JoinTicket, TicketBinding}
use mirror_pool.Actions.Defs.{PreparedAction, SafetyClassification}
use mirror_pool.CommandLine.Commands.{LocalTicket, TicketBindingFile}
use mirror_pool.Tests.Formats.{Format, number, bytes, ◌⊗◌, ◌▹◌, mapped, option, list}

-- The formats of enums, by their number.
abbrev backend_number : PrivacyBackend → ℕ
backend_number PrivacyBackend.transparent_registry = 0
backend_number PrivacyBackend.merkle_cohort = 1

abbrev backend_at : ℕ → PrivacyBackend
backend_at n = if n == 0 then PrivacyBackend.transparent_registry else PrivacyBackend.merkle_cohort

pub backend_law : (b : PrivacyBackend) → backend_at (backend_number b) ≡ b
backend_law PrivacyBackend.transparent_registry = refl
backend_law PrivacyBackend.merkle_cohort = refl

abbrev backend : Format PrivacyBackend
backend = mapped number backend_at backend_number backend_law

abbrev cluster_number : Cluster → ℕ
cluster_number Cluster.localnet = 0
cluster_number Cluster.devnet = 1
cluster_number Cluster.testnet = 2
cluster_number Cluster.mainnet_beta = 3

abbrev cluster_at : ℕ → Cluster
cluster_at n =
    if n == 0
    then Cluster.localnet
    else if n == 1
    then Cluster.devnet
    else if n == 2
    then Cluster.testnet
    else Cluster.mainnet_beta

pub cluster_law : (c : Cluster) → cluster_at (cluster_number c) ≡ c
cluster_law Cluster.localnet = refl
cluster_law Cluster.devnet = refl
cluster_law Cluster.testnet = refl
cluster_law Cluster.mainnet_beta = refl

abbrev cluster : Format Cluster
cluster = mapped number cluster_at cluster_number cluster_law

abbrev completion_number : CompletionPolicy → ℕ
completion_number CompletionPolicy.disabled = 0
completion_number CompletionPolicy.redacted_receipt = 1
completion_number CompletionPolicy.public_observation_only = 2

abbrev completion_at : ℕ → CompletionPolicy
completion_at n =
    if n == 0
    then CompletionPolicy.disabled
    else if n == 1
    then CompletionPolicy.redacted_receipt
    else CompletionPolicy.public_observation_only

pub completion_law : (c : CompletionPolicy) → completion_at (completion_number c) ≡ c
completion_law CompletionPolicy.disabled = refl
completion_law CompletionPolicy.redacted_receipt = refl
completion_law CompletionPolicy.public_observation_only = refl

abbrev completion : Format CompletionPolicy
completion = mapped number completion_at completion_number completion_law

abbrev safety_number : SafetyClassification → ℕ
safety_number SafetyClassification.local_only = 0
safety_number SafetyClassification.low_risk = 1
safety_number SafetyClassification.prohibited = 2

abbrev safety_at : ℕ → SafetyClassification
safety_at n =
    if n == 0
    then SafetyClassification.local_only
    else if n == 1
    then SafetyClassification.low_risk
    else SafetyClassification.prohibited

pub safety_law : (c : SafetyClassification) → safety_at (safety_number c) ≡ c
safety_law SafetyClassification.local_only = refl
safety_law SafetyClassification.low_risk = refl
safety_law SafetyClassification.prohibited = refl

abbrev safety : Format SafetyClassification
safety = mapped number safety_at safety_number safety_law

abbrev state_number : RoundState → ℕ
state_number RoundState.draft = 0
state_number RoundState.registration = 1
state_number RoundState.threshold_reached = 2
state_number RoundState.sealed = 3
state_number RoundState.release_scheduled = 4
state_number RoundState.execution_window = 5
state_number RoundState.finalizing = 6
state_number RoundState.completed = 7
state_number RoundState.cancelled = 8
state_number RoundState.expired = 9

abbrev state_at : ℕ → RoundState
state_at n =
    if n == 0
    then RoundState.draft
    else if n == 1
    then RoundState.registration
    else if n == 2
    then RoundState.threshold_reached
    else if n == 3
    then RoundState.sealed
    else if n == 4
    then RoundState.release_scheduled
    else if n == 5
    then RoundState.execution_window
    else if n == 6
    then RoundState.finalizing
    else if n == 7
    then RoundState.completed
    else if n == 8
    then RoundState.cancelled
    else RoundState.expired

pub state_law : (s : RoundState) → state_at (state_number s) ≡ s
state_law RoundState.draft = refl
state_law RoundState.registration = refl
state_law RoundState.threshold_reached = refl
state_law RoundState.sealed = refl
state_law RoundState.release_scheduled = refl
state_law RoundState.execution_window = refl
state_law RoundState.finalizing = refl
state_law RoundState.completed = refl
state_law RoundState.cancelled = refl
state_law RoundState.expired = refl

abbrev state : Format RoundState
state = mapped number state_at state_number state_law

abbrev time_parts : UnixTime → ℕ × ℕ
time_parts (UnixTime.since n) = (0, n)
time_parts (UnixTime.before n) = (1, n)

abbrev time_at : ℕ × ℕ → UnixTime
time_at (zero, n) = UnixTime.since n
time_at (suc _, n) = UnixTime.before n

pub time_law : (t : UnixTime) → time_at (time_parts t) ≡ t
time_law (UnixTime.since n) = refl
time_law (UnixTime.before n) = refl

abbrev time : Format UnixTime
time = mapped (number ⊗ number) time_at time_parts time_law

abbrev authority_of : GovernancePolicy → Bytes
authority_of (GovernancePolicy.single_authority key) = key

pub authority_law : (g : GovernancePolicy) → GovernancePolicy.single_authority (authority_of g) ≡ g
authority_law (GovernancePolicy.single_authority key) = refl

abbrev governance : Format GovernancePolicy
governance = mapped bytes GovernancePolicy.single_authority authority_of authority_law

abbrev pub ticket : Format JoinTicket
ticket =
    mapped (number ⊗ bytes ⊗ number ⊗ bytes ⊗ bytes ⊗ bytes ⊗ number ⊗ bytes)
      (λ x. record {
        schema_version = x.0;
        pool_id = x.1.0;
        round_id = x.1.1.0;
        action_template_hash = x.1.1.1.0;
        coordination_public_key = x.1.1.1.1.0;
        nonce_commitment = x.1.1.1.1.1.0;
        expiry_slot = x.1.1.1.1.1.1.0;
        signature = x.1.1.1.1.1.1.1;
      })
      (λ v.
        v.schema_version ▹ v.pool_id ▹ v.round_id ▹ v.action_template_hash
        ▹ v.coordination_public_key ▹ v.nonce_commitment ▹ v.expiry_slot ▹ v.signature)
      (λ v. refl)

abbrev pub local_ticket : Format LocalTicket
local_ticket =
    mapped (ticket ⊗ bytes ⊗ bytes)
      (λ x. record { ticket = x.0; coordination_secret = x.1.0; nonce = x.1.1 })
      (λ v. v.ticket ▹ v.coordination_secret ▹ v.nonce) (λ v. refl)

abbrev pub binding : Format TicketBinding
binding =
    mapped (bytes ⊗ number ⊗ bytes)
      (λ x. record { pool_id = x.0; round_id = x.1.0; action_template_hash = x.1.1 })
      (λ v. v.pool_id ▹ v.round_id ▹ v.action_template_hash) (λ v. refl)

abbrev pub binding_file : Format TicketBindingFile
binding_file =
    mapped (binding ⊗ number) (λ x. record { binding = x.0; expiry_slot = x.1 })
      (λ v. v.binding ▹ v.expiry_slot) (λ v. refl)

abbrev pub action : Format PreparedAction
action =
    mapped (bytes ⊗ list bytes ⊗ number ⊗ bytes ⊗ number ⊗ number ⊗ number ⊗ number ⊗ safety)
      (λ x. record {
        template_id = x.0;
        program_ids = x.1.0;
        instruction_count = x.1.1.0;
        payload = x.1.1.1.0;
        compute_units = x.1.1.1.1.0;
        priority_fee_micro_lamports = x.1.1.1.1.1.0;
        value = x.1.1.1.1.1.1.0;
        estimated_size = x.1.1.1.1.1.1.1.0;
        safety = x.1.1.1.1.1.1.1.1;
      })
      (λ v.
        v.template_id ▹ v.program_ids ▹ v.instruction_count ▹ v.payload ▹ v.compute_units
        ▹ v.priority_fee_micro_lamports ▹ v.value ▹ v.estimated_size ▹ v.safety)
      (λ v. refl)

abbrev pub pool : Format PoolConfig
pool =
    mapped
      (bytes
        ⊗ number
        ⊗ governance
        ⊗ bytes
        ⊗ number
        ⊗ number
        ⊗ number
        ⊗ number
        ⊗ number
        ⊗ number
        ⊗ number
        ⊗ backend
        ⊗ list cluster
        ⊗ list bytes
        ⊗ completion
        ⊗ time
        ⊗ bytes)
      (λ x. record {
        pool_id = x.0;
        version = x.1.0;
        governance = x.1.1.0;
        action_template_hash = x.1.1.1.0;
        min_participants = x.1.1.1.1.0;
        max_participants = x.1.1.1.1.1.0;
        registration_duration_slots = x.1.1.1.1.1.1.0;
        min_release_delay_slots = x.1.1.1.1.1.1.1.0;
        max_release_delay_slots = x.1.1.1.1.1.1.1.1.0;
        execution_window_slots = x.1.1.1.1.1.1.1.1.1.0;
        max_timing_dispersion_slots = x.1.1.1.1.1.1.1.1.1.1.0;
        privacy_backend = x.1.1.1.1.1.1.1.1.1.1.1.0;
        allowed_clusters = x.1.1.1.1.1.1.1.1.1.1.1.1.0;
        allowed_program_ids = x.1.1.1.1.1.1.1.1.1.1.1.1.1.0;
        completion_policy = x.1.1.1.1.1.1.1.1.1.1.1.1.1.1.0;
        created_at_unix = x.1.1.1.1.1.1.1.1.1.1.1.1.1.1.1.0;
        configuration_hash = x.1.1.1.1.1.1.1.1.1.1.1.1.1.1.1.1;
      })
      (λ v.
        v.pool_id ▹ v.version ▹ v.governance ▹ v.action_template_hash ▹ v.min_participants
        ▹ v.max_participants ▹ v.registration_duration_slots ▹ v.min_release_delay_slots
        ▹ v.max_release_delay_slots ▹ v.execution_window_slots ▹ v.max_timing_dispersion_slots
        ▹ v.privacy_backend ▹ v.allowed_clusters ▹ v.allowed_program_ids ▹ v.completion_policy
        ▹ v.created_at_unix ▹ v.configuration_hash)
      (λ v. refl)

abbrev pub round : Format Round
round =
    mapped
      (bytes
        ⊗ number
        ⊗ state
        ⊗ number
        ⊗ number
        ⊗ option number
        ⊗ option number
        ⊗ option number
        ⊗ number
        ⊗ number
        ⊗ option bytes
        ⊗ bytes
        ⊗ backend
        ⊗ option bytes
        ⊗ option bytes)
      (λ x. record {
        pool_id = x.0;
        round_id = x.1.0;
        state = x.1.1.0;
        registration_start_slot = x.1.1.1.0;
        registration_deadline_slot = x.1.1.1.1.0;
        release_slot = x.1.1.1.1.1.0;
        execution_window_start = x.1.1.1.1.1.1.0;
        execution_window_end = x.1.1.1.1.1.1.1.0;
        expected_cohort_size = x.1.1.1.1.1.1.1.1.0;
        accepted_cohort_size = x.1.1.1.1.1.1.1.1.1.0;
        cohort_merkle_root = x.1.1.1.1.1.1.1.1.1.1.0;
        action_template_hash = x.1.1.1.1.1.1.1.1.1.1.1.0;
        privacy_backend = x.1.1.1.1.1.1.1.1.1.1.1.1.0;
        cancellation_reason = x.1.1.1.1.1.1.1.1.1.1.1.1.1.0;
        final_metrics_hash = x.1.1.1.1.1.1.1.1.1.1.1.1.1.1;
      })
      (λ v.
        v.pool_id ▹ v.round_id ▹ v.state ▹ v.registration_start_slot ▹ v.registration_deadline_slot
        ▹ v.release_slot ▹ v.execution_window_start ▹ v.execution_window_end
        ▹ v.expected_cohort_size ▹ v.accepted_cohort_size ▹ v.cohort_merkle_root
        ▹ v.action_template_hash ▹ v.privacy_backend ▹ v.cancellation_reason ▹ v.final_metrics_hash)
      (λ v. refl)
