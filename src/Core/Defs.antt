-- ===== src/Core/Defs.antt =====
-- crates/mirror-pool-core/src/lib.rs: the domain types and the operations of `PoolConfig`,
-- `RoundState` and `Round`. A method on `&mut self` returns the round that it leaves and its result.
use mirror_pool.Prelude.{
  ℕ, Bool, true, false, not, ◌||◌, Option, none, some, List, [], ◌∷◌, ◌++◌, Bytes, codes, bytes_eq,
  ltb, leb, ◌==◌, if◌then◌else◌, Result, ok, err, ◌>>=◌, ◌>>◌, fail_if, ok_or, checked_add,
  checked_sub, u32_mod, u64_mod, replicate,
}

-- The newtype `Digest32([u8; 32])` is its bytes; `IsArray32` states their number.
abbrev pub Digest32 : Type 0
Digest32 = Bytes

abbrev pub zero32 : Bytes
zero32 = replicate 32 0

abbrev pub schema_version : ℕ
schema_version = 1

-- `Digest32::hash`, over the hash function `blake3` of the crate of that name.
unfoldable pub hash : (Bytes → Bytes) → Bytes → Bytes → Digest32
hash blake3 domain bytes = blake3 (codes "mirror-pool/v1/" ++ (domain ++ (0 ∷ bytes)))

pub data PrivacyBackend : Type 0 where
  transparent_registry merkle_cohort : PrivacyBackend

pub data GovernancePolicy : Type 0 where
  single_authority : Bytes → GovernancePolicy

pub data CompletionPolicy : Type 0 where
  disabled redacted_receipt public_observation_only : CompletionPolicy

pub data Cluster : Type 0 where
  localnet devnet testnet mainnet_beta : Cluster

-- An `i64`: `neg n` is -(n + 1).
pub data UnixTime : Type 0 where
  since before : ℕ → UnixTime

-- The two sets are the lists of their elements in order.
pub record PoolConfig : Type 0 where
  pub pool_id : Digest32
  pub version : ℕ
  pub governance : GovernancePolicy
  pub action_template_hash : Digest32
  pub min_participants : ℕ
  pub max_participants : ℕ
  pub registration_duration_slots : ℕ
  pub min_release_delay_slots : ℕ
  pub max_release_delay_slots : ℕ
  pub execution_window_slots : ℕ
  pub max_timing_dispersion_slots : ℕ
  pub privacy_backend : PrivacyBackend
  pub allowed_clusters : List Cluster
  pub allowed_program_ids : List Bytes
  pub completion_policy : CompletionPolicy
  pub created_at_unix : UnixTime
  pub configuration_hash : Digest32

pub data RoundState : Type 0 where
  draft registration threshold_reached sealed release_scheduled execution_window finalizing
        completed cancelled expired :
      RoundState

pub data ProtocolError : Type 0 where
  unsupported_version : ℕ → ProtocolError
  invalid_participant_bounds invalid_timing_bounds empty_allowlist configuration_hash_mismatch
        serialization :
      ProtocolError
  invalid_transition : RoundState → RoundState → ProtocolError
  registration_closed cohort_full arithmetic_overflow premature_seal root_immutable
        release_immutable invalid_release_delay :
      ProtocolError

abbrev pub is_empty {ℓ} : {A : Type ℓ} → List A → Bool
is_empty [] = true
is_empty (x ∷ xs) = false

abbrev pub is_some {ℓ} : {A : Type ℓ} → Option A → Bool
is_some none = false
is_some (some a) = true

-- `to_vec` is `serde_json::to_vec`, and `none` its failure.
module _ (blake3 : Bytes → Bytes) (to_vec : PoolConfig → Option Bytes) where
  unfoldable pub compute_hash : PoolConfig → Result Digest32 ProtocolError
  unfolding hash
  compute_hash c = do
    bytes ← ok_or (to_vec (record c { configuration_hash = zero32 })) serialization
    ok (hash blake3 (codes "pool-config") bytes)

  unfoldable pub validate : PoolConfig → Result Unit ProtocolError
  validate c = do
    fail_if (not (c.version == schema_version)) (unsupported_version c.version)
    fail_if (ltb c.min_participants 2 || ltb c.max_participants c.min_participants)
        invalid_participant_bounds
    fail_if (ltb 100000 c.max_participants) invalid_participant_bounds
    fail_if
        (c.registration_duration_slots == 0
          || c.execution_window_slots == 0
          || ltb c.max_release_delay_slots c.min_release_delay_slots
          || ltb c.execution_window_slots c.max_timing_dispersion_slots)
        invalid_timing_bounds
    fail_if (is_empty c.allowed_clusters || is_empty c.allowed_program_ids) empty_allowlist
    digest ← compute_hash c
    fail_if (not (bytes_eq digest c.configuration_hash)) configuration_hash_mismatch
    ok tt

unfoldable pub can_transition_to : RoundState → RoundState → Bool
can_transition_to draft registration = true
can_transition_to draft cancelled = true
can_transition_to registration threshold_reached = true
can_transition_to registration cancelled = true
can_transition_to registration expired = true
can_transition_to threshold_reached sealed = true
can_transition_to threshold_reached cancelled = true
can_transition_to threshold_reached expired = true
can_transition_to sealed release_scheduled = true
can_transition_to sealed cancelled = true
can_transition_to release_scheduled execution_window = true
can_transition_to release_scheduled cancelled = true
can_transition_to release_scheduled expired = true
can_transition_to execution_window finalizing = true
can_transition_to execution_window cancelled = true
can_transition_to finalizing completed = true
can_transition_to finalizing cancelled = true
can_transition_to _ _ = false

pub record Round : Type 0 where
  pub pool_id : Digest32
  pub round_id : ℕ
  pub state : RoundState
  pub registration_start_slot : ℕ
  pub registration_deadline_slot : ℕ
  pub release_slot : Option ℕ
  pub execution_window_start : Option ℕ
  pub execution_window_end : Option ℕ
  pub expected_cohort_size : ℕ
  pub accepted_cohort_size : ℕ
  pub cohort_merkle_root : Option Digest32
  pub action_template_hash : Digest32
  pub privacy_backend : PrivacyBackend
  pub cancellation_reason : Option Bytes
  pub final_metrics_hash : Option Digest32

abbrev pub takes_registrations : RoundState → Bool
takes_registrations registration = true
takes_registrations threshold_reached = true
takes_registrations _ = false

abbrev pub is_sealed : RoundState → Bool
is_sealed sealed = true
is_sealed _ = false

abbrev pub is_threshold_reached : RoundState → Bool
is_threshold_reached threshold_reached = true
is_threshold_reached _ = false

-- What a method returns: the round as it leaves it, and its `Result`.
abbrev pub Outcome : Type 0
Outcome = Round × Result Unit ProtocolError

unfoldable pub transition : Round → RoundState → Outcome
unfolding can_transition_to
transition r next =
    if can_transition_to r.state next
    then (record r { state = next }, ok tt)
    else (r, err (invalid_transition r.state next))

unfoldable pub register : Round → ℕ → ℕ → Outcome
register r current_slot max =
    if not (takes_registrations r.state)
    then (r, err registration_closed)
    else if leb r.registration_deadline_slot current_slot
    then (r, err registration_closed)
    else if leb max r.accepted_cohort_size
    then (r, err cohort_full)
    else elim (checked_add u32_mod r.accepted_cohort_size 1) [
      | none ↦ (r, err arithmetic_overflow)
      | some n ↦ (record r { accepted_cohort_size = n }, ok tt)
    ]

unfoldable pub seal : Round → Digest32 → ℕ → Outcome
unfolding transition
seal r root minimum =
    if not (is_threshold_reached r.state) || ltb r.accepted_cohort_size minimum
    then (r, err premature_seal)
    else if is_some r.cohort_merkle_root
    then (r, err root_immutable)
    else transition (record r { cohort_merkle_root = some root }) sealed

-- The checks of `schedule_release` after the first, and the writes.
unfoldable pub schedule_end : Round → ℕ → Option ℕ → Outcome
unfolding transition
schedule_end r release_slot none = (r, err arithmetic_overflow)
schedule_end r release_slot (some end_slot) =
    transition
      (record r {
        release_slot = some release_slot;
        execution_window_start = some release_slot;
        execution_window_end = some end_slot;
      })
      release_scheduled

unfoldable pub schedule_release : Round → ℕ → ℕ → PoolConfig → Outcome
unfolding schedule_end
schedule_release r current_slot release_slot c =
    if not (is_sealed r.state) || is_some r.release_slot
    then (r, err release_immutable)
    else elim (checked_sub release_slot current_slot) [
      | none ↦ (r, err invalid_release_delay)
      | some delay ↦
          if ltb delay c.min_release_delay_slots || ltb c.max_release_delay_slots delay
          then (r, err invalid_release_delay)
          else schedule_end r release_slot
              (checked_add u64_mod release_slot c.execution_window_slots)
    ]
