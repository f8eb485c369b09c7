-- ===== src/Actions/Defs.antt =====
-- crates/mirror-pool-actions/src/lib.rs: prepared actions and the safety policy. A string is the list
-- of its code points in `text`, and its bytes elsewhere; of an URL only its host is read, which the
-- crate url finds.
use mirror_pool.Prelude.{
  ℕ, Bool, true, false, not, ◌&&◌, ◌||◌, Option, none, some, List, [], ◌∷◌, Bytes, codes, bytes_eq,
  ltb, ◌==◌, if◌then◌else◌, Result, ok, ◌>>◌, fail_if, length,
}

pub data SafetyClassification : Type 0 where
  local_only low_risk prohibited : SafetyClassification

pub record SafetyPolicy : Type 0 where
  pub dry_run : Bool
  pub sending_enabled : Bool
  pub loopback_only : Bool
  pub simulation_required : Bool
  pub max_compute_units : ℕ
  pub max_priority_fee_micro_lamports : ℕ
  pub max_transaction_fee_lamports : ℕ
  pub max_local_value : ℕ
  pub max_concurrent_sends : ℕ
  pub max_sends_per_round : ℕ
  pub allowed_program_ids : List Bytes
  pub allowed_templates : List Bytes
  pub emergency_stop : Bool

-- `SafetyPolicy::default`
abbrev pub default_policy : SafetyPolicy
default_policy = record {
  dry_run = true;
  sending_enabled = false;
  loopback_only = true;
  simulation_required = true;
  max_compute_units = 200000;
  max_priority_fee_micro_lamports = 1000;
  max_transaction_fee_lamports = 20000;
  max_local_value = 1000000;
  max_concurrent_sends = 4;
  max_sends_per_round = 50;
  allowed_program_ids = [];
  allowed_templates = codes "memo-v1" ∷ codes "compute-budget-shape-v1" ∷ [];
  emergency_stop = false;
}

pub record PreparedAction : Type 0 where
  pub template_id : Bytes
  pub program_ids : List Bytes
  pub instruction_count : ℕ
  pub payload : Bytes
  pub compute_units : ℕ
  pub priority_fee_micro_lamports : ℕ
  pub value : ℕ
  pub estimated_size : ℕ
  pub safety : SafetyClassification

pub data ActionParameters : Type 0 where
  memo : (text : List ℕ) → ActionParameters
  compute_budget : (units priority_fee : ℕ) → ActionParameters
  local_token_housekeeping : (amount : ℕ) (close_account : Bool) → ActionParameters
  local_stake_lifecycle : (lamports : ℕ) (deactivate : Bool) → ActionParameters

pub record SimulationResult : Type 0 where
  pub succeeded : Bool
  pub estimated_fee_lamports : ℕ
  pub compute_units_consumed : ℕ
  pub redacted_error : Option Bytes

pub data ActionError : Type 0 where
  emergency_stop template_not_allowed program_not_allowed compute_limit_exceeded
        priority_fee_exceeded transaction_fee_exceeded value_limit_exceeded non_loopback_rpc
        sending_disabled simulation_required confirmation_required public_cluster_compile_guard
        instruction_shape_invalid size_exceeded invalid_memo wrong_parameters :
      ActionError

-- `Vec::contains`
unfoldable pub contains : List Bytes → Bytes → Bool
contains [] x = false
contains (y ∷ ys) x = bytes_eq y x || contains ys x

-- `programs.iter().any(|program| !allowed.contains(program))`
unfoldable pub any_foreign : List Bytes → List Bytes → Bool
unfolding contains
any_foreign [] allowed = false
any_foreign (p ∷ ps) allowed = not (contains allowed p) || any_foreign ps allowed

-- `is_loopback`, on the host.
unfoldable pub is_loopback : Option Bytes → Bool
is_loopback none = false
is_loopback (some host) =
    bytes_eq host (codes "localhost")
    || bytes_eq host (codes "127.0.0.1")
    || bytes_eq host (codes "[::1]")
    || bytes_eq host (codes "::1")

-- The checks of `validate` where it is asked to send. `public` is the feature
-- public-cluster-execution.
unfoldable pub validate_sending :
    (public : Bool)
    → SafetyPolicy
    → (host : Option Bytes) → (simulation_succeeded explicit_confirmation : Bool)
    → Result Unit ActionError
unfolding is_loopback
validate_sending public policy host simulation_succeeded explicit_confirmation = do
  fail_if (policy.dry_run || not policy.sending_enabled) sending_disabled
  fail_if (policy.simulation_required && not simulation_succeeded) simulation_required
  fail_if (not explicit_confirmation) confirmation_required
  fail_if (not public && not (is_loopback host)) public_cluster_compile_guard

unfoldable pub validate :
    (public : Bool)
    → SafetyPolicy
    → PreparedAction
    → (host : Option Bytes) → (sending simulation_succeeded : Bool) → (estimated_fee_lamports : ℕ)
    → (explicit_confirmation : Bool) → Result Unit ActionError
unfolding contains any_foreign is_loopback validate_sending
validate public policy action host sending simulated estimated_fee_lamports confirmed = do
  fail_if policy.emergency_stop emergency_stop
  fail_if (not (contains policy.allowed_templates action.template_id)) template_not_allowed
  fail_if (any_foreign action.program_ids policy.allowed_program_ids) program_not_allowed
  fail_if (ltb policy.max_compute_units action.compute_units) compute_limit_exceeded
  fail_if (ltb policy.max_priority_fee_micro_lamports action.priority_fee_micro_lamports)
      priority_fee_exceeded
  fail_if (ltb policy.max_local_value action.value) value_limit_exceeded
  fail_if (not (action.instruction_count == 1) || not (length action.program_ids == 1))
      instruction_shape_invalid
  fail_if (ltb 1232 action.estimated_size) size_exceeded
  fail_if (ltb policy.max_transaction_fee_lamports estimated_fee_lamports) transaction_fee_exceeded
  fail_if (policy.loopback_only && not (is_loopback host)) non_loopback_rpc
  if sending then validate_sending public policy host simulated confirmed else ok tt
