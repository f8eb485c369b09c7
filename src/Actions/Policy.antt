-- ===== src/Actions/Policy.antt =====
-- The safety policy of crates/mirror-pool-actions, and the actions of its templates under it.
use mirror_pool.Prelude.{
  ℕ, zero, suc, ◌/◌, ◌≤◌, ◌≡◌, ◌↔◌, ◌⊎◌, inl, inr, Bool, true, false, Option, List, [], ◌∷◌, Bytes,
  ok, length, arith, refl, ap, ◌∙◌, length-append,
}
use mirror_pool.Actions.Defs.{
  SafetyPolicy, default_policy, PreparedAction, ActionParameters, memo, compute_budget,
  local_token_housekeeping, local_stake_lifecycle, contains, any_foreign, is_loopback,
  validate_sending, validate,
}
use mirror_pool.Actions.Templates.{
  Template, memo_template, compute_budget_shape_template, local_token_housekeeping_template,
  local_stake_lifecycle_template, identifier, required_program_ids, le_bytes, estimate, prepared,
  bucket, canonical_units, flag, prepare_memo, prepare_budget, prepare_token, prepare_stake,
  prepare,
}

-- What has to hold to send.
pub record MaySend (public : Bool) (policy : SafetyPolicy) (host : Option Bytes)
    (simulated confirmed : Bool) : Type 0 where
  pub live : policy.dry_run ≡ false
  pub enabled : policy.sending_enabled ≡ true
  pub simulation : (policy.simulation_required ≡ false) ⊎ (simulated ≡ true)
  pub confirmation : confirmed ≡ true
  pub compiled : (public ≡ true) ⊎ (is_loopback host ≡ true)

-- What a policy permits: the limits on the action, and on where and how it is used.
pub record Permits (public : Bool) (policy : SafetyPolicy) (action : PreparedAction)
    (host : Option Bytes) (sending simulated : Bool) (fee : ℕ) (confirmed : Bool) : Type 0 where
  pub running : policy.emergency_stop ≡ false
  pub template : contains policy.allowed_templates action.template_id ≡ true
  pub programs : any_foreign action.program_ids policy.allowed_program_ids ≡ false
  pub units : action.compute_units ≤ policy.max_compute_units
  pub priority : action.priority_fee_micro_lamports ≤ policy.max_priority_fee_micro_lamports
  pub value : action.value ≤ policy.max_local_value
  pub one_instruction : action.instruction_count ≡ 1
  pub one_program : length action.program_ids ≡ 1
  pub size : action.estimated_size ≤ 1232
  pub fee_bounded : fee ≤ policy.max_transaction_fee_lamports
  pub near : (policy.loopback_only ≡ false) ⊎ (is_loopback host ≡ true)
  pub sendable : (sending ≡ false) ⊎ MaySend public policy host simulated confirmed

validate_sending_iff :
    (public : Bool) (policy : SafetyPolicy) (host : Option Bytes) (simulated confirmed : Bool)
    → (validate_sending public policy host simulated confirmed ≡ ok tt)
      ↔ MaySend public policy host simulated confirmed
unfolding validate_sending
validate_sending_iff public policy host simulated confirmed =
    ((λ h. ground arith), (λ m. ground arith))

validate_sound :
    (public : Bool) (policy : SafetyPolicy) (action : PreparedAction) (host : Option Bytes)
    (sending simulated : Bool) (fee : ℕ) (confirmed : Bool)
    → validate public policy action host sending simulated fee confirmed ≡ ok tt
    → Permits public policy action host sending simulated fee confirmed
unfolding validate
validate_sound public policy action host sending simulated fee confirmed h =
    ground (arith, validate_sending_iff public policy host simulated confirmed)

validate_complete :
    (public : Bool) (policy : SafetyPolicy) (action : PreparedAction) (host : Option Bytes)
    (sending simulated : Bool) (fee : ℕ) (confirmed : Bool)
    → Permits public policy action host sending simulated fee confirmed
    → validate public policy action host sending simulated fee confirmed ≡ ok tt
unfolding validate
validate_complete public policy action host sending simulated fee confirmed p =
    ground (arith, validate_sending_iff public policy host simulated confirmed)

-- `validate` lets an action through exactly if the policy permits it: it is not stopped, the template
-- and every program are allowed, units, fees, value, shape and size are within the limits, the RPC
-- host is a loopback where that is asked for, and to send, sending is enabled outside of a dry run,
-- simulated where required, confirmed, and local unless compiled for public clusters.
pub validate-iff-Permits :
    (public : Bool) (policy : SafetyPolicy) (action : PreparedAction) (host : Option Bytes)
    (sending simulated : Bool) (fee : ℕ) (confirmed : Bool)
    → (validate public policy action host sending simulated fee confirmed ≡ ok tt)
      ↔ Permits public policy action host sending simulated fee confirmed
validate-iff-Permits public policy action host sending simulated fee confirmed = (
  validate_sound public policy action host sending simulated fee confirmed,
  validate_complete public policy action host sending simulated fee confirmed,
)

length-le_bytes : (n v : ℕ) → length (le_bytes n v) ≡ n
unfolding le_bytes
length-le_bytes zero v = refl
length-le_bytes (suc n) v = omega (arith, length-le_bytes n (v / 256))

-- The limits that every action of a template keeps.
pub record IsWithin (t : Template) (a : PreparedAction) : Type 0 where
  pub template : a.template_id ≡ identifier t
  pub programs : a.program_ids ≡ required_program_ids t
  pub one : a.instruction_count ≡ 1
  pub units : a.compute_units ≤ 200000
  pub priority : a.priority_fee_micro_lamports ≤ 1000
  pub value : a.value ≤ 1000000
  pub size : a.estimated_size ≤ 1232

prepare_memo-IsWithin :
    (t : Template) (text : List ℕ) {a : PreparedAction} → prepare_memo t text ≡ ok a → IsWithin t a
unfolding prepare_memo bucket
prepare_memo-IsWithin t text h = ground arith

prepare_budget-IsWithin :
    (t : Template) (units fee : ℕ) {a : PreparedAction}
    → prepare_budget t units fee ≡ ok a
    → IsWithin t a
unfolding prepare_budget prepared estimate canonical_units
prepare_budget-IsWithin t units fee h = ground (
  arith,
  length-append (le_bytes 4 (canonical_units units)) (le_bytes 8 fee),
  length-le_bytes 4 (canonical_units units),
  length-le_bytes 8 fee,
)

prepare_token-IsWithin :
    (t : Template) (amount : ℕ) (close_account : Bool) {a : PreparedAction}
    → prepare_token t amount close_account ≡ ok a
    → IsWithin t a
unfolding prepare_token prepared estimate
prepare_token-IsWithin t amount close_account h =
    ground
      (arith, length-append (le_bytes 8 amount) (flag close_account ∷ []), length-le_bytes 8 amount)

prepare_stake-IsWithin :
    (t : Template) (lamports : ℕ) (deactivate : Bool) {a : PreparedAction}
    → prepare_stake t lamports deactivate ≡ ok a
    → IsWithin t a
unfolding prepare_stake prepared estimate
prepare_stake-IsWithin t lamports deactivate h =
    ground (
      arith,
      length-append (le_bytes 8 lamports) (flag deactivate ∷ []),
      length-le_bytes 8 lamports,
    )

pub prepare-IsWithin :
    (t : Template) (parameters : ActionParameters) {a : PreparedAction}
    → prepare t parameters ≡ ok a
    → IsWithin t a
unfolding prepare
prepare-IsWithin (memo_template id) (memo text) h = prepare_memo-IsWithin _ text h
prepare-IsWithin (compute_budget_shape_template id) (compute_budget units fee) h =
    prepare_budget-IsWithin _ units fee h
prepare-IsWithin (local_token_housekeeping_template id) (local_token_housekeeping amount c) h =
    prepare_token-IsWithin _ amount c h
prepare-IsWithin (local_stake_lifecycle_template id) (local_stake_lifecycle lamports d) h =
    prepare_stake-IsWithin _ lamports d h
prepare-IsWithin t parameters h = absurd (ground arith)

-- Every action that a built-in template prepares, of whatever parameters, passes the default policy in
-- a dry run, once its template and program are allowed, for a loopback host and a fee of up to 20000
-- lamports.
pub prepare-validate :
    (t : Template) (parameters : ActionParameters) (public : Bool) (templates programs : List Bytes)
    (host : Option Bytes) (simulated : Bool) (fee : ℕ) (confirmed : Bool) {a : PreparedAction}
    → prepare t parameters ≡ ok a
    → contains templates (identifier t) ≡ true
    → any_foreign (required_program_ids t) programs ≡ false
    → is_loopback host ≡ true
    → fee ≤ 20000
    → validate public
        (record default_policy { allowed_templates = templates; allowed_program_ids = programs })
        a
        host
        false
        simulated
        fee
        confirmed
      ≡ ok tt
prepare-validate t parameters public templates programs host simulated fee confirmed {a} h known
      allowed near cheap =
    let w = prepare-IsWithin t parameters h in
    validate_complete public _ a host false simulated fee confirmed (record {
      running = refl;
      template = ap (contains templates) w.template ∙ known;
      programs = ap (λ ps. any_foreign ps programs) w.programs ∙ allowed;
      units = w.units;
      priority = w.priority;
      value = w.value;
      one_instruction = w.one;
      one_program = ap length w.programs ∙ one_program t;
      size = w.size;
      fee_bounded = cheap;
      near = inr near;
      sendable = inl refl;
    })
  where
    one_program : (t : Template) → length (required_program_ids t) ≡ 1
    one_program (memo_template id) = refl
    one_program (compute_budget_shape_template id) = refl
    one_program (local_token_housekeeping_template id) = refl
    one_program (local_stake_lifecycle_template id) = refl
