-- ===== src/Actions/Templates.antt =====
-- crates/mirror-pool-actions/src/lib.rs: the built-in templates. The methods of the trait
-- `ActionTemplateDriver` are functions on the type of the four templates.
use mirror_pool.Prelude.{
  ℕ, zero, suc, ◌+◌, ◌-◌, ◌*◌, ◌/◌, ◌%◌, Bool, true, false, not, ◌&&◌, ◌||◌, none, List, [], ◌∷◌,
  ◌++◌, Bytes, codes, leb, ltb, ◌==◌, if◌then◌else◌, Result, ok, err, ◌>>◌, fail_if, length,
  replicate,
}
use mirror_pool.Core.Defs.{Digest32, hash, is_empty}
use mirror_pool.Actions.Defs.{
  SafetyClassification, local_only, low_risk, PreparedAction, ActionParameters, memo,
  compute_budget, local_token_housekeeping, local_stake_lifecycle, SimulationResult, ActionError,
  compute_limit_exceeded, value_limit_exceeded, size_exceeded, invalid_memo, wrong_parameters,
}

-- Each with its program id.
pub data Template : Type 0 where
  memo_template compute_budget_shape_template local_token_housekeeping_template
        local_stake_lifecycle_template :
      (program_id : Bytes) → Template

abbrev pub identifier : Template → Bytes
identifier (memo_template id) = codes "memo-v1"
identifier (compute_budget_shape_template id) = codes "compute-budget-shape-v1"
identifier (local_token_housekeeping_template id) = codes "local-token-housekeeping-v1"
identifier (local_stake_lifecycle_template id) = codes "local-stake-lifecycle-v1"

abbrev pub version : Template → ℕ
version t = 1

abbrev pub category : Template → Bytes
category (memo_template id) = codes "memo"
category (compute_budget_shape_template id) = codes "compute_budget"
category (local_token_housekeeping_template id) = codes "local_test_token"
category (local_stake_lifecycle_template id) = codes "local_native_stake"

abbrev pub required_program_ids : Template → List Bytes
required_program_ids (memo_template id) = id ∷ []
required_program_ids (compute_budget_shape_template id) = id ∷ []
required_program_ids (local_token_housekeeping_template id) = id ∷ []
required_program_ids (local_stake_lifecycle_template id) = id ∷ []

abbrev pub safety_classification : Template → SafetyClassification
safety_classification (memo_template id) = low_risk
safety_classification (compute_budget_shape_template id) = low_risk
safety_classification (local_token_housekeeping_template id) = local_only
safety_classification (local_stake_lifecycle_template id) = local_only

-- `to_le_bytes` of an integer of `n` bytes.
unfoldable pub le_bytes : ℕ → ℕ → Bytes
le_bytes zero v = []
le_bytes (suc n) v = (v % 256) ∷ le_bytes n (v / 256)

-- `u16::try_from(100_usize.saturating_add(len)).unwrap_or(u16::MAX)`
unfoldable pub estimate : ℕ → ℕ
estimate len = if ltb (100 + len) 65536 then 100 + len else 65535

unfoldable pub prepared :
    Bytes
    → List Bytes
    → Bytes
    → (compute_units priority_fee value : ℕ) → SafetyClassification
    → PreparedAction
unfolding estimate
prepared template program_ids payload compute_units priority_fee value safety = record {
  template_id = template;
  program_ids = program_ids;
  instruction_count = 1;
  payload = payload;
  compute_units = compute_units;
  priority_fee_micro_lamports = priority_fee;
  value = value;
  estimated_size = estimate (length payload);
  safety = safety;
}

-- `u8::from(bool)`
abbrev pub flag : Bool → ℕ
flag false = 0
flag true = 1

-- The bytes of a code point in UTF-8.
unfoldable pub utf8 : ℕ → Bytes
utf8 c =
    if ltb c 128
    then c ∷ []
    else if ltb c 2048
    then (192 + c / 64) ∷ (128 + c % 64) ∷ []
    else if ltb c 65536
    then (224 + c / 4096) ∷ (128 + c / 64 % 64) ∷ (128 + c % 64) ∷ []
    else (240 + c / 262144) ∷ (128 + c / 4096 % 64) ∷ (128 + c / 64 % 64) ∷ (128 + c % 64) ∷ []

unfoldable pub as_bytes : List ℕ → Bytes
unfolding utf8
as_bytes [] = []
as_bytes (c ∷ cs) = utf8 c ++ as_bytes cs

-- `text.chars().any(char::is_control)`: the category Cc.
unfoldable pub has_control : List ℕ → Bool
has_control [] = false
has_control (c ∷ cs) = (ltb c 32 || (leb 127 c && ltb c 160)) || has_control cs

unfoldable pub bucket : ℕ → ℕ
bucket len = if leb len 16 then 16 else if leb len 32 then 32 else 64

-- `payload.resize(size, b' ')` where the payload is not longer than the size.
unfoldable pub resize : Bytes → ℕ → Bytes
resize payload size = payload ++ replicate (size - length payload) 32

unfoldable pub prepare_memo : Template → List ℕ → Result PreparedAction ActionError
unfolding as_bytes has_control bucket resize
prepare_memo t text = do
  fail_if (is_empty text || ltb 64 (length (as_bytes text)) || has_control text) invalid_memo
  let size = bucket (length (as_bytes text))
  fail_if (not (ltb (100 + size) 65536)) size_exceeded
  ok (record {
    template_id = identifier t;
    program_ids = required_program_ids t;
    instruction_count = 1;
    payload = resize (as_bytes text) size;
    compute_units = 10000;
    priority_fee_micro_lamports = 0;
    value = 0;
    estimated_size = 100 + size;
    safety = safety_classification t;
  })

-- `units.div_ceil(25_000) * 25_000`
unfoldable pub canonical_units : ℕ → ℕ
canonical_units units = (units + 24999) / 25000 * 25000

unfoldable pub prepare_budget :
    Template → (units priority_fee : ℕ) → Result PreparedAction ActionError
unfolding canonical_units prepared le_bytes
prepare_budget t units priority_fee = do
  fail_if (not (leb 10000 units && leb units 200000) || ltb 1000 priority_fee)
      compute_limit_exceeded
  ok (
      prepared (identifier t) (required_program_ids t)
        (le_bytes 4 (canonical_units units) ++ le_bytes 8 priority_fee) (canonical_units units)
        priority_fee 0 low_risk)

unfoldable pub prepare_token : Template → ℕ → Bool → Result PreparedAction ActionError
unfolding prepared le_bytes
prepare_token t amount close_account = do
  fail_if (ltb 1000000 amount) value_limit_exceeded
  ok (
      prepared (identifier t) (required_program_ids t)
        (le_bytes 8 amount ++ (flag close_account ∷ [])) 50000 0 amount local_only)

unfoldable pub prepare_stake : Template → ℕ → Bool → Result PreparedAction ActionError
unfolding prepared le_bytes
prepare_stake t lamports deactivate = do
  fail_if (lamports == 0 || ltb 1000000 lamports) value_limit_exceeded
  ok (
      prepared (identifier t) (required_program_ids t)
        (le_bytes 8 lamports ++ (flag deactivate ∷ [])) 100000 0 lamports local_only)

unfoldable pub prepare : Template → ActionParameters → Result PreparedAction ActionError
unfolding prepare_memo prepare_budget prepare_token prepare_stake
prepare (memo_template id) (memo text) = prepare_memo (memo_template id) text
prepare (compute_budget_shape_template id) (compute_budget units fee) =
    prepare_budget (compute_budget_shape_template id) units fee
prepare (local_token_housekeeping_template id) (local_token_housekeeping amount close_account) =
    prepare_token (local_token_housekeeping_template id) amount close_account
prepare (local_stake_lifecycle_template id) (local_stake_lifecycle lamports deactivate) =
    prepare_stake (local_stake_lifecycle_template id) lamports deactivate
prepare t parameters = err wrong_parameters

unfoldable pub bounded_simulation : PreparedAction → Result SimulationResult ActionError
bounded_simulation action = do
  fail_if (ltb 1232 action.estimated_size) size_exceeded
  ok (record {
    succeeded = true;
    estimated_fee_lamports = 5000;
    compute_units_consumed = action.compute_units / 2;
    redacted_error = none;
  })

unfoldable pub simulate : Template → PreparedAction → Result SimulationResult ActionError
unfolding bounded_simulation
simulate (memo_template id) action = ok (record {
  succeeded = leb action.estimated_size 1232;
  estimated_fee_lamports = 5000;
  compute_units_consumed = 4000;
  redacted_error = none;
})
simulate t action = bounded_simulation action

-- `payload.last().copied().unwrap_or(0)`
unfoldable pub last_or_zero : Bytes → ℕ
last_or_zero [] = 0
last_or_zero (x ∷ []) = x
last_or_zero (x ∷ y ∷ ys) = last_or_zero (y ∷ ys)

unfoldable pub redacted_fingerprint : (Bytes → Bytes) → Template → PreparedAction → Digest32
unfolding hash last_or_zero
redacted_fingerprint blake3 (memo_template id) action =
    let len = length action.payload in
    hash blake3 (codes "memo-shape") ((if ltb len 256 then len else 255) ∷ [])
redacted_fingerprint blake3 (compute_budget_shape_template id) action =
    hash blake3 (codes "compute-shape") action.payload
redacted_fingerprint blake3 (local_token_housekeeping_template id) action =
    hash blake3 (codes "token-housekeeping-shape") (last_or_zero action.payload ∷ [])
redacted_fingerprint blake3 (local_stake_lifecycle_template id) action =
    hash blake3 (codes "stake-lifecycle-shape") (last_or_zero action.payload ∷ [])

-- `built_in_template_names`
abbrev pub built_in_template_names : List Bytes
built_in_template_names =
    codes "memo-v1"
    ∷ codes "compute-budget-shape-v1"
    ∷ codes "local-token-housekeeping-v1"
    ∷ codes "local-stake-lifecycle-v1"
    ∷ []
