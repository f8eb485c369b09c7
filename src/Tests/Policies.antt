-- ===== src/Tests/Policies.antt =====
-- Examples for crates/mirror-pool-actions.
use mirror_pool.Prelude.{◌≡◌, ◌↔◌, true, false, some, [], ◌∷◌, codes, bytes_eq, ok, refl, arith}
use mirror_pool.Actions.Defs.{
  SafetyPolicy, default_policy, PreparedAction, compute_budget, low_risk, contains, any_foreign,
  is_loopback, validate,
}
use mirror_pool.Actions.Templates.{Template, compute_budget_shape_template, prepare}
use mirror_pool.Actions.Policy.{Permits, validate-iff-Permits, prepare-validate}

abbrev template : Template
template = compute_budget_shape_template (6 ∷ [])

abbrev action : PreparedAction
action = record {
  template_id = codes "compute-budget-shape-v1";
  program_ids = (6 ∷ []) ∷ [];
  instruction_count = 1;
  payload = 80 ∷ 195 ∷ 0 ∷ 0 ∷ 7 ∷ 0 ∷ 0 ∷ 0 ∷ 0 ∷ 0 ∷ 0 ∷ 0 ∷ [];
  compute_units = 50000;
  priority_fee_micro_lamports = 7;
  value = 0;
  estimated_size = 112;
  safety = low_risk;
}

abbrev policy : SafetyPolicy
policy = record default_policy {
  allowed_templates = codes "memo-v1" ∷ codes "compute-budget-shape-v1" ∷ [];
  allowed_program_ids = (6 ∷ []) ∷ [];
}

prepares : prepare template (compute_budget 30000 7) ≡ ok action
unfolding prepare
prepares = refl

is_local : is_loopback (some (codes "localhost")) ≡ true
unfolding is_loopback bytes_eq
is_local = refl

prepare-validate_example :
    validate false policy action (some (codes "localhost")) false true 5000 false ≡ ok tt
unfolding contains any_foreign bytes_eq
prepare-validate_example =
    prepare-validate template (compute_budget 30000 7) false policy.allowed_templates
      policy.allowed_program_ids (some (codes "localhost")) true 5000 false prepares refl refl
      is_local (omega arith)

abbrev live : SafetyPolicy
live = record policy { dry_run = false; sending_enabled = true }

sends : validate false live action (some (codes "localhost")) true true 5000 true ≡ ok tt
unfolding validate bytes_eq
sends = refl

validate-iff-Permits_example :
    (validate false live action (some (codes "localhost")) true true 5000 true ≡ ok tt)
    ↔ Permits false live action (some (codes "localhost")) true true 5000 true
validate-iff-Permits_example =
    validate-iff-Permits false live action (some (codes "localhost")) true true 5000 true
