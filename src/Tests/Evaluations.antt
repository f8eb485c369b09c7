-- ===== src/Tests/Evaluations.antt =====
-- Examples for crates/mirror-pool-simulator, with thousandths for `f64` and a toy generator.
use mirror_pool.Prelude.{
  ℕ, ◌+◌, ◌-◌, ◌*◌, ◌/◌, ◌%◌, ◌^◌, ◌≤◌, ◌≡◌, ◌⊎◌, false, Option, some, List, [], ◌∷◌, Bytes, ok,
  err, refl, ltb, leb, if◌then◌else◌, arith, bytes_eq, bytes_lt, length, replicate,
}
use mirror_pool.Core.Defs.{PrivacyBackend, hash}
use mirror_pool.Simulator.Defs.{
  Float64, Rng, Scenario, Observation, ObserverFeatures, default_features, narrow_window,
  invalid_scenario, serialization, validate, observe_all, fingerprint_of, shape_of,
}
use mirror_pool.Simulator.Counting.{count_one, group, spread_of, only_executed, sort_slots, ones}
use mirror_pool.Simulator.Metrics.{
  EvaluationReport, limitations, evaluate, evaluate_valid, metrics, percentile, entropy_of,
  confusion, auc, ratio,
}
use mirror_pool.Simulator.Observations.{IsRng}
use mirror_pool.Simulator.Evaluation.{IsIndexing}
use mirror_pool.Simulator.Reports.{IsScenario, Reported, evaluate-Reported, evaluate_total}
use mirror_pool.Simulator.Ablation.{observed_by, evaluate-ablation}
use mirror_pool.Tests.Cohorts.{digest}

abbrev pub thousandths : Float64 ℕ
thousandths = record {
  literal = λ n k. n * 1000 / 10 ^ k;
  from_unsigned = λ n. n * 1000;
  as_usize = λ x. x / 1000;
  plus = λ x y. x + y;
  minus = λ x y. x - y;
  times = λ x y. x * y / 1000;
  divided = λ x y. x * 1000 / y;
  abs = λ x. x;
  ln = λ x. 0;
  exp = λ x. x;
  round = λ x. x;
  clamp = λ x low high. if ltb x low then low else if ltb high x then high else x;
  at_most = leb;
  below = ltb;
  epsilon = 1;
}

pub indexing : IsIndexing thousandths
indexing = record { median = λ n small. omega arith; p95 = λ n small. omega arith }

abbrev pub counting : Rng ℕ ℕ
counting = record {
  seed_from_u64 = λ seed. seed;
  gen_bool = λ r p. some (ltb (r * 317 % 1000) p, r + 1);
  gen_range = λ r n. (if ltb n r then n else r, r + 1);
  gen_noise = λ r. (r % 150, r + 1);
}

pub counting-IsRng : IsRng thousandths counting
counting-IsRng = record {
  in_range = λ r n. ground arith;
  probability = λ r p low high. (ltb (r * 317 % 1000) p, r + 1, refl);
}

abbrev scenario : Scenario ℕ
scenario = record {
  scenario_version = 1;
  seed = 1;
  participant_count = 3;
  backend = PrivacyBackend.merkle_cohort;
  release_strategy = narrow_window;
  execution_window_slots = 4;
  dropout_rate = 100;
  longitudinal_periods = 1;
  observer_features = default_features;
}

abbrev pub to_vec : List (Observation ℕ) → Option Bytes
to_vec os = some (length os ∷ [])

abbrev report : EvaluationReport ℕ
report = record {
  scenario = scenario;
  metrics = record {
    announced_cohort_size = 3;
    observed_cohort_size = 3;
    completion_rate = 1000;
    execution_spread_slots = 1;
    median_timing_deviation = 3000;
    p95_timing_deviation = 3000;
    unique_fingerprint_rate = 1000;
    minimum_k_anonymity = 1;
    shannon_entropy = 0;
    effective_anonymity_set = 0;
    normalized_entropy = 0;
    linkage_precision = 0;
    linkage_recall = 0;
    linkage_f1 = 0;
    roc_auc = 750;
    false_positive_rate = 0;
    false_negative_rate = 1000;
  };
  trace_hash = replicate 32 254;
  limitations = limitations;
}

evaluates : evaluate thousandths counting digest to_vec scenario ≡ ok (ok report)
unfolding evaluate evaluate_valid validate observe_all metrics only_executed sort_slots percentile
    spread_of group count_one entropy_of ones confusion ratio auc hash bytes_eq bytes_lt
    fingerprint_of shape_of
evaluates = refl

evaluate-Reported_example :
    Reported thousandths counting counting-IsRng digest to_vec scenario report
evaluate-Reported_example =
    evaluate-Reported thousandths counting counting-IsRng digest to_vec scenario evaluates

-- An observer who sees nothing.
abbrev blind : ObserverFeatures
blind = record {
  timing = false;
  instruction_shape = false;
  fee_behavior = false;
  funding_graph = false;
  amount_bucket = false;
  historical_behavior = false;
}

abbrev blind_report : EvaluationReport ℕ
blind_report = record report {
  scenario = observed_by thousandths counting scenario blind;
  metrics = record (report.metrics) {
    unique_fingerprint_rate = 0;
    minimum_k_anonymity = 3;
    roc_auc = 750;
  };
}

evaluates_blind :
    evaluate thousandths counting digest to_vec (observed_by thousandths counting scenario blind)
    ≡ ok (ok blind_report)
unfolding evaluate evaluate_valid validate observe_all metrics only_executed sort_slots percentile
    spread_of group count_one entropy_of ones confusion ratio auc hash bytes_eq bytes_lt
    fingerprint_of shape_of
evaluates_blind = refl

evaluate-ablation_example :
    (report.metrics.observed_cohort_size ≡ blind_report.metrics.observed_cohort_size)
    × (report.metrics.execution_spread_slots ≡ blind_report.metrics.execution_spread_slots)
    × (report.metrics.minimum_k_anonymity ≤ blind_report.metrics.minimum_k_anonymity)
evaluate-ablation_example =
    evaluate-ablation thousandths counting scenario blind counting-IsRng digest to_vec
      (record {
        timing = λ e. refl;
        instruction_shape = λ e. refl;
        fee_behavior = λ e. refl;
        funding_graph = λ e. refl;
        amount_bucket = λ e. refl;
        historical_behavior = λ e. refl;
      })
      evaluates evaluates_blind

evaluate_total_example :
    (evaluate thousandths counting digest to_vec scenario ≡ ok (err invalid_scenario))
    ⊎ (IsScenario thousandths counting counting-IsRng digest to_vec scenario
        × ((evaluate thousandths counting digest to_vec scenario ≡ ok (err serialization))
            ⊎ ((report : EvaluationReport ℕ) × (evaluate thousandths counting digest to_vec scenario
                  ≡ ok (ok report)))))
evaluate_total_example =
    evaluate_total thousandths counting counting-IsRng digest to_vec indexing scenario (omega arith)
