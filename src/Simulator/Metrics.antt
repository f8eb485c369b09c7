-- ===== src/Simulator/Metrics.antt =====
-- `metrics`, `confusion`, `auc` and `evaluate` of crates/mirror-pool-simulator/src/lib.rs.
use mirror_pool.Prelude.{
  ℕ, ◌-◌, ◌*◌, Bool, true, false, Option, List, [], ◌∷◌, Bytes, codes, ltb, if◌then◌else◌, Result,
  ok, err, ◌>>=◌, ok_or, length, get_elem?,
}
use mirror_pool.Core.Defs.{Digest32, hash, is_empty}
use mirror_pool.Simulator.Defs.{
  Float64, Rng, Scenario, Observation, EvaluationError, serialization, Panic, out_of_bounds, max,
  target_slot, validate, observe_all,
}
use mirror_pool.Simulator.Counting.{
  sort_slots, min_or, values, ones, saturating_u32, only_executed, deviations, group, spread_of,
  linked,
}

pub record EvaluationMetrics (F : Type 0) : Type 0 where
  pub announced_cohort_size : ℕ
  pub observed_cohort_size : ℕ
  pub completion_rate : F
  pub execution_spread_slots : ℕ
  pub median_timing_deviation : F
  pub p95_timing_deviation : F
  pub unique_fingerprint_rate : F
  pub minimum_k_anonymity : ℕ
  pub shannon_entropy : F
  pub effective_anonymity_set : F
  pub normalized_entropy : F
  pub linkage_precision : F
  pub linkage_recall : F
  pub linkage_f1 : F
  pub roc_auc : F
  pub false_positive_rate : F
  pub false_negative_rate : F

pub record EvaluationReport (F : Type 0) : Type 0 where
  pub scenario : Scenario F
  pub metrics : EvaluationMetrics F
  pub trace_hash : Digest32
  pub limitations : List Bytes

abbrev pub limitations : List Bytes
limitations =
    codes "Synthetic observations do not prove real-world anonymity or unlinkability."
    ∷ codes "The coordinator sees submitted tickets; network and funding metadata may relink users."
    ∷ codes "Synchronization can create a detectable cohort fingerprint."
    ∷ []

-- `check?` of an inner result, and the rest of the function.
abbrev pub and_then :
    {A E P : Type 0} → Result Unit E → Result (Result A E) P → Result (Result A E) P
and_then (err e) rest = ok (err e)
and_then (ok valid) rest = rest

module _ {F : Type 0} (f64 : Float64 F) where
  open f64 use {
    literal, from_unsigned, as_usize, plus, minus, times, divided, abs, ln, exp, round, at_most,
    below, epsilon,
  }

  abbrev pub zero_f64 : F
  zero_f64 = literal 0 0

  unfoldable pub ratio : F → F → F
  ratio a b = if below zero_f64 b then divided a b else zero_f64

  -- The closure `percentile`.
  unfoldable pub percentile : List ℕ → F → Result F Panic
  percentile sorted fraction = if is_empty sorted then ok zero_f64 else do
    let index = as_usize (round (times (from_unsigned (length sorted - 1)) fraction))
    deviation ← ok_or (get_elem? sorted index) out_of_bounds
    ok (from_unsigned deviation)

  -- The fold over the values of the groups.
  unfoldable pub entropy_of : ℕ → F → List ℕ → F
  entropy_of observed sum [] = sum
  entropy_of observed sum (count ∷ counts) =
      let p = divided (from_unsigned count) (from_unsigned (max observed 1)) in
      entropy_of observed (minus sum (times p (ln p))) counts

  -- tp, fp, tn, fn
  abbrev pub Confusion : Type 0
  Confusion = F × F × F × F

  abbrev pub tally : (above true_link : Bool) → Confusion → Confusion
  tally true true (tp, fp, tn, fn) = (plus tp (literal 1 0), fp, tn, fn)
  tally true false (tp, fp, tn, fn) = (tp, plus fp (literal 1 0), tn, fn)
  tally false false (tp, fp, tn, fn) = (tp, fp, plus tn (literal 1 0), fn)
  tally false true (tp, fp, tn, fn) = (tp, fp, tn, plus fn (literal 1 0))

  -- `o.score >= threshold` is `threshold <= o.score`.
  unfoldable pub confusion : F → Confusion → List (Observation F) → Confusion
  confusion threshold c [] = c
  confusion threshold c (o ∷ os) =
      confusion threshold (tally (at_most threshold o.score) o.true_link c) os

  unfoldable pub win : F → F → F
  win p n =
      if below n p
      then literal 1 0
      else if below (abs (minus p n)) epsilon
      then literal 5 1
      else zero_f64

  unfoldable pub wins_over : F → F → List (Observation F) → F
  unfolding win
  wins_over sum p [] = sum
  wins_over sum p (n ∷ ns) = wins_over (plus sum (win p n.score)) p ns

  unfoldable pub wins : F → List (Observation F) → List (Observation F) → F
  unfolding wins_over
  wins sum [] negatives = sum
  wins sum (p ∷ ps) negatives = wins (wins_over sum p.score negatives) ps negatives

  unfoldable pub auc : List (Observation F) → F
  unfolding wins linked
  auc executed =
      let positives = linked true executed in
      let negatives = linked false executed in
      if is_empty positives
      then literal 5 1
      else if is_empty negatives
      then literal 5 1
      else divided (wins zero_f64 positives negatives)
          (from_unsigned (length positives * length negatives))

  unfoldable pub metrics :
      List (Observation F) → (announced target : ℕ) → Result (EvaluationMetrics F) Panic
  unfolding only_executed sort_slots percentile spread_of group entropy_of ones confusion ratio auc
  metrics obs announced target =
      let executed = only_executed obs in
      let observed = saturating_u32 (length executed) in
      let sorted = sort_slots (deviations target executed) in
      let groups = values (group [] executed) in
      let entropy = entropy_of observed zero_f64 groups in
      let (tp, fp, tn, fn) =
        confusion (literal 5 1) (zero_f64, zero_f64, zero_f64, zero_f64) executed in
      let precision = ratio tp (plus tp fp) in
      let recall = ratio tp (plus tp fn) in
      do
        median ← percentile sorted (literal 5 1)
        p95 ← percentile sorted (literal 95 2)
        ok (record {
          announced_cohort_size = announced;
          observed_cohort_size = observed;
          completion_rate = ratio (from_unsigned observed) (from_unsigned announced);
          execution_spread_slots = spread_of target executed;
          median_timing_deviation = median;
          p95_timing_deviation = p95;
          unique_fingerprint_rate = ratio (from_unsigned (ones groups)) (from_unsigned observed);
          minimum_k_anonymity = min_or 0 groups;
          shannon_entropy = entropy;
          effective_anonymity_set = exp entropy;
          normalized_entropy =
              if ltb 1 observed then divided entropy (ln (from_unsigned observed)) else zero_f64;
          linkage_precision = precision;
          linkage_recall = recall;
          linkage_f1 =
              if below zero_f64 (plus precision recall)
              then divided (times (times (literal 2 0) precision) recall) (plus precision recall)
              else zero_f64;
          roc_auc = auc executed;
          false_positive_rate = ratio fp (plus fp tn);
          false_negative_rate = ratio fn (plus fn tp);
        })

  module _ {R : Type 0} (rng : Rng F R) (blake3 : Bytes → Bytes)
      (to_vec : List (Observation F) → Option Bytes) where
    -- `evaluate` after its validation. The outer error is a panic, the inner one the `Err`.
    unfoldable pub evaluate_valid :
        Scenario F → Result (Result (EvaluationReport F) EvaluationError) Panic
    unfolding observe_all metrics hash
    evaluate_valid s = do
      observations ← observe_all f64 rng s s.participant_count 0 (rng.seed_from_u64 s.seed)
      measured ← metrics observations s.participant_count target_slot
      ok (do
        trace ← ok_or (to_vec observations) serialization
        ok (record {
          scenario = s;
          metrics = measured;
          trace_hash = hash blake3 (codes "evaluation-trace") trace;
          limitations = limitations;
        }))

    -- `evaluate`
    unfoldable pub evaluate :
        Scenario F → Result (Result (EvaluationReport F) EvaluationError) Panic
    unfolding evaluate_valid validate
    evaluate s = and_then (validate f64 s) (evaluate_valid s)
