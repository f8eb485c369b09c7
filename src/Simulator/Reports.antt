-- ===== src/Simulator/Reports.antt =====
-- The reports of `evaluate` in crates/mirror-pool-simulator/src/lib.rs.
use mathlib.Core.List.{Memᴰ}
use mathlib.Core.Path.{subst}
use mirror_pool.Prelude.{
  ◌+◌, ◌≤◌, ◌<◌, ◌≡◌, ◌⊎◌, inl, inr, true, false, Bool, List, Bytes, codes, Option, some, ok, err,
  Result, refl, ap, ◌∙◌, arith, length, All, supplied, >>=-eq-ok, >>=-ok, >>=-some, ok-injective,
  u64_mod, fail_if, Option-cases,
}
use mirror_pool.Core.Defs.{hash}
use mirror_pool.Simulator.Defs.{
  Float64, Rng, Scenario, Observation, invalid_scenario, serialization, target_slot, validate,
  observe_all,
}
use mirror_pool.Simulator.Counting.{only_executed}
use mirror_pool.Simulator.Metrics.{EvaluationReport, metrics, evaluate_valid, evaluate, and_then}
use mirror_pool.Simulator.Groups.{IsMinimum}
use mirror_pool.Simulator.Observations.{
  reach, IsRng, IsTimely, Numbered, observe_all-Numbered, observe_all-IsTimely, observe_all_total,
}
use mirror_pool.Simulator.Evaluation.{
  IsIndexing, Measures, metrics_total, metrics-Measures, length-only_executed, All-only_executed,
  spread_of-le, spread_of_bounds,
}

and_then-ok :
    {A E P : Type 0} (check : Result Unit E) (rest : Result (Result A E) P) {a : A}
    → and_then check rest ≡ ok (ok a)
    → (check ≡ ok tt) × (rest ≡ ok (ok a))
and_then-ok (err e) rest h = absurd (ground arith)
and_then-ok (ok valid) rest h = (refl, h)

fail_cases : {E : Type 0} (c : Bool) (e : E) → (fail_if c e ≡ err e) ⊎ (fail_if c e ≡ ok tt)
fail_cases true e = inl refl
fail_cases false e = inr refl

module _ {F R : Type 0} (f64 : Float64 F) (rng : Rng F R) (law : IsRng f64 rng)
    (blake3 : Bytes → Bytes) (to_vec : List (Observation F) → Option Bytes) where
  -- The scenarios that `validate` lets through.
  pub record IsScenario (s : Scenario F) : Type 0 where
    pub current : s.scenario_version ≡ 1
    pub two_or_more : 2 ≤ s.participant_count
    pub bounded : s.participant_count ≤ 100000
    pub window : 0 < s.execution_window_slots
    pub low : f64.at_most (f64.literal 0 0) s.dropout_rate ≡ true
    pub high : f64.below s.dropout_rate (f64.literal 1 0) ≡ true

  pub validate-IsScenario : (s : Scenario F) → validate f64 s ≡ ok tt → IsScenario s
  unfolding validate
  validate-IsScenario s h = ground arith

  -- What a report says of the observations on which it rests.
  pub record Reported (s : Scenario F) (report : EvaluationReport F) : Type 0 where
    pub observations : List (Observation F)
    pub trace : Bytes
    pub valid : IsScenario s
    pub complete : length observations ≡ s.participant_count
    pub numbered : Numbered 0 observations
    pub timely : All (IsTimely s) observations
    pub announced : report.metrics.announced_cohort_size ≡ s.participant_count
    pub observed : report.metrics.observed_cohort_size ≡ length (only_executed observations)
    pub at_most : report.metrics.observed_cohort_size ≤ report.metrics.announced_cohort_size
    pub smallest : IsMinimum report.metrics.minimum_k_anonymity (only_executed observations)
    pub spread :
        (o o' : Observation F)
        → Memᴰ o (only_executed observations)
        → Memᴰ o' (only_executed observations)
        → o.slot ≤ o'.slot + report.metrics.execution_spread_slots
    pub within :
        report.metrics.execution_spread_slots ≤ reach s.release_strategy s.execution_window_slots
    pub serialized : to_vec observations ≡ some trace
    pub hashed : report.trace_hash ≡ hash blake3 (codes "evaluation-trace") trace

  -- The run behind a report.
  pub record Run (s : Scenario F) (report : EvaluationReport F) : Type 0 where
    pub observations : List (Observation F)
    pub trace : Bytes
    pub valid : IsScenario s
    pub made :
        observe_all f64 rng s s.participant_count 0 (rng.seed_from_u64 s.seed) ≡ ok observations
    pub measures : Measures f64 report.metrics (only_executed observations)
    pub announced : report.metrics.announced_cohort_size ≡ s.participant_count
    pub serialized : to_vec observations ≡ some trace
    pub hashed : report.trace_hash ≡ hash blake3 (codes "evaluation-trace") trace

  pub evaluate-Run :
      (s : Scenario F) {report : EvaluationReport F}
      → evaluate f64 rng blake3 to_vec s ≡ ok (ok report)
      → Run s report
  unfolding evaluate evaluate_valid
  evaluate-Run s {report} h =
      let (valid, h₁) = and_then-ok (validate f64 s) _ h in
      let (obs, made, h₂) =
        >>=-eq-ok (observe_all f64 rng s s.participant_count 0 (rng.seed_from_u64 s.seed)) _ h₁ in
      let (m, measured, h₃) = >>=-eq-ok (metrics f64 obs s.participant_count target_slot) _ h₂ in
      let (trace, written, e) = supplied (to_vec obs) serialization _ (ok-injective h₃) in
      let (measures, announced) = metrics-Measures f64 obs s.participant_count measured in
      subst (λ (report : EvaluationReport F). Run s report) (ok-injective e)
        (record {
          observations = obs;
          trace = trace;
          valid = validate-IsScenario s valid;
          made = made;
          measures = measures;
          announced = announced;
          serialized = written;
          hashed = refl;
        })

  -- A report rests on one observation for each participant, in the order of their numbers from 0
  -- on, each released as its strategy may: for those that executed, it has their number, the size
  -- of the smallest class that shares a fingerprint, and a spread that no two of their slots
  -- exceed, itself within the strategy's reach. Its hash is that of the observations.
  pub evaluate-Reported :
      (s : Scenario F) {report : EvaluationReport F}
      → evaluate f64 rng blake3 to_vec s ≡ ok (ok report)
      → Reported s report
  evaluate-Reported s {report} h =
      let run = evaluate-Run s h in
      let executed = only_executed run.observations in
      let (timely, complete) =
        observe_all-IsTimely f64 rng law s s.participant_count 0 _ run.made in
      let fewer = length-only_executed run.observations in
      record {
        observations = run.observations;
        trace = run.trace;
        valid = run.valid;
        complete = complete;
        numbered =
            observe_all-Numbered f64 rng law s s.participant_count 0 (rng.seed_from_u64 s.seed)
              run.made;
        timely = timely;
        announced = run.announced;
        observed = ground (arith, run.measures.observed, run.valid.bounded, complete, fewer);
        at_most =
            ground
              (arith, run.measures.observed, run.valid.bounded, complete, fewer, run.announced);
        smallest = run.measures.smallest;
        spread = λ o o' m m'. rw run.measures.spread (spread_of-le target_slot o o' executed m m');
        within = rw run.measures.spread (
            spread_of_bounds (reach s.release_strategy s.execution_window_slots) target_slot
              executed (All-only_executed (IsTimely s) run.observations timely));
        serialized = run.serialized;
        hashed = run.hashed;
      }

  validate_cases :
      (s : Scenario F) → (validate f64 s ≡ err invalid_scenario) ⊎ (validate f64 s ≡ ok tt)
  unfolding validate
  validate_cases s = fail_cases _ invalid_scenario

  evaluate_valid_total :
      IsIndexing f64
      → (s : Scenario F) (obs : List (Observation F)) → IsScenario s
      → observe_all f64 rng s s.participant_count 0 (rng.seed_from_u64 s.seed) ≡ ok obs
      → (evaluate_valid f64 rng blake3 to_vec s ≡ ok (err serialization))
        ⊎ ((report : EvaluationReport F) × (evaluate_valid f64 rng blake3 to_vec s
              ≡ ok (ok report)))
  unfolding evaluate_valid
  evaluate_valid_total indexing s obs valid made =
      let (_, complete) = observe_all-IsTimely f64 rng law s s.participant_count 0 _ made in
      let (m, measured) =
        metrics_total f64 indexing obs s.participant_count target_slot
          (omega (arith, valid.bounded, complete)) in
      let run = >>=-ok made _ ∙ >>=-ok measured _ in
      elim (Option-cases (to_vec obs)) [
        | inl fails ↦ inl (run ∙ rw fails refl)
        | inr (trace, written) ↦ inr (_, run ∙ ap ok (>>=-some written serialization _))
      ]

  -- `evaluate` ends in a result, never in a panic, on every scenario whose latest slot fits a u64: the
  -- error of an invalid scenario, or that of the serialization, or a report. The generator is assumed
  -- to keep to its ranges and to take probabilities, and rounding to keep an index within its bound.
  pub evaluate_total :
      IsIndexing f64
      → (s : Scenario F) → target_slot + reach s.release_strategy s.execution_window_slots < u64_mod
      → (evaluate f64 rng blake3 to_vec s ≡ ok (err invalid_scenario))
        ⊎ (IsScenario s
            × ((evaluate f64 rng blake3 to_vec s ≡ ok (err serialization))
                ⊎ ((report : EvaluationReport F) × (evaluate f64 rng blake3 to_vec s
                      ≡ ok (ok report)))))
  unfolding evaluate
  evaluate_total indexing s fits = elim (validate_cases s) [
    | inl e ↦ inl (rw e refl)
    | inr e ↦
        let valid = validate-IsScenario s e in
        let (obs, made) =
          observe_all_total f64 rng law s s.participant_count 0 (rng.seed_from_u64 s.seed) valid.low
            valid.high fits in
        inr (valid, rw e (evaluate_valid_total indexing s obs valid made))
  ]

  -- On a valid scenario whose slots fit a u64 and whose observations can be written out there is a
  -- report.
  pub evaluate_report :
      IsIndexing f64
      → ((os : List (Observation F)) → (trace : Bytes) × (to_vec os ≡ some trace))
      → (s : Scenario F) → validate f64 s ≡ ok tt
      → target_slot + reach s.release_strategy s.execution_window_slots < u64_mod
      → (report : EvaluationReport F) × (evaluate f64 rng blake3 to_vec s ≡ ok (ok report))
  unfolding evaluate evaluate_valid
  evaluate_report indexing encodes s e fits =
      let valid = validate-IsScenario s e in
      let (obs, made) =
        observe_all_total f64 rng law s s.participant_count 0 (rng.seed_from_u64 s.seed) valid.low
          valid.high fits in
      let (_, complete) = observe_all-IsTimely f64 rng law s s.participant_count 0 _ made in
      let (m, measured) =
        metrics_total f64 indexing obs s.participant_count target_slot
          (omega (arith, valid.bounded, complete)) in
      let (trace, written) = encodes obs in
      let run = >>=-ok made _ ∙ >>=-ok measured _ ∙ ap ok (>>=-some written serialization _) in
      (_, ap (λ check. and_then check (evaluate_valid f64 rng blake3 to_vec s)) e ∙ run)
