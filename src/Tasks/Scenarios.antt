-- ===== src/Tasks/Scenarios.antt =====
-- xtask/src/main.rs: the scenarios that `generate` evaluates, and that each is valid.
use mirror_pool.Prelude.{
  ℕ, zero, suc, ◌+◌, ◌-◌, ◌/◌, ◌%◌, ◌<◌, ◌≤◌, ◌≡◌, true, false, List, [], ◌∷◌, ◌++◌, ok, refl,
  arith, All, length, ◌==◌, if◌then◌else◌, u64_mod, length-append,
}
use mirror_pool.Core.Defs.{PrivacyBackend}
use mirror_pool.Simulator.Defs.{
  Float64, Scenario, ObserverFeatures, default_features, ReleaseStrategy, fixed_slot, narrow_window,
  randomized_within_window, latency_aware, target_slot, validate,
}
use mirror_pool.Simulator.Observations.{reach}

-- An array of three or four, read at an index below its length.
abbrev third {ℓ} : {A : Type ℓ} → A → A → A → ℕ → A
third a b c n = if n == 0 then a else if n == 1 then b else c

abbrev fourth {ℓ} : {A : Type ℓ} → A → A → A → A → ℕ → A
fourth a b c d n = if n == 0 then a else third b c d (n - 1)

reach-le : (t : ReleaseStrategy) (window : ℕ) → reach t window ≤ window
reach-le fixed_slot window = omega arith
reach-le narrow_window window = ground arith
reach-le randomized_within_window window = omega arith
reach-le latency_aware window = ground arith

window-le : (round : ℕ) → (if round % 3 == 0 then 20 else 4) ≤ 20
window-le round = ground arith

All-append : {A : Type 0} (P : A → Type 0) (xs ys : List A) → All P xs → All P ys → All P (xs ++ ys)
All-append P [] ys ps qs = qs
All-append P (x ∷ xs) ys ps qs = (ps.0, All-append P xs ys ps.1 qs)

module _ {F : Type 0} (f64 : Float64 F) where
  unfoldable pub scenario : (count seed : ℕ) → PrivacyBackend → (dropout : F) → Scenario F
  scenario count seed backend dropout = record {
    scenario_version = 1;
    seed = seed;
    participant_count = count;
    backend = backend;
    release_strategy = narrow_window;
    execution_window_slots = 4;
    dropout_rate = dropout;
    longitudinal_periods = 1;
    observer_features = default_features;
  }

  -- The scenario of one of the 120 rounds.
  unfoldable pub baseline : ℕ → Scenario F
  unfolding scenario
  baseline round =
      record (scenario (third 10 100 1000 (round % 3)) (third 7 42 99 (round / 3 % 3) + round)
        (if round % 2 == 0
          then PrivacyBackend.transparent_registry
          else PrivacyBackend.merkle_cohort)
        (if round % 5 == 0 then f64.literal 35 2 else f64.literal 5 2)) {
          release_strategy =
              fourth fixed_slot narrow_window randomized_within_window latency_aware (round % 4);
          execution_window_slots = if round % 3 == 0 then 20 else 4;
          longitudinal_periods = if round % 4 == 0 then 10 else 1;
        }

  -- `for round in 0..120_u64`, from a round on.
  unfoldable pub baselines : (left round : ℕ) → List (Scenario F)
  baselines zero round = []
  baselines (suc left) round = baseline round ∷ baselines left (round + 1)

  -- The observers that lack one feature.
  abbrev pub ablations : List ObserverFeatures
  ablations =
      record default_features { timing = false }
      ∷ record default_features { instruction_shape = false }
      ∷ record default_features { fee_behavior = false }
      ∷ record default_features { funding_graph = false }
      ∷ record default_features { amount_bucket = false }
      ∷ record default_features { historical_behavior = false }
      ∷ []

  unfoldable pub control : Scenario F
  unfolding scenario
  control = record (scenario 1000 10000 PrivacyBackend.merkle_cohort (f64.literal 1 1)) {
    longitudinal_periods = 10;
  }

  abbrev pub ablated : List ObserverFeatures → List (Scenario F)
  ablated [] = []
  ablated (features ∷ l) = record control { observer_features = features } ∷ ablated l

  -- All scenarios of `generate`, in its order.
  unfoldable pub scenarios : List (Scenario F)
  unfolding baselines
  scenarios = baselines 120 0 ++ (control ∷ ablated ablations)

  -- What is assumed of the dropout rates of the tasks, which are literals.
  pub record AreRates : Type 0 where
    pub high_low : f64.at_most (f64.literal 0 0) (f64.literal 35 2) ≡ true
    pub high_below : f64.below (f64.literal 35 2) (f64.literal 1 0) ≡ true
    pub low_low : f64.at_most (f64.literal 0 0) (f64.literal 5 2) ≡ true
    pub low_below : f64.below (f64.literal 5 2) (f64.literal 1 0) ≡ true
    pub control_low : f64.at_most (f64.literal 0 0) (f64.literal 1 1) ≡ true
    pub control_below : f64.below (f64.literal 1 1) (f64.literal 1 0) ≡ true

  -- A scenario that is valid, and whose slots fit a u64.
  pub record IsFit (s : Scenario F) : Type 0 where
    pub valid : validate f64 s ≡ ok tt
    pub fits : target_slot + reach s.release_strategy s.execution_window_slots < u64_mod

  module _ (rates : AreRates) where
    baseline-IsFit : (round : ℕ) → IsFit (baseline round)
    unfolding baseline scenario validate
    baseline-IsFit round = record {
      valid = ground (arith, rates.high_low, rates.high_below, rates.low_low, rates.low_below);
      fits = omega (
        arith,
        reach-le
            (fourth fixed_slot narrow_window randomized_within_window latency_aware (round % 4))
            (if round % 3 == 0 then 20 else 4),
        window-le round,
      );
    }

    control-IsFit : IsFit control
    unfolding control scenario validate
    control-IsFit = record {
      valid = ground (arith, rates.control_low, rates.control_below);
      fits = omega arith;
    }

    ablated-IsFit : (l : List ObserverFeatures) → All IsFit (ablated l)
    unfolding control scenario validate
    ablated-IsFit [] = tt
    ablated-IsFit (features ∷ l) =
        (record { valid = control-IsFit.valid; fits = omega arith }, ablated-IsFit l)

    baselines-IsFit : (left round : ℕ) → All IsFit (baselines left round)
    unfolding baselines
    baselines-IsFit zero round = tt
    baselines-IsFit (suc left) round = (baseline-IsFit round, baselines-IsFit left (round + 1))

    pub scenarios-IsFit : All IsFit scenarios
    unfolding scenarios
    scenarios-IsFit =
        All-append IsFit (baselines 120 0) (control ∷ ablated ablations) (baselines-IsFit 120 0)
          (control-IsFit, ablated-IsFit ablations)

  length-baselines : (left round : ℕ) → length (baselines left round) ≡ left
  unfolding baselines
  length-baselines zero round = refl
  length-baselines (suc left) round = omega (arith, length-baselines left (round + 1))

  pub length-scenarios : length scenarios ≡ 127
  unfolding scenarios
  length-scenarios =
      omega (
        arith,
        length-append (baselines 120 0) (control ∷ ablated ablations),
        length-baselines 120 0,
      )
