-- ===== src/Simulator/Defs.antt =====
-- crates/mirror-pool-simulator/src/lib.rs: scenarios and their observations. `f64` and its operations
-- are a parameter, and so is the generator ChaCha20Rng; the overflow checks of the build make a sum
-- that does not fit a panic.
use mirror_pool.Prelude.{
  ℕ, zero, suc, ◌+◌, ◌%◌, Bool, true, not, ◌&&◌, ◌||◌, Option, List, [], ◌∷◌, ◌++◌, Bytes, ltb,
  ◌==◌, if◌then◌else◌, Result, ok, ◌>>=◌, fail_if, ok_or, checked_add, u64_mod, decimal,
}
use mirror_pool.Core.Defs.{PrivacyBackend}

pub data ReleaseStrategy : Type 0 where
  fixed_slot narrow_window randomized_within_window latency_aware : ReleaseStrategy

pub record ObserverFeatures : Type 0 where
  pub timing : Bool
  pub instruction_shape : Bool
  pub fee_behavior : Bool
  pub funding_graph : Bool
  pub amount_bucket : Bool
  pub historical_behavior : Bool

-- `ObserverFeatures::default`
abbrev pub default_features : ObserverFeatures
default_features = record {
  timing = true;
  instruction_shape = true;
  fee_behavior = true;
  funding_graph = true;
  amount_bucket = true;
  historical_behavior = true;
}

-- `f64`, with literals as a numerator and a power of ten, `x as f64` of an unsigned integer, and
-- `x as usize`.
pub record Float64 (F : Type 0) : Type 0 where
  pub literal : ℕ → ℕ → F
  pub from_unsigned : ℕ → F
  pub as_usize : F → ℕ
  pub plus : F → F → F
  pub minus : F → F → F
  pub times : F → F → F
  pub divided : F → F → F
  pub abs : F → F
  pub ln : F → F
  pub exp : F → F
  pub round : F → F
  pub clamp : F → F → F → F
  pub at_most : F → F → Bool
  pub below : F → F → Bool
  pub epsilon : F

-- `ChaCha20Rng` as a state R: `gen_bool(p)`, which panics for a p that is no probability, `gen_range`
-- on `0..=n`, and `gen_range(0.0..0.15)`.
pub record Rng (F R : Type 0) : Type 0 where
  pub seed_from_u64 : ℕ → R
  pub gen_bool : R → F → Option (Bool × R)
  pub gen_range : R → ℕ → ℕ × R
  pub gen_noise : R → F × R

pub record Scenario (F : Type 0) : Type 0 where
  pub scenario_version : ℕ
  pub seed : ℕ
  pub participant_count : ℕ
  pub backend : PrivacyBackend
  pub release_strategy : ReleaseStrategy
  pub execution_window_slots : ℕ
  pub dropout_rate : F
  pub longitudinal_periods : ℕ
  pub observer_features : ObserverFeatures

pub record Observation (F : Type 0) : Type 0 where
  pub participant : ℕ
  pub executed : Bool
  pub slot : ℕ
  pub fingerprint : Bytes
  pub score : F
  pub true_link : Bool

pub data EvaluationError : Type 0 where
  invalid_scenario serialization : EvaluationError

-- What ends the program.
pub data Panic : Type 0 where
  overflow out_of_bounds invalid_probability : Panic

-- `target_slot`
abbrev pub target_slot : ℕ
target_slot = 10000

abbrev pub min : ℕ → ℕ → ℕ
min a b = if ltb b a then b else a

abbrev pub max : ℕ → ℕ → ℕ
max a b = if ltb a b then b else a

-- The six numbers of a fingerprint.
pub record Shape : Type 0 where
  pub timing : ℕ
  pub shape : ℕ
  pub fee : ℕ
  pub funding : ℕ
  pub amount : ℕ
  pub history : ℕ

abbrev pub only_if : Bool → ℕ → ℕ
only_if b n = if b then n else 0

unfoldable pub shape_of : ObserverFeatures → (longitudinal_periods slot participant : ℕ) → Shape
shape_of features periods slot participant = record {
  timing = only_if features.timing (slot % 4);
  shape = only_if features.instruction_shape (participant % 5);
  fee = only_if features.fee_behavior (participant % 3);
  funding = only_if features.funding_graph (participant % 7);
  amount = only_if features.amount_bucket (participant % 4);
  history = only_if features.historical_behavior (participant % max periods 1);
}

-- `format!("{timing}:{shape}:{fee}:{funding}:{amount}:{history}")`
unfoldable pub fingerprint_of : Shape → Bytes
unfolding decimal
fingerprint_of s =
    decimal s.timing
    ++ 58
      ∷ (decimal s.shape
          ++ 58
            ∷ (decimal s.fee
                ++ 58 ∷ (decimal s.funding ++ 58 ∷ (decimal s.amount ++ 58 ∷ decimal s.history))))

-- The sum of the casts to u32, each of a number below 65536.
abbrev pub signal_of : Shape → ℕ
signal_of s = s.timing + s.shape + s.fee + s.funding + s.amount + s.history

module _ {F : Type 0} (f64 : Float64 F) where
  unfoldable pub validate : Scenario F → Result Unit EvaluationError
  validate s =
      fail_if
        (not (s.scenario_version == 1)
          || ltb s.participant_count 2
          || ltb 100000 s.participant_count
          || s.execution_window_slots == 0
          || not (
              f64.at_most (f64.literal 0 0) s.dropout_rate
              && f64.below s.dropout_rate (f64.literal 1 0)))
        invalid_scenario

  -- What the loop of `evaluate` pushes, from what it drew.
  abbrev pub observation :
      Scenario F → (participant : ℕ) → (dropped : Bool) → (slot : ℕ) → (noise : F) → Observation F
  observation s participant dropped slot noise =
      let features = shape_of s.observer_features s.longitudinal_periods slot participant in
      record {
        participant = participant;
        executed = not dropped;
        slot = slot;
        fingerprint = fingerprint_of features;
        score =
            f64.clamp
              (f64.plus (f64.divided (f64.from_unsigned (signal_of features)) (f64.literal 28 0))
                noise)
              (f64.literal 0 0) (f64.literal 1 0);
        true_link = participant % 2 == 0;
      }

  module _ {R : Type 0} (rng : Rng F R) where
    -- A slot of `0..=spread` after the target.
    unfoldable pub slot_within : ℕ → R → Result (ℕ × R) Panic
    slot_within spread r = do
      let (offset, r') = rng.gen_range r spread
      slot ← ok_or (checked_add u64_mod target_slot offset) overflow
      ok (slot, r')

    unfoldable pub release_of : ReleaseStrategy → ℕ → R → Result (ℕ × R) Panic
    unfolding slot_within
    release_of fixed_slot window r = ok (target_slot, r)
    release_of narrow_window window r = slot_within (min window 3) r
    release_of randomized_within_window window r = slot_within window r
    release_of latency_aware window r = slot_within (min window 2) r

    -- The body of the loop of `evaluate`.
    unfoldable pub observe : Scenario F → ℕ → R → Result (Observation F × R) Panic
    unfolding release_of
    observe s participant r = do
      (dropped, r₁) ← ok_or (rng.gen_bool r s.dropout_rate) invalid_probability
      (slot, r₂) ← release_of s.release_strategy s.execution_window_slots r₁
      let (noise, r₃) = rng.gen_noise r₂
      ok (observation s participant dropped slot noise, r₃)

    -- The loop, from a participant on, for as many as are left.
    unfoldable pub observe_all :
        Scenario F → (left participant : ℕ) → R → Result (List (Observation F)) Panic
    unfolding observe
    observe_all s zero participant r = ok []
    observe_all s (suc left) participant r = do
      (o, r') ← observe s participant r
      rest ← observe_all s left (participant + 1) r'
      ok (o ∷ rest)
