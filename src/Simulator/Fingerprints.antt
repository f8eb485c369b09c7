-- ===== src/Simulator/Fingerprints.antt =====
-- The fingerprints of crates/mirror-pool-simulator/src/lib.rs: what they tell, and what one of fewer
-- features tells less.
use mirror_pool.Prelude.{
  ℕ, ◌%◌, ◌≡◌, true, false, Bool, ◌++◌, ◌∷◌, Bytes, refl, ap, arith, decimal, decimal-injective,
  All-decimal, colon_unique,
}
use mirror_pool.Simulator.Defs.{ObserverFeatures, Shape, only_if, max, shape_of, fingerprint_of}

-- A number before a colon is read off a fingerprint.
first_number :
    (m n : ℕ) (rest rest' : Bytes)
    → decimal m ++ 58 ∷ rest ≡ decimal n ++ 58 ∷ rest'
    → (m ≡ n) × (rest ≡ rest')
first_number m n rest rest' e =
    let (front, behind) =
      colon_unique (decimal m) (decimal n) rest rest' (All-decimal m) (All-decimal n) e in
    (decimal-injective m n front, behind)

-- A fingerprint determines its six numbers.
pub fingerprint_of-injective : (s t : Shape) → fingerprint_of s ≡ fingerprint_of t → s ≡ t
unfolding fingerprint_of
fingerprint_of-injective s t e =
    let (timing, e₁) = first_number s.timing t.timing _ _ e in
    let (shape, e₂) = first_number s.shape t.shape _ _ e₁ in
    let (fee, e₃) = first_number s.fee t.fee _ _ e₂ in
    let (funding, e₄) = first_number s.funding t.funding _ _ e₃ in
    let (amount, e₅) = first_number s.amount t.amount _ _ e₄ in
    let history = decimal-injective s.history t.history e₅ in
    λ i. record {
      timing = timing i;
      shape = shape i;
      fee = fee i;
      funding = funding i;
      amount = amount i;
      history = history i;
    }

-- The features of the second are among those of the first.
pub record Includes (f g : ObserverFeatures) : Type 0 where
  pub timing : g.timing ≡ true → f.timing ≡ true
  pub instruction_shape : g.instruction_shape ≡ true → f.instruction_shape ≡ true
  pub fee_behavior : g.fee_behavior ≡ true → f.fee_behavior ≡ true
  pub funding_graph : g.funding_graph ≡ true → f.funding_graph ≡ true
  pub amount_bucket : g.amount_bucket ≡ true → f.amount_bucket ≡ true
  pub historical_behavior : g.historical_behavior ≡ true → f.historical_behavior ≡ true

only_if-coarsens :
    (b c : Bool) (m n : ℕ)
    → (c ≡ true → b ≡ true)
    → only_if b m ≡ only_if b n
    → only_if c m ≡ only_if c n
only_if-coarsens b false m n h e = refl
only_if-coarsens true true m n h e = e
only_if-coarsens false true m n h e = absurd (ground (arith, h refl))

-- What two shapes of more features share, those of fewer features share.
pub shape_of-coarsens :
    (f g : ObserverFeatures) (periods slot slot' p p' : ℕ)
    → Includes f g
    → shape_of f periods slot p ≡ shape_of f periods slot' p'
    → shape_of g periods slot p ≡ shape_of g periods slot' p'
unfolding shape_of
shape_of-coarsens f g periods slot slot' p p' includes e =
    let timing =
      only_if-coarsens f.timing g.timing (slot % 4) (slot' % 4) includes.timing
        (ap (λ (s : Shape). s.timing) e) in
    let shape =
      only_if-coarsens f.instruction_shape g.instruction_shape (p % 5) (p' % 5)
        includes.instruction_shape (ap (λ (s : Shape). s.shape) e) in
    let fee =
      only_if-coarsens f.fee_behavior g.fee_behavior (p % 3) (p' % 3) includes.fee_behavior
        (ap (λ (s : Shape). s.fee) e) in
    let funding =
      only_if-coarsens f.funding_graph g.funding_graph (p % 7) (p' % 7) includes.funding_graph
        (ap (λ (s : Shape). s.funding) e) in
    let amount =
      only_if-coarsens f.amount_bucket g.amount_bucket (p % 4) (p' % 4) includes.amount_bucket
        (ap (λ (s : Shape). s.amount) e) in
    let history =
      only_if-coarsens f.historical_behavior g.historical_behavior (p % max periods 1)
        (p' % max periods 1) includes.historical_behavior (ap (λ (s : Shape). s.history) e) in
    λ i. record {
      timing = timing i;
      shape = shape i;
      fee = fee i;
      funding = funding i;
      amount = amount i;
      history = history i;
    }
