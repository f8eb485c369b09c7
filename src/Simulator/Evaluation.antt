-- ===== src/Simulator/Evaluation.antt =====
-- `metrics` and `evaluate` of crates/mirror-pool-simulator/src/lib.rs: what a report says of the
-- observations, and that there is one.
use mathlib.Core.List.{Memᴰ}
use mathlib.Core.Path.{subst}
use mirror_pool.Prelude.{
  ℕ, zero, suc, ◌+◌, ◌-◌, ◌≤◌, ◌<◌, ◌≡◌, inl, inr, List, [], ◌∷◌, some, ok, refl, ap, ◌∙◌, arith,
  length, All, >>=-eq-ok, >>=-ok, >>=-some, ok-injective, u32_mod, get_elem?, Bool-cases,
}
use mirror_pool.Simulator.Defs.{Float64, Observation, out_of_bounds, target_slot}
use mirror_pool.Simulator.Counting.{
  insert_slot, sort_slots, max_or, min_or, saturating_u32, only_executed, slots, deviations,
  spread_of,
}
use mirror_pool.Simulator.Metrics.{EvaluationMetrics, percentile, metrics}
use mirror_pool.Simulator.Groups.{IsMinimum, min_or-IsMinimum}

get_elem?-some {ℓ} :
    {A : Type ℓ} (xs : List A) (i : ℕ) → i < length xs → (a : A) × (get_elem? xs i ≡ some a)
get_elem?-some [] i h = absurd (omega arith)
get_elem?-some (x ∷ xs) zero h = (x, refl)
get_elem?-some (x ∷ xs) (suc i) h = get_elem?-some xs i (omega arith)

length-insert_slot : (n : ℕ) (ms : List ℕ) → length (insert_slot n ms) ≡ suc (length ms)
length-insert_slot n [] = refl
length-insert_slot n (m ∷ ms) = ground (arith, length-insert_slot n ms)

length-sort_slots : (ns : List ℕ) → length (sort_slots ns) ≡ length ns
unfolding sort_slots
length-sort_slots [] = refl
length-sort_slots (n ∷ ns) =
    omega (arith, length-insert_slot n (sort_slots ns), length-sort_slots ns)

module _ {F : Type 0} where
  length-deviations :
      (target : ℕ) (os : List (Observation F)) → length (deviations target os) ≡ length os
  length-deviations target [] = refl
  length-deviations target (o ∷ os) = ap suc (length-deviations target os)

  pub length-only_executed : (os : List (Observation F)) → length (only_executed os) ≤ length os
  unfolding only_executed
  length-only_executed [] = omega arith
  length-only_executed (o ∷ os) = ground (arith, length-only_executed os)

  pub All-only_executed :
      (P : Observation F → Type 0) (os : List (Observation F)) → All P os → All P (only_executed os)
  unfolding only_executed
  All-only_executed P [] a = tt
  All-only_executed P (o ∷ os) a = elim (Bool-cases o.executed) [
    | inl ran ↦ simp ran (a.0, All-only_executed P os a.1)
    | inr out ↦ simp out (All-only_executed P os a.1)
  ]

  le-max_or :
      (d : ℕ) (o : Observation F) (os : List (Observation F))
      → Memᴰ o os
      → o.slot ≤ max_or d (slots os)
  unfolding max_or
  le-max_or d o [] m = elim m [ ]
  le-max_or d o (x ∷ []) (Memᴰ.head e) = rw e (omega arith)
  le-max_or d o (x ∷ []) (Memᴰ.tail m) = elim m [ ]
  le-max_or d o (x ∷ y ∷ os) (Memᴰ.head e) = rw e (ground arith)
  le-max_or d o (x ∷ y ∷ os) (Memᴰ.tail m) = ground (arith, le-max_or d o (y ∷ os) m)

  min_or-le-slot :
      (d : ℕ) (o : Observation F) (os : List (Observation F))
      → Memᴰ o os
      → min_or d (slots os) ≤ o.slot
  unfolding min_or
  min_or-le-slot d o [] m = elim m [ ]
  min_or-le-slot d o (x ∷ []) (Memᴰ.head e) = rw e (omega arith)
  min_or-le-slot d o (x ∷ []) (Memᴰ.tail m) = elim m [ ]
  min_or-le-slot d o (x ∷ y ∷ os) (Memᴰ.head e) = rw e (ground arith)
  min_or-le-slot d o (x ∷ y ∷ os) (Memᴰ.tail m) = ground (arith, min_or-le-slot d o (y ∷ os) m)

  max_or_bounds :
      (low high d : ℕ) (os : List (Observation F))
      → low ≤ d
      → d ≤ high
      → All (λ (o : Observation F). (low ≤ o.slot) × (o.slot ≤ high)) os
      → (max_or d (slots os) ≤ high) × (low ≤ min_or d (slots os))
  unfolding max_or min_or
  max_or_bounds low high d [] p q a = (q, p)
  max_or_bounds low high d (x ∷ []) p q a = (a.0.1, a.0.0)
  max_or_bounds low high d (x ∷ y ∷ os) p q a =
      ground (arith, max_or_bounds low high d (y ∷ os) p q a.1)

  -- The spread is that of the slots: no two of them are further apart.
  pub spread_of-le :
      (d : ℕ) (o o' : Observation F) (os : List (Observation F))
      → Memᴰ o os
      → Memᴰ o' os
      → o.slot ≤ o'.slot + spread_of d os
  unfolding spread_of
  spread_of-le d o o' os m m' = omega (arith, le-max_or d o os m, min_or-le-slot d o' os m')

  pub spread_of_bounds :
      (spread d : ℕ) (os : List (Observation F))
      → All (λ (o : Observation F). (d ≤ o.slot) × (o.slot ≤ d + spread)) os
      → spread_of d os ≤ spread
  unfolding spread_of
  spread_of_bounds spread d os a =
      let (high, low) = max_or_bounds d (d + spread) d os (omega arith) (omega arith) a in
      omega arith

-- Rounding keeps the index of a percentile of fewer than 2 ^ 32 values within them.
pub record IsIndexing {F : Type 0} (f64 : Float64 F) : Type 0 where
  pub median :
      (n : ℕ)
      → n < u32_mod
      → f64.as_usize (f64.round (f64.times (f64.from_unsigned n) (f64.literal 5 1))) ≤ n
  pub p95 :
      (n : ℕ)
      → n < u32_mod
      → f64.as_usize (f64.round (f64.times (f64.from_unsigned n) (f64.literal 95 2))) ≤ n

module _ {F : Type 0} (f64 : Float64 F) where
  percentile_total :
      (sorted : List ℕ) (fraction : F)
      → f64.as_usize (f64.round (f64.times (f64.from_unsigned (length sorted - 1)) fraction))
        ≤ length sorted - 1
      → (d : F) × (percentile f64 sorted fraction ≡ ok d)
  unfolding percentile
  percentile_total [] fraction within = (f64.literal 0 0, refl)
  percentile_total (n ∷ ns) fraction within =
      let (d, got) =
        get_elem?-some (n ∷ ns)
          (f64.as_usize (f64.round (f64.times (f64.from_unsigned (length (n ∷ ns) - 1)) fraction)))
          (omega arith) in
      (f64.from_unsigned d, >>=-some got out_of_bounds _)

  pub metrics_total :
      IsIndexing f64
      → (obs : List (Observation F)) (announced target : ℕ) → length obs < u32_mod
      → (m : EvaluationMetrics F) × (metrics f64 obs announced target ≡ ok m)
  unfolding metrics
  metrics_total law obs announced target small =
      let sorted = sort_slots (deviations target (only_executed obs)) in
      let n : length sorted ≤ length obs = omega (
        arith,
        length-sort_slots (deviations target (only_executed obs)),
        length-deviations target (only_executed obs),
        length-only_executed obs,
      ) in
      let (median, e) =
        percentile_total sorted (f64.literal 5 1) (law.median (length sorted - 1) (omega arith)) in
      let (p95, e') =
        percentile_total sorted (f64.literal 95 2) (law.p95 (length sorted - 1) (omega arith)) in
      (_, >>=-ok e _ ∙ >>=-ok e' _)

  -- What the metrics say that numbers can say of the observations that were executed.
  pub record Measures (m : EvaluationMetrics F) (executed : List (Observation F)) : Type 0 where
    pub observed : m.observed_cohort_size ≡ saturating_u32 (length executed)
    pub smallest : IsMinimum m.minimum_k_anonymity executed
    pub spread : m.execution_spread_slots ≡ spread_of target_slot executed

  pub metrics-Measures :
      (obs : List (Observation F)) (announced : ℕ) {m : EvaluationMetrics F}
      → metrics f64 obs announced target_slot ≡ ok m
      → Measures m (only_executed obs) × (m.announced_cohort_size ≡ announced)
  unfolding metrics
  metrics-Measures obs announced {m} h =
      let executed = only_executed obs in
      let sorted = sort_slots (deviations target_slot executed) in
      let (median, _, h₁) = >>=-eq-ok (percentile f64 sorted (f64.literal 5 1)) _ h in
      let (p95, _, h₂) = >>=-eq-ok (percentile f64 sorted (f64.literal 95 2)) _ h₁ in
      subst
        (λ (m : EvaluationMetrics F). Measures m executed × (m.announced_cohort_size ≡ announced))
        (ok-injective h₂)
        (record { observed = refl; smallest = min_or-IsMinimum executed; spread = refl }, refl)
