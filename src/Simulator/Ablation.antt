-- ===== src/Simulator/Ablation.antt =====
-- Two runs of `evaluate` in crates/mirror-pool-simulator/src/lib.rs that differ in the features of the
-- observer alone.
use mathlib.Core.List.{Memᴰ}
use mathlib.Core.Path.{subst}
use mirror_pool.Prelude.{
  ℕ, zero, suc, ◌+◌, ◌-◌, ◌≤◌, ◌≡◌, inl, inr, List, [], ◌∷◌, Bytes, bytes_eq, bytes_eq_iff, Option,
  ok, refl, sym, ap, ◌∙◌, arith, length, supplied, >>=-eq-ok, >>=-ok, >>=-some, ok-injective,
  Bool-cases,
}
use mirror_pool.Simulator.Defs.{
  ObserverFeatures, Float64, Rng, Scenario, Observation, invalid_probability, target_slot,
  observation, release_of, observe, observe_all, shape_of, fingerprint_of,
}
use mirror_pool.Simulator.Counting.{only_executed, slots, spread_of, max_or, min_or, saturating_u32}
use mirror_pool.Simulator.Metrics.{EvaluationReport, evaluate}
use mirror_pool.Simulator.Groups.{share, IsMinimum}
use mirror_pool.Simulator.Observations.{IsRng}
use mirror_pool.Simulator.Reports.{evaluate-Run}
use mirror_pool.Simulator.Fingerprints.{Includes, fingerprint_of-injective, shape_of-coarsens}

-- The same observation for an observer of features f and one of features g.
pub record Twin {F : Type 0} (f g : ObserverFeatures) (periods : ℕ) (o o' : Observation F)
    : Type 0 where
  pub executed : o.executed ≡ o'.executed
  pub slot : o.slot ≡ o'.slot
  pub fingerprint : o.fingerprint ≡ fingerprint_of (shape_of f periods o.slot o.participant)
  pub fingerprint' : o'.fingerprint ≡ fingerprint_of (shape_of g periods o.slot o.participant)

module _ {F : Type 0} (f g : ObserverFeatures) (periods : ℕ) where
  abbrev Twins : List (Observation F) → List (Observation F) → Type 0
  Twins [] [] = Unit
  Twins (o ∷ os) (o' ∷ os') = Twin f g periods o o' × Twins os os'
  Twins _ _ = ⊥

  -- Whom the observer of fewer features tells apart, the other does too.
  Twin-coarsens :
      (o o' x x' : Observation F)
      → Includes f g
      → Twin f g periods o o'
      → Twin f g periods x x'
      → o.fingerprint ≡ x.fingerprint
      → o'.fingerprint ≡ x'.fingerprint
  Twin-coarsens o o' x x' includes t u e =
      let same =
        fingerprint_of-injective (shape_of f periods o.slot o.participant)
          (shape_of f periods x.slot x.participant) (sym t.fingerprint ∙ e ∙ u.fingerprint) in
      t.fingerprint'
      ∙ ap fingerprint_of
          (shape_of-coarsens f g periods o.slot x.slot o.participant x.participant includes same)
      ∙ sym u.fingerprint'

  share-coarsens :
      (o o' : Observation F) (os os' : List (Observation F))
      → Includes f g
      → Twin f g periods o o'
      → Twins os os'
      → share o.fingerprint os ≤ share o'.fingerprint os'
  unfolding share
  share-coarsens o o' [] [] includes t ts = omega arith
  share-coarsens o o' [] (x' ∷ os') includes t ts = elim ts [ ]
  share-coarsens o o' (x ∷ os) [] includes t ts = elim ts [ ]
  share-coarsens o o' (x ∷ os) (x' ∷ os') includes t ts =
      let later = share-coarsens o o' os os' includes t ts.1 in
      elim (Bool-cases (bytes_eq o.fingerprint x.fingerprint)) [
        | inl same ↦
            let also = (bytes_eq_iff o'.fingerprint x'.fingerprint).1 (
              Twin-coarsens o o' x x' includes t ts.0
                ((bytes_eq_iff o.fingerprint x.fingerprint).0 same)) in
            rw (same, also) (omega (arith, later))
        | inr other ↦ rw other (ground (arith, later))
      ]

  Twins-only_executed :
      (os os' : List (Observation F)) → Twins os os' → Twins (only_executed os) (only_executed os')
  unfolding only_executed
  Twins-only_executed [] [] ts = tt
  Twins-only_executed [] (x' ∷ os') ts = elim ts [ ]
  Twins-only_executed (x ∷ os) [] ts = elim ts [ ]
  Twins-only_executed (x ∷ os) (x' ∷ os') ts =
      let later = Twins-only_executed os os' ts.1 in
      elim (Bool-cases x.executed) [
        | inl ran ↦ simp (ran, sym ts.0.executed ∙ ran) (ts.0, later)
        | inr out ↦ simp (out, sym ts.0.executed ∙ out) later
      ]

  Twins-length : (os os' : List (Observation F)) → Twins os os' → length os ≡ length os'
  Twins-length [] [] ts = refl
  Twins-length [] (x' ∷ os') ts = elim ts [ ]
  Twins-length (x ∷ os) [] ts = elim ts [ ]
  Twins-length (x ∷ os) (x' ∷ os') ts = ap suc (Twins-length os os' ts.1)

  Twins-slots : (os os' : List (Observation F)) → Twins os os' → slots os ≡ slots os'
  Twins-slots [] [] ts = refl
  Twins-slots [] (x' ∷ os') ts = elim ts [ ]
  Twins-slots (x ∷ os) [] ts = elim ts [ ]
  Twins-slots (x ∷ os) (x' ∷ os') ts = λ i. ts.0.slot i ∷ Twins-slots os os' ts.1 i

  -- Each observation has its twin.
  Twins-mem :
      (o' : Observation F) (os os' : List (Observation F))
      → Twins os os'
      → Memᴰ o' os'
      → (o : Observation F) × Memᴰ o os × Twin f g periods o o'
  Twins-mem o' [] [] ts m = elim m [ ]
  Twins-mem o' [] (x' ∷ os') ts m = elim ts [ ]
  Twins-mem o' (x ∷ os) [] ts m = elim ts [ ]
  Twins-mem o' (x ∷ os) (x' ∷ os') ts (Memᴰ.head e) =
      (x, Memᴰ.head refl, subst (λ (z : Observation F). Twin f g periods x z) (sym e) ts.0)
  Twins-mem o' (x ∷ os) (x' ∷ os') ts (Memᴰ.tail m) =
      let (o, at, t) = Twins-mem o' os os' ts.1 m in (o, Memᴰ.tail at, t)

  IsMinimum-coarsens :
      (k k' : ℕ) (os os' : List (Observation F))
      → Includes f g
      → Twins os os'
      → IsMinimum k os
      → IsMinimum k' os'
      → k ≤ k'
  IsMinimum-coarsens k k' os os' includes ts least least' = elim least'.attained [
    | inl (nothing', zero') ↦ elim least.attained [
      | inl (nothing, zero_k) ↦ omega arith
      | inr (o, m, e) ↦ absurd (empty os os' o ts nothing' m)
    ]
    | inr (o', m', e') ↦
        let (o, m, t) = Twins-mem o' os os' ts m' in
        omega (arith, least.least o m, share-coarsens o o' os os' includes t ts)
  ]
    where
      empty :
          (os os' : List (Observation F)) (o : Observation F)
          → Twins os os'
          → os' ≡ []
          → Memᴰ o os
          → ⊥
      empty [] os' o ts e m = elim m [ ]
      empty (x ∷ os) [] o ts e m = elim ts [ ]
      empty (x ∷ os) (x' ∷ os') o ts e m = cc

module _ {F R : Type 0} (f64 : Float64 F) (rng : Rng F R) (s : Scenario F)
    (g : ObserverFeatures) where
  -- The scenario with an observer of other features.
  abbrev pub observed_by : Scenario F
  observed_by = record s { observer_features = g }

  observe-Twin :
      (participant : ℕ) (r : R) {o : Observation F} {r' : R}
      → observe f64 rng s participant r ≡ ok (o, r')
      → (o' : Observation F) × (observe f64 rng observed_by participant r ≡ ok (o', r'))
        × Twin s.observer_features g s.longitudinal_periods o o'
  unfolding observe
  observe-Twin participant r h =
      let ((dropped, r₁), drawn, h₁) =
        supplied (rng.gen_bool r s.dropout_rate) invalid_probability _ h in
      let ((slot, r₂), released, h₂) =
        >>=-eq-ok (release_of f64 rng s.release_strategy s.execution_window_slots r₁) _ h₁ in
      let noise = (rng.gen_noise r₂).0 in
      subst
        (λ (made : Observation F × R).
          (o' : Observation F) × (observe f64 rng observed_by participant r ≡ ok (o', made.1))
          × Twin s.observer_features g s.longitudinal_periods made.0 o')
        (ok-injective h₂)
        (
          observation f64 observed_by participant dropped slot noise,
          >>=-some drawn invalid_probability _ ∙ >>=-ok released _,
          record { executed = refl; slot = refl; fingerprint = refl; fingerprint' = refl },
        )

  observe_all-Twins :
      (left participant : ℕ) (r : R) {os : List (Observation F)}
      → observe_all f64 rng s left participant r ≡ ok os
      → (os' : List (Observation F)) × (observe_all f64 rng observed_by left participant r ≡ ok os')
        × Twins s.observer_features g s.longitudinal_periods os os'
  unfolding observe_all
  observe_all-Twins zero participant r h =
      subst
        (λ (os : List (Observation F)).
          (os' : List (Observation F)) × (observe_all f64 rng observed_by zero participant r
            ≡ ok os')
          × Twins s.observer_features g s.longitudinal_periods os os')
        (ok-injective h) ([], refl, tt)
  observe_all-Twins (suc left) participant r h =
      let ((o, r'), seen, h₁) = >>=-eq-ok (observe f64 rng s participant r) _ h in
      let (rest, others, e) = >>=-eq-ok (observe_all f64 rng s left (participant + 1) r') _ h₁ in
      let (o', seen', t) = observe-Twin participant r seen in
      let (rest', others', ts) = observe_all-Twins left (participant + 1) r' others in
      subst
        (λ (os : List (Observation F)).
          (os' : List (Observation F)) × (observe_all f64 rng observed_by (suc left) participant r
            ≡ ok os')
          × Twins s.observer_features g s.longitudinal_periods os os')
        (ok-injective e) (o' ∷ rest', >>=-ok seen' _ ∙ >>=-ok others' _, (t, ts))

  -- An observer of fewer features never makes the cohort look smaller: with the same seed and all
  -- else equal, the observed cohort and the spread are the same, and `minimum_k_anonymity` is at least
  -- that of the observer of more features.
  pub evaluate-ablation :
      (law : IsRng f64 rng) (blake3 : Bytes → Bytes) (to_vec : List (Observation F) → Option Bytes)
      {report report' : EvaluationReport F}
      → Includes s.observer_features g
      → evaluate f64 rng blake3 to_vec s ≡ ok (ok report)
      → evaluate f64 rng blake3 to_vec observed_by ≡ ok (ok report')
      → (report.metrics.observed_cohort_size ≡ report'.metrics.observed_cohort_size)
        × (report.metrics.execution_spread_slots ≡ report'.metrics.execution_spread_slots)
        × (report.metrics.minimum_k_anonymity ≤ report'.metrics.minimum_k_anonymity)
  unfolding spread_of
  evaluate-ablation law blake3 to_vec {report} {report'} includes h h' =
      let run = evaluate-Run f64 rng law blake3 to_vec s h in
      let run' = evaluate-Run f64 rng law blake3 to_vec observed_by h' in
      let (os', made', ts) =
        observe_all-Twins s.participant_count 0 (rng.seed_from_u64 s.seed) run.made in
      let same : os' ≡ run'.observations = ok-injective (sym made' ∙ run'.made) in
      let twins =
        Twins-only_executed s.observer_features g s.longitudinal_periods run.observations
          run'.observations
          (subst (λ os. Twins s.observer_features g s.longitudinal_periods run.observations os) same
            ts) in
      let executed = only_executed run.observations in
      let executed' = only_executed run'.observations in
      let n = Twins-length s.observer_features g s.longitudinal_periods executed executed' twins in
      let at = Twins-slots s.observer_features g s.longitudinal_periods executed executed' twins in
      (
        run.measures.observed ∙ ap saturating_u32 n ∙ sym run'.measures.observed,
        run.measures.spread
            ∙ ap (λ l. max_or target_slot l - min_or target_slot l) at
            ∙ sym run'.measures.spread,
        IsMinimum-coarsens s.observer_features g s.longitudinal_periods
            report.metrics.minimum_k_anonymity report'.metrics.minimum_k_anonymity executed
            executed' includes twins run.measures.smallest run'.measures.smallest,
      )
