-- ===== src/Simulator/Observations.antt =====
-- The observations that `evaluate` of crates/mirror-pool-simulator/src/lib.rs makes: what each is like,
-- and that none is missed by a panic.
use mathlib.Core.Path.{subst}
use mirror_pool.Prelude.{
  ok-injective, ℕ, zero, suc, ◌+◌, ◌≤◌, ◌<◌, ◌≡◌, true, List, [], ◌∷◌, some, ok, refl, ◌∙◌, arith,
  length, All, supplied, >>=-eq-ok, >>=-ok, >>=-some, u64_mod, Bool,
}
use mirror_pool.Simulator.Defs.{
  ReleaseStrategy, fixed_slot, narrow_window, randomized_within_window, latency_aware, Float64, Rng,
  Scenario, Observation, invalid_probability, target_slot, min, slot_within, release_of, observe,
  observe_all,
}

-- How far after the target slot a strategy may release.
abbrev pub reach : ReleaseStrategy → ℕ → ℕ
reach fixed_slot window = 0
reach narrow_window window = min window 3
reach randomized_within_window window = window
reach latency_aware window = min window 2

-- An observation whose slot lies where the strategy may release.
abbrev pub IsTimely : {F : Type 0} → Scenario F → Observation F → Type 0
IsTimely s o =
    (target_slot ≤ o.slot)
    × (o.slot ≤ target_slot + reach s.release_strategy s.execution_window_slots)

-- The observations are those of the participants from a number on, in their order.
abbrev pub Numbered : {F : Type 0} → ℕ → List (Observation F) → Type 0
Numbered n [] = Unit
Numbered n (o ∷ os) = (o.participant ≡ n) × Numbered (n + 1) os

-- The generator keeps to the range that it is asked for, and takes every probability below one.
pub record IsRng {F R : Type 0} (f64 : Float64 F) (rng : Rng F R) : Type 0 where
  pub in_range : (r : R) (n : ℕ) → (rng.gen_range r n).0 ≤ n
  pub probability :
      (r : R) (p : F)
      → f64.at_most (f64.literal 0 0) p ≡ true
      → f64.below p (f64.literal 1 0) ≡ true
      → (b : Bool) × (r' : R) × (rng.gen_bool r p ≡ some (b, r'))

module _ {F R : Type 0} (f64 : Float64 F) (rng : Rng F R) (law : IsRng f64 rng) where
  slot_within-ok :
      (spread : ℕ) (r : R) {slot : ℕ} {r' : R}
      → slot_within f64 rng spread r ≡ ok (slot, r')
      → (target_slot ≤ slot) × (slot ≤ target_slot + spread)
  unfolding slot_within
  slot_within-ok spread r h = ground (arith, law.in_range r spread)

  release_of-ok :
      (s : ReleaseStrategy) (window : ℕ) (r : R) {slot : ℕ} {r' : R}
      → release_of f64 rng s window r ≡ ok (slot, r')
      → (target_slot ≤ slot) × (slot ≤ target_slot + reach s window)
  unfolding release_of
  release_of-ok fixed_slot window r h = ground arith
  release_of-ok narrow_window window r h = slot_within-ok (min window 3) r h
  release_of-ok randomized_within_window window r h = slot_within-ok window r h
  release_of-ok latency_aware window r h = slot_within-ok (min window 2) r h

  slot_within_total :
      (spread : ℕ) (r : R)
      → target_slot + spread < u64_mod
      → (slot : ℕ) × (r' : R) × (slot_within f64 rng spread r ≡ ok (slot, r'))
  unfolding slot_within
  slot_within_total spread r fits = (
    target_slot + (rng.gen_range r spread).0,
    (rng.gen_range r spread).1,
    ground (arith, law.in_range r spread),
  )

  release_of_total :
      (s : ReleaseStrategy) (window : ℕ) (r : R)
      → target_slot + reach s window < u64_mod
      → (slot : ℕ) × (r' : R) × (release_of f64 rng s window r ≡ ok (slot, r'))
  unfolding release_of
  release_of_total fixed_slot window r fits = (target_slot, r, refl)
  release_of_total narrow_window window r fits = slot_within_total (min window 3) r fits
  release_of_total randomized_within_window window r fits = slot_within_total window r fits
  release_of_total latency_aware window r fits = slot_within_total (min window 2) r fits

  observe-ok :
      (s : Scenario F) (participant : ℕ) (r : R) {o : Observation F} {r' : R}
      → observe f64 rng s participant r ≡ ok (o, r')
      → IsTimely s o × (o.participant ≡ participant)
  unfolding observe
  observe-ok s participant r {o} {r'} h =
      let ((dropped, r₁), _, h₁) =
        supplied (rng.gen_bool r s.dropout_rate) invalid_probability _ h in
      let ((slot, r₂), released, h₂) =
        >>=-eq-ok (release_of f64 rng s.release_strategy s.execution_window_slots r₁) _ h₁ in
      ground (arith, release_of-ok s.release_strategy s.execution_window_slots r₁ released)

  pub observe_all-IsTimely :
      (s : Scenario F) (left participant : ℕ) (r : R) {os : List (Observation F)}
      → observe_all f64 rng s left participant r ≡ ok os
      → All (IsTimely s) os × (length os ≡ left)
  unfolding observe_all
  observe_all-IsTimely s zero participant r h = ground arith
  observe_all-IsTimely s (suc left) participant r {os} h =
      let ((o, r'), seen, h₁) = >>=-eq-ok (observe f64 rng s participant r) _ h in
      let (rest, others, h₂) = >>=-eq-ok (observe_all f64 rng s left (participant + 1) r') _ h₁ in
      let (timely, n) = observe_all-IsTimely s left (participant + 1) r' others in
      ground (arith, observe-ok s participant r seen, timely, n)

  pub observe_all-Numbered :
      (s : Scenario F) (left participant : ℕ) (r : R) {os : List (Observation F)}
      → observe_all f64 rng s left participant r ≡ ok os
      → Numbered participant os
  unfolding observe_all
  observe_all-Numbered s zero participant r h =
      subst (λ os. Numbered participant os) (ok-injective h) tt
  observe_all-Numbered s (suc left) participant r {os} h =
      let ((o, r'), seen, h₁) = >>=-eq-ok (observe f64 rng s participant r) _ h in
      let (rest, others, h₂) = >>=-eq-ok (observe_all f64 rng s left (participant + 1) r') _ h₁ in
      subst (λ os. Numbered participant os) (ok-injective h₂)
        (
          (observe-ok s participant r seen).1,
          observe_all-Numbered s left (participant + 1) r' others,
        )

  observe_total :
      (s : Scenario F) (participant : ℕ) (r : R)
      → f64.at_most (f64.literal 0 0) s.dropout_rate ≡ true
      → f64.below s.dropout_rate (f64.literal 1 0) ≡ true
      → target_slot + reach s.release_strategy s.execution_window_slots < u64_mod
      → (o : Observation F) × (r' : R) × (observe f64 rng s participant r ≡ ok (o, r'))
  unfolding observe
  observe_total s participant r low high fits =
      let (dropped, r₁, drawn) = law.probability r s.dropout_rate low high in
      let (slot, r₂, released) =
        release_of_total s.release_strategy s.execution_window_slots r₁ fits in
      (_, _, >>=-some drawn invalid_probability _ ∙ >>=-ok released _)

  pub observe_all_total :
      (s : Scenario F) (left participant : ℕ) (r : R)
      → f64.at_most (f64.literal 0 0) s.dropout_rate ≡ true
      → f64.below s.dropout_rate (f64.literal 1 0) ≡ true
      → target_slot + reach s.release_strategy s.execution_window_slots < u64_mod
      → (os : List (Observation F)) × (observe_all f64 rng s left participant r ≡ ok os)
  unfolding observe_all
  observe_all_total s zero participant r low high fits = ([], refl)
  observe_all_total s (suc left) participant r low high fits =
      let (o, r', seen) = observe_total s participant r low high fits in
      let (rest, others) = observe_all_total s left (participant + 1) r' low high fits in
      (o ∷ rest, rw (seen, others) refl)
