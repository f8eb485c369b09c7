-- ===== src/Core/Lifecycle.antt =====
-- The transition graph of `RoundState` in crates/mirror-pool-core.
use mirror_pool.Prelude.{ℕ, suc, ◌+◌, ◌<◌, ◌≤◌, ◌≡◌, ◌⊎◌, inl, inr, true, false, arith, refl}
use mirror_pool.Core.Defs.{
  RoundState, draft, registration, threshold_reached, sealed, release_scheduled, execution_window,
  finalizing, completed, cancelled, expired, can_transition_to,
}

-- How far a state is from the start. The three states that end a round rank highest.
abbrev pub rank : RoundState → ℕ
rank draft = 0
rank registration = 1
rank threshold_reached = 2
rank sealed = 3
rank release_scheduled = 4
rank execution_window = 5
rank finalizing = 6
rank _ = 7

-- Every permitted transition raises the rank, so the graph has no cycle.
pub can_transition_to-rank : (s t : RoundState) → can_transition_to s t ≡ true → rank s < rank t
unfolding can_transition_to
can_transition_to-rank s t h = ground arith

-- A walk through the graph, with the number of its transitions.
pub data Walk (s : RoundState) : RoundState → ℕ → Type 0 where
  stay : Walk s s 0
  step : {t u : RoundState} {n : ℕ} → Walk s t n → can_transition_to t u ≡ true → Walk s u (suc n)

Walk-rank : {s t : RoundState} {n : ℕ} → Walk s t n → rank s + n ≤ rank t
Walk-rank stay = omega arith
Walk-rank (step {t = t} {u = u} w h) = omega (arith, Walk-rank w, can_transition_to-rank t u h)

rank-le : (s : RoundState) → rank s ≤ 7
rank-le draft = omega arith
rank-le s = omega arith

-- A walk makes at most seven transitions.
pub Walk-bounded : {s t : RoundState} {n : ℕ} → Walk s t n → n ≤ 7
Walk-bounded {t} w = omega (arith, Walk-rank w, rank-le t)

pub data IsTerminal : RoundState → Type 0 where
  completed_ends : IsTerminal completed
  cancelled_ends : IsTerminal cancelled
  expired_ends : IsTerminal expired

-- The states that end a round are exactly those that permit no transition.
pub IsTerminal-no_exit :
    {s : RoundState} (t : RoundState) → IsTerminal s → can_transition_to s t ≡ false
unfolding can_transition_to
IsTerminal-no_exit draft completed_ends = refl
IsTerminal-no_exit t completed_ends = refl
IsTerminal-no_exit draft cancelled_ends = refl
IsTerminal-no_exit t cancelled_ends = refl
IsTerminal-no_exit draft expired_ends = refl
IsTerminal-no_exit t expired_ends = refl

-- A round that has not ended can be cancelled.
pub ends_or_cancels : (s : RoundState) → IsTerminal s ⊎ (can_transition_to s cancelled ≡ true)
unfolding can_transition_to
ends_or_cancels completed = inl completed_ends
ends_or_cancels cancelled = inl cancelled_ends
ends_or_cancels expired = inl expired_ends
ends_or_cancels draft = inr refl
ends_or_cancels _ = inr refl
