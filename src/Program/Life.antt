-- ===== src/Program/Life.antt =====
-- The life of a round account of programs/mirror-pool-program, over every sequence of instructions.
use mirror_pool.Prelude.{ℕ, ◌+◌, ◌<◌, ◌≤◌, ◌≡◌, ◌≢◌, ◌⊎◌, true, u64_mod, u32_mod, arith, refl, ◌∙◌}
use mirror_pool.Core.Defs.{zero32}
use mirror_pool.Program.Runtime.{
  State, registration, threshold_reached, sealed, release_scheduled, execution_window, finalizing,
  completed, expired, PoolAccount, RoundAccount, CoordinationInstruction, cancel_round,
}
use mirror_pool.Program.Handlers.{takes_registrations, count_participant}
use mirror_pool.Program.Transitions.{
  Transition, publishes, seals, schedules, begins, finalizes, cancels,
}

-- One step of a round: an instruction of its life, or a registration that a transparent pool counts.
pub data Step (r r' : RoundAccount) : Type 0 where
  instructed :
      (now : ℕ) (pool : PoolAccount) (i : CoordinationInstruction)
      → Transition now pool r r' i
      → Step r r'
  registered :
      (pool : PoolAccount)
      → takes_registrations r.state ≡ true
      → r.accepted_count < pool.max_participants
      → r.accepted_count + 1 < u32_mod
      → r' ≡ count_participant pool r (r.accepted_count + 1)
      → Step r r'

-- As `OpenRound` writes it.
pub record IsOpened (r : RoundAccount) : Type 0 where
  pub state : r.state ≡ registration
  pub count : r.accepted_count ≡ 0
  pub root : r.cohort_root ≡ zero32
  pub release : r.release_slot ≡ 0
  pub window_end : r.window_end_slot ≡ 0
  pub metrics : r.metrics_hash ≡ zero32

pub data Reach (r : RoundAccount) : RoundAccount → Type 0 where
  here : Reach r r
  next : {s t : RoundAccount} → Reach r s → Step s t → Reach r t

-- What holds of a round between two instructions.
pub record WellFormed (r : RoundAccount) : Type 0 where
  pub never_finalizing : r.state ≢ finalizing
  pub never_expired : r.state ≢ expired
  pub unscheduled :
      (r.state ≡ registration) ⊎ (r.state ≡ threshold_reached) ⊎ (r.state ≡ sealed)
      → (r.release_slot ≡ 0) × (r.window_end_slot ≡ 0)
  pub window : r.release_slot ≤ r.window_end_slot
  pub window_fits : r.window_end_slot < u64_mod
  pub no_metrics : r.state ≢ completed → r.metrics_hash ≡ zero32
  pub metrics : r.state ≡ completed → r.metrics_hash ≢ zero32

IsOpened-WellFormed : {r : RoundAccount} → IsOpened r → WellFormed r
IsOpened-WellFormed o = ground arith

Transition-WellFormed :
    {now : ℕ} {pool : PoolAccount} {r r' : RoundAccount} {i : CoordinationInstruction}
    → Transition now pool r r' i
    → WellFormed r
    → WellFormed r'
Transition-WellFormed (publishes root count merkle state low high set fresh e) w = ground arith
Transition-WellFormed (seals state enough e) w = ground arith
Transition-WellFormed (schedules release state unset past low high fits e) w = ground arith
Transition-WellFormed (begins state early late e) w = ground arith
Transition-WellFormed (finalizes metrics state late set e) w = ground arith
Transition-WellFormed (cancels running e) w = ground arith

Step-WellFormed : {r r' : RoundAccount} → Step r r' → WellFormed r → WellFormed r'
unfolding count_participant
Step-WellFormed (instructed now pool i t) w = Transition-WellFormed t w
Step-WellFormed (registered pool takes room fits e) w = ground arith

-- Whatever instructions are run on a round since it was opened: it is never Finalizing or Expired; it
-- has no window before it is scheduled; the window ends at a `u64` not before it starts; and it holds
-- a nonzero metrics hash exactly if it is completed.
pub Reach-WellFormed : {r r' : RoundAccount} → IsOpened r → Reach r r' → WellFormed r'
Reach-WellFormed o here = IsOpened-WellFormed o
Reach-WellFormed o (next p s) = Step-WellFormed s (Reach-WellFormed o p)

abbrev pub rank : State → ℕ
rank registration = 0
rank threshold_reached = 1
rank sealed = 2
rank release_scheduled = 3
rank execution_window = 4
rank finalizing = 5
rank _ = 6

-- Every instruction of a round's life raises its rank, so none can be replayed.
pub Transition-rank :
    {now : ℕ} {pool : PoolAccount} {r r' : RoundAccount} {i : CoordinationInstruction}
    → Transition now pool r r' i
    → rank r.state < rank r'.state
Transition-rank (publishes root count merkle state low high set fresh e) = ground arith
Transition-rank (seals state enough e) = ground arith
Transition-rank (schedules release state unset past low high fits e) = ground arith
Transition-rank (begins state early late e) = ground arith
Transition-rank (finalizes metrics state late set e) = ground arith
Transition-rank {r} (cancels running e) = ground arith

-- What is fixed once registration is over: the root, the count, the template, pool and identifier.
abbrev pub Fixed : RoundAccount → RoundAccount → Type 0
Fixed r r' =
    (r'.cohort_root ≡ r.cohort_root)
    × (r'.accepted_count ≡ r.accepted_count)
    × (r'.pool ≡ r.pool)
    × (r'.round_id ≡ r.round_id)
    × (2 ≤ rank r'.state)

Step-Fixed : {r r' : RoundAccount} → Step r r' → 2 ≤ rank r.state → Fixed r r'
Step-Fixed (instructed now pool i (publishes root count merkle state low high set fresh e)) s =
    ground arith
Step-Fixed (instructed now pool i (seals state enough e)) s = ground arith
Step-Fixed (instructed now pool i (schedules release state unset past low high fits e)) s =
    ground arith
Step-Fixed (instructed now pool i (begins state early late e)) s = ground arith
Step-Fixed (instructed now pool i (finalizes metrics state late set e)) s = ground arith
Step-Fixed (instructed now pool i (cancels running e)) s = ground arith
Step-Fixed (registered pool takes room fits e) s = ground arith

-- From sealing on, no sequence of instructions changes the root, the count, the pool or the
-- identifier of a round.
pub Reach-Fixed : {r r' : RoundAccount} → Reach r r' → 2 ≤ rank r.state → Fixed r r'
Reach-Fixed here s = (refl, refl, refl, refl, s)
Reach-Fixed (next p s) late =
    let (root, count, pool, id, still) = Reach-Fixed p late in
    let (root', count', pool', id', still') = Step-Fixed s still in
    (root' ∙ root, count' ∙ count, pool' ∙ pool, id' ∙ id, still')

-- Once the slot of its window's end has passed, a scheduled round whose window was not opened can
-- only be cancelled.
pub missed_window :
    {now : ℕ} {pool : PoolAccount} {r r' : RoundAccount} {i : CoordinationInstruction}
    → Transition now pool r r' i
    → r.state ≡ release_scheduled
    → r.window_end_slot < now
    → i ≡ cancel_round
missed_window (publishes root count merkle state low high set fresh e) s l = absurd (ground arith)
missed_window (seals state enough e) s l = absurd (ground arith)
missed_window (schedules release state unset past low high fits e) s l = absurd (ground arith)
missed_window (begins state early late e) s l = absurd (ground arith)
missed_window (finalizes metrics state late set e) s l = absurd (ground arith)
missed_window (cancels running e) s l = refl
