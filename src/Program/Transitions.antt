-- ===== src/Program/Transitions.antt =====
-- The life of a round account of programs/mirror-pool-program, as a relation: what each instruction
-- of an authority may do to a round, given the pool and the slot that it is checked against.
use mirror_pool.Prelude.{ℕ, ◌+◌, ◌-◌, ◌<◌, ◌≤◌, ◌≡◌, ◌≢◌, false, Bytes, u64_mod}
use mirror_pool.Core.Defs.{zero32}
use mirror_pool.Program.Runtime.{
  State, PoolAccount, RoundAccount, CoordinationInstruction, publish_cohort_root, seal_round,
  schedule_release, begin_execution_window, finalize_round, cancel_round,
}
use mirror_pool.Program.Handlers.{is_over, is_transparent}

-- `Transition now pool i r r'`: the instruction `i`, checked against `pool` at the slot `now`, takes
-- the round `r` to `r'`.
pub data Transition (now : ℕ) (pool : PoolAccount) (r r' : RoundAccount)
    : CoordinationInstruction → Type 0 where
  publishes :
      (root : Bytes) (count : ℕ)
      → is_transparent pool.backend ≡ false
      → r.state ≡ State.registration
      → pool.min_participants ≤ count
      → count ≤ pool.max_participants
      → root ≢ zero32
      → r.cohort_root ≡ zero32
      → r'
        ≡ record r { cohort_root = root; accepted_count = count; state = State.threshold_reached }
      → Transition now pool r r' (publish_cohort_root root count)
  seals :
      r.state ≡ State.threshold_reached
      → pool.min_participants ≤ r.accepted_count
      → r' ≡ record r { state = State.sealed }
      → Transition now pool r r' seal_round
  schedules :
      (release : ℕ)
      → r.state ≡ State.sealed
      → r.release_slot ≡ 0
      → now ≤ release
      → pool.min_release_delay ≤ release - now
      → release - now ≤ pool.max_release_delay
      → release + pool.execution_window < u64_mod
      → r' ≡ record r {
        release_slot = release;
        window_end_slot = release + pool.execution_window;
        state = State.release_scheduled;
      }
      → Transition now pool r r' (schedule_release release)
  begins :
      r.state ≡ State.release_scheduled
      → r.release_slot ≤ now
      → now ≤ r.window_end_slot
      → r' ≡ record r { state = State.execution_window }
      → Transition now pool r r' begin_execution_window
  finalizes :
      (metrics : Bytes)
      → r.state ≡ State.execution_window
      → r.window_end_slot < now
      → metrics ≢ zero32
      → r' ≡ record r { metrics_hash = metrics; state = State.completed }
      → Transition now pool r r' (finalize_round metrics)
  cancels :
      is_over r.state ≡ false
      → r' ≡ record r { state = State.cancelled }
      → Transition now pool r r' cancel_round
