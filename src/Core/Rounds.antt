-- ===== src/Core/Rounds.antt =====
-- The methods of `Round` in crates/mirror-pool-core, over every sequence of calls.
use mirror_pool.Prelude.{
  ℕ, ◌+◌, ◌-◌, ◌<◌, ◌≤◌, ◌≡◌, ◌≢◌, ◌↔◌, Option, none, some, List, [], ◌∷◌, ◌∙◌, All, arith, refl,
  ok, err, u32_mod, u64_mod,
}
use mirror_pool.Core.Defs.{
  Digest32, PoolConfig, RoundState, ProtocolError, Round, Outcome, transition, register, seal,
  schedule_release, arithmetic_overflow, sealed, release_scheduled,
}
use mirror_pool.Core.Lifecycle.{rank}

-- A call of one of the public methods, with its arguments.
pub data Call : Type 0 where
  transition_to : RoundState → Call
  register_at : ℕ → ℕ → Call
  seal_with : Digest32 → ℕ → Call
  schedule_at : ℕ → ℕ → PoolConfig → Call

unfoldable pub call : Round → Call → Outcome
unfolding transition register seal schedule_release
call r (transition_to next) = transition r next
call r (register_at slot max) = register r slot max
call r (seal_with root minimum) = seal r root minimum
call r (schedule_at slot release c) = schedule_release r slot release c

unfoldable pub run : Round → List Call → Round
run r [] = r
run r (c ∷ cs) = run (call r c).0 cs

-- A call that fails leaves the round as it was, also where it writes before its last check.
pub call_error_unchanged :
    (r : Round) (c : Call) {e : ProtocolError} → (call r c).1 ≡ err e → (call r c).0 ≡ r
unfolding call
call_error_unchanged r c h = ground arith

rank-call : (r : Round) (c : Call) → rank r.state ≤ rank (call r c).0.state
unfolding call
rank-call r c = ground arith

-- No sequence of calls takes a round back to a lower rank of its life.
pub rank-run : (r : Round) (cs : List Call) → rank r.state ≤ rank (run r cs).state
unfolding run
rank-run r [] = omega arith
rank-run r (c ∷ cs) = omega (arith, rank-call r c, rank-run (call r c).0 cs)

-- The window is announced as a whole: the start is the release slot, and the end, a `u64`, is not
-- before it.
abbrev pub Announced : Option ℕ → Option ℕ → Option ℕ → Type 0
Announced none none none = Unit
Announced (some release) (some start) (some end_slot) =
    (start ≡ release) × (release ≤ end_slot) × (end_slot < u64_mod)
Announced _ _ _ = ⊥

abbrev pub HasWindow : Round → Type 0
HasWindow r = Announced r.release_slot r.execution_window_start r.execution_window_end

call-HasWindow : (r : Round) (c : Call) → HasWindow r → HasWindow (call r c).0
unfolding call
call-HasWindow r c w = ground arith

-- Every sequence of calls keeps the three window fields together: all unset, or the start at the
-- release slot and the end between it and the bound of a `u64`.
pub run-HasWindow : (r : Round) (cs : List Call) → HasWindow r → HasWindow (run r cs)
unfolding run
run-HasWindow r [] w = w
run-HasWindow r (c ∷ cs) w = run-HasWindow (call r c).0 cs (call-HasWindow r c w)

release-call :
    (r : Round) (c : Call) {s : ℕ}
    → r.release_slot ≡ some s
    → ((call r c).0.release_slot ≡ some s)
      × ((call r c).0.execution_window_start ≡ r.execution_window_start)
      × ((call r c).0.execution_window_end ≡ r.execution_window_end)
unfolding call
release-call r c h = ground arith

-- A release slot, once announced, is kept with its window by every later sequence of calls.
pub release-run :
    (r : Round) (cs : List Call) {s : ℕ}
    → r.release_slot ≡ some s
    → ((run r cs).release_slot ≡ some s)
      × ((run r cs).execution_window_start ≡ r.execution_window_start)
      × ((run r cs).execution_window_end ≡ r.execution_window_end)
unfolding run
release-run r [] h = (h, refl, refl)
release-run r (c ∷ cs) h =
    let (kept, start, end_slot) = release-call r c h in
    let (kept', start', end_slot') = release-run (call r c).0 cs kept in
    (kept', start' ∙ start, end_slot' ∙ end_slot)

-- What `schedule_release` asks for.
pub record MaySchedule (r : Round) (now release : ℕ) (c : PoolConfig) : Type 0 where
  pub is_sealed : r.state ≡ sealed
  pub unscheduled : r.release_slot ≡ none
  pub not_past : now ≤ release
  pub late_enough : c.min_release_delay_slots ≤ release - now
  pub soon_enough : release - now ≤ c.max_release_delay_slots
  pub in_range : release + c.execution_window_slots < u64_mod

abbrev pub scheduled : Round → ℕ → PoolConfig → Round
scheduled r release c = record r {
  state = release_scheduled;
  release_slot = some release;
  execution_window_start = some release;
  execution_window_end = some (release + c.execution_window_slots);
}

-- `schedule_release` succeeds exactly on a sealed, unscheduled round, for a delay within the pool's
-- bounds and a window end that fits a `u64`, and it then sets the state and the window alone.
pub schedule_release_iff :
    (r : Round) (now release : ℕ) (c : PoolConfig)
    → (schedule_release r now release c ≡ (scheduled r release c, ok tt))
      ↔ MaySchedule r now release c
unfolding schedule_release
schedule_release_iff r now release c = (λ h. ground arith, λ m. ground arith)

-- The calls that register under a cap of at most `m`.
abbrev pub CapsAt : ℕ → Call → Type 0
CapsAt m (register_at slot max) = max ≤ m
CapsAt m _ = Unit

call-bounded :
    (m : ℕ) (r : Round) (c : Call)
    → CapsAt m c
    → r.accepted_cohort_size ≤ m
    → (call r c).0.accepted_cohort_size ≤ m
unfolding call
call-bounded m r (register_at slot max) h b = ground arith
call-bounded m r (transition_to next) h b = ground arith
call-bounded m r (seal_with root minimum) h b = ground arith
call-bounded m r (schedule_at slot release c) h b = ground arith

-- Where every registration is capped at `m` or below, no sequence of calls accepts more than `m`.
pub run-bounded :
    (m : ℕ) (r : Round) (cs : List Call)
    → All (CapsAt m) cs
    → r.accepted_cohort_size ≤ m
    → (run r cs).accepted_cohort_size ≤ m
unfolding run
run-bounded m r [] h b = b
run-bounded m r (c ∷ cs) h b = run-bounded m (call r c).0 cs h.1 (call-bounded m r c h.0 b)

-- Under a cap that is a `u32`, `register` never reports an overflow: the size check comes first.
pub register_no_overflow :
    (r : Round) (now max : ℕ) → max < u32_mod → (register r now max).1 ≢ err arithmetic_overflow
unfolding register
register_no_overflow r now max m h = ground arith

root-call :
    (r : Round) (c : Call) {d : Digest32}
    → r.cohort_merkle_root ≡ some d
    → (call r c).0.cohort_merkle_root ≡ some d
unfolding call
root-call r c h = ground arith

-- A sealed root is immutable: no later sequence of calls changes it.
pub root-run :
    (r : Round) (cs : List Call) {d : Digest32}
    → r.cohort_merkle_root ≡ some d
    → (run r cs).cohort_merkle_root ≡ some d
unfolding run
root-run r [] h = h
root-run r (c ∷ cs) h = root-run (call r c).0 cs (root-call r c h)
