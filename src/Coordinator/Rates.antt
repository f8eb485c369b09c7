-- ===== src/Coordinator/Rates.antt =====
-- The rate limiter of crates/mirror-pool-coordinator.
use mirror_pool.Prelude.{
  ℕ, suc, ◌+◌, ◌-◌, ◌<◌, ◌≤◌, List, [], ◌∷◌, leb, ok, err, u32_mod, arith, inl, inr, Bool-cases,
  All,
}
use mirror_pool.Coordinator.Defs.{RateState, minute, roll, check_rate}

-- How many of a sequence of requests pass, each at its instant of `elapsed` and of the reset.
unfoldable pub passed : ℕ → RateState → List (ℕ × ℕ) → ℕ
passed limit rate [] = 0
passed limit rate ((now, reset) ∷ rest) =
    let checked = check_rate limit rate now reset in
    let others = passed limit checked.0 rest in
    elim checked.1 [ err e ↦ others | ok done ↦ suc others ]

-- In one window: the instants lie less than a minute after its start.
abbrev pub InWindow : ℕ → ℕ × ℕ → Type 0
InWindow started (now, reset) = now - started < minute

-- In one window no more requests pass than the limit leaves, whatever their number and order.
pub passed-bounded :
    (limit : ℕ) (rate : RateState) (requests : List (ℕ × ℕ))
    → limit < u32_mod
    → rate.accepted ≤ limit
    → All (InWindow rate.window_started) requests
    → rate.accepted + passed limit rate requests ≤ limit
unfolding passed check_rate roll
passed-bounded limit rate [] small within all = ground arith
passed-bounded limit rate ((now, reset) ∷ rest) small within all =
    elim (Bool-cases (leb limit rate.accepted)) [
      | inl full ↦ ground (arith, passed-bounded limit rate rest small within all.1)
      | inr room ↦ ground (
        arith,
        passed-bounded limit (record rate { accepted = rate.accepted + 1 }) rest small
            (ground arith) all.1,
      )
    ]
