-- ===== src/Tests/Journeys.antt =====
-- A round of programs/mirror-pool-program from its root to its end.
use mirror_pool.Prelude.{
  ◌+◌, ◌≡◌, ◌≢◌, [], ◌∷◌, Bytes, bytes_eq, ok, refl, length, length-append, arith,
}
use mirror_pool.Program.Runtime.{
  Backend, State, PoolAccount, RoundAccount, publish_cohort_root, seal_round, schedule_release,
  begin_execution_window, finalize_round, Bank, store, read_account,
}
use mirror_pool.Program.Transitions.{publishes, seals, schedules, begins, finalizes}
use mirror_pool.Program.Effects.{Rewrites}
use mirror_pool.Program.Performing.{Placed, Fits, IsSized}
use mirror_pool.Program.Journeys.{Journey, Permits, arrives, goes, run, run_permitted}
use mirror_pool.Tests.Host.{
  put, chunk, rounds, pools, encode_round, encode_pool, host_at, rounds-RoundTrips,
}
use mirror_pool.Tests.OnChain.{
  program, authority, pool_info, round_info, pool, round, account, padded, bank,
}

length-put : (xs rest : Bytes) → length (put xs rest) ≡ 1 + (length xs + length rest)
unfolding put
length-put xs rest = omega (arith, length-append xs rest)

abbrev cohort_pool : PoolAccount
cohort_pool = record pool { backend = Backend.merkle_cohort }

abbrev opened : RoundAccount
opened = record (round State.registration) { accepted_count = 0 }

abbrev accounts : Bank
accounts = store (bank opened) (2 ∷ []) (account (padded (encode_pool cohort_pool)))

abbrev journey : Journey
journey =
    (10, publish_cohort_root (1 ∷ []) 3)
    ∷ (11, seal_round)
    ∷ (12, schedule_release 20)
    ∷ (22, begin_execution_window)
    ∷ (25, finalize_round (5 ∷ []))
    ∷ []

abbrev completed : RoundAccount
completed = record opened {
  accepted_count = 3;
  cohort_root = 1 ∷ [];
  release_slot = 20;
  window_end_slot = 24;
  metrics_hash = 5 ∷ [];
  state = State.completed;
}

permits : Permits cohort_pool opened journey completed
permits =
    goes 10 (publish_cohort_root (1 ∷ []) 3)
      (publishes (1 ∷ []) 3 refl refl (omega arith) (omega arith) (λ e. ground arith) refl refl)
      (goes 11 seal_round (seals refl (omega arith) refl) (
        goes 12 (schedule_release 20)
          (schedules 20 refl refl (omega arith) (omega arith) (omega arith) (omega arith) refl)
          (goes 22 begin_execution_window (begins refl (omega arith) (omega arith) refl) (
            goes 25 (finalize_round (5 ∷ []))
              (finalizes (5 ∷ []) refl (omega arith) (λ e. ground arith) refl) arrives))))

placed : Placed pools rounds accounts program authority pool_info round_info cohort_pool opened
unfolding read_account put chunk store bytes_eq
placed = record {
  signed = refl;
  by_authority = refl;
  of_pool = refl;
  pool_owned = refl;
  round_owned = refl;
  pool_read = refl;
  round_read = refl;
}

room : length (accounts round_info.key).contents ≡ 200
unfolding put store bytes_eq
room = refl

length-encode_round :
    (x : RoundAccount)
    → length (encode_round x)
      ≡ 12
        + (length x.pool
            + (length x.template_hash + (length x.cohort_root + length x.metrics_hash)))
length-encode_round x = omega (
  arith,
  length-put x.pool (put x.template_hash (put x.cohort_root (put x.metrics_hash []))),
  length-put x.template_hash (put x.cohort_root (put x.metrics_hash [])),
  length-put x.cohort_root (put x.metrics_hash []),
  length-put x.metrics_hash [],
)

fits : Fits rounds (length (accounts round_info.key).contents)
fits x s = (
  encode_round x,
  refl,
  omega
      (arith, room, length-encode_round x, s.pool, s.template_hash, s.cohort_root, s.metrics_hash),
)

opened-IsSized : IsSized opened
opened-IsSized = record {
  pool = omega arith;
  template_hash = omega arith;
  cohort_root = omega arith;
  metrics_hash = omega arith;
}

apart : pool_info.key ≢ round_info.key
apart e = ground arith

run_permitted_example :
    (b' : Bank) × (run (host_at 0) accounts program authority pool_info round_info journey ≡ ok b')
    × Rewrites rounds accounts b' round_info completed
run_permitted_example =
    run_permitted (host_at 0) rounds-RoundTrips apart accounts journey placed fits opened-IsSized
      (omega arith, (tt, (tt, (tt, (omega arith, tt))))) permits
