-- ===== src/Tests/Lives.antt =====
-- Examples for the life of a round of programs/mirror-pool-program.
use mirror_pool.Prelude.{◌≡◌, [], ◌∷◌, ok, refl, bytes_eq, arith}
use mirror_pool.Program.Runtime.{
  RoundAccount, Bank, schedule_release, cancel_round, open_round, register_transparent, store,
  next_account_info, require_signer, require_owned, read_account, write_account, create_pda_account,
}
use mirror_pool.Program.Handlers.{
  open_checked, refuses_opening, write_opened, register_checked, write_registered,
  refuses_registration, count_participant,
}
use mirror_pool.Program.Admin.{dispatch, cancel, refuses_cancel, admin_accounts}
use mirror_pool.Program.Dispatch.{scheduling, cancelling}
use mirror_pool.Program.Life.{WellFormed, Fixed}
use mirror_pool.Program.Running.{
  Calls, none_yet, then_call, by_authority, by_participant, Holds, opened-WellFormed, calls-Fixed,
}
use mirror_pool.Tests.Host.{
  put, chunk, host_at, rounds-RoundTrips, pools-RoundTrips, participants-RoundTrips,
}
use mirror_pool.Tests.OnChain.{
  program, authority, pool_info, round_info, bank, sealed, scheduled, after, accounts,
  schedules_round,
}
use mirror_pool.Tests.Openings.{
  system_info, record_info, with_pool, bank_of, opened, opens, registering_accounts,
}

opens_round :
    dispatch
      (host_at 10)
      with_pool
      program
      (authority ∷ pool_info ∷ round_info ∷ system_info ∷ [])
      (open_round 1 20 (8 ∷ []) 3)
    ≡ ok opened
unfolding dispatch
opens_round = opens

abbrev joined : Bank
joined =
    bank_of opened
      (dispatch (host_at 12) opened program registering_accounts (register_transparent (6 ∷ []) 5))

joins :
    dispatch (host_at 12) opened program registering_accounts (register_transparent (6 ∷ []) 5)
    ≡ ok joined
unfolding dispatch mirror_pool.Program.Handlers.register_transparent register_checked
    write_registered refuses_registration count_participant mirror_pool.Program.Handlers.open_round
    open_checked refuses_opening write_opened create_pda_account next_account_info require_signer
    require_owned read_account write_account store bytes_eq put chunk
joins = refl

abbrev withdrawn : Bank
withdrawn = bank_of joined (dispatch (host_at 15) joined program accounts cancel_round)

withdraws : dispatch (host_at 15) joined program accounts cancel_round ≡ ok withdrawn
unfolding dispatch mirror_pool.Program.Handlers.register_transparent register_checked
    write_registered refuses_registration count_participant mirror_pool.Program.Handlers.open_round
    open_checked refuses_opening write_opened create_pda_account next_account_info require_signer
    require_owned read_account write_account store bytes_eq put chunk cancel refuses_cancel
    admin_accounts
withdraws = refl

calls : Calls (host_at 0) program round_info.key opened withdrawn
calls =
    then_call 15 accounts cancel_round
      (then_call 12 registering_accounts (register_transparent (6 ∷ []) 5) none_yet
        (by_participant authority pool_info round_info (record_info ∷ system_info ∷ []) (6 ∷ []) 5
          refl)
        joins)
      (by_authority accounts cancel_round cancelling) withdraws

opened-WellFormed_example :
    (r : RoundAccount) × Holds
      (host_at 0)
      rounds-RoundTrips
      pools-RoundTrips
      participants-RoundTrips
      program
      round_info
      withdrawn
      r
    × WellFormed r
opened-WellFormed_example =
    opened-WellFormed (host_at 0) rounds-RoundTrips pools-RoundTrips participants-RoundTrips program
      round_info with_pool authority pool_info system_info 1 20 (8 ∷ []) 3 10 opens_round calls

schedules_calls : Calls (host_at 0) program round_info.key (bank sealed) (after sealed scheduled)
schedules_calls =
    then_call 10 accounts (schedule_release 12) none_yet
      (by_authority accounts (schedule_release 12) (scheduling 12)) schedules_round

Holds-sealed :
    Holds
      (host_at 0)
      rounds-RoundTrips
      pools-RoundTrips
      participants-RoundTrips
      program
      round_info
      (bank sealed)
      sealed
unfolding read_account put chunk bytes_eq
Holds-sealed = refl

calls-Fixed_example :
    (r : RoundAccount) × Holds
      (host_at 0)
      rounds-RoundTrips
      pools-RoundTrips
      participants-RoundTrips
      program
      round_info
      (after sealed scheduled)
      r
    × Fixed sealed r
calls-Fixed_example =
    calls-Fixed (host_at 0) rounds-RoundTrips pools-RoundTrips participants-RoundTrips program
      round_info sealed Holds-sealed (omega arith) schedules_calls
