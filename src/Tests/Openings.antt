-- ===== src/Tests/Openings.antt =====
-- Examples for the handlers of programs/mirror-pool-program that create accounts.
use mirror_pool.Prelude.{
  ◌≡◌, true, false, List, [], ◌∷◌, Result, ok, err, refl, bytes_eq, codes, some,
}
use mirror_pool.Program.Runtime.{
  Backend, State, PoolAccount, RoundAccount, PoolParams, AccountInfo, Bank, ProgramError, store,
  next_account_info, require_signer, require_owned, read_account, write_account, create_pda_account,
}
use mirror_pool.Program.Handlers.{
  initialize, open_round, register_transparent, count_participant, open_checked, write_opened,
  register_checked, write_registered, refuses_policy, refuses_opening, refuses_registration,
}
use mirror_pool.Program.Opening.{
  new_pool, IsPolicy, Opening, initialize-IsPolicy, open_round-Opening,
}
use mirror_pool.Program.Registering.{Registration, register-Registration}
use mirror_pool.Tests.Host.{
  put, chunk, rounds, pools, encode_pool, host_at, rounds-RoundTrips, pools-RoundTrips,
  participants-RoundTrips,
}
use mirror_pool.Tests.OnChain.{
  program, authority, pool_info, round_info, pool, round, bank, padded, account,
}

abbrev pub system_info : AccountInfo
system_info = record { key = 0 ∷ []; is_signer = false; is_writable = false }

abbrev pub record_info : AccountInfo
record_info = record { key = 5 ∷ []; is_signer = false; is_writable = true }

-- No program has an account yet.
abbrev pub vacant : Bank
vacant k = record { owner = 0 ∷ []; lamports = 60; contents = [] }

abbrev pub with_pool : Bank
with_pool = store vacant pool_info.key (account (padded (encode_pool pool)))

abbrev pub params : PoolParams
params = record {
  pool_id = 7 ∷ [];
  template_hash = 8 ∷ [];
  min_participants = 2;
  max_participants = 5;
  min_release_delay = 1;
  max_release_delay = 50;
  execution_window = 4;
  backend = Backend.transparent_registry;
  bump = 2;
}

-- The bank that a handler leaves.
abbrev pub bank_of : Bank → Result Bank ProgramError → Bank
bank_of b (ok b') = b'
bank_of b (err e) = b

abbrev initialized : Bank
initialized =
    bank_of vacant
      (initialize (host_at 10) vacant program (authority ∷ pool_info ∷ system_info ∷ []) params)

initializes :
    initialize (host_at 10) vacant program (authority ∷ pool_info ∷ system_info ∷ []) params
    ≡ ok initialized
unfolding initialize refuses_policy create_pda_account write_account bytes_eq next_account_info
    require_signer put store
initializes = refl

initialize-IsPolicy_example :
    (by : AccountInfo) × (info : AccountInfo) × (system : AccountInfo) × (rest : List AccountInfo)
    × ((authority ∷ pool_info ∷ system_info ∷ []) ≡ by ∷ info ∷ system ∷ rest)
    × (by.is_signer ≡ true)
    × ((host_at 10).create_program_address (codes "pool" ∷ (7 ∷ []) ∷ (2 ∷ []) ∷ []) program
        ≡ some info.key)
    × (read_account pools initialized info ≡ ok (new_pool by params))
    × IsPolicy (new_pool by params)
initialize-IsPolicy_example =
    initialize-IsPolicy (host_at 10) pools-RoundTrips rounds-RoundTrips vacant program
      (authority ∷ pool_info ∷ system_info ∷ []) params initializes

abbrev opening_accounts : List AccountInfo
opening_accounts = authority ∷ pool_info ∷ round_info ∷ system_info ∷ []

abbrev pub opened : Bank
opened = bank_of vacant (open_round (host_at 10) with_pool program opening_accounts 1 20 (8 ∷ []) 3)

pub opens : open_round (host_at 10) with_pool program opening_accounts 1 20 (8 ∷ []) 3 ≡ ok opened
unfolding open_round open_checked write_opened refuses_opening create_pda_account write_account
    read_account bytes_eq next_account_info require_signer require_owned put chunk store
opens = refl

open_round-Opening_example :
    (by : AccountInfo) × (info : AccountInfo) × (new : AccountInfo) × (system : AccountInfo)
    × (rest : List AccountInfo) × (pool : PoolAccount) × (opening_accounts
        ≡ by ∷ info ∷ new ∷ system ∷ rest)
    × (by.is_signer ≡ true)
    × ((with_pool info.key).owner ≡ program)
    × (read_account pools with_pool info ≡ ok pool)
    × Opening
        (host_at 10)
        pools-RoundTrips
        rounds-RoundTrips
        opened
        program
        by
        info
        new
        pool
        1
        20
        (8 ∷ [])
        3
        10
open_round-Opening_example =
    open_round-Opening (host_at 10) pools-RoundTrips rounds-RoundTrips with_pool program
      opening_accounts 1 20 (8 ∷ []) 3 10 refl opens

abbrev registering : Bank
registering = bank (round State.registration)

abbrev pub registering_accounts : List AccountInfo
registering_accounts = authority ∷ pool_info ∷ round_info ∷ record_info ∷ system_info ∷ []

abbrev joined : Bank
joined =
    bank_of vacant
      (register_transparent (host_at 10) registering program registering_accounts (6 ∷ []) 5)

registers :
    register_transparent (host_at 10) registering program registering_accounts (6 ∷ []) 5
    ≡ ok joined
unfolding register_transparent register_checked write_registered refuses_registration
    create_pda_account write_account read_account bytes_eq next_account_info require_signer
    require_owned put chunk count_participant store
registers = refl

register-Registration_example :
    (payer : AccountInfo) × (info : AccountInfo) × (of : AccountInfo) × (new : AccountInfo)
    × (system : AccountInfo) × (rest : List AccountInfo) × (pool : PoolAccount) × (r : RoundAccount)
    × (registering_accounts ≡ payer ∷ info ∷ of ∷ new ∷ system ∷ rest)
    × (payer.is_signer ≡ true)
    × ((registering info.key).owner ≡ program)
    × ((registering of.key).owner ≡ program)
    × (read_account pools registering info ≡ ok pool)
    × (read_account rounds registering of ≡ ok r)
    × Registration
        (host_at 10)
        rounds-RoundTrips
        participants-RoundTrips
        registering
        joined
        program
        info
        of
        new
        pool
        r
        (6 ∷ [])
        5
        10
register-Registration_example =
    register-Registration (host_at 10) rounds-RoundTrips participants-RoundTrips registering program
      registering_accounts (6 ∷ []) 5 10 refl registers
