-- ===== src/Tests/OnChain.antt =====
-- Examples for programs/mirror-pool-program.
use mirror_pool.Prelude.{
  ◌-◌, ◌≡◌, ◌≢◌, true, false, List, [], ◌∷◌, ◌++◌, Bytes, ok, refl, length, replicate,
  if◌then◌else◌, bytes_eq, arith,
}
use mirror_pool.Core.Defs.{zero32}
use mirror_pool.Program.Runtime.{
  Pubkey, Backend, State, PoolAccount, RoundAccount, schedule_release, AccountInfo, Account, Bank,
  store, next_account_info, require_signer, require_owned, read_account, write_account,
}
use mirror_pool.Program.Handlers.{is_over}
use mirror_pool.Program.Admin.{
  admin_accounts, refuses_schedule, refuses_close, dispatch, schedule, close, pay_out,
}
use mirror_pool.Program.Refinement.{Effect}
use mirror_pool.Program.Dispatch.{scheduling, dispatch-Effect}
use mirror_pool.Program.Closing.{Closed, close-Closed}
use mirror_pool.Tests.Host.{
  put, chunk, rounds, pools, encode_round, encode_pool, host_at, rounds-RoundTrips,
}

abbrev pub program : Pubkey
program = 9 ∷ []

abbrev pub authority : AccountInfo
authority = record { key = 1 ∷ []; is_signer = true; is_writable = true }

abbrev pub pool_info : AccountInfo
pool_info = record { key = 2 ∷ []; is_signer = false; is_writable = true }

abbrev pub round_info : AccountInfo
round_info = record { key = 3 ∷ []; is_signer = false; is_writable = true }

abbrev pub pool : PoolAccount
pool = record {
  version = 1;
  bump = 2;
  authority = 1 ∷ [];
  pool_id = 7 ∷ [];
  template_hash = 8 ∷ [];
  min_participants = 2;
  max_participants = 5;
  min_release_delay = 1;
  max_release_delay = 50;
  execution_window = 4;
  backend = Backend.transparent_registry;
  next_round = 1;
  paused = false;
}

abbrev pub round : State → RoundAccount
round s = record {
  version = 1;
  bump = 3;
  pool = 2 ∷ [];
  round_id = 0;
  state = s;
  registration_deadline = 20;
  template_hash = 8 ∷ [];
  accepted_count = 3;
  cohort_root = zero32;
  release_slot = 0;
  window_end_slot = 0;
  metrics_hash = zero32;
}

abbrev pub padded : Bytes → Bytes
padded bytes = bytes ++ replicate (200 - length bytes) 0

abbrev pub account : Bytes → Account
account bytes = record { owner = program; lamports = 40; contents = bytes }

-- The authority, a pool, and a round `r`.
abbrev pub bank : RoundAccount → Bank
bank r k =
    if bytes_eq k (2 ∷ [])
    then account (padded (encode_pool pool))
    else if bytes_eq k (3 ∷ [])
    then account (padded (encode_round r))
    else record { owner = 0 ∷ []; lamports = 60; contents = [] }

abbrev pub accounts : List AccountInfo
accounts = authority ∷ pool_info ∷ round_info ∷ []

abbrev pub sealed : RoundAccount
sealed = round State.sealed

abbrev pub scheduled : RoundAccount
scheduled = record sealed {
  release_slot = 12;
  window_end_slot = 16;
  state = State.release_scheduled;
}

abbrev pub after : RoundAccount → RoundAccount → Bank
after r r' = store (bank r) (3 ∷ []) (account (padded (encode_round r')))

pub schedules_round :
    dispatch (host_at 10) (bank sealed) program accounts (schedule_release 12)
    ≡ ok (after sealed scheduled)
unfolding dispatch schedule admin_accounts read_account write_account refuses_schedule put chunk
    bytes_eq next_account_info require_signer require_owned
schedules_round = refl

dispatch-Effect_example :
    Effect
      (host_at 10)
      (bank sealed)
      (after sealed scheduled)
      program
      accounts
      10
      (schedule_release 12)
dispatch-Effect_example =
    dispatch-Effect (host_at 10) rounds-RoundTrips (bank sealed) program accounts 10
      (schedule_release 12) (scheduling 12) refl schedules_round

abbrev foreign : State → RoundAccount
foreign s = record (round s) { pool = 4 ∷ [] }

names_accounts :
    (r : RoundAccount)
    → admin_accounts (bank r) program accounts ≡ ok (pool_info, round_info, authority)
unfolding admin_accounts next_account_info require_signer require_owned bytes_eq
names_accounts r = refl

reads_pool : (r : RoundAccount) → read_account pools (bank r) pool_info ≡ ok pool
unfolding read_account put chunk bytes_eq
reads_pool r = refl

reads_sealed :
    read_account rounds (bank (foreign State.sealed)) round_info ≡ ok (foreign State.sealed)
unfolding read_account put chunk bytes_eq
reads_sealed = refl

reads_completed :
    read_account rounds (bank (foreign State.completed)) round_info ≡ ok (foreign State.completed)
unfolding read_account put chunk bytes_eq
reads_completed = refl

one_or_other : authority.key ≢ round_info.key
one_or_other e = ground arith

two_or_other : (foreign State.sealed).pool ≢ pool_info.key
two_or_other e = ground arith

closes :
    close (host_at 30) (bank (foreign State.completed)) program accounts
    ≡ ok (pay_out (bank (foreign State.completed)) (1 ∷ []) (3 ∷ []) 100)
unfolding close admin_accounts read_account refuses_close put chunk bytes_eq next_account_info
    require_signer require_owned
closes = refl

close-Closed_example :
    (pool : PoolAccount) × (r : RoundAccount) × (read_account pools
        (bank (foreign State.completed))
        pool_info
      ≡ ok pool)
    × (read_account rounds (bank (foreign State.completed)) round_info ≡ ok r)
    × (pool.authority ≡ authority.key)
    × (is_over r.state ≡ true)
    × Closed
        (bank (foreign State.completed))
        (pay_out (bank (foreign State.completed)) (1 ∷ []) (3 ∷ []) 100)
        authority
        round_info
close-Closed_example =
    close-Closed (host_at 30) (bank (foreign State.completed)) program accounts
      (names_accounts (foreign State.completed)) one_or_other closes
