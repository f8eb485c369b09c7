-- ===== src/Program/Admin.antt =====
-- programs/mirror-pool-program/src/lib.rs: the handlers that the authority of a pool calls, the
-- permissionless opening of the window, and the dispatch of `process_instruction`.
use mirror_pool.Prelude.{
  ℕ, Bool, false, not, ◌||◌, ◌&&◌, List, [], ◌∷◌, Bytes, bytes_eq, ltb, ◌==◌, if◌then◌else◌, Result,
  ok, err, ◌>>=◌, ◌>>◌, fail_if, ok_or, length, replicate, checked_add, checked_sub, u64_mod,
}
use mirror_pool.Core.Defs.{zero32}
use mirror_pool.Program.Runtime.{
  Pubkey, State, PoolAccount, RoundAccount, CoordinationInstruction, ProgramError, into,
  invalid_timing, invalid_state, overflow, not_enough_account_keys, invalid_instruction_data,
  AccountInfo, Bank, store, Host, next_account_info, require_signer, require_owned, read_account,
  write_account,
}
use mirror_pool.Program.Handlers.{
  is_registration, is_threshold_reached, is_sealed, is_release_scheduled, is_execution_window,
  is_over, is_transparent, initialize, open_round, register_transparent,
}

-- The accounts of an authority's instruction: pool, round and authority.
unfoldable pub admin_accounts :
    Bank → Pubkey → List AccountInfo → Result (AccountInfo × AccountInfo × AccountInfo) ProgramError
unfolding next_account_info require_signer require_owned
admin_accounts b program_id accounts = do
  (authority, rest) ← next_account_info accounts
  (pool, rest') ← next_account_info rest
  (round, _) ← next_account_info rest'
  require_signer authority
  require_owned b pool program_id
  require_owned b round program_id
  ok (pool, round, authority)

-- `accounts.first()`
unfoldable pub first_account : List AccountInfo → Result AccountInfo ProgramError
first_account [] = err not_enough_account_keys
first_account (info ∷ rest) = ok info

-- The condition under which `publish_root` returns its error.
unfoldable pub refuses_publish :
    PoolAccount → RoundAccount → (pool_key authority_key root : Bytes) → ℕ → Bool
refuses_publish pool round pool_key authority_key root count =
    is_transparent pool.backend
    || not (bytes_eq round.pool pool_key)
    || not (is_registration round.state)
    || ltb count pool.min_participants
    || ltb pool.max_participants count
    || bytes_eq root zero32
    || not (bytes_eq round.cohort_root zero32)
    || not (bytes_eq pool.authority authority_key)

-- The condition under which `seal` returns its error.
unfoldable pub refuses_seal : PoolAccount → RoundAccount → (pool_key authority_key : Pubkey) → Bool
refuses_seal pool round pool_key authority_key =
    not (bytes_eq pool.authority authority_key)
    || not (bytes_eq round.pool pool_key)
    || not (is_threshold_reached round.state)
    || ltb round.accepted_count pool.min_participants

-- The condition under which `schedule` returns its error.
unfoldable pub refuses_schedule :
    PoolAccount → RoundAccount → (authority_key : Pubkey) → (delay : ℕ) → Bool
refuses_schedule pool round authority_key delay =
    not (bytes_eq pool.authority authority_key)
    || not (is_sealed round.state)
    || not (round.release_slot == 0)
    || ltb delay pool.min_release_delay
    || ltb pool.max_release_delay delay

-- The condition under which `begin` returns its error.
unfoldable pub refuses_begin : RoundAccount → (slot : ℕ) → Bool
refuses_begin round slot =
    not (is_release_scheduled round.state)
    || ltb slot round.release_slot
    || ltb round.window_end_slot slot

-- The condition under which `cancel` returns its error.
unfoldable pub refuses_cancel : PoolAccount → RoundAccount → (authority_key : Pubkey) → Bool
refuses_cancel pool round authority_key =
    not (bytes_eq pool.authority authority_key) || is_over round.state

-- The condition under which `close` returns its error.
unfoldable pub refuses_close : PoolAccount → RoundAccount → AccountInfo → Bool
refuses_close pool round authority =
    not (bytes_eq pool.authority authority.key)
    || not (is_over round.state)
    || not authority.is_writable

-- The writes of `close`, one after the other: the authority may be the round's account.
unfoldable pub pay_out : Bank → Pubkey → Pubkey → ℕ → Bank
unfolding store
pay_out b authority round lamports =
    let paid = store b authority (record (b authority) { lamports = lamports }) in
    let emptied = store paid round (record (paid round) { lamports = 0 }) in
    let old = (emptied round).contents in
    store emptied round (record (emptied round) { contents = replicate (length old) 0 })

module _ (h : Host) where
  unfoldable pub publish_root :
      Bank → Pubkey → List AccountInfo → Bytes → ℕ → Result Bank ProgramError
  publish_root b program_id accounts root count = do
    (pool_info, round_info, authority) ← admin_accounts b program_id accounts
    pool ← read_account h.pools b pool_info
    round ← read_account h.rounds b round_info
    fail_if (refuses_publish pool round pool_info.key authority.key root count) (into invalid_state)
    write_account h.rounds b round_info (record round {
      cohort_root = root;
      accepted_count = count;
      state = State.threshold_reached;
    })

  unfoldable pub seal : Bank → Pubkey → List AccountInfo → Result Bank ProgramError
  seal b program_id accounts = do
    (pool_info, round_info, authority) ← admin_accounts b program_id accounts
    pool ← read_account h.pools b pool_info
    round ← read_account h.rounds b round_info
    fail_if (refuses_seal pool round pool_info.key authority.key) (into invalid_state)
    write_account h.rounds b round_info (record round { state = State.sealed })

  unfoldable pub schedule : Bank → Pubkey → List AccountInfo → ℕ → Result Bank ProgramError
  schedule b program_id accounts release = do
    (pool_info, round_info, authority) ← admin_accounts b program_id accounts
    pool ← read_account h.pools b pool_info
    round ← read_account h.rounds b round_info
    slot ← h.clock_slot
    delay ← ok_or (checked_sub release slot) (into invalid_timing)
    fail_if (refuses_schedule pool round authority.key delay) (into invalid_timing)
    window_end ← ok_or (checked_add u64_mod release pool.execution_window) (into overflow)
    write_account h.rounds b round_info (record round {
      release_slot = release;
      window_end_slot = window_end;
      state = State.release_scheduled;
    })

  unfoldable pub begin : Bank → Pubkey → List AccountInfo → Result Bank ProgramError
  begin b program_id accounts = do
    round_info ← first_account accounts
    require_owned b round_info program_id
    round ← read_account h.rounds b round_info
    slot ← h.clock_slot
    fail_if (refuses_begin round slot) (into invalid_timing)
    write_account h.rounds b round_info (record round { state = State.execution_window })

  -- `Clock::get()` is called only if the two tests before it pass.
  unfoldable pub window_passed : RoundAccount → Result Bool ProgramError
  window_passed round = do slot ← h.clock_slot; ok (ltb round.window_end_slot slot)

  unfoldable pub may_finalize :
      PoolAccount → RoundAccount → AccountInfo → Bytes → Result Bool ProgramError
  unfolding window_passed
  may_finalize pool round authority metrics =
      if not (bytes_eq pool.authority authority.key) || not (is_execution_window round.state)
      then ok false
      else do passed ← window_passed round; ok (passed && not (bytes_eq metrics zero32))

  unfoldable pub finalize : Bank → Pubkey → List AccountInfo → Bytes → Result Bank ProgramError
  finalize b program_id accounts metrics = do
    (pool_info, round_info, authority) ← admin_accounts b program_id accounts
    pool ← read_account h.pools b pool_info
    round ← read_account h.rounds b round_info
    allowed ← may_finalize pool round authority metrics
    fail_if (not allowed) (into invalid_state)
    write_account h.rounds b round_info
        (record round { metrics_hash = metrics; state = State.completed })

  unfoldable pub cancel : Bank → Pubkey → List AccountInfo → Result Bank ProgramError
  cancel b program_id accounts = do
    (pool_info, round_info, authority) ← admin_accounts b program_id accounts
    pool ← read_account h.pools b pool_info
    round ← read_account h.rounds b round_info
    fail_if (refuses_cancel pool round authority.key) (into invalid_state)
    write_account h.rounds b round_info (record round { state = State.cancelled })

  unfoldable pub close : Bank → Pubkey → List AccountInfo → Result Bank ProgramError
  close b program_id accounts = do
    (pool_info, round_info, authority) ← admin_accounts b program_id accounts
    pool ← read_account h.pools b pool_info
    round ← read_account h.rounds b round_info
    fail_if (refuses_close pool round authority) (into invalid_state)
    let rent = (b round_info.key).lamports
    total ← ok_or (checked_add u64_mod (b authority.key).lamports rent) (into overflow)
    ok (pay_out b authority.key round_info.key total)

  unfoldable pub dispatch :
      Bank → Pubkey → List AccountInfo → CoordinationInstruction → Result Bank ProgramError
  dispatch b program_id accounts (CoordinationInstruction.initialize_pool p) =
      initialize h b program_id accounts p
  dispatch b program_id accounts (CoordinationInstruction.open_round id deadline template bump) =
      open_round h b program_id accounts id deadline template bump
  dispatch b program_id accounts (CoordinationInstruction.register_transparent key bump) =
      register_transparent h b program_id accounts key bump
  dispatch b program_id accounts (CoordinationInstruction.publish_cohort_root root count) =
      publish_root b program_id accounts root count
  dispatch b program_id accounts CoordinationInstruction.seal_round = seal b program_id accounts
  dispatch b program_id accounts (CoordinationInstruction.schedule_release release) =
      schedule b program_id accounts release
  dispatch b program_id accounts CoordinationInstruction.begin_execution_window =
      begin b program_id accounts
  dispatch b program_id accounts (CoordinationInstruction.finalize_round metrics) =
      finalize b program_id accounts metrics
  dispatch b program_id accounts CoordinationInstruction.cancel_round = cancel b program_id accounts
  dispatch b program_id accounts CoordinationInstruction.close_round = close b program_id accounts

  unfoldable pub process_instruction :
      Bank → Pubkey → List AccountInfo → Bytes → Result Bank ProgramError
  unfolding dispatch
  process_instruction b program_id accounts input = do
    instruction ← ok_or (h.try_from_slice input) invalid_instruction_data
    dispatch b program_id accounts instruction
