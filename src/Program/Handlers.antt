-- ===== src/Program/Handlers.antt =====
-- programs/mirror-pool-program/src/lib.rs: the instruction handlers. A handler returns the accounts
-- as it leaves them; after an error the runtime drops the transaction with all that was written.
-- No borrow of an account outlives its statement, so no borrow fails.
use mirror_pool.Prelude.{
  ℕ, Bool, true, false, not, ◌||◌, List, [], ◌∷◌, Bytes, codes, bytes_eq, ltb, leb, ◌==◌,
  if◌then◌else◌, Result, ◌>>=◌, ◌>>◌, fail_if, ok_or, checked_add, u32_mod, u64_mod,
}
use mirror_pool.Core.Defs.{zero32}
use mirror_pool.Program.Runtime.{
  Pubkey, max_cohort_size, pool_account_size, round_account_size, Backend, State, PoolAccount,
  RoundAccount, PoolParams, ProgramError, into, invalid_policy, invalid_pda, unauthorized,
  invalid_timing, invalid_state, overflow, AccountInfo, Bank, Host, next_account_info,
  require_signer, require_owned, read_account, write_account, create_pda_account,
}

abbrev pub is_registration : State → Bool
is_registration State.registration = true
is_registration _ = false

abbrev pub takes_registrations : State → Bool
takes_registrations State.registration = true
takes_registrations State.threshold_reached = true
takes_registrations _ = false

abbrev pub is_threshold_reached : State → Bool
is_threshold_reached State.threshold_reached = true
is_threshold_reached _ = false

abbrev pub is_sealed : State → Bool
is_sealed State.sealed = true
is_sealed _ = false

abbrev pub is_release_scheduled : State → Bool
is_release_scheduled State.release_scheduled = true
is_release_scheduled _ = false

abbrev pub is_execution_window : State → Bool
is_execution_window State.execution_window = true
is_execution_window _ = false

-- `matches!(state, Completed | Cancelled | Expired)`
abbrev pub is_over : State → Bool
is_over State.completed = true
is_over State.cancelled = true
is_over State.expired = true
is_over _ = false

abbrev pub is_transparent : Backend → Bool
is_transparent Backend.transparent_registry = true
is_transparent Backend.merkle_cohort = false

-- The round after one more registration.
unfoldable pub count_participant : PoolAccount → RoundAccount → ℕ → RoundAccount
count_participant pool round n =
    if leb pool.min_participants n
    then record round { accepted_count = n; state = State.threshold_reached }
    else record round { accepted_count = n }

-- The condition under which `initialize` refuses a policy.
unfoldable pub refuses_policy : PoolParams → Bool
refuses_policy p =
    ltb p.min_participants 2
    || ltb p.max_participants p.min_participants
    || ltb max_cohort_size p.max_participants
    || p.execution_window == 0
    || ltb p.max_release_delay p.min_release_delay

-- The condition under which `open_round` refuses the authority.
unfoldable pub refuses_opening :
    PoolAccount → (authority_key : Pubkey) → (round_id : ℕ) → (template : Bytes) → Bool
refuses_opening pool authority_key round_id template =
    not (bytes_eq pool.authority authority_key)
    || pool.paused
    || not (pool.next_round == round_id)
    || not (bytes_eq pool.template_hash template)

-- The condition under which `register_transparent` refuses a participant.
unfoldable pub refuses_registration :
    PoolAccount → RoundAccount → (pool_key : Pubkey) → (slot : ℕ) → Bool
refuses_registration pool round pool_key slot =
    not (is_transparent pool.backend)
    || not (bytes_eq round.pool pool_key)
    || not (takes_registrations round.state)
    || leb round.registration_deadline slot
    || leb pool.max_participants round.accepted_count

module _ (h : Host) where
  unfoldable pub initialize :
      Bank → Pubkey → List AccountInfo → PoolParams → Result Bank ProgramError
  initialize b program_id accounts p = do
    fail_if (refuses_policy p) (into invalid_policy)
    (authority, rest) ← next_account_info accounts
    (pool_info, rest') ← next_account_info rest
    (system_info, _) ← next_account_info rest'
    require_signer authority
    let seeds = codes "pool" ∷ p.pool_id ∷ (p.bump ∷ []) ∷ []
    expected ← ok_or (h.create_program_address seeds program_id) (into invalid_pda)
    fail_if (not (bytes_eq expected pool_info.key)) (into invalid_pda)
    b' ← create_pda_account h b authority pool_info system_info program_id pool_account_size seeds
    write_account h.pools b' pool_info (record {
      version = 1;
      bump = p.bump;
      authority = authority.key;
      pool_id = p.pool_id;
      template_hash = p.template_hash;
      min_participants = p.min_participants;
      max_participants = p.max_participants;
      min_release_delay = p.min_release_delay;
      max_release_delay = p.max_release_delay;
      execution_window = p.execution_window;
      backend = p.backend;
      next_round = 0;
      paused = false;
    })

  -- The writes of `open_round`, once the round's account is there.
  unfoldable pub write_opened :
      Bank
      → (pool_info round_info : AccountInfo) → PoolAccount
      → (round_id deadline : ℕ) → Bytes
      → ℕ
      → Result Bank ProgramError
  write_opened b pool_info round_info pool round_id deadline template bump = do
    next ← ok_or (checked_add u64_mod pool.next_round 1) (into overflow)
    b' ← write_account h.pools b pool_info (record pool { next_round = next })
    write_account h.rounds b' round_info (record {
      version = 1;
      bump = bump;
      pool = pool_info.key;
      round_id = round_id;
      state = State.registration;
      registration_deadline = deadline;
      template_hash = template;
      accepted_count = 0;
      cohort_root = zero32;
      release_slot = 0;
      window_end_slot = 0;
      metrics_hash = zero32;
    })

  -- `open_round` from its checks of the pool on.
  unfoldable pub open_checked :
      Bank
      → Pubkey
      → (authority pool_info round_info system_info : AccountInfo) → PoolAccount
      → (round_id deadline : ℕ) → Bytes
      → ℕ
      → Result Bank ProgramError
  open_checked b program_id authority pool_info round_info system_info pool round_id deadline
        template bump =
      do
        fail_if (refuses_opening pool authority.key round_id template) (into unauthorized)
        slot ← h.clock_slot
        fail_if (leb deadline slot) (into invalid_timing)
        let seeds = codes "round" ∷ pool_info.key ∷ h.u64_le_bytes round_id ∷ (bump ∷ []) ∷ []
        expected ← ok_or (h.create_program_address seeds program_id) (into invalid_pda)
        fail_if (not (bytes_eq expected round_info.key)) (into invalid_pda)
        b' ←
            create_pda_account h b authority round_info system_info program_id round_account_size
              seeds
        write_opened b' pool_info round_info pool round_id deadline template bump

  unfoldable pub open_round :
      Bank
      → Pubkey
      → List AccountInfo
      → (round_id deadline : ℕ) → Bytes
      → ℕ
      → Result Bank ProgramError
  open_round b program_id accounts round_id deadline template bump = do
    (authority, rest) ← next_account_info accounts
    (pool_info, rest₁) ← next_account_info rest
    (round_info, rest₂) ← next_account_info rest₁
    (system_info, _) ← next_account_info rest₂
    require_signer authority
    require_owned b pool_info program_id
    pool ← read_account h.pools b pool_info
    open_checked b program_id authority pool_info round_info system_info pool round_id deadline
        template bump

  -- The writes of `register_transparent`, once the record's account is there.
  unfoldable pub write_registered :
      Bank
      → (round_info record_info : AccountInfo) → PoolAccount
      → RoundAccount
      → Bytes
      → ℕ
      → Result Bank ProgramError
  write_registered b round_info record_info pool round key bump = do
    n ← ok_or (checked_add u32_mod round.accepted_count 1) (into overflow)
    b' ←
        write_account h.participants b record_info
          (record { version = 1; bump = bump; round = round_info.key; coordination_key = key })
    write_account h.rounds b' round_info (count_participant pool round n)

  -- `register_transparent` from its reading of the clock on.
  unfoldable pub register_checked :
      Bank
      → Pubkey
      → (payer pool_info round_info record_info system_info : AccountInfo) → PoolAccount
      → RoundAccount
      → Bytes
      → ℕ
      → Result Bank ProgramError
  register_checked b program_id payer pool_info round_info record_info system_info pool round key
        bump =
      do
        slot ← h.clock_slot
        fail_if (refuses_registration pool round pool_info.key slot) (into invalid_state)
        let seeds = codes "participant" ∷ round_info.key ∷ key ∷ (bump ∷ []) ∷ []
        expected ← ok_or (h.create_program_address seeds program_id) (into invalid_pda)
        fail_if (not (bytes_eq expected record_info.key)) (into invalid_pda)
        b' ← create_pda_account h b payer record_info system_info program_id 96 seeds
        write_registered b' round_info record_info pool round key bump

  unfoldable pub register_transparent :
      Bank → Pubkey → List AccountInfo → Bytes → ℕ → Result Bank ProgramError
  register_transparent b program_id accounts key bump = do
    (payer, rest) ← next_account_info accounts
    (pool_info, rest₁) ← next_account_info rest
    (round_info, rest₂) ← next_account_info rest₁
    (record_info, rest₃) ← next_account_info rest₂
    (system_info, _) ← next_account_info rest₃
    require_signer payer
    require_owned b pool_info program_id
    require_owned b round_info program_id
    pool ← read_account h.pools b pool_info
    round ← read_account h.rounds b round_info
    register_checked b program_id payer pool_info round_info record_info system_info pool round key
        bump
