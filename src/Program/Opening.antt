-- ===== src/Program/Opening.antt =====
-- The handlers of programs/mirror-pool-program that create accounts: `initialize`, `open_round` and
-- `register_transparent`. Nothing is assumed of the system program: what they read back rests on
-- their own writes alone.
use mathlib.Core.Path.{subst}
use mirror_pool.Prelude.{
  ℕ, ◌+◌, ◌<◌, ◌≤◌, ◌≡◌, true, false, not, List, [], ◌∷◌, Bytes, codes, bytes_eq, leb, leb-false→lt,
  ok, refl, sym, ◌∙◌, ap, >>=-eq-ok, ok-injective, guarded, supplied, checked_add, checked_add-some,
  u64_mod, some, bytes_eq_iff, arith,
}
use mirror_pool.Program.Runtime.{
  Pubkey, State, PoolAccount, RoundAccount, PoolParams, AccountInfo, Bank, Host, next_account_info,
  require_signer, require_owned, read_account, write_account, create_pda_account, max_cohort_size,
  pool_account_size, round_account_size,
}
use mirror_pool.Prelude.{◌⊎◌, inl, inr, bytes_decide}
use mirror_pool.Program.Handlers.{
  refuses_policy, refuses_opening, initialize, open_round, open_checked, write_opened,
}
use mirror_pool.Program.Conditions.{signer_conditions, policy_conditions, opening_conditions}
use mirror_pool.Core.Defs.{zero32}
use mirror_pool.Program.Effects.{
  RoundTrips, next_account_info-ok, require_owned-ok, read_account-local, write_account-ok,
}
use mirror_pool.Program.Life.{IsOpened}

-- The policy that a pool account holds.
pub record IsPolicy (pool : PoolAccount) : Type 0 where
  pub two_or_more : 2 ≤ pool.min_participants
  pub ordered : pool.min_participants ≤ pool.max_participants
  pub bounded : pool.max_participants ≤ max_cohort_size
  pub executes : 0 < pool.execution_window
  pub delays : pool.min_release_delay ≤ pool.max_release_delay

-- The pool that an authority creates.
abbrev pub new_pool : AccountInfo → PoolParams → PoolAccount
new_pool authority p = record {
  version = 1;
  bump = p.bump;
  authority = authority.key;
  pool_id = p.pool_id;
  template_hash = p.template_hash;
  min_participants = p.min_participants;
  max_participants = p.max_participants;
  min_release_delay = p.min_release_delay;
  max_release_delay = p.max_release_delay;
  execution_window = p.execution_window;
  backend = p.backend;
  next_round = 0;
  paused = false;
}

-- The round that is opened for a pool.
abbrev pub new_round :
    (pool_key : Pubkey) (round_id deadline : ℕ) (template : Bytes) (bump : ℕ) → RoundAccount
new_round pool_key round_id deadline template bump = record {
  version = 1;
  bump = bump;
  pool = pool_key;
  round_id = round_id;
  state = State.registration;
  registration_deadline = deadline;
  template_hash = template;
  accepted_count = 0;
  cohort_root = zero32;
  release_slot = 0;
  window_end_slot = 0;
  metrics_hash = zero32;
}

-- The derived key that a handler found to be that of an account.
pub expected_key : (expected key : Bytes) → not (bytes_eq expected key) ≡ false → expected ≡ key
expected_key expected key same = ground (arith, bytes_eq_iff expected key)

pub new_round-IsOpened :
    (pool_key : Pubkey) (round_id deadline : ℕ) (template : Bytes) (bump : ℕ)
    → IsOpened (new_round pool_key round_id deadline template bump)
new_round-IsOpened pool_key round_id deadline template bump = record {
  state = refl;
  count = refl;
  root = refl;
  release = refl;
  window_end = refl;
  metrics = refl;
}

module _ (h : Host) (pools_law : RoundTrips h.pools) (rounds_law : RoundTrips h.rounds) where
  -- Where `initialize` succeeds, its first account signed, its second is the program address of the
  -- pool's identifier and bump, and holds the parameters as the pool of that signer, with no round
  -- opened and not paused; the parameters are a valid policy. borsh is assumed to read a pool back.
  pub initialize-IsPolicy :
      (b : Bank) (program_id : Pubkey) (accounts : List AccountInfo) (p : PoolParams) {b' : Bank}
      → initialize h b program_id accounts p ≡ ok b'
      → (authority : AccountInfo) × (pool_info : AccountInfo) × (system_info : AccountInfo)
        × (rest : List AccountInfo) × (accounts ≡ authority ∷ pool_info ∷ system_info ∷ rest)
        × (authority.is_signer ≡ true)
        × (h.create_program_address (codes "pool" ∷ p.pool_id ∷ (p.bump ∷ []) ∷ []) program_id
            ≡ some pool_info.key)
        × (read_account h.pools b' pool_info ≡ ok (new_pool authority p))
        × IsPolicy (new_pool authority p)
  unfolding initialize
  initialize-IsPolicy b program_id accounts p e =
      let seeds : List Bytes = codes "pool" ∷ p.pool_id ∷ (p.bump ∷ []) ∷ [] in
      let (passed, e₁) = guarded (refuses_policy p) _ _ e in
      let ((authority, rest), first, e₂) = >>=-eq-ok (next_account_info accounts) _ e₁ in
      let ((pool_info, rest'), second, e₃) = >>=-eq-ok (next_account_info rest) _ e₂ in
      let ((system_info, left), third, e₄) = >>=-eq-ok (next_account_info rest') _ e₃ in
      let (_, signs, e₅) = >>=-eq-ok (require_signer authority) _ e₄ in
      let (expected, derived, e₆) = supplied (h.create_program_address seeds program_id) _ _ e₅ in
      let (same, e₇) = guarded (not (bytes_eq expected pool_info.key)) _ _ e₆ in
      let (b₁, _, written) =
        >>=-eq-ok
          (create_pda_account h b authority pool_info system_info program_id pool_account_size
            seeds)
          _ e₇ in
      let (two, ordered, bounded, executes, delays) = policy_conditions p passed in
      (
        authority,
        pool_info,
        system_info,
        left,
        next_account_info-ok accounts first
            ∙ ap (◌∷◌ authority) (
                next_account_info-ok rest second
                ∙ ap (◌∷◌ pool_info) (next_account_info-ok rest' third)),
        signer_conditions authority signs,
        derived ∙ ap some (expected_key expected pool_info.key same),
        (write_account-ok h.pools pools_law b₁ pool_info _ written).reads,
        record {
          two_or_more = two;
          ordered = ordered;
          bounded = bounded;
          executes = executes;
          delays = delays;
        },
      )

  -- What the writes of `open_round` leave: the new round, and the pool with its number advanced.
  pub record Opened (b' : Bank) (pool_info round_info : AccountInfo) (pool : PoolAccount)
      (round_id deadline : ℕ) (template : Bytes) (bump : ℕ) : Type 0 where
    pub reads :
        read_account h.rounds b' round_info
        ≡ ok (new_round pool_info.key round_id deadline template bump)
    pub advanced :
        (pool_info.key ≡ round_info.key)
        ⊎ (read_account h.pools b' pool_info
            ≡ ok (record pool { next_round = pool.next_round + 1 }))

  write_opened-Opened :
      (b : Bank) (pool_info round_info : AccountInfo) (pool : PoolAccount) (round_id deadline : ℕ)
      (template : Bytes) (bump : ℕ) {b' : Bank}
      → write_opened h b pool_info round_info pool round_id deadline template bump ≡ ok b'
      → Opened b' pool_info round_info pool round_id deadline template bump
  unfolding write_opened
  write_opened-Opened b pool_info round_info pool round_id deadline template bump e =
      let (next, add, e₁) = supplied (checked_add u64_mod pool.next_round 1) _ _ e in
      let (b₂, pool_written, round_written) =
        >>=-eq-ok (write_account h.pools b pool_info (record pool { next_round = next })) _ e₁ in
      let round_effect = write_account-ok h.rounds rounds_law b₂ round_info _ round_written in
      let pool_effect = write_account-ok h.pools pools_law b pool_info _ pool_written in
      record {
        reads = round_effect.reads;
        advanced = elim (bytes_decide pool_info.key round_info.key) [
          | inl same ↦ inl same
          | inr ne ↦ inr (
              read_account-local h.pools b₂ _ pool_info (round_effect.others pool_info.key ne)
              ∙ pool_effect.reads
              ∙ ap (λ (n : ℕ). ok (record pool { next_round = n }))
                  (checked_add-some u64_mod pool.next_round 1 add).1)
        ];
      }

  -- What the checks of `open_round` establish, with what its writes leave.
  pub record Opening (b' : Bank) (program_id : Pubkey)
      (authority pool_info round_info : AccountInfo) (pool : PoolAccount) (round_id deadline : ℕ)
      (template : Bytes) (bump now : ℕ) : Type 0 where
    pub by_authority : pool.authority ≡ authority.key
    pub running : pool.paused ≡ false
    pub in_turn : pool.next_round ≡ round_id
    pub same_template : pool.template_hash ≡ template
    pub timely : now < deadline
    pub derived :
        h.create_program_address
          (codes "round" ∷ pool_info.key ∷ h.u64_le_bytes round_id ∷ (bump ∷ []) ∷ [])
          program_id
        ≡ some round_info.key
    pub opened : Opened b' pool_info round_info pool round_id deadline template bump

  open_checked-Opening :
      (b : Bank) (program_id : Pubkey) (authority pool_info round_info system_info : AccountInfo)
      (pool : PoolAccount) (round_id deadline : ℕ) (template : Bytes) (bump now : ℕ) {b' : Bank}
      → h.clock_slot ≡ ok now
      → open_checked h b program_id authority pool_info round_info system_info pool round_id
          deadline template bump
        ≡ ok b'
      → Opening b' program_id authority pool_info round_info pool round_id deadline template bump
          now
  unfolding open_checked
  open_checked-Opening b program_id authority pool_info round_info system_info pool round_id
        deadline template bump now clock e =
      let seeds : List Bytes =
        codes "round" ∷ pool_info.key ∷ h.u64_le_bytes round_id ∷ (bump ∷ []) ∷ [] in
      let (passed, e₁) = guarded (refuses_opening pool authority.key round_id template) _ _ e in
      let (slot, clock', e₂) = >>=-eq-ok h.clock_slot _ e₁ in
      let (timely, e₃) = guarded (leb deadline slot) _ _ e₂ in
      let (expected, derived, e₄) = supplied (h.create_program_address seeds program_id) _ _ e₃ in
      let (same, e₅) = guarded (not (bytes_eq expected round_info.key)) _ _ e₄ in
      let (b₁, _, written) =
        >>=-eq-ok
          (create_pda_account h b authority round_info system_info program_id round_account_size
            seeds)
          _ e₅ in
      let (by, running, number, same_template) =
        opening_conditions pool authority.key round_id template passed in
      record {
        by_authority = by;
        running = running;
        in_turn = number;
        same_template = same_template;
        timely =
            subst (λ n. n < deadline) (ok-injective (sym clock' ∙ clock))
              (leb-false→lt deadline slot timely);
        derived = derived ∙ ap some (expected_key expected round_info.key same);
        opened =
            write_opened-Opened b₁ pool_info round_info pool round_id deadline template bump
              written;
      }

  -- Where `open_round` succeeds, its first account is the authority of the pool and signed, the pool
  -- in the second account belongs to the program, has the template asked for and is not paused, the
  -- round is its next and its deadline lies ahead. The third account is the program address of pool,
  -- number and bump; it then holds the new round of that pool, with that number, deadline and
  -- template, in Registration and without participants. The pool's account, if it is another one,
  -- holds the pool with its number advanced. borsh is assumed to read pools and rounds back.
  pub open_round-Opening :
      (b : Bank) (program_id : Pubkey) (accounts : List AccountInfo) (round_id deadline : ℕ)
      (template : Bytes) (bump now : ℕ) {b' : Bank}
      → h.clock_slot ≡ ok now
      → open_round h b program_id accounts round_id deadline template bump ≡ ok b'
      → (authority : AccountInfo) × (pool_info : AccountInfo) × (round_info : AccountInfo)
        × (system_info : AccountInfo) × (rest : List AccountInfo) × (pool : PoolAccount) × (accounts
            ≡ authority ∷ pool_info ∷ round_info ∷ system_info ∷ rest)
        × (authority.is_signer ≡ true)
        × ((b pool_info.key).owner ≡ program_id)
        × (read_account h.pools b pool_info ≡ ok pool)
        × Opening b' program_id authority pool_info round_info pool round_id deadline template bump
            now
  unfolding open_round
  open_round-Opening b program_id accounts round_id deadline template bump now clock e =
      let ((authority, rest), first, e₁) = >>=-eq-ok (next_account_info accounts) _ e in
      let ((pool_info, rest₁), second, e₂) = >>=-eq-ok (next_account_info rest) _ e₁ in
      let ((round_info, rest₂), third, e₃) = >>=-eq-ok (next_account_info rest₁) _ e₂ in
      let ((system_info, left), fourth, e₄) = >>=-eq-ok (next_account_info rest₂) _ e₃ in
      let (_, signs, e₅) = >>=-eq-ok (require_signer authority) _ e₄ in
      let (_, owned, e₆) = >>=-eq-ok (require_owned b pool_info program_id) _ e₅ in
      let (pool, pool_read, e₇) = >>=-eq-ok (read_account h.pools b pool_info) _ e₆ in
      (
        authority,
        pool_info,
        round_info,
        system_info,
        left,
        pool,
        next_account_info-ok accounts first
            ∙ ap (◌∷◌ authority) (
                next_account_info-ok rest second
                ∙ ap (◌∷◌ pool_info) (
                    next_account_info-ok rest₁ third
                    ∙ ap (◌∷◌ round_info) (next_account_info-ok rest₂ fourth))),
        signer_conditions authority signs,
        require_owned-ok b pool_info program_id owned,
        pool_read,
        open_checked-Opening b program_id authority pool_info round_info system_info pool round_id
            deadline template bump now clock e₇,
      )
