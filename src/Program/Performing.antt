-- ===== src/Program/Performing.antt =====
-- When the handlers of programs/mirror-pool-program succeed.
use mirror_pool.Prelude.{
  ℕ, ◌-◌, ◌≤◌, ◌≡◌, Bool, true, false, some, List, [], ◌∷◌, Bytes, bytes_eq_refl, bytes_eq_iff,
  Result, ok, ◌>>=◌, ◌>>◌, fail_if, lt→ltb, leb, length, arith, refl, ◌∙◌,
}
use mirror_pool.Core.Defs.{zero32}
use mirror_pool.Program.Runtime.{
  Pubkey, PoolAccount, RoundAccount, CoordinationInstruction, begin_execution_window, ProgramError,
  into, invalid_timing, invalid_state, AccountInfo, Bank, Codec, Host, next_account_info,
  require_signer, require_owned, read_account, write_account,
}
use mirror_pool.Program.Admin.{
  admin_accounts, first_account, refuses_publish, refuses_seal, refuses_schedule, refuses_begin,
  refuses_cancel, publish_root, seal, schedule, begin, may_finalize, finalize, cancel, dispatch,
}
use mirror_pool.Program.Transitions.{
  Transition, publishes, seals, schedules, begins, finalizes, cancels,
}
use mirror_pool.Program.Effects.{RoundTrips, Rewrites, write_account-fits, write_account-ok}

-- The authority signed for a pool of its own and a round of that pool, both stored by the program.
pub record Placed (pools : Codec PoolAccount) (rounds : Codec RoundAccount) (b : Bank)
    (program_id : Pubkey) (authority pool_info round_info : AccountInfo) (pool : PoolAccount)
    (r : RoundAccount) : Type 0 where
  pub signed : authority.is_signer ≡ true
  pub by_authority : pool.authority ≡ authority.key
  pub of_pool : r.pool ≡ pool_info.key
  pub pool_owned : (b pool_info.key).owner ≡ program_id
  pub round_owned : (b round_info.key).owner ≡ program_id
  pub pool_read : read_account pools b pool_info ≡ ok pool
  pub round_read : read_account rounds b round_info ≡ ok r

-- The arrays of a round have no more than their 32 bytes.
pub record IsSized (r : RoundAccount) : Type 0 where
  pub pool : length r.pool ≤ 32
  pub template_hash : length r.template_hash ≤ 32
  pub cohort_root : length r.cohort_root ≤ 32
  pub metrics_hash : length r.metrics_hash ≤ 32

-- borsh: every such round has bytes, of which there are at most `space`.
abbrev pub Fits : Codec RoundAccount → ℕ → Type 0
Fits rounds space =
    (x : RoundAccount)
    → IsSized x
    → (bytes : Bytes) × (rounds.to_vec x ≡ some bytes) × (length bytes ≤ space)

-- The accounts that an instruction of a round's life names.
abbrev pub named_accounts :
    (authority pool_info round_info : AccountInfo) → CoordinationInstruction → List AccountInfo
named_accounts authority pool_info round_info begin_execution_window = round_info ∷ []
named_accounts authority pool_info round_info _ = authority ∷ pool_info ∷ round_info ∷ []

module _ (h : Host) (law : RoundTrips h.rounds) {b : Bank} {program_id : Pubkey}
    {authority pool_info round_info : AccountInfo} {pool : PoolAccount} {r : RoundAccount}
    (p : Placed h.pools h.rounds b program_id authority pool_info round_info pool r)
    (room : Fits h.rounds (length (b round_info.key).contents)) where
  writes :
      (x : RoundAccount)
      → IsSized x
      → (b' : Bank) × (write_account h.rounds b round_info x ≡ ok b')
        × Rewrites h.rounds b b' round_info x
  writes x sized =
      let (bytes, encoded, fits) = room x sized in
      let (b', written) = write_account-fits h.rounds b round_info x bytes encoded fits in
      (b', written, write_account-ok h.rounds law b round_info x written)

  names :
      admin_accounts b program_id (authority ∷ pool_info ∷ round_info ∷ [])
      ≡ ok (pool_info, round_info, authority)
  unfolding admin_accounts next_account_info require_signer require_owned
  names = rw (p.signed, p.pool_owned, p.round_owned, bytes_eq_refl program_id)

  -- The preamble of an authority's instruction passes.
  admin-goes :
      (k : AccountInfo
        → AccountInfo
        → AccountInfo
        → PoolAccount
        → RoundAccount
        → Result Bank ProgramError)
      → (do
        (pool_info, round_info, authority) ←
            admin_accounts b program_id (authority ∷ pool_info ∷ round_info ∷ [])
        pool ← read_account h.pools b pool_info
        round ← read_account h.rounds b round_info
        k pool_info round_info authority pool round)
        ≡ k pool_info round_info authority pool r
  admin-goes k = rw (names, p.pool_read, p.round_read)

  -- A handler that ends with a guard, which lets the call pass, and a write.
  ends :
      (fault : ProgramError) {x r' : RoundAccount} {refused : Bool}
      {handler : Result Bank ProgramError}
      → IsSized r'
      → refused ≡ false
      → r' ≡ x
      → handler ≡ (fail_if refused fault >> write_account h.rounds b round_info x)
      → (b' : Bank) × (handler ≡ ok b') × Rewrites h.rounds b b' round_info r'
  ends fault {r'} sized allowed same goes =
      let (b', written, rewrites) = writes r' sized in
      (b', goes ∙ rw (allowed, ← same) written, rewrites)

  -- An instruction that is permitted succeeds, and leaves the round in the account.
  pub dispatch_permitted :
      (now : ℕ) (i : CoordinationInstruction) {r' : RoundAccount}
      → h.clock_slot ≡ ok now
      → IsSized r'
      → Transition now pool r r' i
      → (b' : Bank) × (dispatch h b program_id (named_accounts authority pool_info round_info i) i
          ≡ ok b')
        × Rewrites h.rounds b b' round_info r'
  unfolding dispatch publish_root seal schedule begin finalize cancel first_account require_owned
  dispatch_permitted now i clock sized (publishes root count merkle state low high set fresh e) =
      let allowed : refuses_publish pool r pool_info.key authority.key root count ≡ false =
        unfold refuses_publish in
        ground (
          arith,
          bytes_eq_iff pool.authority authority.key,
          bytes_eq_iff r.pool pool_info.key,
          bytes_eq_iff root zero32,
          bytes_eq_iff r.cohort_root zero32,
          p.by_authority,
          p.of_pool,
        ) in
      ends (into invalid_state) sized allowed e (admin-goes _)
  dispatch_permitted now i clock sized (seals state enough e) =
      let allowed : refuses_seal pool r pool_info.key authority.key ≡ false =
        unfold refuses_seal in
        ground (
          arith,
          bytes_eq_iff pool.authority authority.key,
          bytes_eq_iff r.pool pool_info.key,
          p.by_authority,
          p.of_pool,
        ) in
      ends (into invalid_state) sized allowed e (admin-goes _)
  dispatch_permitted now i clock sized (schedules release state unset past low high fits e) =
      let allowed : refuses_schedule pool r authority.key (release - now) ≡ false =
        unfold refuses_schedule in
        ground (arith, bytes_eq_iff pool.authority authority.key, p.by_authority) in
      let leb-of : leb now release ≡ true = ground arith in
      ends (into invalid_timing) sized allowed e
        (admin-goes _ ∙ rw (clock, leb-of, lt→ltb _ _ fits))
  dispatch_permitted now i clock sized (begins state early late e) =
      let allowed : refuses_begin r now ≡ false = unfold refuses_begin in ground arith in
      ends (into invalid_timing) sized allowed e
        (rw (p.round_owned, bytes_eq_refl program_id, p.round_read, clock))
  dispatch_permitted now i clock sized (finalizes metrics state late set e) =
      let allowed : may_finalize h pool r authority metrics ≡ ok true =
        unfold may_finalize in
        ground (
          arith,
          bytes_eq_iff pool.authority authority.key,
          bytes_eq_iff metrics zero32,
          p.by_authority,
        ) in
      ends (into invalid_state) sized refl e (admin-goes _ ∙ rw allowed)
  dispatch_permitted now i clock sized (cancels running e) =
      let allowed : refuses_cancel pool r authority.key ≡ false =
        unfold refuses_cancel in
        ground (arith, bytes_eq_iff pool.authority authority.key, p.by_authority) in
      ends (into invalid_state) sized allowed e (admin-goes _)
