-- ===== src/Program/Refinement.antt =====
-- The handlers of programs/mirror-pool-program implement the relation `Transition`: what a handler
-- that succeeds has done to the round's account, and that it has done nothing else.
use mirror_pool.Prelude.{
  ℕ, ◌≡◌, not, List, Bytes, ok, checked_add, checked_sub, u64_mod, arith, refl, sym, ap, ◌∙◌,
  checked_sub-some, checked_add-some, not-false, >>=-eq-ok, ok-injective, guarded, supplied,
}
use mirror_pool.Program.Runtime.{
  Pubkey, State, PoolAccount, RoundAccount, CoordinationInstruction, publish_cohort_root,
  seal_round, schedule_release, finalize_round, cancel_round, AccountInfo, Bank, Host, read_account,
}
use mirror_pool.Program.Admin.{
  admin_accounts, refuses_publish, refuses_seal, refuses_schedule, refuses_cancel, publish_root,
  seal, schedule, may_finalize, finalize, cancel,
}
use mirror_pool.Program.Transitions.{Transition, publishes, seals, schedules, finalizes, cancels}
use mirror_pool.Program.Conditions.{
  publish_conditions, seal_conditions, schedule_conditions, cancel_conditions, finalize_conditions,
}
use mirror_pool.Program.Effects.{RoundTrips, Rewrites, write_account-ok, AdminCall, admin-ok}

-- At the slot of the clock the round of `round_info` went from `r` to `r'`, as the relation permits
-- under `pool`, and no other account was changed.
pub record Applies (h : Host) (b b' : Bank) (round_info : AccountInfo) (now : ℕ)
    (pool : PoolAccount) (r r' : RoundAccount) (i : CoordinationInstruction) : Type 0 where
  pub before : read_account h.rounds b round_info ≡ ok r
  pub permitted : Transition now pool r r' i
  pub after : Rewrites h.rounds b b' round_info r'

-- The call named pool, round and authority; the pool's authority is that one, and signed.
pub record Authorised (h : Host) (b : Bank) (program_id : Pubkey) (accounts : List AccountInfo)
    (pool_info round_info authority : AccountInfo) (pool : PoolAccount) (r : RoundAccount)
    : Type 0 where
  pub named : admin_accounts b program_id accounts ≡ ok (pool_info, round_info, authority)
  pub call : AdminCall h b program_id pool_info round_info authority pool r
  pub by_authority : pool.authority ≡ authority.key

-- What an authority's instruction that succeeded has done, and on whose authority.
pub record Effect (h : Host) (b b' : Bank) (program_id : Pubkey) (accounts : List AccountInfo)
    (now : ℕ) (i : CoordinationInstruction) : Type 0 where
  pub pool_info : AccountInfo
  pub round_info : AccountInfo
  pub authority : AccountInfo
  pub pool : PoolAccount
  pub r : RoundAccount
  pub r' : RoundAccount
  pub authorised : Authorised h b program_id accounts pool_info round_info authority pool r
  pub applies : Applies h b b' round_info now pool r r' i

module _ (h : Host) (law : RoundTrips h.rounds) where
  -- `PublishCohortRoot` and `SealRound` also check that the round belongs to the pool.
  pub publish-Effect :
      (b : Bank) (program_id : Pubkey) (accounts : List AccountInfo) (root : Bytes) (count now : ℕ)
      {b' : Bank}
      → publish_root h b program_id accounts root count ≡ ok b'
      → (e : Effect h b b' program_id accounts now (publish_cohort_root root count)) × (e.r.pool
          ≡ e.pool_info.key)
  unfolding publish_root
  publish-Effect b program_id accounts root count now e =
      let (pool_info, round_info, authority, pool, r, named, call, rest) =
        admin-ok h b program_id accounts _ e in
      let (passed, written) =
        guarded (refuses_publish pool r pool_info.key authority.key root count) _ _ rest in
      let (by, of_pool, merkle, state, low, high, fresh, unset) =
        publish_conditions pool r pool_info.key authority.key root count passed in
      (
        record {
          pool_info = pool_info;
          round_info = round_info;
          authority = authority;
          pool = pool;
          r = r;
          r' = record r {
            cohort_root = root;
            accepted_count = count;
            state = State.threshold_reached;
          };
          authorised = record { named = named; call = call; by_authority = by };
          applies = record {
            before = call.round_read;
            permitted = publishes root count merkle state low high fresh unset refl;
            after = write_account-ok h.rounds law b round_info _ written;
          };
        },
        of_pool,
      )

  pub seal-Effect :
      (b : Bank) (program_id : Pubkey) (accounts : List AccountInfo) (now : ℕ) {b' : Bank}
      → seal h b program_id accounts ≡ ok b'
      → (e : Effect h b b' program_id accounts now seal_round) × (e.r.pool ≡ e.pool_info.key)
  unfolding seal
  seal-Effect b program_id accounts now e =
      let (pool_info, round_info, authority, pool, r, named, call, rest) =
        admin-ok h b program_id accounts _ e in
      let (passed, written) = guarded (refuses_seal pool r pool_info.key authority.key) _ _ rest in
      let (by, of_pool, state, enough) =
        seal_conditions pool r pool_info.key authority.key passed in
      (
        record {
          pool_info = pool_info;
          round_info = round_info;
          authority = authority;
          pool = pool;
          r = r;
          r' = record r { state = State.sealed };
          authorised = record { named = named; call = call; by_authority = by };
          applies = record {
            before = call.round_read;
            permitted = seals state enough refl;
            after = write_account-ok h.rounds law b round_info _ written;
          };
        },
        of_pool,
      )

  pub cancel-Effect :
      (b : Bank) (program_id : Pubkey) (accounts : List AccountInfo) (now : ℕ) {b' : Bank}
      → cancel h b program_id accounts ≡ ok b'
      → Effect h b b' program_id accounts now cancel_round
  unfolding cancel
  cancel-Effect b program_id accounts now e =
      let (pool_info, round_info, authority, pool, r, named, call, rest) =
        admin-ok h b program_id accounts _ e in
      let (passed, written) = guarded (refuses_cancel pool r authority.key) _ _ rest in
      let (by, running) = cancel_conditions pool r authority.key passed in
      record {
        pool_info = pool_info;
        round_info = round_info;
        authority = authority;
        pool = pool;
        r = r;
        r' = record r { state = State.cancelled };
        authorised = record { named = named; call = call; by_authority = by };
        applies = record {
          before = call.round_read;
          permitted = cancels running refl;
          after = write_account-ok h.rounds law b round_info _ written;
        };
      }

  pub schedule-Effect :
      (b : Bank) (program_id : Pubkey) (accounts : List AccountInfo) (release now : ℕ) {b' : Bank}
      → h.clock_slot ≡ ok now
      → schedule h b program_id accounts release ≡ ok b'
      → Effect h b b' program_id accounts now (schedule_release release)
  unfolding schedule
  schedule-Effect b program_id accounts release now clock e =
      let (pool_info, round_info, authority, pool, r, named, call, rest) =
        admin-ok h b program_id accounts _ e in
      let (slot, clock', rest₁) = >>=-eq-ok h.clock_slot _ rest in
      let same : slot ≡ now = ok-injective (sym clock' ∙ clock) in
      let (delay, sub, rest₂) = supplied (checked_sub release slot) _ _ rest₁ in
      let (passed, rest₃) = guarded (refuses_schedule pool r authority.key delay) _ _ rest₂ in
      let (window_end, add, written) =
        supplied (checked_add u64_mod release pool.execution_window) _ _ rest₃ in
      let (by, state, unset, low, high) = schedule_conditions pool r authority.key delay passed in
      let (not_past, delay_is) = checked_sub-some release slot sub in
      let (fits, end_is) = checked_add-some u64_mod release pool.execution_window add in
      record {
        pool_info = pool_info;
        round_info = round_info;
        authority = authority;
        pool = pool;
        r = r;
        r' = record r {
          release_slot = release;
          window_end_slot = window_end;
          state = State.release_scheduled;
        };
        authorised = record { named = named; call = call; by_authority = by };
        applies = record {
          before = call.round_read;
          permitted = schedules release state unset (omega arith) (omega arith) (omega arith) fits (
              ap
                (λ (n : ℕ). record r {
                  release_slot = release;
                  window_end_slot = n;
                  state = State.release_scheduled;
                })
                end_is);
          after = write_account-ok h.rounds law b round_info _ written;
        };
      }

  pub finalize-Effect :
      (b : Bank) (program_id : Pubkey) (accounts : List AccountInfo) (metrics : Bytes) (now : ℕ)
      {b' : Bank}
      → h.clock_slot ≡ ok now
      → finalize h b program_id accounts metrics ≡ ok b'
      → Effect h b b' program_id accounts now (finalize_round metrics)
  unfolding finalize
  finalize-Effect b program_id accounts metrics now clock e =
      let (pool_info, round_info, authority, pool, r, named, call, rest) =
        admin-ok h b program_id accounts _ e in
      let (allowed, may, rest₁) = >>=-eq-ok (may_finalize h pool r authority metrics) _ rest in
      let (passed, written) = guarded (not allowed) _ _ rest₁ in
      let (by, state, late, set) =
        finalize_conditions h pool r authority metrics now clock
          (may ∙ ap ok (not-false allowed passed)) in
      record {
        pool_info = pool_info;
        round_info = round_info;
        authority = authority;
        pool = pool;
        r = r;
        r' = record r { metrics_hash = metrics; state = State.completed };
        authorised = record { named = named; call = call; by_authority = by };
        applies = record {
          before = call.round_read;
          permitted = finalizes metrics state late set refl;
          after = write_account-ok h.rounds law b round_info _ written;
        };
      }
