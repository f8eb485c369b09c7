-- ===== src/Program/Closing.antt =====
-- `close` and `cancel` of programs/mirror-pool-program: what becomes of the lamports of a closed round,
-- and whose rounds an authority may close or cancel.
use mathlib.Core.Path.{subst}
use mirror_pool.Prelude.{
  ℕ, ◌+◌, ◌<◌, ◌≤◌, ◌≡◌, ◌≢◌, true, false, List, Bytes, bytes_eq_iff, bytes_eq_refl, lt→ltb, ok,
  ◌∙◌, ap, arith, >>=-eq-ok, ok-injective, guarded, supplied, checked_add, checked_add-some,
  u64_mod, length, replicate, some,
}
use mirror_pool.Program.Runtime.{
  Pubkey, State, PoolAccount, RoundAccount, AccountInfo, Account, Bank, store, Host, read_account,
}
use mirror_pool.Program.Handlers.{is_over}
use mirror_pool.Program.Admin.{
  admin_accounts, refuses_close, refuses_cancel, pay_out, close, cancel,
}
use mirror_pool.Program.Conditions.{close_conditions}
use mirror_pool.Program.Effects.{RoundTrips, Rewrites, write_account-ok, write_account-fits}

-- The accounts after `close`, for an authority that is not the round's account.
pub record Closed (b b' : Bank) (authority round_info : AccountInfo) : Type 0 where
  pub paid : (b' authority.key).lamports ≡ (b authority.key).lamports + (b round_info.key).lamports
  pub emptied : (b' round_info.key).lamports ≡ 0
  pub erased : (b' round_info.key).contents ≡ replicate (length (b round_info.key).contents) 0
  pub others : (k : Pubkey) → k ≢ authority.key → k ≢ round_info.key → b' k ≡ b k

pay_out-at :
    (b : Bank) (a r : Pubkey) (n : ℕ)
    → a ≢ r
    → (pay_out b a r n a ≡ record (b a) { lamports = n })
      × (pay_out b a r n r
          ≡ record (b r) { lamports = 0; contents = replicate (length (b r).contents) 0 })
      × ((k : Pubkey) → k ≢ a → k ≢ r → pay_out b a r n k ≡ b k)
unfolding pay_out store
pay_out-at b a r n ne =
    let rr = bytes_eq_iff r r in
    let aa = bytes_eq_iff a a in
    let ar = bytes_eq_iff a r in
    let ra = bytes_eq_iff r a in
    (
      ground (arith, rr, aa, ar, ra),
      ground (arith, rr, aa, ar, ra),
      (λ k ka kr. ground (arith, bytes_eq_iff k a, bytes_eq_iff k r)),
    )

module _ (h : Host) where
  -- A round that is closed is over, and a writable authority that signed and that the pool names gets
  -- exactly its lamports; the round keeps none and its data is zeroed; no third account changes. It is
  -- assumed that the authority's account is not the round's.
  pub close-Closed :
      (b : Bank) (program_id : Pubkey) (accounts : List AccountInfo)
      {pool_info round_info authority : AccountInfo} {b' : Bank}
      → admin_accounts b program_id accounts ≡ ok (pool_info, round_info, authority)
      → authority.key ≢ round_info.key
      → close h b program_id accounts ≡ ok b'
      → (pool : PoolAccount) × (r : RoundAccount) × (read_account h.pools b pool_info ≡ ok pool)
        × (read_account h.rounds b round_info ≡ ok r)
        × (pool.authority ≡ authority.key)
        × (is_over r.state ≡ true)
        × Closed b b' authority round_info
  unfolding close
  close-Closed b program_id accounts {pool_info} {round_info} {authority} {b'} named ne e =
      let e' = rw named at e in
      let (pool, pool_read, e₁) = >>=-eq-ok (read_account h.pools b pool_info) _ e' in
      let (r, round_read, e₂) = >>=-eq-ok (read_account h.rounds b round_info) _ e₁ in
      let (passed, e₃) = guarded (refuses_close pool r authority) _ _ e₂ in
      let (total, add, paid) =
        supplied (checked_add u64_mod (b authority.key).lamports (b round_info.key).lamports) _ _
          e₃ in
      let (by, over, _) = close_conditions pool r authority passed in
      let (at_authority, at_round, elsewhere) =
        pay_out-at b authority.key round_info.key total ne in
      (
        pool,
        r,
        pool_read,
        round_read,
        by,
        over,
        subst (λ b'. Closed b b' authority round_info) (ok-injective paid)
            (record {
              paid =
                  ap (λ (a : Account). a.lamports) at_authority
                  ∙ (checked_add-some u64_mod (b authority.key).lamports (b round_info.key).lamports
                      add).1;
              emptied = ap (λ (a : Account). a.lamports) at_round;
              erased = ap (λ (a : Account). a.contents) at_round;
              others = elsewhere;
            }),
      )

  -- `cancel` compares the round with no pool: an authority that signed cancels a round that is not
  -- over even where the round belongs to another pool than the authority's own. The conditions are
  -- those of the preamble, and that the new bytes of the round exist and fit its account.
  pub cancel_any_pool :
      (law : RoundTrips h.rounds) (b : Bank) (program_id : Pubkey) (accounts : List AccountInfo)
      (pool_info round_info authority : AccountInfo) (pool : PoolAccount) (r : RoundAccount)
      (bytes : Bytes)
      → admin_accounts b program_id accounts ≡ ok (pool_info, round_info, authority)
      → read_account h.pools b pool_info ≡ ok pool
      → read_account h.rounds b round_info ≡ ok r
      → pool.authority ≡ authority.key
      → is_over r.state ≡ false
      → r.pool ≢ pool_info.key
      → h.rounds.to_vec (record r { state = State.cancelled }) ≡ some bytes
      → length bytes ≤ length (b round_info.key).contents
      → (b' : Bank) × (cancel h b program_id accounts ≡ ok b')
        × Rewrites h.rounds b b' round_info (record r { state = State.cancelled })
  unfolding cancel
  cancel_any_pool law b program_id accounts pool_info round_info authority pool r bytes named
        pool_read round_read by running foreign encoded fits =
      let allowed : refuses_cancel pool r authority.key ≡ false =
        unfold refuses_cancel in rw (by, running, bytes_eq_refl authority.key) in
      let (b', written) = write_account-fits h.rounds b round_info _ bytes encoded fits in
      (
        b',
        rw (named, pool_read, round_read, allowed) written,
        write_account-ok h.rounds law b round_info _ written,
      )

  -- `close` compares the round with no pool either: the rent of a round that is over goes to a writable
  -- authority that signed, of whatever pool it is the authority. It is assumed that the authority's
  -- account is not the round's, and that the sum fits a `u64`.
  pub close_any_pool :
      (b : Bank) (program_id : Pubkey) (accounts : List AccountInfo)
      (pool_info round_info authority : AccountInfo) (pool : PoolAccount) (r : RoundAccount)
      → admin_accounts b program_id accounts ≡ ok (pool_info, round_info, authority)
      → read_account h.pools b pool_info ≡ ok pool
      → read_account h.rounds b round_info ≡ ok r
      → pool.authority ≡ authority.key
      → is_over r.state ≡ true
      → authority.is_writable ≡ true
      → r.pool ≢ pool_info.key
      → authority.key ≢ round_info.key
      → (b authority.key).lamports + (b round_info.key).lamports < u64_mod
      → (b' : Bank) × (close h b program_id accounts ≡ ok b') × Closed b b' authority round_info
  unfolding close
  close_any_pool b program_id accounts pool_info round_info authority pool r named pool_read
        round_read by over writable foreign ne fits =
      let allowed : refuses_close pool r authority ≡ false =
        unfold refuses_close in rw (by, over, writable, bytes_eq_refl authority.key) in
      let total : ℕ = (b authority.key).lamports + (b round_info.key).lamports in
      let (at_authority, at_round, elsewhere) =
        pay_out-at b authority.key round_info.key total ne in
      (
        pay_out b authority.key round_info.key total,
        rw (named, pool_read, round_read, allowed, lt→ltb total u64_mod fits),
        record {
          paid = ap (λ (a : Account). a.lamports) at_authority;
          emptied = ap (λ (a : Account). a.lamports) at_round;
          erased = ap (λ (a : Account). a.contents) at_round;
          others = elsewhere;
        },
      )
