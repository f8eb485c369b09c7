-- ===== src/Program/Registering.antt =====
-- `register_transparent` of programs/mirror-pool-program: a successful registration is one step of the
-- round's life, and leaves a record of the participant's key.
use mathlib.Core.Path.{subst}
use mirror_pool.Prelude.{
  ℕ, ◌+◌, ◌<◌, ◌≡◌, true, not, List, [], ◌∷◌, Bytes, codes, bytes_eq, ok, refl, sym, ◌∙◌, ap,
  >>=-eq-ok, ok-injective, guarded, supplied, checked_add, checked_add-some, u32_mod, some,
}
use mirror_pool.Program.Runtime.{
  Pubkey, PoolAccount, RoundAccount, ParticipantRecord, AccountInfo, Bank, Host, next_account_info,
  require_signer, require_owned, read_account, write_account, create_pda_account,
}
use mirror_pool.Prelude.{◌⊎◌, inl, inr, bytes_decide}
use mirror_pool.Program.Handlers.{
  refuses_registration, register_transparent, register_checked, write_registered, count_participant,
  is_transparent,
}
use mirror_pool.Program.Conditions.{registration_conditions, signer_conditions}
use mirror_pool.Program.Opening.{expected_key}
use mirror_pool.Program.Effects.{
  RoundTrips, next_account_info-ok, require_owned-ok, read_account-local, write_account-ok,
}
use mirror_pool.Program.Life.{Step, registered}

abbrev participant : AccountInfo → Bytes → ℕ → ParticipantRecord
participant round_info key bump = record {
  version = 1;
  bump = bump;
  round = round_info.key;
  coordination_key = key;
}

module _ (h : Host) (rounds_law : RoundTrips h.rounds)
    (participants_law : RoundTrips h.participants) where
  write_registered-ok :
      (b : Bank) (round_info record_info : AccountInfo) (pool : PoolAccount) (r : RoundAccount)
      (key : Bytes) (bump : ℕ) {b' : Bank}
      → write_registered h b round_info record_info pool r key bump ≡ ok b'
      → (r.accepted_count + 1 < u32_mod)
        × (read_account h.rounds b' round_info
            ≡ ok (count_participant pool r (r.accepted_count + 1)))
        × ((record_info.key ≡ round_info.key)
            ⊎ (read_account h.participants b' record_info ≡ ok (participant round_info key bump)))
  unfolding write_registered
  write_registered-ok b round_info record_info pool r key bump {b'} e =
      let (n, add, e₁) = supplied (checked_add u32_mod r.accepted_count 1) _ _ e in
      let (b₂, record_written, round_written) =
        >>=-eq-ok (write_account h.participants b record_info (participant round_info key bump)) _
          e₁ in
      let (fits, n_is) = checked_add-some u32_mod r.accepted_count 1 add in
      let round_effect = write_account-ok h.rounds rounds_law b₂ round_info _ round_written in
      let record_effect =
        write_account-ok h.participants participants_law b record_info _ record_written in
      (
        fits,
        round_effect.reads ∙ ap (λ (n : ℕ). ok (count_participant pool r n)) n_is,
        elim (bytes_decide record_info.key round_info.key) [
          | inl same ↦ inl same
          | inr ne ↦ inr (
              read_account-local h.participants b₂ b' record_info
                (round_effect.others record_info.key ne)
              ∙ record_effect.reads)
        ],
      )

  -- What a successful registration has established and done.
  pub record Registration (b b' : Bank) (program_id : Pubkey)
      (pool_info round_info record_info : AccountInfo) (pool : PoolAccount) (r : RoundAccount)
      (key : Bytes) (bump now : ℕ) : Type 0 where
    pub transparent : is_transparent pool.backend ≡ true
    pub of_pool : r.pool ≡ pool_info.key
    pub derived :
        h.create_program_address
          (codes "participant" ∷ round_info.key ∷ key ∷ (bump ∷ []) ∷ [])
          program_id
        ≡ some record_info.key
    pub timely : now < r.registration_deadline
    pub counted :
        read_account h.rounds b' round_info ≡ ok (count_participant pool r (r.accepted_count + 1))
    pub one_step : Step r (count_participant pool r (r.accepted_count + 1))
    pub recorded :
        (record_info.key ≡ round_info.key)
        ⊎ (read_account h.participants b' record_info ≡ ok (participant round_info key bump))

  register_checked-Registration :
      (b : Bank) (program_id : Pubkey)
      (payer pool_info round_info record_info system_info : AccountInfo) (pool : PoolAccount)
      (r : RoundAccount) (key : Bytes) (bump now : ℕ) {b' : Bank}
      → h.clock_slot ≡ ok now
      → register_checked h b program_id payer pool_info round_info record_info system_info pool r
          key bump
        ≡ ok b'
      → Registration b b' program_id pool_info round_info record_info pool r key bump now
  unfolding register_checked
  register_checked-Registration b program_id payer pool_info round_info record_info system_info pool
        r key bump now clock e =
      let seeds : List Bytes = codes "participant" ∷ round_info.key ∷ key ∷ (bump ∷ []) ∷ [] in
      let (slot, clock', e₁) = >>=-eq-ok h.clock_slot _ e in
      let (passed, e₂) = guarded (refuses_registration pool r pool_info.key slot) _ _ e₁ in
      let (expected, derived, e₃) = supplied (h.create_program_address seeds program_id) _ _ e₂ in
      let (same, e₄) = guarded (not (bytes_eq expected record_info.key)) _ _ e₃ in
      let (b₁, _, written) =
        >>=-eq-ok (create_pda_account h b payer record_info system_info program_id 96 seeds) _ e₄ in
      let (transparent, of_pool, takes, early, room) =
        registration_conditions pool r pool_info.key slot passed in
      let (fits, counted, recorded) =
        write_registered-ok b₁ round_info record_info pool r key bump written in
      record {
        transparent = transparent;
        of_pool = of_pool;
        derived = derived ∙ ap some (expected_key expected record_info.key same);
        timely = subst (λ n. n < r.registration_deadline) (ok-injective (sym clock' ∙ clock)) early;
        counted = counted;
        one_step = registered pool takes room fits refl;
        recorded = recorded;
      }

  -- Where `register_transparent` succeeds, its first account signed; the pool in the second and the
  -- round in the third belong to the program, the pool is transparent, and the round is one of its
  -- rounds, with its deadline ahead. The round has made one step of its life: one more participant,
  -- with the threshold reached if the minimum is met. The fourth account is the program address of
  -- the round, the key and the bump; unless it is the round's own account, it holds the record of the
  -- key. borsh is assumed to read rounds and records back.
  pub register-Registration :
      (b : Bank) (program_id : Pubkey) (accounts : List AccountInfo) (key : Bytes) (bump now : ℕ)
      {b' : Bank}
      → h.clock_slot ≡ ok now
      → register_transparent h b program_id accounts key bump ≡ ok b'
      → (payer : AccountInfo) × (pool_info : AccountInfo) × (round_info : AccountInfo)
        × (record_info : AccountInfo) × (system_info : AccountInfo) × (rest : List AccountInfo)
        × (pool : PoolAccount) × (r : RoundAccount) × (accounts
            ≡ payer ∷ pool_info ∷ round_info ∷ record_info ∷ system_info ∷ rest)
        × (payer.is_signer ≡ true)
        × ((b pool_info.key).owner ≡ program_id)
        × ((b round_info.key).owner ≡ program_id)
        × (read_account h.pools b pool_info ≡ ok pool)
        × (read_account h.rounds b round_info ≡ ok r)
        × Registration b b' program_id pool_info round_info record_info pool r key bump now
  unfolding register_transparent
  register-Registration b program_id accounts key bump now clock e =
      let ((payer, rest), first, e₁) = >>=-eq-ok (next_account_info accounts) _ e in
      let ((pool_info, rest₁), second, e₂) = >>=-eq-ok (next_account_info rest) _ e₁ in
      let ((round_info, rest₂), third, e₃) = >>=-eq-ok (next_account_info rest₁) _ e₂ in
      let ((record_info, rest₃), fourth, e₄) = >>=-eq-ok (next_account_info rest₂) _ e₃ in
      let ((system_info, left), fifth, e₅) = >>=-eq-ok (next_account_info rest₃) _ e₄ in
      let (_, signs, e₆) = >>=-eq-ok (require_signer payer) _ e₅ in
      let (_, pool_owned, e₇) = >>=-eq-ok (require_owned b pool_info program_id) _ e₆ in
      let (_, round_owned, e₈) = >>=-eq-ok (require_owned b round_info program_id) _ e₇ in
      let (pool, pool_read, e₉) = >>=-eq-ok (read_account h.pools b pool_info) _ e₈ in
      let (r, round_read, e₁₀) = >>=-eq-ok (read_account h.rounds b round_info) _ e₉ in
      (
        payer,
        pool_info,
        round_info,
        record_info,
        system_info,
        left,
        pool,
        r,
        next_account_info-ok accounts first
            ∙ ap (◌∷◌ payer) (
                next_account_info-ok rest second
                ∙ ap (◌∷◌ pool_info) (
                    next_account_info-ok rest₁ third
                    ∙ ap (◌∷◌ round_info) (
                        next_account_info-ok rest₂ fourth
                        ∙ ap (◌∷◌ record_info) (next_account_info-ok rest₃ fifth)))),
        signer_conditions payer signs,
        require_owned-ok b pool_info program_id pool_owned,
        require_owned-ok b round_info program_id round_owned,
        pool_read,
        round_read,
        register_checked-Registration b program_id payer pool_info round_info record_info
            system_info pool r key bump now clock e₁₀,
      )
