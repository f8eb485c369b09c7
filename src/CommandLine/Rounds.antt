-- ===== src/CommandLine/Rounds.antt =====
-- The commands `round open` and `round inspect` of crates/mirror-pool-cli/src/main.rs, one after the
-- other.
use mirror_pool.Prelude.{
  ℕ, ◌+◌, ◌<◌, ◌≤◌, ◌≡◌, ◌⊎◌, inl, inr, true, none, some, Bytes, bytes_eq_refl, arith, ok, err,
  refl, ◌∙◌, ap, ok-injective, u64_mod, ltb, false, Bool-cases, checked_add,
}
use mathlib.Core.Path.{subst}
use mirror_pool.Core.Defs.{RoundState, Round, PoolConfig, PrivacyBackend, validate}
use mirror_pool.Client.Defs.{verify_round_configuration, is_same_backend}
use mirror_pool.CommandLine.Files.{FileSystem, Outcome, lift, read_json, CliError}
use mirror_pool.CommandLine.Commands.{
  World, pool_inspect, new_round, slot_of, round_open, round_inspect,
}
use mirror_pool.CommandLine.Steps.{
  >>=-done, >>=-goes, lift-done, lift-goes, lift-fails, require-ok, reject-ok, ok-reject,
  read_json-some, write_created-writes,
}
use mirror_pool.CommandLine.Tickets.{Reads}
use mirror_pool.CommandLine.Pools.{Writes}

-- What a round that was opened at a slot is to be.
pub record Opened (config : PoolConfig) (round_id slot : ℕ) (value : Round) : Type 0 where
  pub pool : value.pool_id ≡ config.pool_id
  pub number : value.round_id ≡ round_id
  pub registers : value.state ≡ RoundState.registration
  pub starts : value.registration_start_slot ≡ slot
  pub ends : value.registration_deadline_slot ≡ slot + config.registration_duration_slots
  pub expects : value.expected_cohort_size ≡ config.min_participants
  pub accepts_none : value.accepted_cohort_size ≡ 0
  pub unsealed : value.cohort_merkle_root ≡ none
  pub unscheduled : value.release_slot ≡ none
  pub template : value.action_template_hash ≡ config.action_template_hash
  pub backend : value.privacy_backend ≡ config.privacy_backend

module _ (w : World) where
  same_backend : (b : PrivacyBackend) → is_same_backend b b ≡ true
  same_backend PrivacyBackend.transparent_registry = refl
  same_backend PrivacyBackend.merkle_cohort = refl

  new_round-verified :
      (config : PoolConfig) (round_id slot deadline : ℕ)
      → validate w.blake3 w.config_to_vec config ≡ ok tt
      → verify_round_configuration w.blake3 w.config_to_vec config
          (new_round w config round_id slot deadline)
        ≡ ok tt
  unfolding verify_round_configuration new_round
  new_round-verified config round_id slot deadline valid =
      rw
        (
          valid,
          bytes_eq_refl config.pool_id,
          bytes_eq_refl config.action_template_hash,
          same_backend config.privacy_backend,
        )
        refl

  pool_inspect-read :
      (pool : Bytes) (fs : FileSystem) {config : PoolConfig}
      → pool_inspect w pool fs ≡ (fs, ok config)
      → (read_json w.pools pool fs ≡ (fs, ok config))
        × (validate w.blake3 w.config_to_vec config ≡ ok tt)
  unfolding pool_inspect lift
  pool_inspect-read pool fs h =
      let (v, fs₁, known, h₁) = >>=-done (read_json w.pools pool) _ h in
      let (_, valid, e) = lift-done _ _ h₁ in
      (
        known ∙ e,
        subst (λ c. validate w.blake3 w.config_to_vec c ≡ ok tt)
            (ok-injective (ap (λ (o : Outcome PoolConfig). o.1) e)) (reject-ok _ valid),
      )

  new_round-Opened :
      (config : PoolConfig) (round_id slot : ℕ)
      → Opened config round_id slot
          (new_round w config round_id slot (slot + config.registration_duration_slots))
  unfolding new_round
  new_round-Opened config round_id slot = record {
    pool = refl;
    number = refl;
    registers = refl;
    starts = refl;
    ends = refl;
    expects = refl;
    accepts_none = refl;
    unsealed = refl;
    unscheduled = refl;
    template = refl;
    backend = refl;
  }

  -- `round open` for a pool that `pool inspect` accepts, at a slot that is given, with an output that
  -- can be made: where the slot and the registration duration together fit a u64, a round is written
  -- that is in registration from the slot until that sum, for the pool with its template and backend,
  -- and `round inspect` reads it back; otherwise the command ends with the overflow and touches no
  -- file. It is assumed that rounds can be written
  -- out and read back.
  pub round_open_lem :
      (writes : Writes w.rounds) (reads : Reads w.rounds) (pool output : Bytes) (round_id slot : ℕ)
      (fs : FileSystem) (config : PoolConfig)
      → pool_inspect w pool fs ≡ (fs, ok config)
      → fs.files output ≡ none
      → fs.creatable output ≡ true
      → fs.readable output ≡ true
      → ((slot + config.registration_duration_slots < u64_mod)
          × ((fs' : FileSystem) × (value : Round) × (round_open w pool output round_id
                  (some slot)
                  fs
                ≡ (fs', ok tt))
              × (round_inspect w output fs' ≡ (fs', ok value))
              × Opened config round_id slot value))
        ⊎ ((u64_mod ≤ slot + config.registration_duration_slots)
            × (round_open w pool output round_id (some slot) fs
                ≡ (fs, err CliError.deadline_overflow)))
  unfolding round_open round_inspect
  round_open_lem writes reads pool output round_id slot fs config inspected free creatable
        readable =
      let duration = config.registration_duration_slots in
      let (known, valid) = pool_inspect-read pool fs inspected in
      let opens = >>=-goes (read_json w.pools pool) known _ ∙ lift-goes (ok-reject valid) _ fs in
      elim (Bool-cases (ltb (slot + duration) u64_mod)) [
        | inl fits ↦
            let added : checked_add u64_mod slot duration ≡ some (slot + duration) = rw fits in
            let value = new_round w config round_id slot (slot + duration) in
            let (text, encoded) = writes value in
            let (fs', wrote, file) =
              write_created-writes w.rounds false output value fs free creatable encoded in
            inl (
              ground arith,
              (
                fs',
                value,
                opens
                    ∙ lift-goes {r = slot_of w (some slot)} refl _ fs
                    ∙ lift-goes (require-ok added _) _ fs
                    ∙ lift-goes
                        (ok-reject
                          (new_round-verified config round_id slot (slot + duration) valid))
                        _ fs
                    ∙ wrote,
                read_json-some w.rounds fs' output (file.readable ∙ readable) file.written
                    (reads value text encoded),
                new_round-Opened config round_id slot,
              ),
            )
        | inr wide ↦
            let none_added : checked_add u64_mod slot duration ≡ none = rw wide in
            inr (
              ground arith,
              opens
                  ∙ lift-goes {r = slot_of w (some slot)} refl _ fs
                  ∙ lift-fails (rw none_added) _ fs,
            )
      ]
