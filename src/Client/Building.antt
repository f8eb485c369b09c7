-- ===== src/Client/Building.antt =====
-- What programs/mirror-pool-program does with the instructions that the builders of
-- crates/mirror-pool-client/src/lib.rs make.
use mathlib.Core.Path.{subst}
use mirror_pool.Prelude.{
  ℕ, ◌≡◌, true, false, Option, some, List, [], ◌∷◌, ◌++◌, Bytes, codes, bytes_eq_refl, leb, Result,
  ok, ◌>>=◌, ◌>>◌, fail_if, refl, ◌∙◌, ok-injective, supplied,
}
use mirror_pool.Program.Runtime.{
  Pubkey, PoolParams, CoordinationInstruction, AccountInfo, Bank, Host, ProgramError, into,
  invalid_policy, invalid_timing, unauthorized, next_account_info, require_signer, require_owned,
  read_account, write_account, create_pda_account, pool_account_size, round_account_size,
}
use mirror_pool.Program.Handlers.{
  refuses_policy, refuses_opening, initialize, open_round, open_checked, write_opened,
}
use mirror_pool.Program.Admin.{dispatch, process_instruction}
use mirror_pool.Client.Defs.{ClientError}
use mirror_pool.Client.Instructions.{
  Instruction, meta, meta_readonly, derive_pool_address, derive_round_address, encode,
  initialize_pool_instruction, open_round_instruction,
}

-- `find_program_address` finds an address and the bump that makes it.
abbrev pub Finds : Host → (List Bytes → Pubkey → Pubkey × ℕ) → Type 0
Finds h find_program_address =
    (seeds : List Bytes) (program_id : Pubkey)
    → let (address, bump) = find_program_address seeds program_id in
      h.create_program_address (seeds ++ ((bump ∷ []) ∷ [])) program_id ≡ some address

-- The program reads the instruction that was written.
abbrev pub Reads : Host → (CoordinationInstruction → Option Bytes) → Type 0
Reads h serialize =
    (i : CoordinationInstruction) (bytes : Bytes)
    → serialize i ≡ some bytes
    → h.try_from_slice bytes ≡ some i

module _ (h : Host) where
  -- The program on a pool's initialization, where accounts, signer and address are right.
  unfoldable pub initialize_at :
      Bank → (program_id authority pool : Pubkey) → PoolParams → Result Bank ProgramError
  initialize_at b program_id authority pool p = do
    fail_if (refuses_policy p) (into invalid_policy)
    b' ←
        create_pda_account h b (meta authority true) (meta pool false)
          (meta_readonly h.system_program false) program_id pool_account_size
          (codes "pool" ∷ p.pool_id ∷ (p.bump ∷ []) ∷ [])
    write_account h.pools b' (meta pool false) (record {
      version = 1;
      bump = p.bump;
      authority = authority;
      pool_id = p.pool_id;
      template_hash = p.template_hash;
      min_participants = p.min_participants;
      max_participants = p.max_participants;
      min_release_delay = p.min_release_delay;
      max_release_delay = p.max_release_delay;
      execution_window = p.execution_window;
      backend = p.backend;
      next_round = 0;
      paused = false;
    })

  initialize-initialize_at :
      (b : Bank) (program_id authority pool : Pubkey) (p : PoolParams)
      → h.create_program_address (codes "pool" ∷ p.pool_id ∷ (p.bump ∷ []) ∷ []) program_id
        ≡ some pool
      → initialize h b program_id
          (meta authority true ∷ meta pool false ∷ meta_readonly h.system_program false ∷ [])
          p
        ≡ initialize_at b program_id authority pool p
  unfolding initialize initialize_at next_account_info require_signer
  initialize-initialize_at b program_id authority pool p found = rw (found, bytes_eq_refl pool)

  -- The program on the opening of a round, where accounts, signer and address are right.
  unfoldable pub open_at :
      Bank
      → (program_id authority pool_key round : Pubkey) → (round_id deadline : ℕ)
      → (template : Bytes) → (bump : ℕ) → Result Bank ProgramError
  open_at b program_id authority pool_key round round_id deadline template bump = do
    require_owned b (meta pool_key false) program_id
    pool ← read_account h.pools b (meta pool_key false)
    fail_if (refuses_opening pool authority round_id template) (into unauthorized)
    slot ← h.clock_slot
    fail_if (leb deadline slot) (into invalid_timing)
    b' ←
        create_pda_account h b (meta authority true) (meta round false)
          (meta_readonly h.system_program false) program_id round_account_size
          (codes "round" ∷ pool_key ∷ h.u64_le_bytes round_id ∷ (bump ∷ []) ∷ [])
    write_opened h b' (meta pool_key false) (meta round false) pool round_id deadline template bump

  open_round-open_at :
      (b : Bank) (program_id authority pool round : Pubkey) (round_id deadline : ℕ)
      (template : Bytes) (bump : ℕ)
      → h.create_program_address
          (codes "round" ∷ pool ∷ h.u64_le_bytes round_id ∷ (bump ∷ []) ∷ [])
          program_id
        ≡ some round
      → open_round h b program_id
          (meta authority true
            ∷ meta pool false
            ∷ meta round false
            ∷ meta_readonly h.system_program false
            ∷ [])
          round_id
          deadline
          template
          bump
        ≡ open_at b program_id authority pool round round_id deadline template bump
  unfolding open_round open_checked open_at next_account_info require_signer
  open_round-open_at b program_id authority pool round round_id deadline template bump found =
      rw (found, bytes_eq_refl round)

module _ (h : Host) (find_program_address : List Bytes → Pubkey → Pubkey × ℕ)
    (serialize : CoordinationInstruction → Option Bytes) (finds : Finds h find_program_address)
    (reads : Reads h serialize) where
  process-dispatch :
      (b : Bank) (program_id : Pubkey) (accounts : List AccountInfo) (i : CoordinationInstruction)
      (bytes : Bytes)
      → serialize i ≡ some bytes
      → process_instruction h b program_id accounts bytes ≡ dispatch h b program_id accounts i
  unfolding process_instruction
  process-dispatch b program_id accounts i bytes e = rw (reads i bytes e)

  -- The program takes the instruction that `initialize_pool_instruction` builds past its checks of
  -- accounts, signer and address: it refuses only the policy, or the creation of the account and the
  -- write of the pool at the address that the client derived and returned. The address search is
  -- assumed to find addresses, and borsh to read an instruction back.
  pub initialize_pool_instruction-process :
      (b : Bank) (program_id authority : Pubkey) (p : PoolParams) {ix : Instruction} {pool : Pubkey}
      → initialize_pool_instruction h find_program_address serialize program_id authority p.pool_id
          p.template_hash p.min_participants p.max_participants p.min_release_delay
          p.max_release_delay p.execution_window p.backend
        ≡ ok (ix, pool)
      → let (address, bump) =
          derive_pool_address h find_program_address serialize program_id p.pool_id in
        (pool ≡ address)
        × (process_instruction h b ix.program_id ix.accounts ix.contents
            ≡ initialize_at h b program_id authority address (record p { bump = bump }))
  unfolding initialize_pool_instruction encode dispatch
  initialize_pool_instruction-process b program_id authority p built =
      let seeds : List Bytes = codes "pool" ∷ p.pool_id ∷ [] in
      let (address, bump) = find_program_address seeds program_id in
      let p' : PoolParams = record p { bump = bump } in
      let (contents, written, e) =
        supplied (serialize (CoordinationInstruction.initialize_pool p')) ClientError.serialization
          _ built in
      subst
        (λ (made : Instruction × Pubkey).
          (made.1 ≡ address)
          × (process_instruction h b made.0.program_id made.0.accounts made.0.contents
              ≡ initialize_at h b program_id authority address p'))
        (ok-injective e)
        (
          refl,
          process-dispatch b program_id _ (CoordinationInstruction.initialize_pool p') contents
                written
              ∙ initialize-initialize_at h b program_id authority address p'
                  (finds seeds program_id),
        )

  -- The program takes the instruction that `open_round_instruction` builds past its checks of
  -- accounts, signer and address: it refuses only for the pool's account or its checks of the pool, for the
  -- deadline, or the creation of the account and the writes at the address that the client derived and
  -- returned. The address search is assumed to find addresses, and borsh to read an instruction back.
  pub open_round_instruction-process :
      (b : Bank) (program_id authority pool : Pubkey) (round_id deadline : ℕ) (template : Bytes)
      {ix : Instruction} {round : Pubkey}
      → open_round_instruction h find_program_address serialize program_id authority pool round_id
          deadline template
        ≡ ok (ix, round)
      → let (address, bump) =
          derive_round_address h find_program_address serialize program_id pool round_id in
        (round ≡ address)
        × (process_instruction h b ix.program_id ix.accounts ix.contents
            ≡ open_at h b program_id authority pool address round_id deadline template bump)
  unfolding open_round_instruction encode dispatch
  open_round_instruction-process b program_id authority pool round_id deadline template built =
      let seeds : List Bytes = codes "round" ∷ pool ∷ h.u64_le_bytes round_id ∷ [] in
      let (address, bump) = find_program_address seeds program_id in
      let i = CoordinationInstruction.open_round round_id deadline template bump in
      let (contents, written, e) = supplied (serialize i) ClientError.serialization _ built in
      subst
        (λ (made : Instruction × Pubkey).
          (made.1 ≡ address)
          × (process_instruction h b made.0.program_id made.0.accounts made.0.contents
              ≡ open_at h b program_id authority pool address round_id deadline template bump))
        (ok-injective e)
        (
          refl,
          process-dispatch b program_id _ i contents written
              ∙ open_round-open_at h b program_id authority pool address round_id deadline template
                  bump (finds seeds program_id),
        )
