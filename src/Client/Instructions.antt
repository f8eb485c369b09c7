-- ===== src/Client/Instructions.antt =====
-- The builders of instructions in crates/mirror-pool-client/src/lib.rs. borsh and the search for a
-- program address are parameters; the encoding of numbers and the system program are the runtime's.
use mirror_pool.Prelude.{
  ℕ, Bool, true, false, Option, List, [], ◌∷◌, Bytes, codes, Result, ok, ◌>>=◌, ok_or,
}
use mirror_pool.Program.Runtime.{Pubkey, Backend, CoordinationInstruction, AccountInfo, Host}
use mirror_pool.Client.Defs.{ClientError}

-- An instruction, with the accounts in the form in which the program is given them.
pub record Instruction : Type 0 where
  pub program_id : Pubkey
  pub accounts : List AccountInfo
  pub contents : Bytes

-- `AccountMeta::new` and `AccountMeta::new_readonly`
abbrev pub meta : Pubkey → Bool → AccountInfo
meta key is_signer = record { key = key; is_signer = is_signer; is_writable = true }

abbrev pub meta_readonly : Pubkey → Bool → AccountInfo
meta_readonly key is_signer = record { key = key; is_signer = is_signer; is_writable = false }

module _ (h : Host) (find_program_address : List Bytes → Pubkey → Pubkey × ℕ)
    (serialize : CoordinationInstruction → Option Bytes) where
  abbrev pub derive_pool_address : (program_id : Pubkey) → (pool_id : Bytes) → Pubkey × ℕ
  derive_pool_address program_id pool_id =
      find_program_address (codes "pool" ∷ pool_id ∷ []) program_id

  abbrev pub derive_round_address : (program_id pool : Pubkey) → (round_id : ℕ) → Pubkey × ℕ
  derive_round_address program_id pool round_id =
      find_program_address (codes "round" ∷ pool ∷ h.u64_le_bytes round_id ∷ []) program_id

  unfoldable pub encode : CoordinationInstruction → Result Bytes ClientError
  encode value = ok_or (serialize value) ClientError.serialization

  unfoldable pub initialize_pool_instruction :
      (program_id authority : Pubkey)
      → (pool_id template_hash : Bytes)
      → (min_participants max_participants min_release_delay max_release_delay execution_window : ℕ)
      → Backend
      → Result (Instruction × Pubkey) ClientError
  unfolding encode
  initialize_pool_instruction program_id authority pool_id template_hash min_participants
        max_participants min_release_delay max_release_delay execution_window backend =
      do
        let (pool, bump) = find_program_address (codes "pool" ∷ pool_id ∷ []) program_id
        contents ← encode (
            CoordinationInstruction.initialize_pool (record {
              pool_id = pool_id;
              template_hash = template_hash;
              min_participants = min_participants;
              max_participants = max_participants;
              min_release_delay = min_release_delay;
              max_release_delay = max_release_delay;
              execution_window = execution_window;
              backend = backend;
              bump = bump;
            }))
        ok (
          record {
            program_id = program_id;
            accounts =
                meta authority true ∷ meta pool false ∷ meta_readonly h.system_program false ∷ [];
            contents = contents;
          },
          pool,
        )

  unfoldable pub open_round_instruction :
      (program_id authority pool : Pubkey)
      → (round_id registration_deadline : ℕ) → (template_hash : Bytes)
      → Result (Instruction × Pubkey) ClientError
  unfolding encode
  open_round_instruction program_id authority pool round_id registration_deadline template_hash = do
    let (round, bump) =
        find_program_address (codes "round" ∷ pool ∷ h.u64_le_bytes round_id ∷ []) program_id
    contents ←
        encode
          (CoordinationInstruction.open_round round_id registration_deadline template_hash bump)
    ok (
      record {
        program_id = program_id;
        accounts =
            meta authority true
            ∷ meta pool false
            ∷ meta round false
            ∷ meta_readonly h.system_program false
            ∷ [];
        contents = contents;
      },
      round,
    )

  unfoldable pub admin_round_instruction :
      (program_id authority pool round : Pubkey)
      → CoordinationInstruction
      → Result Instruction ClientError
  unfolding encode
  admin_round_instruction program_id authority pool round instruction = do
    contents ← encode instruction
    ok (record {
      program_id = program_id;
      accounts = meta authority true ∷ meta pool false ∷ meta round false ∷ [];
      contents = contents;
    })

  unfoldable pub begin_window_instruction :
      (program_id round : Pubkey) → Result Instruction ClientError
  unfolding encode
  begin_window_instruction program_id round = do
    contents ← encode CoordinationInstruction.begin_execution_window
    ok (record { program_id = program_id; accounts = meta round false ∷ []; contents = contents })
