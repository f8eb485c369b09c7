-- ===== src/Client/Defs.antt =====
-- crates/mirror-pool-client/src/lib.rs: tickets, cohorts and the local memo. The RPC endpoint, the key
-- file and the signing of transactions (the Solana crates) are parameters; `none` is their error.
use mirror_pool.Prelude.{
  ℕ, Bool, true, false, not, ◌||◌, Option, none, some, List, [], ◌∷◌, Bytes, codes, bytes_eq, ltb,
  Result, ok, err, ◌>>=◌, ◌>>◌, fail_if, ok_or, map_err,
}
use mirror_pool.Core.Defs.{Digest32, PrivacyBackend, PoolConfig, Round, validate}
use mirror_pool.Merkle.Defs.{CohortProof, MerkleCohort, MerkleError, build, proof, verify}
use mirror_pool.Crypto.Defs.{JoinTicket, TicketBinding, TicketJson, Ed25519, commitment, create}
use mirror_pool.Actions.Defs.{SafetyPolicy, default_policy, PreparedAction}

pub data ClientError : Type 0 where
  ticket merkle configuration execution_disabled unsupported_action invalid_program
        outside_execution_window safety_policy wallet rpc serialization :
      ClientError

-- A result of code that may panic, with an error of the client.
abbrev pub as_merkle : {A : Type 0} → Option (Result A MerkleError) → Option (Result A ClientError)
as_merkle none = none
as_merkle (some (ok a)) = some (ok a)
as_merkle (some (err e)) = some (err merkle)

-- The rest of `build_merkle_cohort` after its `?`.
abbrev pub cohort_of :
    (Bytes → Bytes) → Result (List Digest32) ClientError → Option (Result MerkleCohort ClientError)
cohort_of blake3 (err e) = some (err e)
cohort_of blake3 (ok leaves) = as_merkle (build blake3 leaves)

-- The rest of `generate_cohort_proof` after its `?`.
abbrev pub proof_for :
    MerkleCohort → ℕ → Result Digest32 ClientError → Option (Result CohortProof ClientError)
proof_for cohort round (err e) = some (err e)
proof_for cohort round (ok leaf) = as_merkle (proof cohort leaf round)

abbrev pub is_same_backend : PrivacyBackend → PrivacyBackend → Bool
is_same_backend PrivacyBackend.transparent_registry PrivacyBackend.transparent_registry = true
is_same_backend PrivacyBackend.merkle_cohort PrivacyBackend.merkle_cohort = true
is_same_backend _ _ = false

-- `verify_round_configuration`
unfoldable pub verify_round_configuration :
    (Bytes → Bytes) → (PoolConfig → Option Bytes) → PoolConfig → Round → Result Unit ClientError
verify_round_configuration blake3 to_vec pool round = do
  map_err (validate blake3 to_vec pool) configuration
  fail_if
      (not (bytes_eq pool.pool_id round.pool_id)
        || not (bytes_eq pool.action_template_hash round.action_template_hash)
        || not (is_same_backend pool.privacy_backend round.privacy_backend))
      configuration

module _ (json : TicketJson) (blake3 : Bytes → Bytes) where
  unfoldable pub create_join_ticket :
      Ed25519
      → (nonce signing_key : Bytes) → TicketBinding
      → ℕ
      → Result (JoinTicket × Bytes) ClientError
  create_join_ticket ed25519 nonce signing_key binding expiry_slot =
      map_err
        (create json ed25519 blake3 nonce signing_key binding.pool_id binding.round_id
          binding.action_template_hash expiry_slot)
        ticket

  unfoldable pub verify_join_ticket :
      Ed25519 → JoinTicket → ℕ → TicketBinding → Result Unit ClientError
  verify_join_ticket ed25519 t slot binding =
      map_err (mirror_pool.Crypto.Defs.verify json ed25519 t slot binding) ticket

  -- The `collect` of `build_merkle_cohort`: the first error ends it.
  unfoldable pub ticket_leaves : List JoinTicket → Result (List Digest32) ClientError
  ticket_leaves [] = ok []
  ticket_leaves (t ∷ ts) = do
    leaf ← map_err (commitment json blake3 t) ticket
    leaves ← ticket_leaves ts
    ok (leaf ∷ leaves)

  -- `none` would be a loop of `build` that does not end.
  unfoldable pub build_merkle_cohort : List JoinTicket → Option (Result MerkleCohort ClientError)
  build_merkle_cohort tickets = cohort_of blake3 (ticket_leaves tickets)

  -- `none` is a panic of `proof`.
  unfoldable pub generate_cohort_proof :
      MerkleCohort → JoinTicket → ℕ → Option (Result CohortProof ClientError)
  generate_cohort_proof cohort t round =
      proof_for cohort round (map_err (commitment json blake3 t) ticket)

  unfoldable pub verify_cohort_proof : CohortProof → Digest32 → ℕ → Result Unit ClientError
  verify_cohort_proof p root round = map_err (verify blake3 p root round) merkle

pub record LocalExecutionReceipt : Type 0 where
  pub signature : Bytes
  pub observed_slot : ℕ
  pub estimated_fee_lamports : ℕ

-- `simulate_transaction` says whether the simulation had no error.
pub record Rpc : Type 0 where
  pub get_slot : Option ℕ
  pub get_latest_blockhash : Option Bytes
  pub simulate_transaction : Bytes → Option Bool
  pub get_fee_for_message : Bytes → Option ℕ
  pub send_and_confirm_transaction : Bytes → Option Bytes

-- `Pubkey::from_str`, `read_keypair_file` on the given path, and the transaction that
-- `new_signed_with_payer` signs for a program, a payload, a key pair and a block hash.
pub record Wallet : Type 0 where
  pub from_str : Bytes → Option Bytes
  pub read_keypair_file : Option Bytes
  pub sign_transaction : Bytes → Bytes → Bytes → Bytes → Bytes

abbrev pub memo_policy : Bytes → SafetyPolicy
memo_policy memo_program = record default_policy {
  dry_run = false;
  sending_enabled = true;
  allowed_program_ids = memo_program ∷ [];
  allowed_templates = codes "memo-v1" ∷ [];
}

-- `program_ids != vec![memo_program]`
abbrev pub is_only : List Bytes → Bytes → Bool
is_only (p ∷ []) memo_program = bytes_eq p memo_program
is_only _ memo_program = false

module _ (public : Bool) (rpc_url : Rpc) (keys : Wallet) (host : Option Bytes) where
  -- `execute_local_memo` from its first validation on.
  unfoldable pub send_memo :
      PreparedAction → (memo_program : Bytes) → ℕ → Result LocalExecutionReceipt ClientError
  send_memo action memo_program slot = do
    map_err
        (mirror_pool.Actions.Defs.validate public (memo_policy memo_program) action host false false
          0 false)
        safety_policy
    keypair ← ok_or keys.read_keypair_file wallet
    blockhash ← ok_or rpc_url.get_latest_blockhash rpc
    let transaction = keys.sign_transaction memo_program action.payload keypair blockhash
    simulated ← ok_or (rpc_url.simulate_transaction transaction) rpc
    fee ← ok_or (rpc_url.get_fee_for_message transaction) rpc
    map_err
        (mirror_pool.Actions.Defs.validate public (memo_policy memo_program) action host true
          simulated fee true)
        safety_policy
    signature ← ok_or (rpc_url.send_and_confirm_transaction transaction) rpc
    ok (record { signature = signature; observed_slot = slot; estimated_fee_lamports = fee })

  unfoldable pub execute_local_memo :
      PreparedAction
      → (window_start window_end : ℕ) → (explicit_confirmation sending_enabled : Bool)
      → Result LocalExecutionReceipt ClientError
  execute_local_memo action window_start window_end explicit_confirmation sending_enabled = do
    fail_if (not explicit_confirmation || not sending_enabled) execution_disabled
    fail_if (not (bytes_eq action.template_id (codes "memo-v1"))) unsupported_action
    memo_program ←
        ok_or (keys.from_str (codes "MemoSq4gqABAXKb96qnH8TysNcWxMyWCqXgDLGmfcHr")) invalid_program
    fail_if (not (is_only action.program_ids memo_program)) invalid_program
    slot ← ok_or rpc_url.get_slot rpc
    fail_if (ltb slot window_start || ltb window_end slot) outside_execution_window
    send_memo action memo_program slot
