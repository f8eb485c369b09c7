-- ===== src/Program/Runtime.antt =====
-- programs/mirror-pool-program/src/lib.rs: the accounts, the stored records, the instructions and
-- errors of the program, and what it takes from the Solana runtime and from borsh.
use mirror_pool.Prelude.{
  ℕ, ◌-◌, Bool, true, false, not, ◌||◌, Option, List, [], ◌∷◌, ◌++◌, Bytes, bytes_eq, ltb,
  if◌then◌else◌, Result, ok, err, ◌>>=◌, ◌>>◌, fail_if, ok_or, length, replicate,
}

abbrev pub Pubkey : Type 0
Pubkey = Bytes

abbrev pub max_cohort_size : ℕ
max_cohort_size = 100000

abbrev pub pool_account_size : ℕ
pool_account_size = 256

abbrev pub round_account_size : ℕ
round_account_size = 256

pub data Backend : Type 0 where
  transparent_registry merkle_cohort : Backend

pub data State : Type 0 where
  registration threshold_reached sealed release_scheduled execution_window finalizing completed
        cancelled expired :
      State

pub record PoolAccount : Type 0 where
  pub version : ℕ
  pub bump : ℕ
  pub authority : Pubkey
  pub pool_id : Bytes
  pub template_hash : Bytes
  pub min_participants : ℕ
  pub max_participants : ℕ
  pub min_release_delay : ℕ
  pub max_release_delay : ℕ
  pub execution_window : ℕ
  pub backend : Backend
  pub next_round : ℕ
  pub paused : Bool

pub record RoundAccount : Type 0 where
  pub version : ℕ
  pub bump : ℕ
  pub pool : Pubkey
  pub round_id : ℕ
  pub state : State
  pub registration_deadline : ℕ
  pub template_hash : Bytes
  pub accepted_count : ℕ
  pub cohort_root : Bytes
  pub release_slot : ℕ
  pub window_end_slot : ℕ
  pub metrics_hash : Bytes

pub record ParticipantRecord : Type 0 where
  pub version : ℕ
  pub bump : ℕ
  pub round : Pubkey
  pub coordination_key : Bytes

-- The fields of `InitializePool`.
pub record PoolParams : Type 0 where
  pub pool_id : Bytes
  pub template_hash : Bytes
  pub min_participants : ℕ
  pub max_participants : ℕ
  pub min_release_delay : ℕ
  pub max_release_delay : ℕ
  pub execution_window : ℕ
  pub backend : Backend
  pub bump : ℕ

-- The fields of the variants stand in the order of the source.
pub data CoordinationInstruction : Type 0 where
  initialize_pool : PoolParams → CoordinationInstruction
  open_round : ℕ → ℕ → Bytes → ℕ → CoordinationInstruction
  register_transparent : Bytes → ℕ → CoordinationInstruction
  publish_cohort_root : Bytes → ℕ → CoordinationInstruction
  seal_round : CoordinationInstruction
  schedule_release : ℕ → CoordinationInstruction
  begin_execution_window : CoordinationInstruction
  finalize_round : Bytes → CoordinationInstruction
  cancel_round close_round : CoordinationInstruction

pub data CoordinationError : Type 0 where
  invalid_policy invalid_pda unauthorized invalid_timing invalid_state overflow : CoordinationError

-- `other` is an error that the runtime itself returns.
pub data ProgramError : Type 0 where
  invalid_instruction_data missing_required_signature illegal_owner account_already_initialized
        invalid_account_data account_data_too_small not_enough_account_keys :
      ProgramError
  custom other : ℕ → ProgramError

-- `value as u32`
abbrev pub error_code : CoordinationError → ℕ
error_code invalid_policy = 1
error_code invalid_pda = 2
error_code unauthorized = 3
error_code invalid_timing = 4
error_code invalid_state = 5
error_code overflow = 6

-- `From<CoordinationError> for ProgramError`
abbrev pub into : CoordinationError → ProgramError
into e = custom (error_code e)

-- What an instruction says of an account.
pub record AccountInfo : Type 0 where
  pub key : Pubkey
  pub is_signer : Bool
  pub is_writable : Bool

-- What the chain stores under a key. `contents` is the field `data` of `AccountInfo`.
pub record Account : Type 0 where
  pub owner : Pubkey
  pub lamports : ℕ
  pub contents : Bytes

-- Two account infos with one key share one account, as they do in the runtime.
abbrev pub Bank : Type 0
Bank = Pubkey → Account

unfoldable pub store : Bank → Pubkey → Account → Bank
store b k a j = if bytes_eq j k then a else b j

-- The borsh functions of a stored type; `deserialize` reads a prefix. `none` is an error.
pub record Codec (T : Type 0) : Type 0 where
  pub to_vec : T → Option Bytes
  pub deserialize : Bytes → Option T

-- The runtime during one instruction, and the derived codecs. `create_account` is `invoke_signed`
-- on the system program's instruction of that name, for payer, account, lamports, space, owner and
-- signer seeds.
pub record Host : Type 0 where
  pub create_program_address : List Bytes → Pubkey → Option Pubkey
  pub clock_slot : Result ℕ ProgramError
  pub minimum_balance : Result (ℕ → ℕ) ProgramError
  pub create_account :
      Bank → Pubkey → Pubkey → ℕ → ℕ → Pubkey → List Bytes → Result Bank ProgramError
  pub system_program : Pubkey
  pub u64_le_bytes : ℕ → Bytes
  pub try_from_slice : Bytes → Option CoordinationInstruction
  pub pools : Codec PoolAccount
  pub rounds : Codec RoundAccount
  pub participants : Codec ParticipantRecord

-- `next_account_info` on an iterator over the accounts that are left.
unfoldable pub next_account_info :
    List AccountInfo → Result (AccountInfo × List AccountInfo) ProgramError
next_account_info [] = err not_enough_account_keys
next_account_info (info ∷ rest) = ok (info, rest)

unfoldable pub require_signer : AccountInfo → Result Unit ProgramError
require_signer info = fail_if (not info.is_signer) missing_required_signature

unfoldable pub require_owned : Bank → AccountInfo → Pubkey → Result Unit ProgramError
require_owned b info program_id =
    fail_if (not (bytes_eq (b info.key).owner program_id)) illegal_owner

unfoldable pub read_account : {T : Type 0} → Codec T → Bank → AccountInfo → Result T ProgramError
read_account c b info = ok_or (c.deserialize (b info.key).contents) invalid_account_data

unfoldable pub write_account :
    {T : Type 0} → Codec T → Bank → AccountInfo → T → Result Bank ProgramError
write_account c b info value = do
  bytes ← ok_or (c.to_vec value) invalid_account_data
  let room = length (b info.key).contents
  fail_if (ltb room (length bytes)) account_data_too_small
  ok (
      store b info.key
        (record (b info.key) { contents = bytes ++ replicate (room - length bytes) 0 }))

-- `data.first().copied().unwrap_or(0) != 0`
abbrev pub starts_nonzero : Bytes → Bool
starts_nonzero [] = false
starts_nonzero (x ∷ xs) = ltb 0 x

abbrev pub nonempty : Bytes → Bool
nonempty [] = false
nonempty (x ∷ xs) = true

-- The two conversions of `space` cannot fail: a `usize` has 64 bits.
unfoldable pub create_pda_account :
    Host
    → Bank
    → (payer account system : AccountInfo) → Pubkey
    → ℕ
    → List Bytes
    → Result Bank ProgramError
create_pda_account h b payer account system program_id space seeds =
    let a = b account.key in
    if bytes_eq a.owner program_id
    then (if starts_nonzero a.contents then err account_already_initialized else ok b)
    else if not (bytes_eq system.key h.system_program)
        || not (bytes_eq a.owner h.system_program)
        || nonempty a.contents
    then err illegal_owner
    else do
      minimum ← h.minimum_balance
      h.create_account b payer.key account.key (minimum space) space program_id seeds
