-- ===== src/Program/Conditions.antt =====
-- What the guards of the handlers of programs/mirror-pool-program establish when they let a call pass.
use mirror_pool.Prelude.{ℕ, ◌≤◌, ◌<◌, ◌≡◌, ◌≢◌, true, false, Bytes, bytes_eq_iff, arith, ok}
use mirror_pool.Core.Defs.{zero32}
use mirror_pool.Program.Runtime.{
  Pubkey, State, PoolAccount, RoundAccount, AccountInfo, Host, PoolParams, max_cohort_size,
  require_signer,
}
use mirror_pool.Program.Handlers.{
  is_over, is_transparent, takes_registrations, refuses_policy, refuses_opening,
  refuses_registration,
}
use mirror_pool.Program.Admin.{
  refuses_publish, refuses_seal, refuses_schedule, refuses_begin, refuses_cancel, refuses_close,
  may_finalize,
}

-- The tests that a `refuses_` function fails, as statements.
pub seal_conditions :
    (pool : PoolAccount) (r : RoundAccount) (pool_key authority_key : Pubkey)
    → refuses_seal pool r pool_key authority_key ≡ false
    → (pool.authority ≡ authority_key)
      × (r.pool ≡ pool_key)
      × (r.state ≡ State.threshold_reached)
      × (pool.min_participants ≤ r.accepted_count)
unfolding refuses_seal
seal_conditions pool r pool_key authority_key c =
    ground (arith, bytes_eq_iff pool.authority authority_key, bytes_eq_iff r.pool pool_key)

pub publish_conditions :
    (pool : PoolAccount) (r : RoundAccount) (pool_key authority_key root : Bytes) (count : ℕ)
    → refuses_publish pool r pool_key authority_key root count ≡ false
    → (pool.authority ≡ authority_key)
      × (r.pool ≡ pool_key)
      × (is_transparent pool.backend ≡ false)
      × (r.state ≡ State.registration)
      × (pool.min_participants ≤ count)
      × (count ≤ pool.max_participants)
      × (root ≢ zero32)
      × (r.cohort_root ≡ zero32)
unfolding refuses_publish
publish_conditions pool r pool_key authority_key root count c = ground (
  arith,
  bytes_eq_iff pool.authority authority_key,
  bytes_eq_iff r.pool pool_key,
  bytes_eq_iff root zero32,
  bytes_eq_iff r.cohort_root zero32,
)

pub schedule_conditions :
    (pool : PoolAccount) (r : RoundAccount) (authority_key : Pubkey) (delay : ℕ)
    → refuses_schedule pool r authority_key delay ≡ false
    → (pool.authority ≡ authority_key)
      × (r.state ≡ State.sealed)
      × (r.release_slot ≡ 0)
      × (pool.min_release_delay ≤ delay)
      × (delay ≤ pool.max_release_delay)
unfolding refuses_schedule
schedule_conditions pool r authority_key delay c =
    ground (arith, bytes_eq_iff pool.authority authority_key)

pub begin_conditions :
    (r : RoundAccount) (slot : ℕ)
    → refuses_begin r slot ≡ false
    → (r.state ≡ State.release_scheduled) × (r.release_slot ≤ slot) × (slot ≤ r.window_end_slot)
unfolding refuses_begin
begin_conditions r slot c = ground arith

pub cancel_conditions :
    (pool : PoolAccount) (r : RoundAccount) (authority_key : Pubkey)
    → refuses_cancel pool r authority_key ≡ false
    → (pool.authority ≡ authority_key) × (is_over r.state ≡ false)
unfolding refuses_cancel
cancel_conditions pool r authority_key c = ground (arith, bytes_eq_iff pool.authority authority_key)

pub close_conditions :
    (pool : PoolAccount) (r : RoundAccount) (authority : AccountInfo)
    → refuses_close pool r authority ≡ false
    → (pool.authority ≡ authority.key) × (is_over r.state ≡ true) × (authority.is_writable ≡ true)
unfolding refuses_close
close_conditions pool r authority c = ground (arith, bytes_eq_iff pool.authority authority.key)

pub finalize_conditions :
    (h : Host) (pool : PoolAccount) (r : RoundAccount) (authority : AccountInfo) (metrics : Bytes)
    (now : ℕ)
    → h.clock_slot ≡ ok now
    → may_finalize h pool r authority metrics ≡ ok true
    → (pool.authority ≡ authority.key)
      × (r.state ≡ State.execution_window)
      × (r.window_end_slot < now)
      × (metrics ≢ zero32)
unfolding may_finalize
finalize_conditions h pool r authority metrics now clock m =
    ground (arith, bytes_eq_iff pool.authority authority.key, bytes_eq_iff metrics zero32)

pub signer_conditions :
    (info : AccountInfo) {u : Unit} → require_signer info ≡ ok u → info.is_signer ≡ true
unfolding require_signer
signer_conditions info e = ground arith

pub policy_conditions :
    (p : PoolParams)
    → refuses_policy p ≡ false
    → (2 ≤ p.min_participants)
      × (p.min_participants ≤ p.max_participants)
      × (p.max_participants ≤ max_cohort_size)
      × (0 < p.execution_window)
      × (p.min_release_delay ≤ p.max_release_delay)
unfolding refuses_policy
policy_conditions p c = ground arith

pub opening_conditions :
    (pool : PoolAccount) (authority_key : Pubkey) (round_id : ℕ) (template : Bytes)
    → refuses_opening pool authority_key round_id template ≡ false
    → (pool.authority ≡ authority_key)
      × (pool.paused ≡ false)
      × (pool.next_round ≡ round_id)
      × (pool.template_hash ≡ template)
unfolding refuses_opening
opening_conditions pool authority_key round_id template c =
    ground
      (arith, bytes_eq_iff pool.authority authority_key, bytes_eq_iff pool.template_hash template)

pub registration_conditions :
    (pool : PoolAccount) (r : RoundAccount) (pool_key : Pubkey) (slot : ℕ)
    → refuses_registration pool r pool_key slot ≡ false
    → (is_transparent pool.backend ≡ true)
      × (r.pool ≡ pool_key)
      × (takes_registrations r.state ≡ true)
      × (slot < r.registration_deadline)
      × (r.accepted_count < pool.max_participants)
unfolding refuses_registration
registration_conditions pool r pool_key slot c = ground (arith, bytes_eq_iff r.pool pool_key)
