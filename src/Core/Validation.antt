-- ===== src/Core/Validation.antt =====
-- `PoolConfig::validate` of crates/mirror-pool-core against the policy that it enforces.
use mirror_pool.Prelude.{
  ◌<◌, ◌≤◌, ◌≡◌, ◌↔◌, inl, inr, false, Option, Bytes, codes, bytes_eq_iff, ok, arith, Option-cases,
}
use mirror_pool.Core.Defs.{
  PoolConfig, schema_version, zero32, hash, compute_hash, validate, is_empty,
}

-- The policy of a pool: its version, sizes, timing, allowlists, and the digest of the rest of it.
pub record IsPolicy (blake3 : Bytes → Bytes) (to_vec : PoolConfig → Option Bytes) (c : PoolConfig)
    : Type 0 where
  pub current : c.version ≡ schema_version
  pub two_or_more : 2 ≤ c.min_participants
  pub ordered : c.min_participants ≤ c.max_participants
  pub bounded : c.max_participants ≤ 100000
  pub registers : 0 < c.registration_duration_slots
  pub executes : 0 < c.execution_window_slots
  pub delays : c.min_release_delay_slots ≤ c.max_release_delay_slots
  pub dispersion : c.max_timing_dispersion_slots ≤ c.execution_window_slots
  pub clusters : is_empty c.allowed_clusters ≡ false
  pub programs : is_empty c.allowed_program_ids ≡ false
  pub digest : compute_hash blake3 to_vec c ≡ ok c.configuration_hash

module _ (blake3 : Bytes → Bytes) (to_vec : PoolConfig → Option Bytes) where
  validate_sound : (c : PoolConfig) → validate blake3 to_vec c ≡ ok tt → IsPolicy blake3 to_vec c
  unfolding validate compute_hash
  validate_sound c h = elim (Option-cases (to_vec (record c { configuration_hash = zero32 }))) [
    | inl fails ↦ ground arith
    | inr (bytes, e) ↦
        ground (arith, bytes_eq_iff (hash blake3 (codes "pool-config") bytes) c.configuration_hash)
  ]

  validate_complete : (c : PoolConfig) → IsPolicy blake3 to_vec c → validate blake3 to_vec c ≡ ok tt
  unfolding validate
  validate_complete c p = ground (arith, bytes_eq_iff c.configuration_hash c.configuration_hash)

  -- `validate` accepts a configuration exactly if it is a policy: current version, 2 ≤ minimum ≤
  -- maximum ≤ 100000 participants, positive durations, ordered delays, a dispersion within the
  -- window, nonempty allowlists, and a configuration hash that is the digest of the rest.
  pub validate-iff-IsPolicy :
      (c : PoolConfig) → (validate blake3 to_vec c ≡ ok tt) ↔ IsPolicy blake3 to_vec c
  validate-iff-IsPolicy c = (validate_sound c, validate_complete c)
