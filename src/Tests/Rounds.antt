-- ===== src/Tests/Rounds.antt =====
-- Examples for crates/mirror-pool-core.
use mirror_pool.Prelude.{
  ◌≡◌, ◌↔◌, Option, none, some, List, [], ◌∷◌, Bytes, codes, bytes_eq, ok, refl, replicate,
}
use mirror_pool.Core.Defs.{
  hash, PrivacyBackend, GovernancePolicy, CompletionPolicy, Cluster, UnixTime, PoolConfig,
  RoundState, Round, validate, compute_hash, register, seal, schedule_release, transition,
}
use mirror_pool.Core.Validation.{IsPolicy, validate-iff-IsPolicy}
use mirror_pool.Core.Rounds.{Call, transition_to, register_at, seal_with, schedule_at, call, run}

abbrev digest : Bytes → Bytes
digest b = replicate 32 7

abbrev to_vec : PoolConfig → Option Bytes
to_vec c = some (c.min_participants ∷ c.max_participants ∷ [])

abbrev config : PoolConfig
config = record {
  pool_id = replicate 32 1;
  version = 1;
  governance = GovernancePolicy.single_authority (codes "authority");
  action_template_hash = replicate 32 2;
  min_participants = 2;
  max_participants = 3;
  registration_duration_slots = 20;
  min_release_delay_slots = 1;
  max_release_delay_slots = 50;
  execution_window_slots = 4;
  max_timing_dispersion_slots = 4;
  privacy_backend = PrivacyBackend.merkle_cohort;
  allowed_clusters = Cluster.localnet ∷ [];
  allowed_program_ids = codes "program" ∷ [];
  completion_policy = CompletionPolicy.disabled;
  created_at_unix = UnixTime.since 0;
  configuration_hash = replicate 32 7;
}

abbrev round : RoundState → Round
round s = record {
  pool_id = replicate 32 1;
  round_id = 0;
  state = s;
  registration_start_slot = 0;
  registration_deadline_slot = 20;
  release_slot = none;
  execution_window_start = none;
  execution_window_end = none;
  expected_cohort_size = 2;
  accepted_cohort_size = 0;
  cohort_merkle_root = none;
  action_template_hash = replicate 32 2;
  privacy_backend = PrivacyBackend.merkle_cohort;
  cancellation_reason = none;
  final_metrics_hash = none;
}

abbrev opened : Round
opened = round RoundState.registration

-- Two registrations, the threshold, the seal, the schedule, and calls that fail.
abbrev calls : List Call
calls =
    register_at 5 3
    ∷ register_at 6 3
    ∷ transition_to RoundState.threshold_reached
    ∷ seal_with (replicate 32 9) 2
    ∷ seal_with (replicate 32 8) 2
    ∷ schedule_at 22 30 config
    ∷ schedule_at 22 31 config
    ∷ []

abbrev announced : Round
announced = record (round RoundState.release_scheduled) {
  accepted_cohort_size = 2;
  cohort_merkle_root = some (replicate 32 9);
  release_slot = some 30;
  execution_window_start = some 30;
  execution_window_end = some 34;
}

runs : run opened calls ≡ announced
unfolding run call transition register seal schedule_release
runs = refl

validate-iff-IsPolicy_example :
    (validate digest to_vec config ≡ ok tt) ↔ IsPolicy digest to_vec config
validate-iff-IsPolicy_example = validate-iff-IsPolicy digest to_vec config

validates : validate digest to_vec config ≡ ok tt
unfolding validate hash bytes_eq compute_hash
validates = refl
