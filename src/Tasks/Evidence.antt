-- ===== src/Tasks/Evidence.antt =====
-- xtask/src/main.rs: `generate` and `verify`, on the file system of CommandLine/Files. What they print
-- is left out. The formats JSON and CSV, the texts of an f64 and the tables of Unicode are parameters.
use mirror_pool.Prelude.{
  ℕ, Bool, not, ◌||◌, ◌&&◌, Option, List, [], ◌∷◌, ◌++◌, Bytes, codes, leb, ◌==◌, Result, ok, err,
  length, decimal,
}
use mirror_pool.Core.Defs.{PrivacyBackend}
use mirror_pool.Store.Defs.{Json}
use mirror_pool.Simulator.Defs.{
  Float64, Rng, Scenario, Observation, ReleaseStrategy, fixed_slot, narrow_window,
  randomized_within_window, latency_aware, EvaluationError, Panic,
}
use mirror_pool.Simulator.Metrics.{EvaluationReport, evaluate}
use mirror_pool.CommandLine.Files.{CliError, Io, ◌>>=◌, ◌>>◌, lift, require, bail_if, read, write}
use mirror_pool.Tasks.Scenarios.{scenarios}
use mirror_pool.Tasks.Manifest.{
  LocalDemoResult, number, text, Object, member, as_u64, is_number, is_text, join, json_name,
  csv_name, md_name, manifest_name, is_sensitive, submitted_of, confirmed_of, spread_of,
}

-- `format!("{:?}", …)`
abbrev pub backend_name : PrivacyBackend → Bytes
backend_name PrivacyBackend.transparent_registry = codes "TransparentRegistry"
backend_name PrivacyBackend.merkle_cohort = codes "MerkleCohort"

abbrev pub strategy_name : ReleaseStrategy → Bytes
strategy_name fixed_slot = codes "FixedSlot"
strategy_name narrow_window = codes "NarrowWindow"
strategy_name randomized_within_window = codes "RandomizedWithinWindow"
strategy_name latency_aware = codes "LatencyAware"

-- What lies outside: `f64` with the rest of its operations, the generator, the hash, and the formats.
-- `to_vec` writes the observations of a scenario, `csv_line` a record of the crate csv, `show` is
-- `to_string` and `fixed` is `{:.6}` of an f64. `lossy` is `from_utf8_lossy`.
pub record Tools (F R : Type 0) : Type 0 where
  pub f64 : Float64 F
  pub rng : Rng F R
  pub blake3 : Bytes → Bytes
  pub to_hex : Bytes → Bytes
  pub to_vec : List (Observation F) → Option Bytes
  pub reports_to_vec : List (EvaluationReport F) → Option Bytes
  pub objects : Json Object
  pub csv_line : List Bytes → Bytes
  pub show : F → Bytes
  pub fixed : F → Bytes
  pub infinity : F
  pub min : F → F → F
  pub max : F → F → F
  pub lossy : Bytes → Bytes
  pub to_lowercase : Bytes → Bytes
  pub creates_dir : Bytes → Bool

abbrev pub header : List Bytes
header =
    codes "version"
    ∷ codes "seed"
    ∷ codes "participants"
    ∷ codes "backend"
    ∷ codes "strategy"
    ∷ codes "window"
    ∷ codes "dropout"
    ∷ codes "observed"
    ∷ codes "completion"
    ∷ codes "spread"
    ∷ codes "entropy"
    ∷ codes "effective_set"
    ∷ codes "k"
    ∷ codes "auc"
    ∷ codes "fpr"
    ∷ codes "fnr"
    ∷ codes "trace_hash"
    ∷ []

module _ {F R : Type 0} (t : Tools F R) where
  -- `evaluate(value)?` in a task.
  abbrev pub settled :
      Result (Result (EvaluationReport F) EvaluationError) Panic
      → Result (EvaluationReport F) CliError
  settled (err panic) = err CliError.panicked
  settled (ok (err e)) = err CliError.rejected
  settled (ok (ok report)) = ok report

  -- The reports of some scenarios; the first error ends the task.
  unfoldable pub evaluate_all : List (Scenario F) → Io (List (EvaluationReport F))
  evaluate_all [] = lift (ok [])
  evaluate_all (s ∷ l) = do
    report ← lift (settled (evaluate t.f64 t.rng t.blake3 t.to_vec s))
    reports ← evaluate_all l
    lift (ok (report ∷ reports))

  abbrev pub row : EvaluationReport F → List Bytes
  row r =
      decimal r.scenario.scenario_version
      ∷ decimal r.scenario.seed
      ∷ decimal r.scenario.participant_count
      ∷ backend_name r.scenario.backend
      ∷ strategy_name r.scenario.release_strategy
      ∷ decimal r.scenario.execution_window_slots
      ∷ t.show r.scenario.dropout_rate
      ∷ decimal r.metrics.observed_cohort_size
      ∷ t.show r.metrics.completion_rate
      ∷ decimal r.metrics.execution_spread_slots
      ∷ t.show r.metrics.shannon_entropy
      ∷ t.show r.metrics.effective_anonymity_set
      ∷ decimal r.metrics.minimum_k_anonymity
      ∷ t.show r.metrics.roc_auc
      ∷ t.show r.metrics.false_positive_rate
      ∷ t.show r.metrics.false_negative_rate
      ∷ t.to_hex r.trace_hash
      ∷ []

  abbrev pub rows : List (EvaluationReport F) → Bytes
  rows [] = []
  rows (r ∷ rs) = t.csv_line (row r) ++ rows rs

  abbrev pub csv_of : List (EvaluationReport F) → Bytes
  csv_of reports = t.csv_line header ++ rows reports

  -- `fold(f64::INFINITY, f64::min)` and `fold(0.0_f64, f64::max)`
  abbrev pub least_entropy : F → List (EvaluationReport F) → F
  least_entropy x [] = x
  least_entropy x (r ∷ rs) = least_entropy (t.min x r.metrics.normalized_entropy) rs

  abbrev pub greatest_auc : F → List (EvaluationReport F) → F
  greatest_auc x [] = x
  greatest_auc x (r ∷ rs) = greatest_auc (t.max x r.metrics.roc_auc) rs

  abbrev pub md_of : List (EvaluationReport F) → Bytes
  md_of reports =
      codes "# Synthetic adversarial evaluation"
      ++ (10 ∷ 10 ∷ codes "- Scenarios: ")
      ++ decimal (length reports)
      ++ codes " (120 multi-round baselines + 1 ablation control + 6 same-seed feature ablations)"
      ++ (10 ∷ codes "- Cohort sizes: 10, 100, and 1,000 virtual participants")
      ++ (10 ∷ codes "- Minimum normalized entropy: ")
      ++ t.fixed (least_entropy t.infinity reports)
      ++ (10 ∷ codes "- Maximum adversarial AUC (unfavorable): ")
      ++ t.fixed (greatest_auc (t.f64.literal 0 0) reports)
      ++ (10
          ∷ 10
          ∷ codes
              "Synthetic results do not prove real-world anonymity. Larger announced cohorts are not automatically larger observed anonymity sets; dropouts and unique features reduce the effective set. Synchronization can itself be a detectable fingerprint.")
      ++ (10 ∷ [])

  -- `blake3::hash(…).to_hex()`
  abbrev pub hex_hash : Bytes → Bytes
  hex_hash bytes = t.to_hex (t.blake3 bytes)

  abbrev pub manifest_of :
      (scenario_count : ℕ) → Option LocalDemoResult → (json csv md : Bytes) → Object
  manifest_of scenario_count demo json csv md =
      (codes "version", number 1)
      ∷ (codes "scenario_count", number scenario_count)
      ∷ (codes "pool_count", number 1)
      ∷ (codes "round_count", number 120)
      ∷ (codes "local_submitted_transactions", number (submitted_of demo))
      ∷ (codes "local_confirmed_transactions", number (confirmed_of demo))
      ∷ (codes "local_execution_spread_slots", number (spread_of demo))
      ∷ (codes "evaluation_json_blake3", text (hex_hash json))
      ∷ (codes "evaluation_csv_blake3", text (hex_hash csv))
      ∷ (codes "evaluation_md_blake3", text (hex_hash md))
      ∷ []

  -- `generate` from the reports on.
  unfoldable pub write_evidence :
      Bytes → Option LocalDemoResult → List (EvaluationReport F) → Io Unit
  unfolding write read decimal
  write_evidence path demo reports = do
    json ← lift (require (t.reports_to_vec reports) CliError.json)
    write (join path json_name) json
    write (join path csv_name) (csv_of reports)
    write (join path md_name) (md_of reports)
    csv ← read (join path csv_name)
    md ← read (join path md_name)
    manifest ← lift (
        require (t.objects.to_string (manifest_of (length reports) demo json csv md)) CliError.json)
    write (join path manifest_name) manifest

  unfoldable pub generate : Bytes → Option LocalDemoResult → Io Unit
  unfolding evaluate_all scenarios write_evidence
  generate path demo = do
    lift (bail_if (not (t.creates_dir path)) CliError.io)
    reports ← evaluate_all (scenarios t.f64)
    write_evidence path demo reports

  -- The checks of `verify` on the members of the manifest.
  unfoldable pub matches_manifest : Object → (json csv md : Bytes) → Bool
  matches_manifest manifest json csv md =
      is_number 1 (member manifest (codes "version"))
      && leb 127 (as_u64 (member manifest (codes "scenario_count")))
      && leb 1 (as_u64 (member manifest (codes "pool_count")))
      && leb 120 (as_u64 (member manifest (codes "round_count")))
      && is_text (hex_hash json) (member manifest (codes "evaluation_json_blake3"))
      && is_text (hex_hash csv) (member manifest (codes "evaluation_csv_blake3"))
      && is_text (hex_hash md) (member manifest (codes "evaluation_md_blake3"))
      && leb (as_u64 (member manifest (codes "local_confirmed_transactions")))
          (as_u64 (member manifest (codes "local_submitted_transactions")))
      && (leb 2 (as_u64 (member manifest (codes "local_confirmed_transactions")))
          || as_u64 (member manifest (codes "local_execution_spread_slots")) == 0)

  -- The text that is searched.
  abbrev pub evidence_text : (json csv md manifest : Bytes) → Bytes
  evidence_text json csv md manifest =
      t.to_lowercase (t.lossy json ++ (t.lossy csv ++ (t.lossy md ++ t.lossy manifest)))

  unfoldable pub verify : Bytes → Io Unit
  unfolding read matches_manifest is_sensitive
  verify path = do
    json ← read (join path json_name)
    csv ← read (join path csv_name)
    md ← read (join path md_name)
    manifest_bytes ← read (join path manifest_name)
    manifest ← lift (require (t.objects.from_str manifest_bytes) CliError.json)
    lift (bail_if (not (matches_manifest manifest json csv md)) CliError.unmet)
    lift (
        bail_if (is_sensitive (evidence_text json csv md manifest_bytes))
          CliError.sensitive_pattern)
