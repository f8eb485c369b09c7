-- ===== src/Tasks/Generating.antt =====
-- The tasks `generate` and `verify` of xtask/src/main.rs, one after the other.
use mirror_pool.Prelude.{
  ℕ, suc, ◌≤◌, ◌≡◌, ◌⊎◌, inl, inr, Bool, true, false, not, Option, some, List, [], ◌∷◌, Bytes,
  bytes_eq, bytes_eq_refl, ok, err, refl, ap, ◌∙◌, arith, length, All, Bool-cases,
}
use mirror_pool.Simulator.Defs.{Scenario, Observation}
use mirror_pool.Simulator.Metrics.{EvaluationReport, evaluate}
use mirror_pool.Simulator.Observations.{IsRng}
use mirror_pool.Simulator.Evaluation.{IsIndexing}
use mirror_pool.Simulator.Reports.{evaluate_report}
use mirror_pool.CommandLine.Files.{CliError, FileSystem, lift, bail_if, read}
use mirror_pool.CommandLine.Steps.{>>=-goes, lift-goes, require-ok}
use mirror_pool.CommandLine.Tickets.{Reads}
use mirror_pool.Tasks.Writing.{
  IsUsable, HasEvidence, with_all, with_all-HasEvidence, write_evidence-goes, read-Has,
}
use mirror_pool.Tasks.Scenarios.{scenarios, AreRates, IsFit, scenarios-IsFit, length-scenarios}
use mirror_pool.Tasks.Manifest.{
  LocalDemoResult, Object, join, json_name, csv_name, md_name, manifest_name, is_sensitive,
  submitted_of, confirmed_of, spread_of,
}
use mirror_pool.Tasks.Evidence.{
  Tools, settled, evaluate_all, csv_of, md_of, hex_hash, manifest_of, generate, matches_manifest,
  evidence_text, verify,
}

module _ {F R : Type 0} (t : Tools F R) where
  -- The members of the manifest that `generate` writes pass the checks of `verify`.
  manifest_of-matches :
      (n : ℕ) (demo : Option LocalDemoResult) (json csv md : Bytes)
      → 127 ≤ n
      → confirmed_of demo ≤ submitted_of demo
      → (2 ≤ confirmed_of demo) ⊎ (spread_of demo ≡ 0)
      → matches_manifest t (manifest_of t n demo json csv md) json csv md ≡ true
  unfolding matches_manifest bytes_eq
  manifest_of-matches n demo json csv md many sent apart = ground (
    arith,
    bytes_eq_refl (hex_hash t json),
    bytes_eq_refl (hex_hash t csv),
    bytes_eq_refl (hex_hash t md),
  )

  -- `verify` on a directory whose manifest matches.
  verify-goes :
      (path json csv md manifest : Bytes) (object : Object) (fs : FileSystem)
      → HasEvidence path json csv md manifest fs
      → t.objects.from_str manifest ≡ some object
      → matches_manifest t object json csv md ≡ true
      → verify t path fs ≡ (
        fs,
        bail_if (is_sensitive (evidence_text t json csv md manifest)) CliError.sensitive_pattern,
      )
  unfolding verify lift
  verify-goes path json csv md manifest object fs e parsed matched =
      >>=-goes (read (join path json_name))
        (read-Has fs (join path json_name) (e.usable.readable json_name) e.has_json) _
      ∙ >>=-goes (read (join path csv_name))
          (read-Has fs (join path csv_name) (e.usable.readable csv_name) e.has_csv) _
      ∙ >>=-goes (read (join path md_name))
          (read-Has fs (join path md_name) (e.usable.readable md_name) e.has_md) _
      ∙ >>=-goes (read (join path manifest_name))
          (read-Has fs (join path manifest_name) (e.usable.readable manifest_name) e.has_manifest) _
      ∙ lift-goes (require-ok parsed _) _ fs
      ∙ lift-goes (ap (λ (b : Bool). bail_if (not b) CliError.unmet) matched) _ fs

-- What is assumed of the tools: numbers that round within bounds and compare as they are written, a
-- generator that keeps to its ranges, values that can be written out, and a manifest that reads back.
pub record AreSound {F R : Type 0} (t : Tools F R) : Type 0 where
  pub draws : IsRng t.f64 t.rng
  pub indexes : IsIndexing t.f64
  pub rates : AreRates t.f64
  pub traces : (os : List (Observation F)) → (trace : Bytes) × (t.to_vec os ≡ some trace)
  pub reports :
      (rs : List (EvaluationReport F)) → (json : Bytes) × (t.reports_to_vec rs ≡ some json)
  pub manifests : (o : Object) → (manifest : Bytes) × (t.objects.to_string o ≡ some manifest)
  pub reads : Reads t.objects

module _ {F R : Type 0} (t : Tools F R) (sound : AreSound t) where
  settled-IsFit :
      (s : Scenario F)
      → IsFit t.f64 s
      → (report : EvaluationReport F) × (settled t (evaluate t.f64 t.rng t.blake3 t.to_vec s)
          ≡ ok report)
  settled-IsFit s fit =
      let (report, e) =
        evaluate_report t.f64 t.rng sound.draws t.blake3 t.to_vec sound.indexes sound.traces s
          fit.valid fit.fits in
      (report, ap (settled t) e)

  evaluate_all-IsFit :
      (l : List (Scenario F)) (fs : FileSystem)
      → All (IsFit t.f64) l
      → (reports : List (EvaluationReport F)) × (evaluate_all t l fs ≡ (fs, ok reports))
        × (length reports ≡ length l)
  unfolding evaluate_all lift
  evaluate_all-IsFit [] fs fits = ([], refl, refl)
  evaluate_all-IsFit (s ∷ l) fs fits =
      let (report, e) = settled-IsFit s fits.0 in
      let (reports, rest, n) = evaluate_all-IsFit l fs fits.1 in
      (report ∷ reports, lift-goes e _ fs ∙ >>=-goes (evaluate_all t l) rest _, ap suc n)

  -- How `verify` ends on evidence: by the patterns that it looks for in its text.
  abbrev pub IsChecked : Bytes → FileSystem → (json csv md manifest : Bytes) → Type 0
  IsChecked path fs json csv md manifest =
      ((is_sensitive (evidence_text t json csv md manifest) ≡ false)
        × (verify t path fs ≡ (fs, ok tt)))
      ⊎ ((is_sensitive (evidence_text t json csv md manifest) ≡ true)
          × (verify t path fs ≡ (fs, err CliError.sensitive_pattern)))

  check-IsChecked :
      (path json csv md manifest : Bytes) (fs : FileSystem)
      → verify t path fs ≡ (
        fs,
        bail_if (is_sensitive (evidence_text t json csv md manifest)) CliError.sensitive_pattern,
      )
      → IsChecked path fs json csv md manifest
  check-IsChecked path json csv md manifest fs h =
      elim (Bool-cases (is_sensitive (evidence_text t json csv md manifest))) [
        | inl found ↦
            inr (found, h ∙ ap (λ (b : Bool). (fs, bail_if b CliError.sensitive_pattern)) found)
        | inr clean ↦
            inl (clean, h ∙ ap (λ (b : Bool). (fs, bail_if b CliError.sensitive_pattern)) clean)
      ]

  -- In a directory that can be made and used, `generate` succeeds and leaves the four files of the
  -- evidence, and `verify` then accepts them, unless it finds one of its sensitive patterns in their
  -- text. Of the local demo, if there is one, no more is confirmed than submitted, and there is no
  -- spread without two confirmed transactions. Of the tools it is assumed that they are sound.
  pub generate-IsChecked :
      (path : Bytes) (demo : Option LocalDemoResult) (fs : FileSystem)
      → t.creates_dir path ≡ true
      → IsUsable path fs
      → confirmed_of demo ≤ submitted_of demo
      → (2 ≤ confirmed_of demo) ⊎ (spread_of demo ≡ 0)
      → (fs' : FileSystem) × (json : Bytes) × (csv : Bytes) × (md : Bytes) × (manifest : Bytes)
        × (generate t path demo fs ≡ (fs', ok tt))
        × HasEvidence path json csv md manifest fs'
        × IsChecked path fs' json csv md manifest
  unfolding generate
  generate-IsChecked path demo fs makes usable sent apart =
      let (reports, evaluated, n) =
        evaluate_all-IsFit (scenarios t.f64) fs (scenarios-IsFit t.f64 sound.rates) in
      let csv = csv_of t reports in
      let md = md_of t reports in
      let (json, encoded) = sound.reports reports in
      let object = manifest_of t (length reports) demo json csv md in
      let (manifest, listed) = sound.manifests object in
      let fs' = with_all path json csv md manifest fs in
      let has = with_all-HasEvidence path json csv md fs manifest usable in
      let many : 127 ≤ length reports = omega (arith, n, length-scenarios t.f64) in
      (
        fs',
        json,
        csv,
        md,
        manifest,
        lift-goes (ap (λ (b : Bool). bail_if (not b) CliError.io) makes) _ fs
            ∙ >>=-goes (evaluate_all t (scenarios t.f64)) evaluated _
            ∙ write_evidence-goes t path demo reports fs usable encoded listed,
        has,
        check-IsChecked path json csv md manifest fs' (
            verify-goes t path json csv md manifest object fs' has
              (sound.reads object manifest listed)
              (manifest_of-matches t (length reports) demo json csv md many sent apart)),
      )
