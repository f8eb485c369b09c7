-- ===== src/Tasks/Writing.antt =====
-- The files that `generate` of xtask/src/main.rs writes.
use mirror_pool.Prelude.{
  ◌≡◌, true, false, Option, some, List, [], ◌∷◌, Bytes, bytes_eq, bytes_eq_refl, ok, refl, ◌∙◌,
  arith, length, ap,
}
use mirror_pool.Simulator.Metrics.{EvaluationReport}
use mirror_pool.CommandLine.Files.{File, FileSystem, read, write, put_file, is_owner_only}
use mirror_pool.CommandLine.Steps.{>>=-goes, lift-goes, require-ok, read-some}
use mirror_pool.Tasks.Manifest.{LocalDemoResult, join, json_name, csv_name, md_name, manifest_name}
use mirror_pool.Tasks.Evidence.{Tools, csv_of, md_of, manifest_of, write_evidence}

bytes_eq-join : (path x y : Bytes) → bytes_eq (join path x) (join path y) ≡ bytes_eq x y
unfolding bytes_eq
bytes_eq-join [] x y = refl
bytes_eq-join (c ∷ path) x y = ground (arith, bytes_eq-join path x y)

-- What `fs::write` leaves.
abbrev pub overwrite : FileSystem → Bytes → Bytes → FileSystem
overwrite fs path bytes =
    put_file fs path (record { owner_only = is_owner_only (fs.files path); contents = bytes })

-- A file with some contents, whatever its mode.
abbrev pub Has : FileSystem → Bytes → Bytes → Type 0
Has fs path contents = (f : File) × (fs.files path ≡ some f) × (f.contents ≡ contents)

-- A directory that its owner may use.
pub record IsUsable (path : Bytes) (fs : FileSystem) : Type 0 where
  pub creatable : (name : Bytes) → fs.creatable (join path name) ≡ true
  pub readable : (name : Bytes) → fs.readable (join path name) ≡ true

-- A directory with the four files of the evidence.
pub record HasEvidence (path json csv md manifest : Bytes) (fs : FileSystem) : Type 0 where
  pub usable : IsUsable path fs
  pub has_json : Has fs (join path json_name) json
  pub has_csv : Has fs (join path csv_name) csv
  pub has_md : Has fs (join path md_name) md
  pub has_manifest : Has fs (join path manifest_name) manifest

write-goes :
    (path bytes : Bytes) (fs : FileSystem)
    → fs.creatable path ≡ true
    → write path bytes fs ≡ (overwrite fs path bytes, ok tt)
unfolding write
write-goes path bytes fs creatable = rw creatable

put_file-same :
    (fs : FileSystem) (path : Bytes) (f : File) → (put_file fs path f).files path ≡ some f
unfolding put_file
put_file-same fs path f = rw (bytes_eq_refl path)

put_file-other :
    (fs : FileSystem) (path other : Bytes) (f : File)
    → bytes_eq other path ≡ false
    → (put_file fs path f).files other ≡ fs.files other
unfolding put_file
put_file-other fs path other f apart = rw apart

put_file-IsUsable :
    (path other : Bytes) (f : File) (fs : FileSystem)
    → IsUsable path fs
    → IsUsable path (put_file fs other f)
unfolding put_file
put_file-IsUsable path other f fs u = record { creatable = u.creatable; readable = u.readable }

-- The files after each of the first three writes, and after all.
abbrev pub with_json : Bytes → Bytes → FileSystem → FileSystem
with_json path json fs = overwrite fs (join path json_name) json

abbrev pub with_csv : Bytes → Bytes → Bytes → FileSystem → FileSystem
with_csv path json csv fs = overwrite (with_json path json fs) (join path csv_name) csv

abbrev pub with_md : Bytes → Bytes → Bytes → Bytes → FileSystem → FileSystem
with_md path json csv md fs = overwrite (with_csv path json csv fs) (join path md_name) md

abbrev pub with_all : Bytes → Bytes → Bytes → Bytes → Bytes → FileSystem → FileSystem
with_all path json csv md manifest fs =
    overwrite (with_md path json csv md fs) (join path manifest_name) manifest

overwrite-Has : (fs : FileSystem) (path bytes : Bytes) → Has (overwrite fs path bytes) path bytes
overwrite-Has fs path bytes = (_, put_file-same fs path _, refl)

-- What is in a file of a directory after another is written there.
kept :
    (path name other bytes : Bytes) (fs : FileSystem) {contents : Bytes}
    → bytes_eq name other ≡ false
    → Has fs (join path name) contents
    → Has (overwrite fs (join path other) bytes) (join path name) contents
kept path name other bytes fs apart (f, at, same) = (
  f,
  put_file-other fs (join path other) (join path name) _ (bytes_eq-join path name other ∙ apart)
      ∙ at,
  same,
)

module _ (path json csv md : Bytes) (fs : FileSystem) where
  csv_in_md : Has (with_md path json csv md fs) (join path csv_name) csv
  unfolding bytes_eq
  csv_in_md =
      kept path csv_name md_name md (with_csv path json csv fs) refl
        (overwrite-Has (with_json path json fs) (join path csv_name) csv)

  md_in_md : Has (with_md path json csv md fs) (join path md_name) md
  md_in_md = overwrite-Has (with_csv path json csv fs) (join path md_name) md

  pub with_all-HasEvidence :
      (manifest : Bytes)
      → IsUsable path fs
      → HasEvidence path json csv md manifest (with_all path json csv md manifest fs)
  unfolding bytes_eq put_file
  with_all-HasEvidence manifest u = record {
    usable = record { creatable = u.creatable; readable = u.readable };
    has_json = kept path json_name manifest_name manifest (with_md path json csv md fs) refl (
        kept path json_name md_name md (with_csv path json csv fs) refl (
          kept path json_name csv_name csv (with_json path json fs) refl
            (overwrite-Has fs (join path json_name) json)));
    has_csv =
        kept path csv_name manifest_name manifest (with_md path json csv md fs) refl csv_in_md;
    has_md = kept path md_name manifest_name manifest (with_md path json csv md fs) refl md_in_md;
    has_manifest = overwrite-Has (with_md path json csv md fs) (join path manifest_name) manifest;
  }

-- A file that is there and may be read is read.
pub read-Has :
    (fs : FileSystem) (path : Bytes) {contents : Bytes}
    → fs.readable path ≡ true
    → Has fs path contents
    → read path fs ≡ (fs, ok contents)
read-Has fs path readable (f, at, same) =
    read-some fs path readable at ∙ ap (λ (c : Bytes). (fs, ok c)) same

module _ {F R : Type 0} (t : Tools F R) where
  pub write_evidence-goes :
      (path : Bytes) (demo : Option LocalDemoResult) (reports : List (EvaluationReport F))
      (fs : FileSystem) {json manifest : Bytes}
      → IsUsable path fs
      → t.reports_to_vec reports ≡ some json
      → t.objects.to_string
          (manifest_of t (length reports) demo json (csv_of t reports) (md_of t reports))
        ≡ some manifest
      → write_evidence t path demo reports fs
        ≡ (with_all path json (csv_of t reports) (md_of t reports) manifest fs, ok tt)
  unfolding write_evidence put_file
  write_evidence-goes path demo reports fs {json} {manifest} u encoded listed =
      let csv = csv_of t reports in
      let md = md_of t reports in
      let fs₁ = with_json path json fs in
      let fs₂ = with_csv path json csv fs in
      let fs₃ = with_md path json csv md fs in
      lift-goes (require-ok encoded _) _ fs
      ∙ >>=-goes (write (join path json_name) json)
          (write-goes (join path json_name) json fs (u.creatable json_name)) _
      ∙ >>=-goes (write (join path csv_name) csv)
          (write-goes (join path csv_name) csv fs₁ (u.creatable csv_name)) _
      ∙ >>=-goes (write (join path md_name) md)
          (write-goes (join path md_name) md fs₂ (u.creatable md_name)) _
      ∙ >>=-goes (read (join path csv_name))
          (read-Has fs₃ (join path csv_name) (u.readable csv_name) (csv_in_md path json csv md fs))
          _
      ∙ >>=-goes (read (join path md_name))
          (read-Has fs₃ (join path md_name) (u.readable md_name) (md_in_md path json csv md fs)) _
      ∙ lift-goes (require-ok listed _) _ fs₃
      ∙ write-goes (join path manifest_name) manifest fs₃ (u.creatable manifest_name)
