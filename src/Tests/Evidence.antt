-- ===== src/Tests/Evidence.antt =====
-- Examples for xtask, with thousandths for `f64` and formats that read back.
use mirror_pool.Prelude.{
  ℕ, zero, suc, ◌^◌, ◌≡◌, ◌⊎◌, inl, true, none, some, List, [], ◌∷◌, Bytes, codes, bytes_eq,
  decimal, length, ok, refl, arith, ltb, if◌then◌else◌,
}
use mirror_pool.Merkle.Soundness.{Collision}
use mirror_pool.CommandLine.Files.{FileSystem, ◌>>=◌, lift, read, put_file}
use mirror_pool.Tasks.Manifest.{
  LocalDemoResult, Value, number, text, other, json_name, csv_name, md_name, manifest_name, join,
  is_sensitive, contains, starts_with,
}
use mirror_pool.Tasks.Evidence.{Tools, generate, verify, manifest_of, matches_manifest}
use mirror_pool.Tasks.Writing.{IsUsable, HasEvidence, with_all}
use mirror_pool.Tasks.Generating.{AreSound, IsChecked, generate-IsChecked}
use mirror_pool.Tasks.Binding.{stored, verify-binds}
use mirror_pool.Tests.Host.{put, chunk}
use mirror_pool.Tests.Cohorts.{digest}
use mirror_pool.Tests.Formats.{Format, bytes, ◌⊗◌, mapped, list, json_of, json_of_reads}
use mirror_pool.Tests.Evaluations.{thousandths, counting, counting-IsRng, indexing, to_vec}

abbrev value_parts : Value → ℕ × (ℕ × Bytes)
value_parts (number n) = (0, (n, []))
value_parts (text t) = (1, (0, t))
value_parts other = (2, (0, []))

abbrev value_at : ℕ × (ℕ × Bytes) → Value
value_at (zero, (n, t)) = number n
value_at (suc zero, (n, t)) = text t
value_at (suc (suc k), (n, t)) = other

pub value_law : (v : Value) → value_at (value_parts v) ≡ v
value_law (number n) = refl
value_law (text t) = refl
value_law other = refl

abbrev value : Format Value
value =
    mapped (mirror_pool.Tests.Formats.number ⊗ mirror_pool.Tests.Formats.number ⊗ bytes) value_at
      value_parts value_law

abbrev object : Format (List (Bytes × Value))
object = list (bytes ⊗ value)

abbrev tools : Tools ℕ ℕ
tools = record {
  f64 = thousandths;
  rng = counting;
  blake3 = digest;
  to_hex = λ b. b;
  to_vec = to_vec;
  reports_to_vec = λ rs. some (length rs ∷ []);
  objects = json_of object;
  csv_line = λ fields. length fields ∷ [];
  show = λ n. decimal n;
  fixed = λ n. decimal n;
  infinity = 10 ^ 9;
  min = λ m n. if ltb n m then n else m;
  max = λ m n. if ltb m n then n else m;
  lossy = λ b. b;
  to_lowercase = λ b. b;
  creates_dir = λ path. true;
}

tools-AreSound : AreSound tools
tools-AreSound = record {
  draws = counting-IsRng;
  indexes = indexing;
  rates = record {
    high_low = refl;
    high_below = refl;
    low_low = refl;
    low_below = refl;
    control_low = refl;
    control_below = refl;
  };
  traces = λ os. (length os ∷ [], refl);
  reports = λ rs. (length rs ∷ [], refl);
  manifests = λ o. (object.put o [], refl);
  reads = json_of_reads object;
}

abbrev empty : FileSystem
empty = record { files = λ path. none; readable = λ path. true; creatable = λ path. true }

abbrev evidence : Bytes
evidence = codes "evidence"

usable : IsUsable evidence empty
usable = record { creatable = λ name. refl; readable = λ name. refl }

abbrev demo : LocalDemoResult
demo = record { submitted = 5; confirmed = 5; spread = 3 }

generate-IsChecked_example :
    (fs' : FileSystem) × (json : Bytes) × (csv : Bytes) × (md : Bytes) × (manifest : Bytes)
    × (generate tools evidence (some demo) empty ≡ (fs', ok tt))
    × HasEvidence evidence json csv md manifest fs'
    × IsChecked tools tools-AreSound evidence fs' json csv md manifest
generate-IsChecked_example =
    generate-IsChecked tools tools-AreSound evidence (some demo) empty refl usable (omega arith)
      (inl (omega arith))

abbrev manifest : Bytes
manifest = object.put (manifest_of tools 127 (some demo) (1 ∷ []) (2 ∷ []) (3 ∷ [])) []

abbrev filled : FileSystem
filled = with_all evidence (1 ∷ []) (2 ∷ []) (3 ∷ []) manifest empty

verifies : verify tools evidence filled ≡ (filled, ok tt)
unfolding verify read lift ◌>>=◌ put_file matches_manifest is_sensitive contains starts_with
    bytes_eq put chunk
verifies = refl

-- Another directory with the same manifest.
abbrev copy : Bytes
copy = codes "copy"

abbrev copied : FileSystem
copied = with_all copy (1 ∷ []) (2 ∷ []) (3 ∷ []) manifest empty

verifies_copy : verify tools copy copied ≡ (copied, ok tt)
unfolding verify read lift ◌>>=◌ put_file matches_manifest is_sensitive contains starts_with
    bytes_eq put chunk
verifies_copy = refl

one_manifest : stored filled (join evidence manifest_name) ≡ stored copied (join copy manifest_name)
unfolding put_file bytes_eq
one_manifest = refl

verify-binds_example :
    ((stored filled (join evidence json_name) ≡ stored copied (join copy json_name))
      × (stored filled (join evidence csv_name) ≡ stored copied (join copy csv_name))
      × (stored filled (join evidence md_name) ≡ stored copied (join copy md_name)))
    ⊎ Collision digest
verify-binds_example =
    verify-binds tools (λ x y e. e) evidence copy filled copied verifies verifies_copy one_manifest
