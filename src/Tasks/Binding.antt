-- ===== src/Tasks/Binding.antt =====
-- What the manifest of the evidence binds in `verify` of xtask/src/main.rs.
use mirror_pool.Prelude.{
  ◌≡◌, ◌⊎◌, inl, inr, Bool, true, false, not, Option, some, none, Bytes, codes, bytes_eq_iff,
  bytes_decide, ok, refl, sym, ap, ◌∙◌, arith, Bool-cases, Option-cases, ok-injective,
}
use mathlib.Core.Option.{some-injective}
use mathlib.Core.Path.{subst}
use mirror_pool.Merkle.Soundness.{Collision}
use mirror_pool.CommandLine.Files.{CliError, File, FileSystem, Outcome, Io, ◌>>=◌, bail_if, read}
use mirror_pool.CommandLine.Steps.{>>=-done, lift-done, require-some, read-some}
use mirror_pool.Tasks.Manifest.{
  Object, Value, number, text, other, member, is_text, join, json_name, csv_name, md_name,
  manifest_name,
}
use mirror_pool.Tasks.Evidence.{Tools, hex_hash, matches_manifest, verify}

abbrev contents_of : Option File → Option Bytes
contents_of none = none
contents_of (some f) = some f.contents

-- What a file holds, if there is one.
abbrev pub stored : FileSystem → Bytes → Option Bytes
stored fs path = contents_of (fs.files path)

read-done :
    (path : Bytes) (fs : FileSystem) {fs' : FileSystem} {bytes : Bytes}
    → read path fs ≡ (fs', ok bytes)
    → (fs' ≡ fs) × (stored fs path ≡ some bytes)
unfolding read
read-done path fs h = elim (Bool-cases (fs.readable path)) [
  | inl may ↦ elim (Option-cases (fs.files path)) [
    | inl nothing ↦ absurd (ground arith)
    | inr (f, at) ↦
        let e = sym (read-some fs path may at) ∙ h in
        (
          sym (ap (λ (o : Outcome Bytes). o.0) e),
          ap contents_of at ∙ ap some (ok-injective (ap (λ (o : Outcome Bytes). o.1) e)),
        )
  ]
  | inr refused ↦ absurd (ground arith)
]

-- A read that succeeded, and the rest after it.
read-on :
    {B : Type 0} (path : Bytes) (fs : FileSystem) (next : Bytes → Io B) {fs' : FileSystem} {b : B}
    → (read path >>= next) fs ≡ (fs', ok b)
    → (bytes : Bytes) × (stored fs path ≡ some bytes) × (next bytes fs ≡ (fs', ok b))
read-on path fs next {fs'} {b} h =
    let (bytes, fs₁, done, rest) = >>=-done (read path) next h in
    let (same, at) = read-done path fs done in
    (bytes, at, subst (λ f. next bytes f ≡ (fs', ok b)) same rest)

passed_unless : (b : Bool) (e : CliError) → bail_if (not b) e ≡ ok tt → b ≡ true
passed_unless true e h = refl
passed_unless false e h = absurd (ground arith)

is_text-true : (x : Bytes) (v : Value) → is_text x v ≡ true → v ≡ text x
is_text-true x (number n) h = absurd (ground arith)
is_text-true x (text y) h = ap text ((bytes_eq_iff y x).0 h)
is_text-true x other h = absurd (ground arith)

text-injective : {x y : Bytes} → text x ≡ text y → x ≡ y
text-injective h = cc

module _ {F R : Type 0} (t : Tools F R) where
  -- What `verify` found in a directory.
  record Verified (path : Bytes) (fs : FileSystem) : Type 0 where
    json : Bytes
    csv : Bytes
    md : Bytes
    manifest : Bytes
    object : Object
    has_json : stored fs (join path json_name) ≡ some json
    has_csv : stored fs (join path csv_name) ≡ some csv
    has_md : stored fs (join path md_name) ≡ some md
    has_manifest : stored fs (join path manifest_name) ≡ some manifest
    parsed : t.objects.from_str manifest ≡ some object
    json_hash : member object (codes "evaluation_json_blake3") ≡ text (hex_hash t json)
    csv_hash : member object (codes "evaluation_csv_blake3") ≡ text (hex_hash t csv)
    md_hash : member object (codes "evaluation_md_blake3") ≡ text (hex_hash t md)

  matches-hashes :
      (object : Object) (json csv md : Bytes)
      → matches_manifest t object json csv md ≡ true
      → (member object (codes "evaluation_json_blake3") ≡ text (hex_hash t json))
        × (member object (codes "evaluation_csv_blake3") ≡ text (hex_hash t csv))
        × (member object (codes "evaluation_md_blake3") ≡ text (hex_hash t md))
  unfolding matches_manifest
  matches-hashes object json csv md h = (
    is_text-true (hex_hash t json) (member object (codes "evaluation_json_blake3")) (ground arith),
    is_text-true (hex_hash t csv) (member object (codes "evaluation_csv_blake3")) (ground arith),
    is_text-true (hex_hash t md) (member object (codes "evaluation_md_blake3")) (ground arith),
  )

  verify-Verified :
      (path : Bytes) (fs : FileSystem) {fs' : FileSystem}
      → verify t path fs ≡ (fs', ok tt)
      → Verified path fs
  unfolding verify
  verify-Verified path fs h =
      let (json, has_json, h₁) = read-on (join path json_name) fs _ h in
      let (csv, has_csv, h₂) = read-on (join path csv_name) fs _ h₁ in
      let (md, has_md, h₃) = read-on (join path md_name) fs _ h₂ in
      let (manifest, has_manifest, h₄) = read-on (join path manifest_name) fs _ h₃ in
      let (object, parsed, h₅) = lift-done _ _ h₄ in
      let (_, unmet, h₆) = lift-done _ _ h₅ in
      let matched : matches_manifest t object json csv md ≡ true = passed_unless _ _ unmet in
      let (json_hash, csv_hash, md_hash) = matches-hashes object json csv md matched in
      record {
        json = json;
        csv = csv;
        md = md;
        manifest = manifest;
        object = object;
        has_json = has_json;
        has_csv = has_csv;
        has_md = has_md;
        has_manifest = has_manifest;
        parsed = require-some _ _ parsed;
        json_hash = json_hash;
        csv_hash = csv_hash;
        md_hash = md_hash;
      }

  -- Contents with one hash in hexadecimal.
  same_hash :
      (hex : (x y : Bytes) → t.to_hex x ≡ t.to_hex y → x ≡ y) (x y : Bytes) {v : Value}
      → v ≡ text (hex_hash t x)
      → v ≡ text (hex_hash t y)
      → (x ≡ y) ⊎ Collision t.blake3
  same_hash hex x y p q = elim (bytes_decide x y) [
    | inl same ↦ inl same
    | inr apart ↦ inr (x, y, apart, hex _ _ (text-injective (sym p ∙ q)))
  ]

  -- The manifest binds the evidence: of two directories that `verify` accepts, with one and the same
  -- manifest, the three files of the evaluation are the same, or the hash has a collision. It is
  -- assumed that no two hashes have the same hexadecimal text.
  pub verify-binds :
      (hex : (x y : Bytes) → t.to_hex x ≡ t.to_hex y → x ≡ y) (path path' : Bytes)
      (fs gs : FileSystem) {fs' gs' : FileSystem}
      → verify t path fs ≡ (fs', ok tt)
      → verify t path' gs ≡ (gs', ok tt)
      → stored fs (join path manifest_name) ≡ stored gs (join path' manifest_name)
      → ((stored fs (join path json_name) ≡ stored gs (join path' json_name))
          × (stored fs (join path csv_name) ≡ stored gs (join path' csv_name))
          × (stored fs (join path md_name) ≡ stored gs (join path' md_name)))
        ⊎ Collision t.blake3
  verify-binds hex path path' fs gs h h' one =
      let v = verify-Verified path fs h in
      let v' = verify-Verified path' gs h' in
      let manifest = some-injective _ _ (sym v.has_manifest ∙ one ∙ v'.has_manifest) in
      let object = some-injective _ _ (sym v.parsed ∙ ap t.objects.from_str manifest ∙ v'.parsed) in
      let at : (key : Bytes) → member v.object key ≡ member v'.object key =
        λ key. ap (λ o. member o key) object in
      elim (same_hash hex v.json v'.json v.json_hash
        (at (codes "evaluation_json_blake3") ∙ v'.json_hash)) [
          | inr collision ↦ inr collision
          | inl json ↦
              elim (same_hash hex v.csv v'.csv v.csv_hash
                (at (codes "evaluation_csv_blake3") ∙ v'.csv_hash)) [
                  | inr collision ↦ inr collision
                  | inl csv ↦
                      elim (same_hash hex v.md v'.md v.md_hash
                        (at (codes "evaluation_md_blake3") ∙ v'.md_hash)) [
                          | inr collision ↦ inr collision
                          | inl md ↦ inl (
                            v.has_json ∙ ap some json ∙ sym v'.has_json,
                            v.has_csv ∙ ap some csv ∙ sym v'.has_csv,
                            v.has_md ∙ ap some md ∙ sym v'.has_md,
                          )
                        ]
                ]
        ]
