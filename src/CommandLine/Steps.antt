-- ===== src/CommandLine/Steps.antt =====
-- The actions of crates/mirror-pool-cli/src/main.rs step by step: what one that succeeded went through,
-- and what is read back from a file that it wrote.
use mirror_pool.Prelude.{
  Bool, ◌≡◌, true, false, inl, inr, Option, none, some, Bytes, bytes_eq_refl, Result, ok, err,
  arith, refl, sym, ◌∙◌, Bool-cases, Option-cases, ap, [], not, ◌||◌, ok-injective,
}
use mathlib.Core.Path.{subst}
use mirror_pool.Core.Defs.{is_some}
use mirror_pool.Store.Defs.{Json}
use mirror_pool.CommandLine.Files.{
  CliError, File, FileSystem, Outcome, Io, go_on, ◌>>=◌, lift, reject, require, put_file, read,
  create_new, write_all, read_json, write_created,
}

go_on-done :
    {A B : Type 0} (o : Outcome A) (next : A → Io B) {fs' : FileSystem} {b : B}
    → go_on o next ≡ (fs', ok b)
    → (a : A) × (fs : FileSystem) × (o ≡ (fs, ok a)) × (next a fs ≡ (fs', ok b))
go_on-done (fs, err e) next h = absurd (cc)
go_on-done (fs, ok a) next h = (a, fs, refl, h)

-- An action that succeeded, and the action after it.
pub >>=-done :
    {A B : Type 0} (m : Io A) (next : A → Io B) {fs fs' : FileSystem} {b : B}
    → (m >>= next) fs ≡ (fs', ok b)
    → (a : A) × (fs₁ : FileSystem) × (m fs ≡ (fs₁, ok a)) × (next a fs₁ ≡ (fs', ok b))
unfolding ◌>>=◌
>>=-done m next {fs} h = go_on-done (m fs) next h

pub >>=-goes :
    {A B : Type 0} (m : Io A) {fs fs₁ : FileSystem} {a : A}
    → m fs ≡ (fs₁, ok a)
    → (next : A → Io B) → (m >>= next) fs ≡ next a fs₁
unfolding ◌>>=◌
>>=-goes m e next = rw e

-- A result that touched no file, and the action after it.
pub lift-done :
    {A B : Type 0} (r : Result A CliError) (next : A → Io B) {fs fs' : FileSystem} {b : B}
    → (lift r >>= next) fs ≡ (fs', ok b)
    → (a : A) × (r ≡ ok a) × (next a fs ≡ (fs', ok b))
unfolding ◌>>=◌ lift
lift-done (err e) next h = absurd (cc)
lift-done (ok a) next h = (a, refl, h)

pub lift-goes :
    {A B : Type 0} {r : Result A CliError} {a : A}
    → r ≡ ok a
    → (next : A → Io B) (fs : FileSystem) → (lift r >>= next) fs ≡ next a fs
unfolding ◌>>=◌ lift
lift-goes e next fs = rw e

pub lift-fails :
    {A B : Type 0} {r : Result A CliError} {e : CliError}
    → r ≡ err e
    → (next : A → Io B) (fs : FileSystem) → (lift r >>= next) fs ≡ (fs, err e)
unfolding ◌>>=◌ lift
lift-fails h next fs = rw h

pub require-some :
    {A : Type 0} (o : Option A) (e : CliError) {a : A} → require o e ≡ ok a → o ≡ some a
require-some none e h = absurd (cc)
require-some (some b) e h = ap some (ok-injective h)

pub require-ok :
    {A : Type 0} {o : Option A} {a : A} → o ≡ some a → (e : CliError) → require o e ≡ ok a
require-ok h e = rw h

pub reject-ok : {A E : Type 0} (r : Result A E) {a : A} → reject r ≡ ok a → r ≡ ok a
reject-ok (ok b) h = ap ok (ok-injective h)
reject-ok (err e) h = absurd (cc)

pub ok-reject : {A E : Type 0} {r : Result A E} {a : A} → r ≡ ok a → reject r ≡ ok a
ok-reject h = rw h

pub read-some :
    (fs : FileSystem) (path : Bytes) {f : File}
    → fs.readable path ≡ true
    → fs.files path ≡ some f
    → read path fs ≡ (fs, ok f.contents)
unfolding read
read-some fs path readable at = rw (readable, at)

-- What a written file holds.
pub record Wrote (owner_only : Bool) (path text : Bytes) (fs fs' : FileSystem) : Type 0 where
  pub free : fs.files path ≡ none
  pub written : fs'.files path ≡ some (record { owner_only = owner_only; contents = text })
  pub readable : fs'.readable path ≡ fs.readable path

-- The files after one is created and written.
abbrev written_to : Bool → Bytes → Bytes → FileSystem → FileSystem
written_to owner_only path text fs =
    put_file (put_file fs path (record { owner_only = owner_only; contents = [] })) path
      (record { owner_only = owner_only; contents = text })

Wrote-written_to :
    (owner_only : Bool) (path text : Bytes) (fs : FileSystem)
    → fs.files path ≡ none
    → Wrote owner_only path text fs (written_to owner_only path text fs)
unfolding put_file
Wrote-written_to owner_only path text fs free = record {
  free = free;
  written = rw (bytes_eq_refl path);
  readable = refl;
}

module _ {T : Type 0} (json : Json T) where
  pub read_json-some :
      (fs : FileSystem) (path : Bytes) {f : File} {v : T}
      → fs.readable path ≡ true
      → fs.files path ≡ some f
      → json.from_str f.contents ≡ some v
      → read_json json path fs ≡ (fs, ok v)
  unfolding read_json lift
  read_json-some fs path readable at parsed =
      (>>=-goes (read path) (read-some fs path readable at) _)
      ∙ ap (λ (r : Result T CliError). (fs, r)) (require-ok parsed _)

  read_json-leaves : (fs : FileSystem) (path : Bytes) → (read_json json path fs).0 ≡ fs
  unfolding read_json read ◌>>=◌ lift
  read_json-leaves fs path = elim (Bool-cases (fs.readable path)) [
    | inl may ↦ elim (Option-cases (fs.files path)) [
      | inl nothing ↦ rw (may, nothing)
      | inr (f, at) ↦ rw (may, at)
    ]
    | inr refused ↦ rw refused
  ]

  pub read_json-same :
      (fs : FileSystem) (path : Bytes) {fs' : FileSystem} {v : T}
      → read_json json path fs ≡ (fs', ok v)
      → fs' ≡ fs
  read_json-same fs path h = ap (λ (o : Outcome T). o.0) (sym h) ∙ read_json-leaves fs path

  write_created-is :
      (owner_only : Bool) (path : Bytes) (value : T) (fs : FileSystem) {text : Bytes}
      → is_some (fs.files path) || not (fs.creatable path) ≡ false
      → json.to_string value ≡ some text
      → write_created json owner_only path value fs ≡ (written_to owner_only path text fs, ok tt)
  unfolding write_created create_new write_all ◌>>=◌ lift
  write_created-is owner_only path value fs free e = rw (free, e)

  pub write_created-Wrote :
      (owner_only : Bool) (path : Bytes) (value : T) (fs : FileSystem) {fs' : FileSystem}
      → write_created json owner_only path value fs ≡ (fs', ok tt)
      → (text : Bytes) × (json.to_string value ≡ some text) × Wrote owner_only path text fs fs'
  unfolding write_created create_new write_all ◌>>=◌ lift
  write_created-Wrote owner_only path value fs {fs'} h =
      elim (Bool-cases (is_some (fs.files path) || not (fs.creatable path))) [
        | inl refused ↦ absurd (ground arith)
        | inr free ↦ elim (Option-cases (json.to_string value)) [
          | inl fails ↦ absurd (ground arith)
          | inr (text, e) ↦
              let same =
                ap (λ (o : Outcome Unit). o.0)
                  (sym (write_created-is owner_only path value fs free e) ∙ h) in
              (
                text,
                e,
                subst (λ fs'. Wrote owner_only path text fs fs') same
                    (Wrote-written_to owner_only path text fs (ground arith)),
              )
        ]
      ]

  pub write_created-writes :
      (owner_only : Bool) (path : Bytes) (value : T) (fs : FileSystem) {text : Bytes}
      → fs.files path ≡ none
      → fs.creatable path ≡ true
      → json.to_string value ≡ some text
      → (fs' : FileSystem) × (write_created json owner_only path value fs ≡ (fs', ok tt))
        × Wrote owner_only path text fs fs'
  write_created-writes owner_only path value fs {text} free creatable e = (
    _,
    write_created-is owner_only path value fs (rw (free, creatable)) e,
    Wrote-written_to owner_only path text fs free,
  )
