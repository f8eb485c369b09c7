-- ===== src/CommandLine/Files.antt =====
-- The file system under crates/mirror-pool-cli/src/main.rs, and its helpers read_json, write_new_json and
-- write_private. An action takes the file system and returns it as it leaves it with its result. What
-- the operating system refuses, it says by path; a write that it takes is complete.
use mirror_pool.Prelude.{
  Bool, true, false, not, ◌||◌, Option, none, some, [], Bytes, bytes_eq, if◌then◌else◌, Result, ok,
  err,
}
use mirror_pool.Core.Defs.{is_some}
use mirror_pool.Store.Defs.{Json}

-- The errors that end a command or a task, which prints them; `rejected` is one of another crate, and
-- `panicked` a panic in it.
pub data CliError : Type 0 where
  io json unknown_template missing_program_id not_confirmed invalid_key invalid_digest
        deadline_overflow rejected panicked unmet sensitive_pattern :
      CliError

-- A file with its bytes, and whether its mode is 0600.
pub record File : Type 0 where
  pub owner_only : Bool
  pub contents : Bytes

pub record FileSystem : Type 0 where
  pub files : Bytes → Option File
  pub readable : Bytes → Bool
  pub creatable : Bytes → Bool

-- What an action leaves and gives.
abbrev pub Outcome : Type 0 → Type 0
Outcome A = FileSystem × Result A CliError

abbrev pub Io : Type 0 → Type 0
Io A = FileSystem → Outcome A

abbrev pub go_on : {A B : Type 0} → Outcome A → (A → Io B) → Outcome B
go_on (fs, err e) next = (fs, err e)
go_on (fs, ok a) next = next a fs

unfoldable pub ◌>>=◌ : {A B : Type 0} → Io A → (A → Io B) → Io B
◌>>=◌ m next fs = go_on (m fs) next

abbrev pub ◌>>◌ : {A B : Type 0} → Io A → Io B → Io B
◌>>◌ m next = m >>= λ done. next

infixl 5 ◌>>=◌ ◌>>◌
-- A result that touches no file.
unfoldable pub lift : {A : Type 0} → Result A CliError → Io A
lift r fs = (fs, r)

-- `map_err` into the error of a command, which the `?` of anyhow does.
abbrev pub reject : {A E : Type 0} → Result A E → Result A CliError
reject (ok a) = ok a
reject (err e) = err rejected

abbrev pub require : {A : Type 0} → Option A → CliError → Result A CliError
require none e = err e
require (some a) e = ok a

-- `bail!` under a condition.
abbrev pub bail_if : Bool → CliError → Result (Unit {0}) CliError
bail_if true e = err e
bail_if false e = ok tt

-- The files with one more.
unfoldable pub put_file : FileSystem → Bytes → File → FileSystem
put_file fs path f = record fs { files = λ p. if bytes_eq p path then some f else fs.files p }

abbrev pub contents_of : Option File → Result Bytes CliError
contents_of none = err io
contents_of (some f) = ok f.contents

-- `fs::read`
unfoldable pub read : Bytes → Io Bytes
read path fs = if fs.readable path then (fs, contents_of (fs.files path)) else (fs, err io)

-- `OpenOptions::new().write(true).create_new(true).open(path)`
unfoldable pub create_new : (owner_only : Bool) → Bytes → Io Unit
unfolding put_file
create_new owner_only path fs =
    if is_some (fs.files path) || not (fs.creatable path)
    then (fs, err io)
    else (put_file fs path (record { owner_only = owner_only; contents = [] }), ok tt)

-- `file.write_all` of a file that is open.
unfoldable pub write_all : (owner_only : Bool) → Bytes → Bytes → Io Unit
unfolding put_file
write_all owner_only path bytes fs =
    (put_file fs path (record { owner_only = owner_only; contents = bytes }), ok tt)

abbrev pub is_owner_only : Option File → Bool
is_owner_only none = false
is_owner_only (some f) = f.owner_only

-- `fs::write`, which replaces what a file holds and keeps its mode.
unfoldable pub write : Bytes → Bytes → Io Unit
unfolding put_file
write path bytes fs =
    if fs.creatable path
    then (
      put_file fs path (record { owner_only = is_owner_only (fs.files path); contents = bytes }),
      ok tt,
    )
    else (fs, err io)

module _ {T : Type 0} (json : Json T) where
  unfoldable pub read_json : Bytes → Io T
  unfolding read
  read_json path = do bytes ← read path; lift (require (json.from_str bytes) CliError.json)

  -- The value is written out after the file is created: where that fails, an empty file is left.
  unfoldable pub write_created : (owner_only : Bool) → Bytes → T → Io Unit
  unfolding create_new write_all
  write_created owner_only path value = do
    create_new owner_only path
    bytes ← lift (require (json.to_string value) CliError.json)
    write_all owner_only path bytes

  abbrev pub write_new_json : Bytes → T → Io Unit
  write_new_json = write_created false

  abbrev pub write_private : Bytes → T → Io Unit
  write_private = write_created true
