-- ===== src/CommandLine/Keeping.antt =====
-- The commands of crates/mirror-pool-cli/src/main.rs and the files that are there.
use mirror_pool.Prelude.{
  ℕ, Bool, ◌≡◌, false, inl, inr, Option, none, some, Bytes, bytes_eq, bytes_eq_iff, Result, ok, err,
  arith, sym, ◌∙◌, Bool-cases, Option-cases, ap, not, ◌||◌,
}
use mirror_pool.Core.Defs.{is_some}
use mirror_pool.Store.Defs.{Json}
use mirror_pool.Client.Defs.{Rpc, Wallet}
use mirror_pool.CommandLine.Files.{
  CliError, File, FileSystem, Outcome, Io, go_on, ◌>>=◌, lift, require, put_file, read, create_new,
  write_all, write, read_json, write_created,
}
use mirror_pool.CommandLine.Commands.{
  PoolArgs, World, pool_create, pool_inspect, round_open, round_inspect, ticket_create,
  ticket_submit, proof_verify, evaluate_output,
}
use mirror_pool.CommandLine.Actions.{
  Command, action_prepare, action_simulate, action_execute, printed, run, create_pool, inspect_pool,
  open_round, inspect_round, create_ticket, submit_ticket, verify_proof, prepare_action,
  simulate_action, execute_action, observe, evaluate,
}

-- Every file of the first is in the second as it was.
abbrev pub Keeps : FileSystem → FileSystem → Type 0
Keeps fs fs' = (p : Bytes) (f : File) → fs.files p ≡ some f → fs'.files p ≡ some f

-- An action that leaves every file that is there as it is, whether or not it succeeds.
record IsCareful {A : Type 0} (m : Io A) : Type 0 where
  keeps : (fs : FileSystem) → Keeps fs (m fs).0

go_on-Keeps :
    {A B : Type 0} (fs : FileSystem) (o : Outcome A) (next : A → Io B)
    → Keeps fs o.0
    → ((a : A) → IsCareful (next a))
    → Keeps fs (go_on o next).0
go_on-Keeps fs (fs₁, err e) next k careful = k
go_on-Keeps fs (fs₁, ok a) next k careful = λ p f at. (careful a).keeps fs₁ p f (k p f at)

bind-IsCareful :
    {A B : Type 0} (m : Io A) (next : A → Io B)
    → IsCareful m
    → ((a : A) → IsCareful (next a))
    → IsCareful (m >>= next)
unfolding ◌>>=◌
bind-IsCareful m next k careful = record {
  keeps = λ fs. go_on-Keeps fs (m fs) next (k.keeps fs) careful;
}

lift-IsCareful : {A : Type 0} (r : Result A CliError) → IsCareful (lift r)
unfolding lift
lift-IsCareful r = record { keeps = λ fs p f at. at }

read-IsCareful : (path : Bytes) → IsCareful (read path)
unfolding read
read-IsCareful path = record { keeps = λ fs p f at. ground arith }

put_file-Keeps :
    (fs : FileSystem) (path : Bytes) (g : File)
    → fs.files path ≡ none
    → Keeps fs (put_file fs path g)
unfolding put_file
put_file-Keeps fs path g free p f at = elim (Bool-cases (bytes_eq p path)) [
  | inl same ↦ absurd (ground (arith, sym at ∙ ap fs.files ((bytes_eq_iff p path).0 same) ∙ free))
  | inr other ↦ rw other at
]

put_file_again :
    (fs : FileSystem) (path : Bytes) (g h : File)
    → (p : Bytes) → (put_file (put_file fs path g) path h).files p ≡ (put_file fs path h).files p
unfolding put_file
put_file_again fs path g h p = ground arith

-- A file is created only where there is none.
abbrev Created : FileSystem → Bytes → File → FileSystem → Type 0
Created fs path g fs' = (fs.files path ≡ none) × (fs' ≡ put_file fs path g)

module _ {T : Type 0} (json : Json T) where
  read_json-IsCareful : (path : Bytes) → IsCareful (read_json json path)
  unfolding read_json
  read_json-IsCareful path =
      bind-IsCareful (read path) _ (read-IsCareful path)
        (λ bytes. lift-IsCareful (require (json.from_str bytes) CliError.json))

  -- What is written new is nowhere else than at a path that held nothing.
  write_created-Keeps :
      (owner_only : Bool) (path : Bytes) (value : T) (fs : FileSystem)
      → Keeps fs (write_created json owner_only path value fs).0
  unfolding write_created create_new write_all ◌>>=◌ lift
  write_created-Keeps owner_only path value fs p f at =
      elim (Bool-cases (is_some (fs.files path) || not (fs.creatable path))) [
        | inl refused ↦ rw refused at
        | inr free ↦
            let absent : fs.files path ≡ none = ground arith in
            elim (Option-cases (json.to_string value)) [
              | inl fails ↦ rw (free, fails) (put_file-Keeps fs path _ absent p f at)
              | inr (text, e) ↦
                  rw (free, e)
                    (put_file_again fs path _ _ p ∙ put_file-Keeps fs path _ absent p f at)
            ]
      ]

  write_created-IsCareful :
      (owner_only : Bool) (path : Bytes) (value : T)
      → IsCareful (write_created json owner_only path value)
  write_created-IsCareful owner_only path value = record {
    keeps = write_created-Keeps owner_only path value;
  }

ruleset careful =
    (bind-IsCareful, lift-IsCareful, read-IsCareful, read_json-IsCareful, write_created-IsCareful)

module _ (w : World) where
  pool_create-IsCareful : (args : PoolArgs) (output : Bytes) → IsCareful (pool_create w args output)
  unfolding pool_create
  pool_create-IsCareful args output = search careful

  pool_inspect-IsCareful : (path : Bytes) → IsCareful (pool_inspect w path)
  unfolding pool_inspect
  pool_inspect-IsCareful path = search careful

  round_open-IsCareful :
      (pool output : Bytes) (round_id : ℕ) (current_slot : Option ℕ)
      → IsCareful (round_open w pool output round_id current_slot)
  unfolding round_open
  round_open-IsCareful pool output round_id current_slot = search careful depth 12

  round_inspect-IsCareful : (path : Bytes) → IsCareful (round_inspect w path)
  unfolding round_inspect
  round_inspect-IsCareful path = search careful

  ticket_create-IsCareful : (binding output : Bytes) → IsCareful (ticket_create w binding output)
  unfolding ticket_create
  ticket_create-IsCareful binding output = search careful

  ticket_submit-IsCareful : (path : Bytes) → IsCareful (ticket_submit w path)
  unfolding ticket_submit
  ticket_submit-IsCareful path = search careful

  proof_verify-IsCareful :
      (proof root : Bytes) (round_id : ℕ) → IsCareful (proof_verify w proof root round_id)
  unfolding proof_verify
  proof_verify-IsCareful proof root round_id = search careful

  action_prepare-IsCareful : (config output : Bytes) → IsCareful (action_prepare w config output)
  unfolding action_prepare
  action_prepare-IsCareful config output = search careful

  action_simulate-IsCareful : (path : Bytes) → IsCareful (action_simulate w path)
  unfolding action_simulate
  action_simulate-IsCareful path = search careful

  action_execute-IsCareful :
      (public : Bool) (rpc : Rpc) (wallet : Wallet) (host : Option Bytes) (action : Bytes)
      (confirm enable_sending : Bool) (window_start window_end : ℕ)
      → IsCareful (
          action_execute w public rpc wallet host action confirm enable_sending window_start
            window_end)
  unfolding action_execute
  action_execute-IsCareful public rpc wallet host action confirm enable_sending window_start
        window_end =
      search careful

  printed-IsCareful : {A : Type 0} (m : Io A) → IsCareful m → IsCareful (printed m)
  printed-IsCareful m k = search (careful, k)

write-elsewhere :
    (path bytes : Bytes) (fs : FileSystem) (p : Bytes)
    → bytes_eq p path ≡ false
    → (write path bytes fs).0.files p ≡ fs.files p
unfolding write put_file
write-elsewhere path bytes fs p other = ground arith

-- Whether a path is the output of `evaluate`.
abbrev pub is_replaced : Command → Bytes → Bool
is_replaced (evaluate (some path) text) p = bytes_eq p path
is_replaced _ p = false

-- None of the commands pool, round, ticket, proof, action, observe and evaluate changes a file that is
-- there, whether it succeeds or fails, but for the output of `evaluate`, which `evaluate` may replace.
pub run-Keeps :
    (w : World) (c : Command) (fs : FileSystem) (p : Bytes) (f : File)
    → fs.files p ≡ some f
    → is_replaced c p ≡ false
    → (run w c fs).0.files p ≡ some f
unfolding run evaluate_output
run-Keeps w (create_pool args output) fs p f at kept =
    (pool_create-IsCareful w args output).keeps fs p f at
run-Keeps w (inspect_pool config) fs p f at kept =
    (printed-IsCareful w _ (pool_inspect-IsCareful w config)).keeps fs p f at
run-Keeps w (open_round pool output round_id current_slot) fs p f at kept =
    (round_open-IsCareful w pool output round_id current_slot).keeps fs p f at
run-Keeps w (inspect_round config) fs p f at kept =
    (printed-IsCareful w _ (round_inspect-IsCareful w config)).keeps fs p f at
run-Keeps w (create_ticket binding output) fs p f at kept =
    (ticket_create-IsCareful w binding output).keeps fs p f at
run-Keeps w (submit_ticket ticket) fs p f at kept =
    (printed-IsCareful w _ (ticket_submit-IsCareful w ticket)).keeps fs p f at
run-Keeps w (verify_proof proof root round_id) fs p f at kept =
    (proof_verify-IsCareful w proof root round_id).keeps fs p f at
run-Keeps w (prepare_action config output) fs p f at kept =
    (action_prepare-IsCareful w config output).keeps fs p f at
run-Keeps w (simulate_action action) fs p f at kept =
    (printed-IsCareful w _ (action_simulate-IsCareful w action)).keeps fs p f at
run-Keeps w (execute_action public rpc wallet host action confirm enable start end) fs p f at kept =
    (printed-IsCareful w _
        (action_execute-IsCareful w public rpc wallet host action confirm enable start end)).keeps
      fs p f at
run-Keeps w (observe input) fs p f at kept =
    (printed-IsCareful w _ (read-IsCareful input)).keeps fs p f at
run-Keeps w (evaluate none text) fs p f at kept = (lift-IsCareful (ok tt)).keeps fs p f at
run-Keeps w (evaluate (some path) text) fs p f at kept = write-elsewhere path text fs p kept ∙ at
