-- ===== src/Tests/Commands.antt =====
-- Examples for crates/mirror-pool-cli.
use mathlib.Core.Option.{some-injective}
use mirror_pool.Prelude.{
  zero, suc, ◌+◌, ◌≤◌, ◌<◌, ◌≡◌, ◌⊎◌, true, false, Option, none, some, [], ◌∷◌, Bytes, codes,
  bytes_eq, ok, err, refl, sym, ap, ◌∙◌, arith, u64_mod, if◌then◌else◌,
}
use mirror_pool.Core.Defs.{Round, PoolConfig, Round, UnixTime, hash, compute_hash}
use mirror_pool.Core.Validation.{IsPolicy}
use mirror_pool.Crypto.Defs.{JoinTicket, verify, create}
use mirror_pool.Store.Defs.{Json}
use mirror_pool.Merkle.Defs.{CohortProof}
use mirror_pool.Actions.Defs.{ActionParameters, SimulationResult, compute_budget}
use mirror_pool.CommandLine.Files.{
  CliError, File, FileSystem, ◌>>=◌, lift, read, read_json, create_new, write_all, write_created,
}
use mirror_pool.CommandLine.Commands.{
  BackendArg, PoolArgs, World, TicketBindingFile, LocalTicket, memo_program_id, new_pool,
  pool_create, pool_inspect, round_open, round_inspect, ticket_create, ticket_submit,
}
use mirror_pool.CommandLine.Actions.{evaluate, run, action_prepare, action_simulate}
use mirror_pool.CommandLine.Keeping.{is_replaced, run-Keeps}
use mirror_pool.CommandLine.Pools.{Writes, Shows, pool_create-pool_inspect}
use mirror_pool.CommandLine.Rounds.{Opened, round_open_lem}
use mirror_pool.CommandLine.Tickets.{Reads, IsApart, ticket_create-ticket_submit}
use mirror_pool.CommandLine.Preparing.{action_prepare-action_simulate}
use mirror_pool.Tests.Cohorts.{digest}
use mirror_pool.Tests.Tickets.{scheme, scheme-Signs, ticket_json}
use mirror_pool.Tests.Formats.{Format, json_of, json_of_reads}
use mirror_pool.Tests.Values.{ticket, local_ticket, binding_file, action, pool, round}

-- A format behind a number.
abbrev read_tagged : {A : Type 0} → Format A → Bytes → Option A
read_tagged f [] = none
read_tagged f (zero ∷ bytes) = none
read_tagged f (suc n ∷ bytes) = some ((f.get bytes).0)

abbrev read_plain : {A : Type 0} → Format A → Bytes → Option A
read_plain f [] = none
read_plain f (zero ∷ bytes) = some ((f.get bytes).0)
read_plain f (suc n ∷ bytes) = none

abbrev locals : Json LocalTicket
locals = record {
  to_string = λ l. some (1 ∷ local_ticket.put l []);
  from_str = read_tagged local_ticket;
}

abbrev budget : Json ActionParameters
budget = record { to_string = λ p. none; from_str = λ text. some (compute_budget 40000 7) }

abbrev proofs : Json CohortProof
proofs = record { to_string = λ p. none; from_str = λ text. none }

abbrev world : World
world = record {
  blake3 = digest;
  config_to_vec = λ c. some (pool.put c []);
  from_str = λ text. some text;
  hex_decode = λ text. some text;
  pools = json_of pool;
  rounds = json_of round;
  bindings = json_of binding_file;
  local_tickets = locals;
  tickets = record { to_string = λ t. some (0 ∷ ticket.put t []); from_str = read_plain ticket };
  proofs = proofs;
  parameters = budget;
  actions = json_of action;
  ticket_json = ticket_json;
  ed25519 = scheme;
  current_slot = some 7;
  now = UnixTime.since 1700000000;
  pool_id = 4 ∷ [];
  secret = 3 ∷ [];
  nonce = 9 ∷ [];
}

abbrev bound : TicketBindingFile
bound = record {
  binding = record { pool_id = 1 ∷ []; round_id = 5; action_template_hash = 2 ∷ [] };
  expiry_slot = 100;
}

-- A directory with one file, of a binding.
abbrev directory : FileSystem
directory = record {
  files = λ path.
      if bytes_eq path (codes "input.json")
      then some (record { owner_only = false; contents = binding_file.put bound [] })
      else none;
  readable = λ path. true;
  creatable = λ path. true;
}

abbrev args : PoolArgs
args = record {
  authority = codes "authority";
  minimum = 2;
  maximum = 5;
  backend = BackendArg.merkle;
  registration_slots = 100;
  execution_window_slots = 20;
}

abbrev output : Bytes
output = codes "output.json"

rounds-Writes : Writes world.rounds
rounds-Writes v = (round.put v [], refl)

no_output : directory.files output ≡ none
unfolding bytes_eq
no_output = refl

abbrev with_pool : FileSystem
with_pool = (pool_create world args output directory).0

creates_pool : pool_create world args output directory ≡ (with_pool, ok tt)
unfolding pool_create create_new write_all write_created ◌>>=◌ lift new_pool compute_hash hash
    bytes_eq mirror_pool.Core.Defs.validate mirror_pool.Tests.Host.put
creates_pool = refl

pool_create-pool_inspect_example :
    (config : PoolConfig) × (pool_inspect world output with_pool ≡ (with_pool, ok config))
    × IsPolicy digest (λ c. some (pool.put c [])) config
    × Shows world args config
pool_create-pool_inspect_example =
    pool_create-pool_inspect world (json_of_reads pool) args output directory {fs' = with_pool} refl
      creates_pool

-- The pool that `pool create` makes.
abbrev config : PoolConfig
config =
    let unhashed = new_pool world args (codes "authority") memo_program_id in
    record unhashed {
      configuration_hash = hash digest (codes "pool-config") (pool.put unhashed []);
    }

abbrev of_pool : FileSystem
of_pool = record directory {
  files = λ path.
      if bytes_eq path (codes "pool.json")
      then some (record { owner_only = false; contents = pool.put config [] })
      else none;
}

inspects : pool_inspect world (codes "pool.json") of_pool ≡ (of_pool, ok config)
unfolding pool_inspect read_json read ◌>>=◌ lift new_pool compute_hash hash bytes_eq
    mirror_pool.Core.Defs.validate mirror_pool.Tests.Host.put mirror_pool.Tests.Host.chunk
inspects = refl

no_round : of_pool.files output ≡ none
unfolding bytes_eq
no_round = refl

round_open_lem_example :
    ((7 + config.registration_duration_slots < u64_mod)
      × ((fs' : FileSystem) × (value : Round) × (round_open world
              (codes "pool.json")
              output
              5
              (some 7)
              of_pool
            ≡ (fs', ok tt))
          × (round_inspect world output fs' ≡ (fs', ok value))
          × Opened config 5 7 value))
    ⊎ ((u64_mod ≤ 7 + config.registration_duration_slots)
        × (round_open world (codes "pool.json") output 5 (some 7) of_pool
            ≡ (of_pool, err CliError.deadline_overflow)))
round_open_lem_example =
    round_open_lem world rounds-Writes (json_of_reads round) (codes "pool.json") output 5 7 of_pool
      config inspects no_round refl refl

locals-Reads : Reads locals
locals-Reads l text e =
    ap (read_tagged local_ticket) (sym (some-injective _ _ e))
    ∙ ap (λ (x : LocalTicket × Bytes). some x.0) (local_ticket.law l [])

locals-IsApart : IsApart world
locals-IsApart l text e = ap (read_plain ticket) (sym (some-injective _ _ e))

abbrev with_ticket : FileSystem
with_ticket = (ticket_create world (codes "input.json") output directory).0

creates_ticket : ticket_create world (codes "input.json") output directory ≡ (with_ticket, ok tt)
unfolding ticket_create read_json read create_new write_all write_created ◌>>=◌ lift hash bytes_eq
    mirror_pool.Client.Defs.create_join_ticket create mirror_pool.Tests.Host.put
    mirror_pool.Tests.Host.chunk
creates_ticket = refl

reads_bound : read_json world.bindings (codes "input.json") directory ≡ (directory, ok bound)
unfolding read_json read ◌>>=◌ lift bytes_eq mirror_pool.Tests.Host.put mirror_pool.Tests.Host.chunk
reads_bound = refl

ticket_create-ticket_submit_example :
    (t : JoinTicket) × (text : Bytes) × (with_ticket.files output
      ≡ some (record { owner_only = true; contents = text }))
    × (ticket_submit world output with_ticket ≡ (with_ticket, ok t))
    × (verify ticket_json scheme t 50 bound.binding ≡ ok tt)
ticket_create-ticket_submit_example =
    ticket_create-ticket_submit world scheme-Signs locals-Reads locals-IsApart (codes "input.json")
      output directory bound 50 {fs' = with_ticket} reads_bound refl (omega arith) creates_ticket

abbrev with_action : FileSystem
with_action = (action_prepare world (codes "input.json") output directory).0

prepares_action : action_prepare world (codes "input.json") output directory ≡ (with_action, ok tt)
unfolding action_prepare read_json read create_new write_all write_created ◌>>=◌ lift bytes_eq
    mirror_pool.Actions.Templates.prepare mirror_pool.Actions.Templates.prepare_budget
    mirror_pool.Actions.Templates.prepared mirror_pool.Tests.Host.put mirror_pool.Tests.Host.chunk
prepares_action = refl

action_prepare-action_simulate_example :
    (r : SimulationResult) × (action_simulate world output with_action ≡ (with_action, ok r))
    × (r.succeeded ≡ true)
    × (r.redacted_error ≡ none)
action_prepare-action_simulate_example =
    action_prepare-action_simulate world (json_of_reads action) (codes "input.json") output
      directory {fs' = with_action} refl prepares_action

abbrev input : File
input = record { owner_only = false; contents = binding_file.put bound [] }

holds_input : directory.files (codes "input.json") ≡ some input
unfolding bytes_eq
holds_input = refl

elsewhere : is_replaced (evaluate (some output) (7 ∷ [])) (codes "input.json") ≡ false
unfolding bytes_eq
elsewhere = refl

run-Keeps_example :
    (run world (evaluate (some output) (7 ∷ [])) directory).0.files (codes "input.json")
    ≡ some input
run-Keeps_example =
    run-Keeps world (evaluate (some output) (7 ∷ [])) directory (codes "input.json") input
      holds_input elsewhere
