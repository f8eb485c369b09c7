-- ===== src/CommandLine/Actions.antt =====
-- crates/mirror-pool-cli/src/main.rs: the commands on actions, and the commands that are modelled together. What they print
-- is left out.
use mirror_pool.Prelude.{
  ℕ, Bool, not, ◌||◌, Option, List, [], ◌∷◌, Bytes, codes, bytes_eq, if◌then◌else◌, Result, ok, err,
}
use mirror_pool.Actions.Defs.{
  ActionParameters, memo, compute_budget, local_token_housekeeping, local_stake_lifecycle,
  SimulationResult,
}
use mirror_pool.Actions.Templates.{
  Template, memo_template, compute_budget_shape_template, local_token_housekeeping_template,
  local_stake_lifecycle_template, prepare, simulate,
}
use mirror_pool.Client.Defs.{Rpc, Wallet, LocalExecutionReceipt, execute_local_memo}
use mirror_pool.CommandLine.Files.{
  CliError, Io, ◌>>=◌, ◌>>◌, lift, reject, require, bail_if, read, read_json, write_new_json,
}
use mirror_pool.CommandLine.Commands.{
  PoolArgs, World, memo_program_id, pool_create, pool_inspect, round_open, round_inspect,
  ticket_create, ticket_submit, proof_verify, evaluate_output,
}

-- The program of the template for some parameters.
abbrev pub program_text : ActionParameters → Bytes
program_text (memo text) = memo_program_id
program_text (compute_budget units fee) = codes "ComputeBudget111111111111111111111111111111"
program_text (local_token_housekeeping amount close) =
    codes "TokenkegQfeZyiNwAJbNbGKPFXCWuBvf9Ss623VQ5DA"
program_text (local_stake_lifecycle lamports deactivate) =
    codes "Stake11111111111111111111111111111111111111"

abbrev pub template_for : ActionParameters → Bytes → Template
template_for (memo text) id = memo_template id
template_for (compute_budget units fee) id = compute_budget_shape_template id
template_for (local_token_housekeeping amount close) id = local_token_housekeeping_template id
template_for (local_stake_lifecycle lamports deactivate) id = local_stake_lifecycle_template id

-- A template with the first program id of an action.
abbrev pub on_first : (Bytes → Template) → List Bytes → Result Template CliError
on_first make [] = err CliError.missing_program_id
on_first make (id ∷ ids) = ok (make id)

-- The template that `action simulate` makes for a template's name.
unfoldable pub template_named : Bytes → List Bytes → Result Template CliError
template_named name program_ids =
    if bytes_eq name (codes "memo-v1")
    then on_first memo_template program_ids
    else if bytes_eq name (codes "compute-budget-shape-v1")
    then on_first compute_budget_shape_template program_ids
    else if bytes_eq name (codes "local-token-housekeeping-v1")
    then on_first local_token_housekeeping_template program_ids
    else if bytes_eq name (codes "local-stake-lifecycle-v1")
    then on_first local_stake_lifecycle_template program_ids
    else err CliError.unknown_template

module _ (w : World) where
  unfoldable pub action_prepare : (config output : Bytes) → Io Unit
  unfolding prepare
  action_prepare config output = do
    parameters ← read_json w.parameters config
    id ← lift (require (w.from_str (program_text parameters)) CliError.invalid_key)
    prepared ← lift (reject (prepare (template_for parameters id) parameters))
    write_new_json w.actions output prepared

  -- The result that `action simulate` prints.
  unfoldable pub action_simulate : Bytes → Io SimulationResult
  unfolding template_named simulate
  action_simulate path = do
    prepared ← read_json w.actions path
    template ← lift (template_named prepared.template_id prepared.program_ids)
    lift (reject (simulate template prepared))

  unfoldable pub action_execute :
      (public : Bool)
      → Rpc
      → Wallet
      → (host : Option Bytes) → (action : Bytes) → (confirm enable_sending : Bool)
      → (window_start window_end : ℕ) → Io LocalExecutionReceipt
  unfolding execute_local_memo
  action_execute public rpc wallet host action confirm enable_sending window_start window_end = do
    lift (bail_if (not confirm || not enable_sending) CliError.not_confirmed)
    prepared ← read_json w.actions action
    lift (
        reject (
          execute_local_memo public rpc wallet host prepared window_start window_end confirm
            enable_sending))

-- The commands pool, round, ticket, proof, action, observe and evaluate, the last with the text of its
-- report. The commands init, doctor, report, evidence and coordinator are left out.
pub data Command : Type 0 where
  create_pool : PoolArgs → (output : Bytes) → Command
  inspect_pool : (config : Bytes) → Command
  open_round : (pool output : Bytes) → (round_id : ℕ) → (current_slot : Option ℕ) → Command
  inspect_round : (config : Bytes) → Command
  create_ticket : (binding output : Bytes) → Command
  submit_ticket : (ticket : Bytes) → Command
  verify_proof : (proof root : Bytes) → (round_id : ℕ) → Command
  prepare_action : (config output : Bytes) → Command
  simulate_action : (action : Bytes) → Command
  execute_action :
      (public : Bool)
      → Rpc
      → Wallet
      → (host : Option Bytes) → (action : Bytes) → (confirm enable_sending : Bool)
      → (window_start window_end : ℕ) → Command
  observe : (input : Bytes) → Command
  evaluate : (output : Option Bytes) → (text : Bytes) → Command

-- The value of a command is printed.
abbrev pub printed : {A : Type 0} → Io A → Io Unit
printed m = m >>= λ value. lift (ok tt)

-- The `match` of `main` on these commands.
unfoldable pub run : World → Command → Io Unit
unfolding pool_create pool_inspect round_open round_inspect ticket_create ticket_submit proof_verify
    action_prepare action_simulate action_execute evaluate_output read
run w (create_pool args output) = pool_create w args output
run w (inspect_pool config) = printed (pool_inspect w config)
run w (open_round pool output round_id current_slot) =
    round_open w pool output round_id current_slot
run w (inspect_round config) = printed (round_inspect w config)
run w (create_ticket binding output) = ticket_create w binding output
run w (submit_ticket ticket) = printed (ticket_submit w ticket)
run w (verify_proof proof root round_id) = proof_verify w proof root round_id
run w (prepare_action config output) = action_prepare w config output
run w (simulate_action action) = printed (action_simulate w action)
run w
      (execute_action public rpc wallet host action confirm enable_sending window_start
        window_end) =
    printed (
      action_execute w public rpc wallet host action confirm enable_sending window_start window_end)
run w (observe input) = printed (read input)
run w (evaluate output text) = evaluate_output w output text
