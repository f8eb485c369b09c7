-- ===== src/CommandLine/Preparing.antt =====
-- The commands `action prepare` and `action simulate` of crates/mirror-pool-cli/src/main.rs, one after
-- the other.
use mirror_pool.Prelude.{
  ◌≤◌, ◌≡◌, true, false, none, Bytes, leb, ◌/◌, bytes_eq, ok, refl, ◌∙◌, ap, arith,
}
use mirror_pool.Actions.Defs.{PreparedAction, SimulationResult}
use mirror_pool.Actions.Templates.{
  Template, memo_template, compute_budget_shape_template, local_token_housekeeping_template,
  local_stake_lifecycle_template, identifier, required_program_ids, simulate, bounded_simulation,
}
use mirror_pool.Actions.Policy.{IsWithin, prepare-IsWithin}
use mirror_pool.CommandLine.Files.{FileSystem, lift, read_json}
use mirror_pool.CommandLine.Commands.{World}
use mirror_pool.CommandLine.Actions.{template_for, template_named, action_prepare, action_simulate}
use mirror_pool.CommandLine.Steps.{
  >>=-goes, >>=-done, read_json-same, lift-done, lift-goes, reject-ok, ok-reject, read_json-some,
  write_created-Wrote,
}
use mirror_pool.CommandLine.Tickets.{Reads}

-- The name and the program of a template find the template.
template_named-identifier :
    (t : Template) → template_named (identifier t) (required_program_ids t) ≡ ok t
unfolding template_named bytes_eq
template_named-identifier (memo_template id) = refl
template_named-identifier (compute_budget_shape_template id) = refl
template_named-identifier (local_token_housekeeping_template id) = refl
template_named-identifier (local_stake_lifecycle_template id) = refl

-- The result of the simulation of an action.
abbrev simulated : Template → PreparedAction → SimulationResult
simulated (memo_template id) a = record {
  succeeded = leb a.estimated_size 1232;
  estimated_fee_lamports = 5000;
  compute_units_consumed = 4000;
  redacted_error = none;
}
simulated t a = record {
  succeeded = true;
  estimated_fee_lamports = 5000;
  compute_units_consumed = a.compute_units / 2;
  redacted_error = none;
}

simulate-small :
    (t : Template) (a : PreparedAction)
    → a.estimated_size ≤ 1232
    → (simulate t a ≡ ok (simulated t a))
      × ((simulated t a).succeeded ≡ true)
      × ((simulated t a).redacted_error ≡ none)
unfolding simulate bounded_simulation
simulate-small (memo_template id) a small = (refl, ground arith, refl)
simulate-small (compute_budget_shape_template id) a small = (ground arith, refl, refl)
simulate-small (local_token_housekeeping_template id) a small = (ground arith, refl, refl)
simulate-small (local_stake_lifecycle_template id) a small = (ground arith, refl, refl)

module _ (w : World) where
  -- `action simulate` of an action that was prepared.
  action_simulate-prepared :
      (t : Template) (a : PreparedAction) (path : Bytes) (fs : FileSystem)
      → IsWithin t a
      → read_json w.actions path fs ≡ (fs, ok a)
      → (r : SimulationResult) × (action_simulate w path fs ≡ (fs, ok r))
        × (r.succeeded ≡ true)
        × (r.redacted_error ≡ none)
  unfolding action_simulate lift
  action_simulate-prepared t a path fs within known =
      let (gives, succeeded, silent) = simulate-small t a within.size in
      let named : template_named a.template_id a.program_ids ≡ ok t =
        ap (λ name. template_named name a.program_ids) within.template
        ∙ ap (template_named (identifier t)) within.programs
        ∙ template_named-identifier t in
      (
        simulated t a,
        >>=-goes (read_json w.actions path) known _
            ∙ lift-goes named _ fs
            ∙ ap (λ x. (fs, x)) (ok-reject gives),
        succeeded,
        silent,
      )

  -- `action simulate` finds the template of the action that `action prepare` wrote, and its simulation
  -- succeeds, for every kind of parameters. It is assumed that actions read back from their text.
  pub action_prepare-action_simulate :
      (reads : Reads w.actions) (config output : Bytes) (fs : FileSystem) {fs' : FileSystem}
      → fs.readable output ≡ true
      → action_prepare w config output fs ≡ (fs', ok tt)
      → (r : SimulationResult) × (action_simulate w output fs' ≡ (fs', ok r))
        × (r.succeeded ≡ true)
        × (r.redacted_error ≡ none)
  unfolding action_prepare
  action_prepare-action_simulate reads config output fs {fs'} readable h =
      let (parameters, fs₁, read_there, h₁) = >>=-done (read_json w.parameters config) _ h in
      let (id, parsed, h₂) = lift-done _ _ h₁ in
      let (a, made, h₃) = lift-done _ _ h₂ in
      let (text, encoded, file) = write_created-Wrote w.actions false output a fs₁ h₃ in
      let t = template_for parameters id in
      action_simulate-prepared t a output fs' (prepare-IsWithin t parameters (reject-ok _ made)) (
        read_json-some w.actions fs' output
          (file.readable
            ∙ ap (λ (x : FileSystem). x.readable output)
                (read_json-same w.parameters fs config read_there)
            ∙ readable)
          file.written (reads a text encoded))
