-- ===== src/Tests/Building.antt =====
-- Examples for the builders of instructions in crates/mirror-pool-client, with a toy encoding of two
-- instructions, and program addresses that spell their seeds.
use mathlib.Core.Option.{some-injective}
use mirror_pool.Prelude.{
  ℕ, ◌≡◌, true, false, Option, none, some, List, [], ◌∷◌, ◌++◌, Bytes, codes, ok, refl, ap, sym,
  ◌∙◌, arith, if◌then◌else◌, ◌==◌,
}
use mirror_pool.Program.Runtime.{Pubkey, CoordinationInstruction, Host}
use mirror_pool.Program.Admin.{process_instruction}
use mirror_pool.Client.Instructions.{
  Instruction, meta, meta_readonly, initialize_pool_instruction, open_round_instruction,
}
use mirror_pool.Client.Building.{Finds, Reads, open_at, open_round_instruction-process}
use mirror_pool.Tests.Host.{
  put, chunk, chunk-put, backend_code, backend_of, backend_of-backend_code, host_at,
}
use mirror_pool.Tests.OnChain.{program}
use mirror_pool.Tests.Openings.{with_pool, params}

abbrev spelled : List Bytes → Pubkey → Pubkey
spelled [] program_id = program_id
spelled (seed ∷ seeds) program_id = seed ++ spelled seeds program_id

abbrev find : List Bytes → Pubkey → Pubkey × ℕ
find seeds program_id = (spelled (seeds ++ ((255 ∷ []) ∷ [])) program_id, 255)

abbrev written : CoordinationInstruction → Option Bytes
written (CoordinationInstruction.initialize_pool p) = some (
    0
    ∷ p.min_participants
    ∷ p.max_participants
    ∷ p.min_release_delay
    ∷ p.max_release_delay
    ∷ p.execution_window
    ∷ backend_code p.backend
    ∷ p.bump
    ∷ put p.pool_id (put p.template_hash []))
written (CoordinationInstruction.open_round id deadline template bump) =
    some (1 ∷ id ∷ deadline ∷ bump ∷ put template [])
written _ = none

abbrev read_initialize : Bytes → Option CoordinationInstruction
read_initialize (low ∷ high ∷ early ∷ late ∷ window ∷ backend ∷ bump ∷ xs) =
    let (id, xs₁) = chunk xs in
    let (template, _) = chunk xs₁ in
    some (
      CoordinationInstruction.initialize_pool (record {
        pool_id = id;
        template_hash = template;
        min_participants = low;
        max_participants = high;
        min_release_delay = early;
        max_release_delay = late;
        execution_window = window;
        backend = backend_of backend;
        bump = bump;
      }))
read_initialize _ = none

abbrev read_open : Bytes → Option CoordinationInstruction
read_open (id ∷ deadline ∷ bump ∷ xs) =
    let (template, _) = chunk xs in
    some (CoordinationInstruction.open_round id deadline template bump)
read_open _ = none

abbrev read_instruction : Bytes → Option CoordinationInstruction
read_instruction [] = none
read_instruction (tag ∷ xs) = if tag == 0 then read_initialize xs else read_open xs

abbrev host : Host
host = record (host_at 10) {
  create_program_address = λ seeds program_id. some (spelled seeds program_id);
  try_from_slice = read_instruction;
}

host-Finds : Finds host find
host-Finds seeds program_id = refl

host-Reads : Reads host written
host-Reads (CoordinationInstruction.initialize_pool p) bytes e =
    ap read_instruction (sym (some-injective _ _ e)) ∙ simp (chunk-put, backend_of-backend_code)
host-Reads (CoordinationInstruction.open_round id deadline template bump) bytes e =
    ap read_instruction (sym (some-injective _ _ e)) ∙ simp (chunk-put)
host-Reads (CoordinationInstruction.register_transparent key bump) bytes e = absurd (ground arith)
host-Reads (CoordinationInstruction.publish_cohort_root root count) bytes e = absurd (ground arith)
host-Reads CoordinationInstruction.seal_round bytes e = absurd (ground arith)
host-Reads (CoordinationInstruction.schedule_release release) bytes e = absurd (ground arith)
host-Reads CoordinationInstruction.begin_execution_window bytes e = absurd (ground arith)
host-Reads (CoordinationInstruction.finalize_round metrics) bytes e = absurd (ground arith)
host-Reads CoordinationInstruction.cancel_round bytes e = absurd (ground arith)
host-Reads CoordinationInstruction.close_round bytes e = absurd (ground arith)

abbrev initialization : Instruction
initialization = record {
  program_id = program;
  accounts =
      meta (1 ∷ []) true
      ∷ meta (find (codes "pool" ∷ params.pool_id ∷ []) program).0 false
      ∷ meta_readonly (0 ∷ []) false
      ∷ [];
  contents =
      0
      ∷ params.min_participants
      ∷ params.max_participants
      ∷ params.min_release_delay
      ∷ params.max_release_delay
      ∷ params.execution_window
      ∷ 0
      ∷ 255
      ∷ put params.pool_id (put params.template_hash []);
}

builds_initialization :
    initialize_pool_instruction host find written program
      (1 ∷ [])
      params.pool_id
      params.template_hash
      params.min_participants
      params.max_participants
      params.min_release_delay
      params.max_release_delay
      params.execution_window
      params.backend
    ≡ ok (initialization, (find (codes "pool" ∷ params.pool_id ∷ []) program).0)
unfolding initialize_pool_instruction
builds_initialization = refl

abbrev opening : Instruction
opening = record {
  program_id = program;
  accounts =
      meta (1 ∷ []) true
      ∷ meta (2 ∷ []) false
      ∷ meta (find (codes "round" ∷ (2 ∷ []) ∷ (1 ∷ []) ∷ []) program).0 false
      ∷ meta_readonly (0 ∷ []) false
      ∷ [];
  contents = 1 ∷ 1 ∷ 20 ∷ 255 ∷ put (8 ∷ []) [];
}

builds_opening :
    open_round_instruction host find written program (1 ∷ []) (2 ∷ []) 1 20 (8 ∷ [])
    ≡ ok (opening, (find (codes "round" ∷ (2 ∷ []) ∷ (1 ∷ []) ∷ []) program).0)
unfolding open_round_instruction
builds_opening = refl

open_round_instruction-process_example :
    let address = (find (codes "round" ∷ (2 ∷ []) ∷ (1 ∷ []) ∷ []) program).0 in
    (address ≡ address)
    × (process_instruction host with_pool program opening.accounts opening.contents
        ≡ open_at host with_pool program (1 ∷ []) (2 ∷ []) address 1 20 (8 ∷ []) 255)
open_round_instruction-process_example =
    open_round_instruction-process host find written host-Finds host-Reads with_pool program
      (1 ∷ []) (2 ∷ []) 1 20 (8 ∷ []) builds_opening
