-- ===== src/Program/Dispatch.antt =====
-- `process_instruction` of programs/mirror-pool-program: every instruction on a round's life that
-- succeeds is a step of the relation `Transition`.
use mirror_pool.Prelude.{
  ℕ, ◌≡◌, not, List, [], ◌∷◌, Bytes, bytes_eq, bytes_eq_iff, ok, arith, refl, sym, ◌∙◌, >>=-eq-ok,
  ok-injective, guarded,
}
use mirror_pool.Program.Runtime.{
  Pubkey, State, PoolAccount, RoundAccount, CoordinationInstruction, publish_cohort_root,
  seal_round, schedule_release, begin_execution_window, finalize_round, cancel_round, AccountInfo,
  Bank, Host, require_owned, read_account,
}
use mirror_pool.Program.Admin.{first_account, refuses_begin, begin, dispatch}
use mirror_pool.Program.Transitions.{begins}
use mirror_pool.Program.Conditions.{begin_conditions}
use mirror_pool.Program.Effects.{RoundTrips, write_account-ok}
use mirror_pool.Program.Refinement.{
  Applies, Effect, publish-Effect, seal-Effect, schedule-Effect, finalize-Effect, cancel-Effect,
}

-- The instructions of an authority that change a round.
pub data IsAdmin : CoordinationInstruction → Type 0 where
  publishing : (root : Bytes) (count : ℕ) → IsAdmin (publish_cohort_root root count)
  sealing : IsAdmin seal_round
  scheduling : (release : ℕ) → IsAdmin (schedule_release release)
  finishing : (metrics : Bytes) → IsAdmin (finalize_round metrics)
  cancelling : IsAdmin cancel_round

module _ (h : Host) (law : RoundTrips h.rounds) where
  -- An authority's instruction that succeeds was signed by the authority of the pool it names, found
  -- both accounts owned by the program, and took the round it names from what the account held
  -- before to what it holds after by one `Transition` under that pool at the slot of the clock; every
  -- other account, and the owner, lamports and size of this one, are unchanged. Rounds are assumed
  -- to be read back from their bytes.
  pub dispatch-Effect :
      (b : Bank) (program_id : Pubkey) (accounts : List AccountInfo) (now : ℕ)
      (i : CoordinationInstruction) {b' : Bank}
      → IsAdmin i
      → h.clock_slot ≡ ok now
      → dispatch h b program_id accounts i ≡ ok b'
      → Effect h b b' program_id accounts now i
  unfolding dispatch
  dispatch-Effect b program_id accounts now i (publishing root count) clock e =
      (publish-Effect h law b program_id accounts root count now e).0
  dispatch-Effect b program_id accounts now i sealing clock e =
      (seal-Effect h law b program_id accounts now e).0
  dispatch-Effect b program_id accounts now i (scheduling release) clock e =
      schedule-Effect h law b program_id accounts release now clock e
  dispatch-Effect b program_id accounts now i (finishing metrics) clock e =
      finalize-Effect h law b program_id accounts metrics now clock e
  dispatch-Effect b program_id accounts now i cancelling clock e =
      cancel-Effect h law b program_id accounts now e

  -- Anyone may open the window: `BeginExecutionWindow` needs no signer and no pool. Where it
  -- succeeds, the first account, which the program owns, went from ReleaseScheduled to
  -- ExecutionWindow at a slot within the announced window, and no other account was changed.
  pub begin-Applies :
      (b : Bank) (program_id : Pubkey) (accounts : List AccountInfo) (now : ℕ) (pool : PoolAccount)
      {b' : Bank}
      → h.clock_slot ≡ ok now
      → begin h b program_id accounts ≡ ok b'
      → (round_info : AccountInfo) × (rest : List AccountInfo) × (r : RoundAccount)
        × (r' : RoundAccount) × (accounts ≡ round_info ∷ rest)
        × ((b round_info.key).owner ≡ program_id)
        × Applies h b b' round_info now pool r r' begin_execution_window
  unfolding begin first_account require_owned
  begin-Applies b program_id [] now pool clock e = absurd (ground arith)
  begin-Applies b program_id (round_info ∷ rest) now pool clock e =
      let (owned, e₁) = guarded (not (bytes_eq (b round_info.key).owner program_id)) _ _ e in
      let (r, round_read, e₂) = >>=-eq-ok (read_account h.rounds b round_info) _ e₁ in
      let (slot, clock', e₃) = >>=-eq-ok h.clock_slot _ e₂ in
      let same : slot ≡ now = ok-injective (sym clock' ∙ clock) in
      let (passed, written) = guarded (refuses_begin r slot) _ _ e₃ in
      let (state, early, late) = begin_conditions r slot passed in
      (
        round_info,
        rest,
        r,
        record r { state = State.execution_window },
        refl,
        ground (arith, bytes_eq_iff (b round_info.key).owner program_id),
        record {
          before = round_read;
          permitted = begins state (omega arith) (omega arith) refl;
          after = write_account-ok h.rounds law b round_info _ written;
        },
      )
