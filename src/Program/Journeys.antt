-- ===== src/Program/Journeys.antt =====
-- Sequences of transactions on a round of programs/mirror-pool-program, each at a slot of its own.
use mirror_pool.Prelude.{
  ℕ, ◌≡◌, ◌≢◌, List, [], ◌∷◌, Result, ok, ◌>>=◌, length, refl, ◌∙◌, arith, ◌≤◌, All,
}
use mirror_pool.Program.Runtime.{
  Pubkey, PoolAccount, RoundAccount, CoordinationInstruction, publish_cohort_root, finalize_round,
  ProgramError, AccountInfo, Bank, Codec, Host,
}
use mirror_pool.Program.Admin.{dispatch}
use mirror_pool.Program.Transitions.{
  Transition, publishes, seals, schedules, begins, finalizes, cancels,
}
use mirror_pool.Program.Effects.{RoundTrips, Rewrites, read_account-local}
use mirror_pool.Program.Performing.{Placed, Fits, IsSized, named_accounts, dispatch_permitted}

-- The transactions: for each the slot of the clock and the instruction.
abbrev pub Journey : Type 0
Journey = List (ℕ × CoordinationInstruction)

-- `Permits pool r journey r'`: under `pool` every step is a transition, the first from `r`, the last
-- to `r'`.
pub data Permits (pool : PoolAccount) : RoundAccount → Journey → RoundAccount → Type 0 where
  arrives : {r : RoundAccount} → Permits pool r [] r
  goes :
      {r s t : RoundAccount} (now : ℕ) (i : CoordinationInstruction) {rest : Journey}
      → Transition now pool r s i
      → Permits pool s rest t
      → Permits pool r ((now, i) ∷ rest) t

-- One transaction after the other, each on the accounts as the last one left them.
unfoldable pub run :
    Host
    → Bank
    → Pubkey
    → (authority pool_info round_info : AccountInfo) → Journey
    → Result Bank ProgramError
run h b program_id authority pool_info round_info [] = ok b
run h b program_id authority pool_info round_info ((now, i) ∷ rest) = do
  b' ←
      dispatch (record h { clock_slot = ok now }) b program_id
        (named_accounts authority pool_info round_info i) i
  run h b' program_id authority pool_info round_info rest

-- The arrays that an instruction brings have no more than their 32 bytes.
abbrev pub BringsSized : CoordinationInstruction → Type 0
BringsSized (publish_cohort_root root count) = length root ≤ 32
BringsSized (finalize_round metrics) = length metrics ≤ 32
BringsSized _ = Unit

abbrev pub AllBringSized : Journey → Type 0
AllBringSized = All (λ (step : ℕ × CoordinationInstruction). BringsSized step.1)

Transition-IsSized :
    {now : ℕ} {pool : PoolAccount} {r r' : RoundAccount} {i : CoordinationInstruction}
    → Transition now pool r r' i
    → BringsSized i
    → IsSized r
    → IsSized r'
Transition-IsSized (publishes root count merkle state low high set fresh e) brings s = ground arith
Transition-IsSized (seals state enough e) brings s = ground arith
Transition-IsSized (schedules release state unset past low high fits e) brings s = ground arith
Transition-IsSized (begins state early late e) brings s = ground arith
Transition-IsSized (finalizes metrics state late set e) brings s = ground arith
Transition-IsSized (cancels running e) brings s = ground arith

Transition-pool :
    {now : ℕ} {pool : PoolAccount} {r r' : RoundAccount} {i : CoordinationInstruction}
    → Transition now pool r r' i
    → r'.pool ≡ r.pool
Transition-pool (publishes root count merkle state low high set fresh e) = rw e refl
Transition-pool (seals state enough e) = rw e refl
Transition-pool (schedules release state unset past low high fits e) = rw e refl
Transition-pool (begins state early late e) = rw e refl
Transition-pool (finalizes metrics state late set e) = rw e refl
Transition-pool (cancels running e) = rw e refl

module _ {T : Type 0} (c : Codec T) {info : AccountInfo} where
  Rewrites-trans :
      {b b' b'' : Bank} {x y : T}
      → Rewrites c b b' info x
      → Rewrites c b' b'' info y
      → Rewrites c b b'' info y
  Rewrites-trans first second = record {
    reads = second.reads;
    others = λ k ne. second.others k ne ∙ first.others k ne;
    owner = second.owner ∙ first.owner;
    lamports = second.lamports ∙ first.lamports;
    size = second.size ∙ first.size;
  }

module _ (h : Host) (law : RoundTrips h.rounds) {program_id : Pubkey}
    {authority pool_info round_info : AccountInfo} {pool : PoolAccount}
    (apart : pool_info.key ≢ round_info.key) where
  -- After a transition of the round the accounts still stand as an authority's instruction needs them.
  Placed-Rewrites :
      {b b' : Bank} {r r' : RoundAccount}
      → Placed h.pools h.rounds b program_id authority pool_info round_info pool r
      → r'.pool ≡ r.pool
      → Rewrites h.rounds b b' round_info r'
      → Placed h.pools h.rounds b' program_id authority pool_info round_info pool r'
  Placed-Rewrites {b} {b'} p same after =
      let kept : b' pool_info.key ≡ b pool_info.key = after.others pool_info.key apart in
      record {
        signed = p.signed;
        by_authority = p.by_authority;
        of_pool = same ∙ p.of_pool;
        pool_owned = rw kept p.pool_owned;
        round_owned = after.owner ∙ p.round_owned;
        pool_read = read_account-local h.pools b b' pool_info kept ∙ p.pool_read;
        round_read = after.reads;
      }

  -- A sequence of instructions of a round's life, at any slots, in which each step is a transition
  -- that the pool permits, runs to its end without an error: it leaves the last round in the
  -- round's account, keeps that account's owner, lamports and size, and changes no other account.
  -- It is assumed that the authority signs for its own pool and a round of that pool, in two
  -- different accounts that the program owns; that the arrays of the round and of the instructions
  -- have at most 32 bytes; and that every such round fits its account and is read back from its
  -- bytes.
  pub run_permitted :
      (b : Bank) (journey : Journey) {r r' : RoundAccount}
      → Placed h.pools h.rounds b program_id authority pool_info round_info pool r
      → Fits h.rounds (length (b round_info.key).contents)
      → IsSized r
      → AllBringSized journey
      → Permits pool r journey r'
      → (b' : Bank) × (run h b program_id authority pool_info round_info journey ≡ ok b')
        × Rewrites h.rounds b b' round_info r'
  unfolding run
  run_permitted b [] p room sized brings arrives = (
    b,
    refl,
    record {
      reads = p.round_read;
      others = λ k ne. refl;
      owner = refl;
      lamports = refl;
      size = refl;
    },
  )
  run_permitted b ((now, i) ∷ rest) p room sized (brings, others) (goes _ _ step further) =
      let sized' = Transition-IsSized step brings sized in
      let (b', done, after) =
        dispatch_permitted (record h { clock_slot = ok now }) law p room now i refl sized' step in
      let (b'', finished, last) =
        run_permitted b' rest (Placed-Rewrites p (Transition-pool step) after) (rw after.size room)
          sized' others further in
      (b'', rw done finished, Rewrites-trans h.rounds after last)
