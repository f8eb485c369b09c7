-- ===== src/Program/Running.antt =====
-- A round account of programs/mirror-pool-program under sequences of calls of `dispatch`, each at a
-- slot of its own.
use mathlib.Core.Path.{subst}
use mirror_pool.Prelude.{
  ℕ, ◌≤◌, ◌≡◌, ◌⊎◌, inl, inr, List, [], ◌∷◌, Bytes, ok, refl, sym, ap, ◌∙◌, bytes_decide,
  ok-injective, false, ◌+◌,
}
use mirror_pool.Program.Runtime.{
  Pubkey, Backend, PoolAccount, RoundAccount, CoordinationInstruction, open_round,
  register_transparent, begin_execution_window, AccountInfo, Bank, Codec, Host, read_account,
}
use mirror_pool.Program.Handlers.{count_participant}
use mirror_pool.Program.Admin.{dispatch}
use mirror_pool.Program.Effects.{RoundTrips, read_account-local}
use mirror_pool.Program.Refinement.{Applies}
use mirror_pool.Program.Dispatch.{IsAdmin, dispatch-Effect, begin-Applies}
use mirror_pool.Program.Opening.{new_round-IsOpened, open_round-Opening}
use mirror_pool.Program.Registering.{register-Registration}
use mirror_pool.Program.Life.{
  Step, instructed, Reach, here, next, WellFormed, Reach-WellFormed, rank, Fixed, Reach-Fixed,
}

-- The runtime at a slot.
abbrev pub at_slot : Host → ℕ → Host
at_slot h now = record h { clock_slot = ok now }

-- The calls that a round under `key` is followed through: an authority's instruction on any accounts,
-- the opening of any window, and a registration in this round. Closing is not among them.
pub data IsFollowed (key : Pubkey) : List AccountInfo → CoordinationInstruction → Type 0 where
  by_authority :
      (accounts : List AccountInfo) (i : CoordinationInstruction)
      → IsAdmin i
      → IsFollowed key accounts i
  by_anyone : (accounts : List AccountInfo) → IsFollowed key accounts begin_execution_window
  by_participant :
      (payer pool_info round_info : AccountInfo) (rest : List AccountInfo)
      (coordination_key : Bytes) (bump : ℕ)
      → round_info.key ≡ key
      → IsFollowed key
          (payer ∷ pool_info ∷ round_info ∷ rest)
          (register_transparent coordination_key bump)

-- From `b` to the last bank by such calls, which all succeed, and by whatever else leaves the account
-- of the round as it is.
pub data Calls (h : Host) (program_id key : Pubkey) (b : Bank) : Bank → Type 0 where
  none_yet : Calls h program_id key b b
  then_call :
      {b₁ b₂ : Bank} (now : ℕ) (accounts : List AccountInfo) (i : CoordinationInstruction)
      → Calls h program_id key b b₁
      → IsFollowed key accounts i
      → dispatch (at_slot h now) b₁ program_id accounts i ≡ ok b₂
      → Calls h program_id key b b₂
  then_elsewhere :
      {b₁ b₂ : Bank} → Calls h program_id key b b₁ → b₂ key ≡ b₁ key → Calls h program_id key b b₂

-- The key of the third account.
abbrev third_key : List AccountInfo → Pubkey
third_key (_ ∷ _ ∷ info ∷ _) = info.key
third_key _ = []

-- `BeginExecutionWindow` looks at no pool, so any will do.
abbrev some_pool : PoolAccount
some_pool = record {
  version = 1;
  bump = 0;
  authority = [];
  pool_id = [];
  template_hash = [];
  min_participants = 2;
  max_participants = 2;
  min_release_delay = 0;
  max_release_delay = 0;
  execution_window = 1;
  backend = Backend.merkle_cohort;
  next_round = 0;
  paused = false;
}

read_account-key :
    {T : Type 0} (c : Codec T) (b : Bank) (i j : AccountInfo)
    → i.key ≡ j.key
    → read_account c b i ≡ read_account c b j
unfolding read_account
read_account-key c b i j same = rw same

module _ (h : Host) (law : RoundTrips h.rounds) (pools_law : RoundTrips h.pools)
    (participants_law : RoundTrips h.participants) (program_id : Pubkey)
    (round_info : AccountInfo) where
  -- The round of the account in a bank.
  abbrev pub Holds : Bank → RoundAccount → Type 0
  Holds b r = read_account h.rounds b round_info ≡ ok r

  -- A call moved the round by one step at most.
  abbrev Moves : Bank → RoundAccount → Type 0
  Moves b' r = (r' : RoundAccount) × Holds b' r' × ((r' ≡ r) ⊎ Step r r')

  applied-Moves :
      (b b' : Bank) (info : AccountInfo) (now : ℕ) (pool : PoolAccount) (r s s' : RoundAccount)
      (i : CoordinationInstruction)
      → Holds b r
      → Applies (at_slot h now) b b' info now pool s s' i
      → Moves b' r
  applied-Moves b b' info now pool r s s' i held a = elim (bytes_decide round_info.key info.key) [
    | inl same ↦
        let was : s ≡ r =
          ok-injective
            (sym a.before ∙ read_account-key h.rounds b info round_info (sym same) ∙ held) in
        (
          s',
          read_account-key h.rounds b' round_info info same ∙ a.after.reads,
          inr (instructed now pool i (rw (← was) a.permitted)),
        )
    | inr other ↦ (
      r,
      read_account-local h.rounds b b' round_info (a.after.others round_info.key other) ∙ held,
      inl refl,
    )
  ]

  called-Moves :
      (b b' : Bank) (now : ℕ) (accounts : List AccountInfo) (i : CoordinationInstruction)
      (r : RoundAccount)
      → Holds b r
      → IsFollowed round_info.key accounts i
      → dispatch (at_slot h now) b program_id accounts i ≡ ok b'
      → Moves b' r
  unfolding dispatch
  called-Moves b b' now accounts i r held (by_authority _ _ admin) e =
      let effect = dispatch-Effect (at_slot h now) law b program_id accounts now i admin refl e in
      applied-Moves b b' effect.round_info now effect.pool r effect.r effect.r' i held
        effect.applies
  called-Moves b b' now accounts i r held (by_anyone _) e =
      let (info, _, s, s', _, _, applies) =
        begin-Applies (at_slot h now) law b program_id accounts now some_pool refl e in
      applied-Moves b b' info now some_pool r s s' begin_execution_window held applies
  called-Moves b b' now accounts i r held
        (by_participant payer pool_info info rest coordination_key bump same) e =
      let (_, _, round, _, _, _, pool, s, named, _, _, _, _, read, done) =
        register-Registration (at_slot h now) law participants_law b program_id accounts
          coordination_key bump now refl e in
      let there : round.key ≡ round_info.key = ap third_key (sym named) ∙ same in
      let was : s ≡ r =
        ok-injective (sym read ∙ read_account-key h.rounds b round round_info there ∙ held) in
      (
        count_participant pool s (s.accepted_count + 1),
        read_account-key h.rounds b' round_info round (sym there) ∙ done.counted,
        inr (
            subst (λ r. Step r (count_participant pool s (s.accepted_count + 1))) was
              done.one_step),
      )

  -- The steps that a sequence of calls took the round through.
  pub Calls-Reach :
      {b b' : Bank} (r : RoundAccount)
      → Holds b r
      → Calls h program_id round_info.key b b'
      → (r' : RoundAccount) × Holds b' r' × Reach r r'
  Calls-Reach r held none_yet = (r, held, here)
  Calls-Reach r held (then_call now accounts i calls followed e) =
      let (s, held_s, reached) = Calls-Reach r held calls in
      let (t, held_t, moved) = called-Moves _ _ now accounts i s held_s followed e in
      (
        t,
        held_t,
        elim moved [
          | inl same ↦ subst (λ t. Reach r t) (sym same) reached
          | inr step ↦ next reached step
        ],
      )
  Calls-Reach r held (then_elsewhere calls same) =
      let (s, held_s, reached) = Calls-Reach r held calls in
      (s, read_account-local h.rounds _ _ round_info same ∙ held_s, reached)

  -- A round was opened by a call of `dispatch` that succeeded, and this was followed by any calls
  -- of an authority's instructions but close on any accounts, openings of windows and registrations
  -- in this round that succeed, at any slots, and whatever else leaves its account as it is: the
  -- account of the round holds a round that is never Finalizing or Expired, has no window before it
  -- is scheduled and one that ends at a `u64` not before it starts after, and holds a nonzero
  -- metrics hash exactly if it is completed. borsh is assumed to read pools, rounds and records
  -- back.
  pub opened-WellFormed :
      (b : Bank) {b₁ b' : Bank} (authority pool_info system_info : AccountInfo)
      (round_id deadline : ℕ) (template : Bytes) (bump now : ℕ)
      → dispatch
          (at_slot h now)
          b
          program_id
          (authority ∷ pool_info ∷ round_info ∷ system_info ∷ [])
          (open_round round_id deadline template bump)
        ≡ ok b₁
      → Calls h program_id round_info.key b₁ b'
      → (r : RoundAccount) × Holds b' r × WellFormed r
  unfolding dispatch
  opened-WellFormed b {b₁} authority pool_info system_info round_id deadline template bump now e
        calls =
      let (_, pool, round, _, _, _, named, _, _, _, opening) =
        open_round-Opening (at_slot h now) pools_law law b program_id
          (authority ∷ pool_info ∷ round_info ∷ system_info ∷ []) round_id deadline template bump
          now refl e in
      let held =
        read_account-key h.rounds b₁ round_info round (ap third_key named) ∙ opening.opened.reads in
      let (r, holds, reached) = Calls-Reach _ held calls in
      (
        r,
        holds,
        Reach-WellFormed (new_round-IsOpened pool.key round_id deadline template bump) reached,
      )

  -- From sealing on, any calls of an authority's instructions but close on any accounts, openings of
  -- windows and registrations in this round that succeed, at any slots, and whatever else leaves its
  -- account as it is, leave in the account a round with the same root, count, pool and identifier, in a
  -- state not before Sealed. borsh is assumed to read rounds and records back.
  pub calls-Fixed :
      {b b' : Bank} (r : RoundAccount)
      → Holds b r
      → 2 ≤ rank r.state
      → Calls h program_id round_info.key b b'
      → (r' : RoundAccount) × Holds b' r' × Fixed r r'
  calls-Fixed r held late calls =
      let (r', holds, reached) = Calls-Reach r held calls in (r', holds, Reach-Fixed reached late)
