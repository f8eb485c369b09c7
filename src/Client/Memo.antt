-- ===== src/Client/Memo.antt =====
-- What `execute_local_memo` of crates/mirror-pool-client/src/lib.rs has checked when it succeeds.
use mathlib.Core.Path.{subst}
use mirror_pool.Prelude.{
  ℕ, ◌≤◌, ◌≡◌, Bool, true, false, not, ◌||◌, Option, some, List, [], ◌∷◌, Bytes, codes, bytes_eq,
  ltb, Result, ok, err, arith, refl, sym, ap, ◌∙◌, ok-injective, ◌>>◌, guarded, supplied, map_err,
  map_err-ok, bytes_eq_iff, inl, inr,
}
use mirror_pool.Actions.Defs.{PreparedAction}
use mirror_pool.Actions.Policy.{Permits, validate-iff-Permits}
use mirror_pool.Client.Defs.{
  ClientError, LocalExecutionReceipt, Rpc, Wallet, memo_policy, is_only, send_memo,
  execute_local_memo,
}

-- A memo that was sent: what the host, the wallet and the policy have said to it.
pub record Sent (public : Bool) (rpc_url : Rpc) (keys : Wallet) (host : Option Bytes)
    (action : PreparedAction) (memo_program : Bytes) (slot : ℕ) (receipt : LocalExecutionReceipt)
    : Type 0 where
  pub keypair : Bytes
  pub blockhash : Bytes
  pub has_keypair : keys.read_keypair_file ≡ some keypair
  pub has_blockhash : rpc_url.get_latest_blockhash ≡ some blockhash
  pub simulated :
      rpc_url.simulate_transaction
        (keys.sign_transaction memo_program action.payload keypair blockhash)
      ≡ some true
  pub fee :
      rpc_url.get_fee_for_message
        (keys.sign_transaction memo_program action.payload keypair blockhash)
      ≡ some receipt.estimated_fee_lamports
  pub sent :
      rpc_url.send_and_confirm_transaction
        (keys.sign_transaction memo_program action.payload keypair blockhash)
      ≡ some receipt.signature
  pub permitted :
      Permits public
        (memo_policy memo_program)
        action
        host
        true
        true
        receipt.estimated_fee_lamports
        true
  pub observed : receipt.observed_slot ≡ slot

is_only-eq : (ps : List Bytes) (p : Bytes) → is_only ps p ≡ true → ps ≡ p ∷ []
is_only-eq [] p h = absurd (ground arith)
is_only-eq (q ∷ []) p h = ap (λ x. x ∷ []) ((bytes_eq_iff q p).0 h)
is_only-eq (_ ∷ _ ∷ _) p h = absurd (ground arith)

proceeds :
    {A E : Type 0} (first : Result Unit E) (rest : Result A E) {a : A}
    → (first >> rest) ≡ ok a
    → (first ≡ ok tt) × (rest ≡ ok a)
proceeds (ok tt) rest h = (refl, h)
proceeds (err e) rest h = absurd (ground arith)

-- A validation of a memo, as the client reports it.
abbrev checked :
    (public : Bool) (memo_program : Bytes) (action : PreparedAction) (host : Option Bytes)
    (sending simulated : Bool) (fee : ℕ) (confirmed : Bool)
    → Result Unit ClientError
checked public memo_program action host sending simulated fee confirmed =
    map_err
      (mirror_pool.Actions.Defs.validate public (memo_policy memo_program) action host sending
        simulated fee confirmed)
      ClientError.safety_policy

-- `Permits` of the policy of a memo, from the result of its validation.
permitted :
    (public : Bool) (memo_program : Bytes) (action : PreparedAction) (host : Option Bytes)
    (sending simulated : Bool) (fee : ℕ) (confirmed : Bool)
    → checked public memo_program action host sending simulated fee confirmed ≡ ok tt
    → Permits public (memo_policy memo_program) action host sending simulated fee confirmed
permitted public memo_program action host sending simulated fee confirmed h =
    (validate-iff-Permits public (memo_policy memo_program) action host sending simulated fee
        confirmed).0
      (map_err-ok _ ClientError.safety_policy h)

-- A simulation that the policy of a memo lets through had no error.
Permits-simulated :
    {public : Bool} {memo_program : Bytes} {action : PreparedAction} {host : Option Bytes}
    {simulated : Bool} {fee : ℕ}
    → Permits public (memo_policy memo_program) action host true simulated fee true
    → simulated ≡ true
Permits-simulated {simulated = true} p = refl
Permits-simulated {simulated = false} p = elim p.sendable [
  | inl h ↦ absurd (ground arith)
  | inr m ↦ elim m.simulation [ inl h ↦ absurd (ground arith) | inr h ↦ h ]
]

module _ (public : Bool) (rpc_url : Rpc) (keys : Wallet) (host : Option Bytes) where
  send_memo-Sent :
      (action : PreparedAction) (memo_program : Bytes) (slot : ℕ) {receipt : LocalExecutionReceipt}
      → send_memo public rpc_url keys host action memo_program slot ≡ ok receipt
      → Sent public rpc_url keys host action memo_program slot receipt
  unfolding send_memo
  send_memo-Sent action memo_program slot {receipt} h =
      let (_, h₁) = proceeds (checked public memo_program action host false false 0 false) _ h in
      let (keypair, has_keypair, h₂) = supplied keys.read_keypair_file ClientError.wallet _ h₁ in
      let (blockhash, has_blockhash, h₃) =
        supplied rpc_url.get_latest_blockhash ClientError.rpc _ h₂ in
      let transaction = keys.sign_transaction memo_program action.payload keypair blockhash in
      let (simulated, ran, h₄) =
        supplied (rpc_url.simulate_transaction transaction) ClientError.rpc _ h₃ in
      let (fee, costs, h₅) =
        supplied (rpc_url.get_fee_for_message transaction) ClientError.rpc _ h₄ in
      let (valid, h₆) =
        proceeds (checked public memo_program action host true simulated fee true) _ h₅ in
      let (signature, confirmed, h₇) =
        supplied (rpc_url.send_and_confirm_transaction transaction) ClientError.rpc _ h₆ in
      let same = ok-injective h₇ in
      let allowed = permitted public memo_program action host true simulated fee true valid in
      subst (λ receipt. Sent public rpc_url keys host action memo_program slot receipt) same
        (record {
          keypair = keypair;
          blockhash = blockhash;
          has_keypair = has_keypair;
          has_blockhash = has_blockhash;
          simulated = ran ∙ ap some (Permits-simulated allowed);
          fee = costs;
          sent = confirmed;
          permitted =
              subst (λ s. Permits public (memo_policy memo_program) action host true s fee true)
                (Permits-simulated allowed) allowed;
          observed = refl;
        })

  -- A memo that `execute_local_memo` reports as sent was confirmed and enabled by the caller and is
  -- a memo of the program with the identifier MemoSq4gqABAXKb96qnH8TysNcWxMyWCqXgDLGmfcHr alone.
  -- The slot that the RPC node gave before is within the window. The key pair was read, the
  -- simulation of the very transaction that was sent had no error, and the policy of a memo permits
  -- sending it at the estimated fee. The receipt has the slot, that fee and the signature that the
  -- node confirmed.
  pub execute_local_memo-Sent :
      (action : PreparedAction) (window_start window_end : ℕ)
      (explicit_confirmation sending_enabled : Bool) {receipt : LocalExecutionReceipt}
      → execute_local_memo public rpc_url keys host action window_start window_end
          explicit_confirmation sending_enabled
        ≡ ok receipt
      → (explicit_confirmation ≡ true)
        × (sending_enabled ≡ true)
        × (action.template_id ≡ codes "memo-v1")
        × (window_start ≤ receipt.observed_slot)
        × (receipt.observed_slot ≤ window_end)
        × (memo_program : Bytes) × (keys.from_str
              (codes "MemoSq4gqABAXKb96qnH8TysNcWxMyWCqXgDLGmfcHr")
            ≡ some memo_program)
        × (action.program_ids ≡ memo_program ∷ [])
        × (rpc_url.get_slot ≡ some receipt.observed_slot)
        × Sent public rpc_url keys host action memo_program receipt.observed_slot receipt
  unfolding execute_local_memo
  execute_local_memo-Sent action window_start window_end explicit_confirmation sending_enabled
        {receipt} h =
      let (enabled, h₁) =
        guarded (not explicit_confirmation || not sending_enabled) ClientError.execution_disabled _
          h in
      let (same_template, h₂) =
        guarded (not (bytes_eq action.template_id (codes "memo-v1"))) ClientError.unsupported_action
          _ h₁ in
      let (memo_program, known, h₃) =
        supplied (keys.from_str (codes "MemoSq4gqABAXKb96qnH8TysNcWxMyWCqXgDLGmfcHr"))
          ClientError.invalid_program _ h₂ in
      let (only, h₄) =
        guarded (not (is_only action.program_ids memo_program)) ClientError.invalid_program _ h₃ in
      let (slot, at_slot, h₅) = supplied rpc_url.get_slot ClientError.rpc _ h₄ in
      let (inside, h₆) =
        guarded (ltb slot window_start || ltb window_end slot) ClientError.outside_execution_window
          _ h₅ in
      let sent = send_memo-Sent action memo_program slot h₆ in
      let observed = sent.observed in
      (
        ground arith,
        ground arith,
        ground (arith, bytes_eq_iff action.template_id (codes "memo-v1")),
        rw observed (ground arith),
        rw observed (ground arith),
        memo_program,
        known,
        is_only-eq action.program_ids memo_program (ground arith),
        rw observed at_slot,
        subst (λ s. Sent public rpc_url keys host action memo_program s receipt) (sym observed)
            sent,
      )
