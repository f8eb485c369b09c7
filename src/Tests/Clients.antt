-- ===== src/Tests/Clients.antt =====
-- Examples for crates/mirror-pool-client.
use mathlib.Core.List.{Memᴰ}
use mirror_pool.Prelude.{
  ◌≡◌, ◌≤◌, true, false, some, List, [], ◌∷◌, codes, bytes_eq, bytes_lt, ok, refl, replicate, ◌++◌,
}
use mirror_pool.Core.Defs.{hash}
use mirror_pool.Merkle.Defs.{MerkleCohort, build}
use mirror_pool.Crypto.Defs.{JoinTicket, commitment}
use mirror_pool.Actions.Defs.{
  PreparedAction, low_risk, contains, any_foreign, is_loopback, validate,
}
use mirror_pool.Client.Defs.{
  LocalExecutionReceipt, Rpc, Wallet, ticket_leaves, build_merkle_cohort, send_memo,
  execute_local_memo,
}
use mirror_pool.Client.Cohorts.{HasTicketProof, generate-verify}
use mirror_pool.Client.Memo.{Sent, execute_local_memo-Sent}
use mirror_pool.Tests.Host.{put}
use mirror_pool.Tests.Cohorts.{digest}
use mirror_pool.Tests.Tickets.{ticket_json, ticket_for, leaf_for}

abbrev tickets : List JoinTicket
tickets = ticket_for 4 ∷ ticket_for 3 ∷ []

abbrev cohort : MerkleCohort
cohort = elim (build digest (leaf_for 4 ∷ leaf_for 3 ∷ [])) [
  | some (ok t) ↦ t
  | _ ↦ record { leaves = []; levels = [] }
]

builds : build_merkle_cohort ticket_json digest tickets ≡ some (ok cohort)
unfolding build_merkle_cohort ticket_leaves commitment hash build bytes_lt bytes_eq put
builds = refl

generate-verify_example : HasTicketProof ticket_json digest cohort (ticket_for 3) 5
generate-verify_example =
    generate-verify ticket_json digest tickets (ticket_for 3) 5 builds (Memᴰ.tail (Memᴰ.head refl))

abbrev node : Rpc
node = record {
  get_slot = some 120;
  get_latest_blockhash = some (7 ∷ []);
  simulate_transaction = λ t. some true;
  get_fee_for_message = λ t. some 5000;
  send_and_confirm_transaction = λ t. some (88 ∷ t);
}

abbrev keys : Wallet
keys = record {
  from_str = λ s. some (9 ∷ []);
  read_keypair_file = some (3 ∷ []);
  sign_transaction = λ program payload keypair blockhash. program ++ (keypair ++ blockhash);
}

abbrev memo : PreparedAction
memo = record {
  template_id = codes "memo-v1";
  program_ids = (9 ∷ []) ∷ [];
  instruction_count = 1;
  payload = replicate 32 0;
  compute_units = 20000;
  priority_fee_micro_lamports = 0;
  value = 0;
  estimated_size = 132;
  safety = low_risk;
}

abbrev receipt : LocalExecutionReceipt
receipt = record {
  signature = 88 ∷ 9 ∷ 3 ∷ 7 ∷ [];
  observed_slot = 120;
  estimated_fee_lamports = 5000;
}

sends :
    execute_local_memo false node keys (some (codes "localhost")) memo 100 200 true true
    ≡ ok receipt
unfolding execute_local_memo send_memo validate contains any_foreign is_loopback bytes_eq
sends = refl

execute_local_memo-Sent_example :
    (true ≡ true)
    × (true ≡ true)
    × (memo.template_id ≡ codes "memo-v1")
    × (100 ≤ 120)
    × (120 ≤ 200)
    × (memo_program : List _) × (keys.from_str (codes "MemoSq4gqABAXKb96qnH8TysNcWxMyWCqXgDLGmfcHr")
        ≡ some memo_program)
    × (memo.program_ids ≡ memo_program ∷ [])
    × (node.get_slot ≡ some 120)
    × Sent false node keys (some (codes "localhost")) memo memo_program 120 receipt
execute_local_memo-Sent_example =
    execute_local_memo-Sent false node keys (some (codes "localhost")) memo 100 200 true true sends
