-- ===== src/Tests/Tickets.antt =====
-- Examples for crates/mirror-pool-crypto, with a toy signature scheme and codec.
use mathlib.Core.Option.{some-injective}
use mirror_pool.Prelude.{
  ℕ, ◌+◌, ◌%◌, ◌≡◌, ◌↔◌, ◌⊎◌, Option, none, some, [], ◌∷◌, ◌++◌, Bytes, codes, ok, refl, bytes_eq,
  bytes_eq_refl, replicate, arith,
}
use mirror_pool.Core.Defs.{Digest32, hash}
use mirror_pool.Merkle.Soundness.{Collision}
use mirror_pool.Crypto.Defs.{
  JoinTicket, TicketBinding, Ed25519, TicketJson, create, verify, commitment,
}
use mirror_pool.Crypto.Tickets.{
  IsValid, Signs, verify-iff-IsValid, create-verify, commitment-injective,
}
use mirror_pool.Tests.Host.{put, chunk, chunk-put}
use mirror_pool.Tests.Cohorts.{sum, digest}

abbrev pub scheme : Ed25519
scheme = record {
  verifying_key = λ sk. sk;
  sign = λ sk m. replicate 64 ((sum sk + sum m) % 256);
  from_bytes = λ b. some b;
  verify = λ k m s. bytes_eq s (replicate 64 ((sum k + sum m) % 256));
}

pub scheme-Signs : Signs scheme
scheme-Signs = record {
  decodes = λ sk. refl;
  size = λ sk m. refl;
  verifies = λ sk m. bytes_eq_refl (replicate 64 ((sum sk + sum m) % 256));
}

abbrev pub encode_ticket : JoinTicket → Bytes
encode_ticket t =
    t.schema_version
    ∷ t.round_id
    ∷ t.expiry_slot
    ∷ put t.pool_id (
        put t.action_template_hash
          (put t.coordination_public_key (put t.nonce_commitment (put t.signature []))))

abbrev pub decode_ticket : Bytes → Option JoinTicket
decode_ticket (v ∷ round ∷ expiry ∷ xs) =
    let (pool, xs₁) = chunk xs in
    let (template, xs₂) = chunk xs₁ in
    let (key, xs₃) = chunk xs₂ in
    let (nonce, xs₄) = chunk xs₃ in
    let (signature, _) = chunk xs₄ in
    some (record {
      schema_version = v;
      pool_id = pool;
      round_id = round;
      action_template_hash = template;
      coordination_public_key = key;
      nonce_commitment = nonce;
      expiry_slot = expiry;
      signature = signature;
    })
decode_ticket _ = none

abbrev pub ticket_json : TicketJson
ticket_json = record {
  unsigned_to_vec =
      λ u. some (u.round_id ∷ u.expiry_slot ∷ put u.pool_id u.coordination_public_key);
  to_vec = λ t. some (encode_ticket t);
}

encode_ticket-decode : (t : JoinTicket) → decode_ticket (encode_ticket t) ≡ some t
encode_ticket-decode t = simp (chunk-put)

encode_ticket_law :
    (t : JoinTicket) (bytes : Bytes)
    → ticket_json.to_vec t ≡ some bytes
    → decode_ticket bytes ≡ some t
encode_ticket_law t bytes e = rw (← some-injective _ _ e) (encode_ticket-decode t)

abbrev pub ticket_for : ℕ → JoinTicket
ticket_for key = record {
  schema_version = 1;
  pool_id = 1 ∷ [];
  round_id = 5;
  action_template_hash = 2 ∷ [];
  coordination_public_key = key ∷ [];
  nonce_commitment = digest (codes "mirror-pool/v1/" ++ (codes "ticket-nonce" ++ (0 ∷ 9 ∷ [])));
  expiry_slot = 100;
  signature = replicate 64 ((key + (5 + (100 + (1 + (1 + (key + 0)))))) % 256);
}

abbrev pub binding : TicketBinding
binding = record { pool_id = 1 ∷ []; round_id = 5; action_template_hash = 2 ∷ [] }

creates :
    create ticket_json scheme digest (9 ∷ []) (3 ∷ []) (1 ∷ []) 5 (2 ∷ []) 100
    ≡ ok (ticket_for 3, 9 ∷ [])
unfolding create hash put
creates = refl

create-verify_example :
    (verify ticket_json scheme (ticket_for 3) 50 binding ≡ ok tt)
    × ((ticket_for 3).nonce_commitment ≡ hash digest (codes "ticket-nonce") (9 ∷ []))
create-verify_example =
    create-verify ticket_json scheme scheme-Signs digest (9 ∷ []) (3 ∷ []) (1 ∷ []) 5 (2 ∷ []) 100
      50 creates (omega arith)

verify-iff-IsValid_example :
    (verify ticket_json scheme (ticket_for 3) 50 binding ≡ ok tt)
    ↔ IsValid ticket_json scheme (ticket_for 3) 50 binding
verify-iff-IsValid_example = verify-iff-IsValid ticket_json scheme (ticket_for 3) 50 binding

abbrev pub leaf_for : ℕ → Digest32
leaf_for key =
    digest
      (codes "mirror-pool/v1/" ++ (codes "join-ticket" ++ (0 ∷ encode_ticket (ticket_for key))))

commits : commitment ticket_json digest (ticket_for 3) ≡ ok (leaf_for 3)
unfolding commitment hash
commits = refl

commitment-injective_example : (ticket_for 3 ≡ ticket_for 3) ⊎ Collision digest
commitment-injective_example =
    commitment-injective ticket_json scheme digest decode_ticket encode_ticket_law (ticket_for 3)
      (ticket_for 3) commits commits
