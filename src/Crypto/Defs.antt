-- ===== src/Crypto/Defs.antt =====
-- crates/mirror-pool-crypto/src/lib.rs: tickets, their signatures and commitments. Ed25519 (the crate
-- ed25519_dalek) and serde_json are parameters; `create` takes the bytes that the random generator
-- yields.
use mirror_pool.Prelude.{
  ℕ, Bool, not, Option, [], Bytes, codes, bytes_eq, leb, ◌==◌, Result, ok, ◌>>=◌, ◌>>◌, fail_if,
  ok_or, length, take,
}
use mirror_pool.Core.Defs.{Digest32, hash, schema_version}

pub record JoinTicket : Type 0 where
  pub schema_version : ℕ
  pub pool_id : Digest32
  pub round_id : ℕ
  pub action_template_hash : Digest32
  pub coordination_public_key : Bytes
  pub nonce_commitment : Digest32
  pub expiry_slot : ℕ
  pub signature : Bytes

pub record UnsignedTicket : Type 0 where
  pub schema_version : ℕ
  pub pool_id : Digest32
  pub round_id : ℕ
  pub action_template_hash : Digest32
  pub coordination_public_key : Bytes
  pub nonce_commitment : Digest32
  pub expiry_slot : ℕ

pub record TicketBinding : Type 0 where
  pub pool_id : Digest32
  pub round_id : ℕ
  pub action_template_hash : Digest32

pub data TicketError : Type 0 where
  unsupported_version wrong_pool wrong_round wrong_template expired invalid_public_key
        invalid_signature serialization :
      TicketError

-- `verifying_key` and `sign` of a signing key, which is its bytes. A verifying key is kept as the
-- bytes that `from_bytes` accepts; `verify` is `verify` of a key on a message and a signature.
pub record Ed25519 : Type 0 where
  pub verifying_key : Bytes → Bytes
  pub sign : Bytes → Bytes → Bytes
  pub from_bytes : Bytes → Option Bytes
  pub verify : Bytes → Bytes → Bytes → Bool

-- `serde_json::to_vec` on the two types; `none` is its failure.
pub record TicketJson : Type 0 where
  pub unsigned_to_vec : UnsignedTicket → Option Bytes
  pub to_vec : JoinTicket → Option Bytes

abbrev pub unsigned : JoinTicket → UnsignedTicket
unsigned t = record {
  schema_version = t.schema_version;
  pool_id = t.pool_id;
  round_id = t.round_id;
  action_template_hash = t.action_template_hash;
  coordination_public_key = t.coordination_public_key;
  nonce_commitment = t.nonce_commitment;
  expiry_slot = t.expiry_slot;
}

-- `hex::encode` is the parameter `encode`.
unfoldable pub key_id : (Bytes → Bytes) → (encode : Bytes → Bytes) → JoinTicket → Bytes
key_id blake3 encode t =
    take 12 (encode (hash blake3 (codes "coordination-key-id") t.coordination_public_key))

module _ (json : TicketJson) where
  unfoldable pub signing_bytes : JoinTicket → Result Bytes TicketError
  signing_bytes t = ok_or (json.unsigned_to_vec (unsigned t)) serialization

  unfoldable pub canonical_bytes : JoinTicket → Result Bytes TicketError
  canonical_bytes t = ok_or (json.to_vec t) serialization

  unfoldable pub commitment : (Bytes → Bytes) → JoinTicket → Result Digest32 TicketError
  unfolding canonical_bytes
  commitment blake3 t = do bytes ← canonical_bytes t; ok (hash blake3 (codes "join-ticket") bytes)

  module _ (ed25519 : Ed25519) where
    unfoldable pub create :
        (Bytes → Bytes)
        → (nonce signing_key : Bytes) → Digest32
        → ℕ
        → Digest32
        → ℕ
        → Result (JoinTicket × Bytes) TicketError
    unfolding signing_bytes
    create blake3 nonce signing_key pool_id round_id template_hash expiry_slot = do
      let ticket : JoinTicket = record {
        schema_version = schema_version;
        pool_id = pool_id;
        round_id = round_id;
        action_template_hash = template_hash;
        coordination_public_key = ed25519.verifying_key signing_key;
        nonce_commitment = hash blake3 (codes "ticket-nonce") nonce;
        expiry_slot = expiry_slot;
        signature = [];
      }
      bytes ← signing_bytes ticket
      ok (record ticket { signature = ed25519.sign signing_key bytes }, nonce)

    unfoldable pub verify : JoinTicket → ℕ → TicketBinding → Result Unit TicketError
    unfolding signing_bytes
    verify t current_slot expected = do
      fail_if (not (t.schema_version == schema_version)) unsupported_version
      fail_if (not (bytes_eq t.pool_id expected.pool_id)) wrong_pool
      fail_if (not (t.round_id == expected.round_id)) wrong_round
      fail_if (not (bytes_eq t.action_template_hash expected.action_template_hash)) wrong_template
      fail_if (leb t.expiry_slot current_slot) expired
      public_key ← ok_or (ed25519.from_bytes t.coordination_public_key) invalid_public_key
      fail_if (not (length t.signature == 64)) invalid_signature
      bytes ← signing_bytes t
      fail_if (not (ed25519.verify public_key bytes t.signature)) invalid_signature
