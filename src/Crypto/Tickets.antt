-- ===== src/Crypto/Tickets.antt =====
-- `JoinTicket` of crates/mirror-pool-crypto: what `verify` accepts, and what a commitment binds.
use mathlib.Core.Option.{some-injective}
use mathlib.Core.Path.{subst}
use mirror_pool.Prelude.{
  ℕ, ◌<◌, ◌≡◌, ◌↔◌, ◌⊎◌, inl, inr, Option, some, ◌∷◌, ◌++◌, Bytes, codes, bytes_eq, bytes_eq_iff,
  bytes_decide, true, arith, refl, sym, ◌∙◌, ap, ok, ok-injective, length, drop, leb, not, ◌==◌,
  leb-false→lt, supplied, guarded,
}
use mirror_pool.Core.Defs.{Digest32, hash, schema_version}
use mirror_pool.Merkle.Soundness.{Collision}
use mirror_pool.Crypto.Defs.{
  JoinTicket, TicketBinding, Ed25519, TicketJson, unsigned, signing_bytes, canonical_bytes,
  commitment, create, verify,
}

-- What a ticket has to meet, in a slot and for a binding.
pub record IsValid (json : TicketJson) (ed25519 : Ed25519) (t : JoinTicket) (now : ℕ)
    (expected : TicketBinding) : Type 0 where
  pub current : t.schema_version ≡ schema_version
  pub pool : t.pool_id ≡ expected.pool_id
  pub round : t.round_id ≡ expected.round_id
  pub template : t.action_template_hash ≡ expected.action_template_hash
  pub timely : now < t.expiry_slot
  pub key : Bytes
  pub bytes : Bytes
  pub decoded : ed25519.from_bytes t.coordination_public_key ≡ some key
  pub encoded : json.unsigned_to_vec (unsigned t) ≡ some bytes
  pub sized : length t.signature ≡ 64
  pub signed : ed25519.verify key bytes t.signature ≡ true

-- What is assumed of Ed25519: the key of a signing key decodes, signatures have 64 bytes, and a
-- message's signature verifies under the key.
pub record Signs (ed25519 : Ed25519) : Type 0 where
  pub decodes :
      (sk : Bytes) → ed25519.from_bytes (ed25519.verifying_key sk) ≡ some (ed25519.verifying_key sk)
  pub size : (sk m : Bytes) → length (ed25519.sign sk m) ≡ 64
  pub verifies :
      (sk m : Bytes) → ed25519.verify (ed25519.verifying_key sk) m (ed25519.sign sk m) ≡ true

ticket_input :
    (xs ys : Bytes)
    → codes "mirror-pool/v1/" ++ (codes "join-ticket" ++ (0 ∷ xs))
      ≡ codes "mirror-pool/v1/" ++ (codes "join-ticket" ++ (0 ∷ ys))
    → xs ≡ ys
ticket_input xs ys e = ap (drop 27) e

module _ (json : TicketJson) (ed25519 : Ed25519) where
  verify_sound :
      (t : JoinTicket) (now : ℕ) (expected : TicketBinding)
      → verify json ed25519 t now expected ≡ ok tt
      → IsValid json ed25519 t now expected
  unfolding verify
  verify_sound t now expected h =
      let (version, h₁) = guarded (not (t.schema_version == schema_version)) _ _ h in
      let (pool, h₂) = guarded (not (bytes_eq t.pool_id expected.pool_id)) _ _ h₁ in
      let (round, h₃) = guarded (not (t.round_id == expected.round_id)) _ _ h₂ in
      let (template, h₄) =
        guarded (not (bytes_eq t.action_template_hash expected.action_template_hash)) _ _ h₃ in
      let (timely, h₅) = guarded (leb t.expiry_slot now) _ _ h₄ in
      let (key, decoded, h₆) = supplied (ed25519.from_bytes t.coordination_public_key) _ _ h₅ in
      let (sized, h₇) = guarded (not (length t.signature == 64)) _ _ h₆ in
      let (bytes, encoded, h₈) = supplied (json.unsigned_to_vec (unsigned t)) _ _ h₇ in
      record {
        current = ground arith;
        pool = ground (arith, bytes_eq_iff t.pool_id expected.pool_id);
        round = ground arith;
        template =
            ground (arith, bytes_eq_iff t.action_template_hash expected.action_template_hash);
        timely = leb-false→lt t.expiry_slot now timely;
        key = key;
        bytes = bytes;
        decoded = decoded;
        encoded = encoded;
        sized = ground arith;
        signed = ground arith;
      }

  verify_complete :
      (t : JoinTicket) (now : ℕ) (expected : TicketBinding)
      → IsValid json ed25519 t now expected
      → verify json ed25519 t now expected ≡ ok tt
  unfolding verify
  verify_complete t now expected v = ground (
    arith,
    bytes_eq_iff t.pool_id expected.pool_id,
    bytes_eq_iff t.action_template_hash expected.action_template_hash,
    v.decoded,
    v.encoded,
    v.sized,
    v.signed,
  )

  -- `verify` accepts a ticket exactly if it has the current version, is bound to the pool, round and
  -- template that are expected, has not expired, and carries 64 bytes that are a signature of the rest
  -- under its decoded key.
  pub verify-iff-IsValid :
      (t : JoinTicket) (now : ℕ) (expected : TicketBinding)
      → (verify json ed25519 t now expected ≡ ok tt) ↔ IsValid json ed25519 t now expected
  verify-iff-IsValid t now expected = (verify_sound t now expected, verify_complete t now expected)

  -- A ticket that `create` signed is accepted for its own pool, round and template at every slot
  -- before its expiry, and commits to the nonce that comes with it. Of Ed25519 it is assumed that
  -- keys decode and that signatures have 64 bytes and verify.
  pub create-verify :
      (signs : Signs ed25519) (blake3 : Bytes → Bytes) (nonce signing_key : Bytes)
      (pool_id : Digest32) (round_id : ℕ) (template : Digest32) (expiry now : ℕ) {t : JoinTicket}
      {secret : Bytes}
      → create json ed25519 blake3 nonce signing_key pool_id round_id template expiry
        ≡ ok (t, secret)
      → now < expiry
      → (verify json ed25519 t now
            (record { pool_id = pool_id; round_id = round_id; action_template_hash = template })
          ≡ ok tt)
        × (t.nonce_commitment ≡ hash blake3 (codes "ticket-nonce") secret)
  unfolding create signing_bytes
  create-verify signs blake3 nonce signing_key pool_id round_id template expiry now {t} {secret} h
        timely =
      let (bytes, encoded, made) = supplied (json.unsigned_to_vec _) _ _ h in
      let same = ok-injective made in
      let v : IsValid json ed25519 _ now _ = record {
        current = refl;
        pool = refl;
        round = refl;
        template = refl;
        timely = timely;
        key = _;
        bytes = bytes;
        decoded = signs.decodes signing_key;
        encoded = encoded;
        sized = signs.size signing_key bytes;
        signed = signs.verifies signing_key bytes;
      } in
      subst
        (λ made.
          (verify json ed25519 made.0 now
              (record { pool_id = pool_id; round_id = round_id; action_template_hash = template })
            ≡ ok tt)
          × (made.0.nonce_commitment ≡ hash blake3 (codes "ticket-nonce") made.1))
        same (verify_complete _ now _ v, refl)

  -- Two tickets with one commitment are the same ticket, or the hash has a collision. It is assumed
  -- that the JSON of a ticket reads back as that ticket.
  pub commitment-injective :
      (blake3 : Bytes → Bytes) (read : Bytes → Option JoinTicket)
      (law : (t : JoinTicket) (bytes : Bytes) → json.to_vec t ≡ some bytes → read bytes ≡ some t)
      (t u : JoinTicket) {d : Digest32}
      → commitment json blake3 t ≡ ok d
      → commitment json blake3 u ≡ ok d
      → (t ≡ u) ⊎ Collision blake3
  unfolding commitment canonical_bytes hash
  commitment-injective blake3 read law t u p q =
      let (xs, t_bytes, t_hash) = supplied (json.to_vec t) _ _ p in
      let (ys, u_bytes, u_hash) = supplied (json.to_vec u) _ _ q in
      elim (bytes_decide xs ys) [
        | inl same ↦
            inl (some-injective _ _ (sym (law t xs t_bytes) ∙ ap read same ∙ law u ys u_bytes))
        | inr other ↦
            inr (_, _, (λ e. other (ticket_input xs ys e)), ok-injective (t_hash ∙ sym u_hash))
      ]
