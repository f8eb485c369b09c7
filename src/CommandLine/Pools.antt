-- ===== src/CommandLine/Pools.antt =====
-- The commands `pool create`, `pool inspect`, `round open` and `round inspect` of
-- crates/mirror-pool-cli/src/main.rs, one after the other.
use mirror_pool.Prelude.{
  ◌<◌, ◌≤◌, ◌≡◌, ◌↔◌, true, none, some, Bytes, arith, ok, refl, ◌∙◌, [], ◌∷◌, >>=-some, false,
}
use mirror_pool.Core.Defs.{PoolConfig, compute_hash, validate, Cluster}
use mirror_pool.Core.Validation.{IsPolicy, validate-iff-IsPolicy}
use mirror_pool.Store.Defs.{Json}
use mirror_pool.CommandLine.Files.{FileSystem, lift, read_json}
use mirror_pool.CommandLine.Commands.{
  World, PoolArgs, memo_program_id, new_pool, pool_create, pool_inspect, backend_of,
}
use mirror_pool.CommandLine.Steps.{
  >>=-goes, lift-done, lift-goes, require-ok, reject-ok, ok-reject, require-some, read_json-some,
  write_created-Wrote, write_created-writes, Wrote,
}
use mirror_pool.CommandLine.Tickets.{Reads}

-- The arguments that make a pool.
pub record IsAccepted (args : PoolArgs) : Type 0 where
  pub two_or_more : 2 ≤ args.minimum
  pub ordered : args.minimum ≤ args.maximum
  pub bounded : args.maximum ≤ 100000
  pub registers : 0 < args.registration_slots
  pub executes : 0 < args.execution_window_slots

-- What is written out has a text.
abbrev pub Writes : {T : Type 0} → Json T → Type 0
Writes {T} json = (v : T) → (text : Bytes) × (json.to_string v ≡ some text)

module _ (w : World) where
  -- The configuration with its hash.
  abbrev pub made_pool : PoolArgs → (authority memo digest : Bytes) → PoolConfig
  made_pool args authority memo digest = record (new_pool w args authority memo) {
    configuration_hash = digest;
  }

  new_pool-IsPolicy :
      (args : PoolArgs) (authority memo : Bytes) {digest : Bytes}
      → compute_hash w.blake3 w.config_to_vec (new_pool w args authority memo) ≡ ok digest
      → IsAccepted args
      → IsPolicy w.blake3 w.config_to_vec (made_pool args authority memo digest)
  unfolding new_pool compute_hash
  new_pool-IsPolicy args authority memo e a = record {
    current = refl;
    two_or_more = a.two_or_more;
    ordered = a.ordered;
    bounded = a.bounded;
    registers = a.registers;
    executes = a.executes;
    delays = omega arith;
    dispersion = omega arith;
    clusters = refl;
    programs = refl;
    digest = e;
  }

  IsPolicy-IsAccepted :
      (args : PoolArgs) (authority memo digest : Bytes)
      → IsPolicy w.blake3 w.config_to_vec (made_pool args authority memo digest)
      → IsAccepted args
  unfolding new_pool
  IsPolicy-IsAccepted args authority memo digest p = record {
    two_or_more = p.two_or_more;
    ordered = p.ordered;
    bounded = p.bounded;
    registers = p.registers;
    executes = p.executes;
  }

  -- What a `pool create` that succeeded went through.
  record Made (args : PoolArgs) (output : Bytes) (fs fs' : FileSystem) : Type 0 where
    authority : Bytes
    memo : Bytes
    digest : Bytes
    text : Bytes
    parsed : w.from_str args.authority ≡ some authority
    hashed : compute_hash w.blake3 w.config_to_vec (new_pool w args authority memo) ≡ ok digest
    valid : validate w.blake3 w.config_to_vec (made_pool args authority memo digest) ≡ ok tt
    encoded : w.pools.to_string (made_pool args authority memo digest) ≡ some text
    wrote : Wrote false output text fs fs'

  pool_create-Made :
      (args : PoolArgs) (output : Bytes) (fs : FileSystem) {fs' : FileSystem}
      → pool_create w args output fs ≡ (fs', ok tt)
      → Made args output fs fs'
  unfolding pool_create
  pool_create-Made args output fs h =
      let (authority, parsed, h₁) = lift-done _ _ h in
      let (memo, named, h₂) = lift-done _ _ h₁ in
      let (digest, hashed, h₃) = lift-done _ _ h₂ in
      let (_, valid, h₄) = lift-done _ _ h₃ in
      let (text, encoded, wrote) = write_created-Wrote w.pools false output _ fs h₄ in
      record {
        authority = authority;
        memo = memo;
        digest = digest;
        text = text;
        parsed = require-some _ _ parsed;
        hashed = reject-ok _ hashed;
        valid = reject-ok _ valid;
        encoded = encoded;
        wrote = wrote;
      }

  new_pool-hashed :
      (args : PoolArgs) (authority memo : Bytes)
      (encodes : (c : PoolConfig) → (bytes : Bytes) × (w.config_to_vec c ≡ some bytes))
      → (digest : Bytes) × (compute_hash w.blake3 w.config_to_vec (new_pool w args authority memo)
          ≡ ok digest)
  unfolding compute_hash
  new_pool-hashed args authority memo encodes = let (bytes, e) = encodes _ in (_, >>=-some e _ _)

  -- `pool create` with keys that parse and an output that can be made succeeds exactly if the
  -- arguments have 2 ≤ minimum ≤ maximum ≤ 100000 participants and positive durations. It is assumed
  -- that configurations can be written out.
  pub pool_create_iff :
      (encodes : (c : PoolConfig) → (bytes : Bytes) × (w.config_to_vec c ≡ some bytes))
      (writes : Writes w.pools) (args : PoolArgs) (output : Bytes) (fs : FileSystem)
      {authority memo : Bytes}
      → w.from_str args.authority ≡ some authority
      → w.from_str memo_program_id ≡ some memo
      → fs.files output ≡ none
      → fs.creatable output ≡ true
      → ((fs' : FileSystem) × (pool_create w args output fs ≡ (fs', ok tt))) ↔ IsAccepted args
  unfolding pool_create
  pool_create_iff encodes writes args output fs {authority} {memo} parsed named free creatable = (
    λ (fs', h).
        let made = pool_create-Made args output fs h in
        IsPolicy-IsAccepted args made.authority made.memo made.digest
          ((validate-iff-IsPolicy w.blake3 w.config_to_vec _).0 made.valid),
    λ a.
        let (digest, hashed) = new_pool-hashed args authority memo encodes in
        let valid =
          (validate-iff-IsPolicy w.blake3 w.config_to_vec _).1
            (new_pool-IsPolicy args authority memo hashed a) in
        let (text, encoded) = writes (made_pool args authority memo digest) in
        let (fs', wrote, _) =
          write_created-writes w.pools false output _ fs free creatable encoded in
        (
          fs',
          lift-goes (require-ok parsed _) _ fs
              ∙ lift-goes (require-ok named _) _ fs
              ∙ lift-goes (ok-reject hashed) _ fs
              ∙ lift-goes (ok-reject valid) _ fs
              ∙ wrote,
        ),
  )

  -- What `pool inspect` shows of the arguments of a pool.
  pub record Shows (args : PoolArgs) (config : PoolConfig) : Type 0 where
    pub minimum : config.min_participants ≡ args.minimum
    pub maximum : config.max_participants ≡ args.maximum
    pub registration : config.registration_duration_slots ≡ args.registration_slots
    pub window : config.execution_window_slots ≡ args.execution_window_slots
    pub backend : config.privacy_backend ≡ backend_of args.backend
    pub local_only : config.allowed_clusters ≡ Cluster.localnet ∷ []

  -- After `pool create` succeeds, `pool inspect` accepts the file that it wrote and shows a valid
  -- policy with the sizes, durations and backend that were asked for, on localnet alone. It is assumed
  -- that a configuration reads back from its text.
  pub pool_create-pool_inspect :
      (reads : Reads w.pools) (args : PoolArgs) (output : Bytes) (fs : FileSystem)
      {fs' : FileSystem}
      → fs.readable output ≡ true
      → pool_create w args output fs ≡ (fs', ok tt)
      → (config : PoolConfig) × (pool_inspect w output fs' ≡ (fs', ok config))
        × IsPolicy w.blake3 w.config_to_vec config
        × Shows args config
  unfolding pool_inspect new_pool lift
  pool_create-pool_inspect reads args output fs {fs'} readable h =
      let made = pool_create-Made args output fs h in
      let config = made_pool args made.authority made.memo made.digest in
      (
        config,
        >>=-goes (read_json w.pools output)
              (read_json-some w.pools fs' output (made.wrote.readable ∙ readable) made.wrote.written
                (reads config made.text made.encoded))
              _
            ∙ lift-goes (ok-reject made.valid) _ fs',
        (validate-iff-IsPolicy w.blake3 w.config_to_vec config).0 made.valid,
        record {
          minimum = refl;
          maximum = refl;
          registration = refl;
          window = refl;
          backend = refl;
          local_only = refl;
        },
      )
