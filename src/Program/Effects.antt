-- ===== src/Program/Effects.antt =====
-- What the account helpers of programs/mirror-pool-program guarantee when they succeed.
use mathlib.Core.Path.{subst}
use mirror_pool.Prelude.{
  ℕ, zero, ◌-◌, ◌≤◌, ◌≡◌, ◌≢◌, true, some, List, [], ◌∷◌, ◌++◌, Bytes, bytes_eq, bytes_eq_iff, ltb,
  le→ltb-false, Result, ok, ◌>>=◌, length, replicate, length-append, length-replicate, arith, refl,
  ◌∙◌, ap, Option-cases, Bool-cases, inl, inr, >>=-eq-ok, ok-injective,
}
use mirror_pool.Program.Runtime.{
  Pubkey, PoolAccount, RoundAccount, ProgramError, AccountInfo, Account, Bank, store, Codec, Host,
  next_account_info, require_owned, read_account, write_account,
}
use mirror_pool.Program.Admin.{admin_accounts}

-- borsh: a value is read back from its own bytes, whatever follows them.
abbrev pub RoundTrips : {T : Type 0} → Codec T → Type 0
RoundTrips {T} c =
    (x : T) (bytes rest : Bytes) → c.to_vec x ≡ some bytes → c.deserialize (bytes ++ rest) ≡ some x

-- From `b` to `b'` the account of `info` was made to hold `x`, and nothing else was changed.
pub record Rewrites {T : Type 0} (c : Codec T) (b b' : Bank) (info : AccountInfo) (x : T)
    : Type 0 where
  pub reads : read_account c b' info ≡ ok x
  pub others : (k : Pubkey) → k ≢ info.key → b' k ≡ b k
  pub owner : (b' info.key).owner ≡ (b info.key).owner
  pub lamports : (b' info.key).lamports ≡ (b info.key).lamports
  pub size : length (b' info.key).contents ≡ length (b info.key).contents

pub store_self : (b : Bank) (k : Pubkey) (a : Account) → store b k a k ≡ a
unfolding store
store_self b k a = rw ((bytes_eq_iff k k).1 refl)

pub store_other : (b : Bank) (k j : Pubkey) (a : Account) → j ≢ k → store b k a j ≡ b j
unfolding store
store_other b k j a ne = elim (Bool-cases (bytes_eq j k)) [
  | inl same ↦ absurd (ne ((bytes_eq_iff j k).0 same))
  | inr other ↦ rw other
]

-- What is read depends on the account of that key alone.
pub read_account-local :
    {T : Type 0} (c : Codec T) (b b' : Bank) (info : AccountInfo)
    → b' info.key ≡ b info.key
    → read_account c b' info ≡ read_account c b info
unfolding read_account
read_account-local c b b' info same = rw same

-- An account that was taken stood first.
pub next_account_info-ok :
    (accounts : List AccountInfo) {info : AccountInfo} {rest : List AccountInfo}
    → next_account_info accounts ≡ ok (info, rest)
    → accounts ≡ info ∷ rest
unfolding next_account_info
next_account_info-ok [] e = absurd (ground arith)
next_account_info-ok (x ∷ xs) e = let same = ok-injective e in λ i. (same i).0 ∷ (same i).1

pub require_owned-ok :
    (b : Bank) (info : AccountInfo) (program_id : Pubkey) {u : Unit}
    → require_owned b info program_id ≡ ok u
    → (b info.key).owner ≡ program_id
unfolding require_owned
require_owned-ok b info program_id e = ground (arith, bytes_eq_iff (b info.key).owner program_id)

-- A value whose bytes fit is written.
pub write_account-fits :
    {T : Type 0} (c : Codec T) (b : Bank) (info : AccountInfo) (x : T) (bytes : Bytes)
    → c.to_vec x ≡ some bytes
    → length bytes ≤ length (b info.key).contents
    → (b' : Bank) × (write_account c b info x ≡ ok b')
unfolding write_account
write_account-fits c b info x bytes e fits =
    let room : ℕ = length (b info.key).contents in
    (
      store b info.key
          (record (b info.key) { contents = bytes ++ replicate (room - length bytes) 0 }),
      rw (e, le→ltb-false (length bytes) room fits),
    )

module _ {T : Type 0} (c : Codec T) (law : RoundTrips c) where
  store-Rewrites :
      (b : Bank) (info : AccountInfo) (x : T) (bytes : Bytes)
      → c.to_vec x ≡ some bytes
      → length bytes ≤ length (b info.key).contents
      → let room = length (b info.key).contents in
        Rewrites c b
          (store b info.key
            (record (b info.key) { contents = bytes ++ replicate (room - length bytes) 0 }))
          info
          x
  unfolding read_account
  store-Rewrites b info x bytes e fits =
      let room : ℕ = length (b info.key).contents in
      let a : Account = record (b info.key) {
        contents = bytes ++ replicate (room - length bytes) 0;
      } in
      let at : store b info.key a info.key ≡ a = store_self b info.key a in
      record {
        reads = rw (at, law x bytes (replicate (room - length bytes) 0) e);
        others = λ k ne. store_other b info.key k a ne;
        owner = ap (λ (a : Account). a.owner) at;
        lamports = ap (λ (a : Account). a.lamports) at;
        size =
            ap (λ (a : Account). length a.contents) at
            ∙ omega (
              arith,
              length-append bytes (replicate (room - length bytes) 0),
              length-replicate (room - length bytes) (zero),
            );
      }

  pub write_account-ok :
      (b : Bank) (info : AccountInfo) (x : T) {b' : Bank}
      → write_account c b info x ≡ ok b'
      → Rewrites c b b' info x
  unfolding write_account
  write_account-ok b info x {b'} w = elim (Option-cases (c.to_vec x)) [
    | inl fails ↦ absurd (ground arith)
    | inr (bytes, e) ↦ elim (Bool-cases (ltb (length (b info.key).contents) (length bytes))) [
      | inl long ↦ absurd (ground arith)
      | inr fits ↦
          subst (λ b'. Rewrites c b b' info x) (ok-injective (rw (e, fits) at w))
            (store-Rewrites b info x bytes e (ground arith))
    ]
  ]

-- What holds where the preamble of an authority's instruction succeeded.
pub record AdminCall (h : Host) (b : Bank) (program_id : Pubkey)
    (pool_info round_info authority : AccountInfo) (pool : PoolAccount) (round : RoundAccount)
    : Type 0 where
  pub signed : authority.is_signer ≡ true
  pub pool_owned : (b pool_info.key).owner ≡ program_id
  pub round_owned : (b round_info.key).owner ≡ program_id
  pub pool_read : read_account h.pools b pool_info ≡ ok pool
  pub round_read : read_account h.rounds b round_info ≡ ok round

admin_accounts-ok :
    (b : Bank) (program_id : Pubkey) (accounts : List AccountInfo)
    {pool_info round_info authority : AccountInfo}
    → admin_accounts b program_id accounts ≡ ok (pool_info, round_info, authority)
    → (authority.is_signer ≡ true)
      × ((b pool_info.key).owner ≡ program_id)
      × ((b round_info.key).owner ≡ program_id)
unfolding admin_accounts
admin_accounts-ok b program_id [] e = absurd (ground arith)
admin_accounts-ok b program_id (x ∷ []) e = absurd (ground arith)
admin_accounts-ok b program_id (x ∷ y ∷ []) e = absurd (ground arith)
admin_accounts-ok b program_id (x ∷ y ∷ z ∷ rest) e =
    ground (arith, bytes_eq_iff (b y.key).owner program_id, bytes_eq_iff (b z.key).owner program_id)

module _ (h : Host) where
  pub admin-ok :
      (b : Bank) (program_id : Pubkey) (accounts : List AccountInfo)
      (k : AccountInfo
        → AccountInfo
        → AccountInfo
        → PoolAccount
        → RoundAccount
        → Result Bank ProgramError)
      {b' : Bank}
      → (do
        (pool_info, round_info, authority) ← admin_accounts b program_id accounts
        pool ← read_account h.pools b pool_info
        round ← read_account h.rounds b round_info
        k pool_info round_info authority pool round)
        ≡ ok b'
      → (pool_info : AccountInfo) × (round_info : AccountInfo) × (authority : AccountInfo)
        × (pool : PoolAccount) × (round : RoundAccount) × (admin_accounts b program_id accounts
            ≡ ok (pool_info, round_info, authority))
        × AdminCall h b program_id pool_info round_info authority pool round
        × (k pool_info round_info authority pool round ≡ ok b')
  admin-ok b program_id accounts k e =
      let ((pool_info, round_info, authority), named, e₁) = >>=-eq-ok _ _ e in
      let (pool, pool_read, e₂) = >>=-eq-ok _ _ e₁ in
      let (round, round_read, e₃) = >>=-eq-ok _ _ e₂ in
      let (signed, pool_owned, round_owned) = admin_accounts-ok b program_id accounts named in
      (
        pool_info,
        round_info,
        authority,
        pool,
        round,
        named,
        record {
          signed = signed;
          pool_owned = pool_owned;
          round_owned = round_owned;
          pool_read = pool_read;
          round_read = round_read;
        },
        e₃,
      )
