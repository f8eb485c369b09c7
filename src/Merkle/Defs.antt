-- ===== src/Merkle/Defs.antt =====
-- crates/mirror-pool-merkle/src/lib.rs: cohort construction, inclusion proofs, verification.
use mirror_pool.Prelude.{
  ℕ, zero, suc, ◌+◌, ◌-◌, ◌/◌, ◌%◌, Bool, false, not, ◌||◌, Option, none, some, List, [], ◌∷◌, ◌++◌,
  Bytes, codes, bytes_eq, bytes_lt, ltb, ◌==◌, if◌then◌else◌, Result, ok, err, ◌>>=◌, ok_or,
  u32_mod, length, get_elem?,
}
use mirror_pool.Core.Defs.{Digest32, hash, is_empty}

abbrev pub max_leaves : ℕ
max_leaves = 100000

pub data MerkleError : Type 0 where
  empty_tree too_many_leaves duplicate_leaf leaf_not_found wrong_round wrong_root invalid_proof :
      MerkleError

pub record CohortProof : Type 0 where
  pub leaf_hash : Digest32
  pub leaf_index : ℕ
  pub sibling_hashes : List Digest32
  pub merkle_root : Digest32
  pub round_id : ℕ

pub record MerkleCohort : Type 0 where
  pub leaves : List Digest32
  pub levels : List (List Digest32)

-- `sort_unstable` over the derived order of `[u8; 32]`. Equal arrays cannot be told apart, so any
-- sorting algorithm returns this list.
unfoldable pub insert : Digest32 → List Digest32 → List Digest32
insert d [] = d ∷ []
insert d (e ∷ es) = if bytes_lt e d then e ∷ insert d es else d ∷ e ∷ es

unfoldable pub sort : List Digest32 → List Digest32
unfolding insert
sort [] = []
sort (d ∷ ds) = insert d (sort ds)

-- `leaves.windows(2).any(|pair| pair[0] == pair[1])`
unfoldable pub repeats : List Digest32 → Bool
repeats [] = false
repeats (d ∷ []) = false
repeats (d ∷ e ∷ es) = bytes_eq d e || repeats (e ∷ es)

-- `leaves.binary_search(&leaf)` on leaves in strict order, which hold a leaf once at most.
unfoldable pub position : Digest32 → List Digest32 → Option ℕ
position d [] = none
position d (e ∷ es) =
    let rest = position d es in
    if bytes_eq e d then some 0 else elim rest [ none ↦ none | some i ↦ some (suc i) ]

-- `levels.last()`
unfoldable pub last_level : List (List Digest32) → Option (List Digest32)
last_level [] = none
last_level (l ∷ []) = some l
last_level (l ∷ m ∷ ms) = last_level (m ∷ ms)

abbrev pub first : List Digest32 → Option Digest32
first [] = none
first (d ∷ ds) = some d

-- `levels.iter().take(levels.len().saturating_sub(1))`
unfoldable pub all_but_last : List (List Digest32) → List (List Digest32)
all_but_last [] = []
all_but_last (l ∷ []) = []
all_but_last (l ∷ m ∷ ms) = l ∷ all_but_last (m ∷ ms)

unfoldable pub sibling_index : ℕ → ℕ
sibling_index i = if i % 2 == 0 then i + 1 else i - 1

-- `level.get(sibling_index).copied().unwrap_or(level[index])` of the two reads; `none` is the panic
-- of `level[index]`.
abbrev pub pick : Option Digest32 → Option Digest32 → Option Digest32
pick none at_sibling = none
pick (some own) none = some own
pick (some own) (some s) = some s

unfoldable pub sibling : List Digest32 → ℕ → Option Digest32
unfolding sibling_index
sibling level i = pick (get_elem? level i) (get_elem? level (sibling_index i))

abbrev pub cons_if : Option Digest32 → Option (List Digest32) → Option (List Digest32)
cons_if (some d) (some ds) = some (d ∷ ds)
cons_if _ _ = none

-- The levels that the loop of `build` has pushed from `level` on.
abbrev pub push : List Digest32 → Option (List (List Digest32)) → Option (List (List Digest32))
push level none = none
push level (some ls) = some (level ∷ ls)

-- The loop of `proof` over the levels below the root.
unfoldable pub siblings : List (List Digest32) → ℕ → Option (List Digest32)
unfolding sibling
siblings [] i = some []
siblings (l ∷ ls) i = cons_if (sibling l i) (siblings ls (i / 2))

module _ (blake3 : Bytes → Bytes) where
  unfoldable pub parent : Digest32 → Digest32 → Digest32
  unfolding hash
  parent left right = hash blake3 (codes "merkle-node") (left ++ right)

  -- The `for pair in current.chunks(2)` loop.
  unfoldable pub next_level : List Digest32 → List Digest32
  unfolding parent
  next_level [] = []
  next_level (d ∷ []) = parent d d ∷ []
  next_level (d ∷ e ∷ es) = parent d e ∷ next_level es

  -- The `while` loop of `build` from its current level, on fuel; `none` means that it ran out.
  unfoldable pub grow : ℕ → List Digest32 → Option (List (List Digest32))
  unfolding next_level
  grow zero level = none
  grow (suc fuel) level =
      let more = push level (grow fuel (next_level level)) in
      if ltb 1 (length level) then more else some (level ∷ [])

  -- One round of fuel for each leaf. `none` would be a loop that does not end.
  unfoldable pub build : List Digest32 → Option (Result MerkleCohort MerkleError)
  unfolding grow sort repeats
  build leaves =
      if is_empty leaves
      then some (err empty_tree)
      else if ltb max_leaves (length leaves)
      then some (err too_many_leaves)
      else if repeats (sort leaves)
      then some (err duplicate_leaf)
      else elim (grow (length leaves) (sort leaves)) [
        | none ↦ none
        | some ls ↦ some (ok (record { leaves = sort leaves; levels = ls }))
      ]

  -- The `for sibling in &self.sibling_hashes` loop of `verify`.
  unfoldable pub climb : Digest32 → ℕ → List Digest32 → Digest32
  unfolding parent
  climb node i [] = node
  climb node i (s ∷ ss) = climb (if i % 2 == 0 then parent node s else parent s node) (i / 2) ss

  unfoldable pub verify : CohortProof → Digest32 → ℕ → Result Unit MerkleError
  unfolding climb
  verify p expected_root expected_round =
      if not (p.round_id == expected_round)
      then err wrong_round
      else if not (bytes_eq p.merkle_root expected_root)
      then err wrong_root
      else if not (bytes_eq (climb p.leaf_hash p.leaf_index p.sibling_hashes) expected_root)
      then err invalid_proof
      else ok tt

unfoldable pub root : MerkleCohort → Result Digest32 MerkleError
unfolding last_level
root t = elim (last_level t.levels) [ none ↦ err empty_tree | some l ↦ ok_or (first l) empty_tree ]

-- The return value of `proof`, where the siblings were collected.
unfoldable pub finish_proof :
    MerkleCohort → Digest32 → ℕ → ℕ → List Digest32 → Result CohortProof MerkleError
unfolding root
finish_proof t leaf round_id i ss = do
  r ← root t
  ok (record {
    leaf_hash = leaf;
    leaf_index = i;
    sibling_hashes = ss;
    merkle_root = r;
    round_id = round_id;
  })

-- `none` is a panic of the indexing `level[index]`.
unfoldable pub proof : MerkleCohort → Digest32 → ℕ → Option (Result CohortProof MerkleError)
unfolding position siblings all_but_last finish_proof
proof t leaf round_id = elim (position leaf t.leaves) [
  | none ↦ some (err leaf_not_found)
  | some i ↦
      if ltb i u32_mod
      then elim (siblings (all_but_last t.levels) i) [
        | none ↦ none
        | some ss ↦ some (finish_proof t leaf round_id i ss)
      ]
      else some (err too_many_leaves)
]
