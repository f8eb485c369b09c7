-- ===== src/Merkle/Soundness.antt =====
-- Verification in crates/mirror-pool-merkle: what climbs to the root along a path of the height of
-- the tree is one of its leaves, unless two inputs of `blake3` have one digest.
use mathlib.Core.List.{Memᴰ}
use mathlib.Core.Bool.{false≢true}
use mathlib.Core.Option.{some-injective}
use mathlib.Core.Path.{subst}
use mirror_pool.Prelude.{
  ℕ, zero, suc, ◌/◌, ◌%◌, ◌≡◌, ◌≢◌, Bool, true, false, some, List, [], ◌∷◌, ◌++◌, Bytes, codes,
  arith, refl, sym, ◌∙◌, ap, length, All, if◌then◌else◌, ◌⊎◌, inl, inr, ◌==◌, Bool-cases, bytes_eq,
  bytes_eq_iff, append_injective,
}
use mirror_pool.Core.Defs.{Digest32, hash}
use mirror_pool.Merkle.Defs.{parent, next_level, grow, climb, all_but_last, last_level}
use mirror_pool.Merkle.Levels.{grow-cons}
use mirror_pool.Merkle.Paths.{push-some}

abbrev pub IsArray32 : Bytes → Type 0
IsArray32 d = length d ≡ 32

-- Two byte strings with one digest.
abbrev pub Collision : (Bytes → Bytes) → Type 0
Collision blake3 = (x : Bytes) × (y : Bytes) × (x ≢ y) × (blake3 x ≡ blake3 y)

All-mem : {d : Digest32} {l : List Digest32} → All IsArray32 l → Memᴰ d l → IsArray32 d
All-mem {l = []} h m = elim m [ ]
All-mem {l = x ∷ l} h (Memᴰ.head e) = rw e h.0
All-mem {l = x ∷ l} h (Memᴰ.tail m) = All-mem h.1 m

-- The hashed bytes of two nodes differ only in the children.
node_input :
    (a b c d : Digest32)
    → codes "mirror-pool/v1/" ++ (codes "merkle-node" ++ (0 ∷ (a ++ b)))
      ≡ codes "mirror-pool/v1/" ++ (codes "merkle-node" ++ (0 ∷ (c ++ d)))
    → a ++ b ≡ c ++ d
node_input a b c d p =
    let domain : Bytes = codes "mirror-pool/v1/" in
    let q = (append_injective domain _ domain _ refl p).1 in
    let r = (append_injective (codes "merkle-node") _ (codes "merkle-node") _ refl q).1 in cc

module _ (blake3 : Bytes → Bytes) where
  -- The siblings are as many as the levels below the root, and the path ends at the root `r`.
  abbrev pub Reaches : List (List Digest32) → Digest32 → ℕ → List Digest32 → Digest32 → Type 0
  Reaches ls node i ss r =
      (length ss ≡ length (all_but_last ls))
      × (last_level ls ≡ some (r ∷ []))
      × (climb blake3 node i ss ≡ r)

  grow-ne-nil : (fuel : ℕ) (level : List Digest32) → grow blake3 fuel level ≢ some []
  unfolding grow
  grow-ne-nil zero level e = cc
  grow-ne-nil (suc fuel) [] e = cc
  grow-ne-nil (suc fuel) (x ∷ []) e = cc
  grow-ne-nil (suc fuel) (x ∷ y ∷ l) e =
      let (ls, _, pushed) = push-some (x ∷ y ∷ l) _ (sym (grow-cons blake3 fuel x y l) ∙ e) in cc

  Reaches-top :
      (level : List Digest32) (node : Digest32) (i : ℕ) (ss : List Digest32) {r : Digest32}
      → Reaches (level ∷ []) node i ss r
      → level ≡ node ∷ []
  unfolding last_level all_but_last climb
  Reaches-top level node i [] h = cc (some-injective _ _ h.1, h.2)
  Reaches-top level node i (s ∷ ss) h = absurd (omega (arith, h.0))

  Reaches-none :
      (level : List Digest32) (ls : List (List Digest32)) (node : Digest32) (i : ℕ) {r : Digest32}
      → ls ≢ []
      → ¬ Reaches (level ∷ ls) node i [] r
  unfolding all_but_last
  Reaches-none level [] node i ne h = ne refl
  Reaches-none level (l ∷ ls) node i ne h = omega (arith, h.0)

  Reaches-cons :
      (level : List Digest32) (ls : List (List Digest32)) (node : Digest32) (i : ℕ) (s : Digest32)
      (ss : List Digest32) {r : Digest32}
      → ls ≢ []
      → Reaches (level ∷ ls) node i (s ∷ ss) r
      → Reaches ls (if i % 2 == 0 then parent blake3 node s else parent blake3 s node) (i / 2) ss r
  unfolding last_level all_but_last climb
  Reaches-cons level [] node i s ss ne h = absurd (ne refl)
  Reaches-cons level (l ∷ ls) node i s ss ne h = (omega (arith, h.0), h.1, h.2)

  -- The digests of a node that has one of two parents: they are its children, or `blake3` collides.
  parent-injective :
      (a b c d : Digest32)
      → IsArray32 a
      → IsArray32 c
      → parent blake3 a b ≡ parent blake3 c d
      → ((a ≡ c) × (b ≡ d)) ⊎ Collision blake3
  unfolding parent hash
  parent-injective a b c d na nc e = elim (Bool-cases (bytes_eq (a ++ b) (c ++ d))) [
    | inl same ↦
        inl (append_injective a b c d (na ∙ sym nc) ((bytes_eq_iff (a ++ b) (c ++ d)).0 same))
    | inr other ↦ inr (
      _,
      _,
      (λ p. false≢true (sym other ∙ (bytes_eq_iff (a ++ b) (c ++ d)).1 (node_input a b c d p))),
      e,
    )
  ]

  next_level-mem :
      {p : Digest32} (l : List Digest32)
      → Memᴰ p (next_level blake3 l)
      → (a : Digest32) × (b : Digest32) × Memᴰ a l × Memᴰ b l × (p ≡ parent blake3 a b)
  unfolding next_level
  next_level-mem [] m = elim m [ ]
  next_level-mem (x ∷ []) (Memᴰ.head e) = (x, x, Memᴰ.head refl, Memᴰ.head refl, e)
  next_level-mem (x ∷ []) (Memᴰ.tail m) = elim m [ ]
  next_level-mem (x ∷ y ∷ l) (Memᴰ.head e) = (x, y, Memᴰ.head refl, Memᴰ.tail (Memᴰ.head refl), e)
  next_level-mem (x ∷ y ∷ l) (Memᴰ.tail m) =
      let (a, b, ma, mb, e) = next_level-mem l m in
      (a, b, Memᴰ.tail (Memᴰ.tail ma), Memᴰ.tail (Memᴰ.tail mb), e)

  module _ (digest_length : (b : Bytes) → IsArray32 (blake3 b)) where
    parent-IsArray32 : (a b : Digest32) → IsArray32 (parent blake3 a b)
    unfolding parent hash
    parent-IsArray32 a b = digest_length _

    pub branch-IsArray32 :
        (a b : Digest32) (left : Bool)
        → IsArray32 (if left then parent blake3 a b else parent blake3 b a)
    branch-IsArray32 a b true = parent-IsArray32 a b
    branch-IsArray32 a b false = parent-IsArray32 b a

    next_level-IsArray32 : (l : List Digest32) → All IsArray32 (next_level blake3 l)
    unfolding next_level
    next_level-IsArray32 [] = tt
    next_level-IsArray32 (x ∷ []) = (parent-IsArray32 x x, tt)
    next_level-IsArray32 (x ∷ y ∷ l) = (parent-IsArray32 x y, next_level-IsArray32 l)

    -- A node is in a level if its parent with some sibling is in the next.
    descend :
        (level : List Digest32) (node s : Digest32) (b : Bool)
        → All IsArray32 level
        → IsArray32 node
        → IsArray32 s
        → Memᴰ (if b then parent blake3 node s else parent blake3 s node) (next_level blake3 level)
        → Memᴰ node level ⊎ Collision blake3
    descend level node s true al an as' m =
        let (a, b, ma, mb, e) = next_level-mem level m in
        elim (parent-injective node s a b an (All-mem al ma) e) [
          | inl (p, q) ↦ inl (rw p ma)
          | inr c ↦ inr c
        ]
    descend level node s false al an as' m =
        let (a, b, ma, mb, e) = next_level-mem level m in
        elim (parent-injective s node a b as' (All-mem al ma) e) [
          | inl (p, q) ↦ inl (rw q mb)
          | inr c ↦ inr c
        ]

    -- What reaches the root of a level's tree along a path of its height is a digest of the level.
    pub Reaches-mem :
        (fuel : ℕ) (level : List Digest32) (node : Digest32) (i : ℕ) (ss : List Digest32)
        {ls : List (List Digest32)} {r : Digest32}
        → grow blake3 fuel level ≡ some ls
        → All IsArray32 level
        → IsArray32 node
        → All IsArray32 ss
        → Reaches ls node i ss r
        → Memᴰ node level ⊎ Collision blake3
    unfolding grow
    Reaches-mem zero level node i ss g al an as' h = cc
    Reaches-mem (suc fuel) [] node i ss {r} g al an as' h = absurd (
        let top : Reaches ([] ∷ []) node i ss r =
          subst (λ ls. Reaches ls node i ss r) (sym (some-injective _ _ g)) h in
        cc (Reaches-top [] node i ss top))
    Reaches-mem (suc fuel) (x ∷ []) node i ss {r} g al an as' h =
        let top : Reaches ((x ∷ []) ∷ []) node i ss r =
          subst (λ ls. Reaches ls node i ss r) (sym (some-injective _ _ g)) h in
        inl (Memᴰ.head (cc (Reaches-top (x ∷ []) node i ss top)))
    Reaches-mem (suc fuel) (x ∷ y ∷ l) node i [] {r} g al an as' h =
        let level : List Digest32 = x ∷ y ∷ l in
        let (ls', e, pushed) = push-some level _ (sym (grow-cons blake3 fuel x y l) ∙ g) in
        let ne : ls' ≢ [] = λ p. grow-ne-nil fuel (next_level blake3 level) (e ∙ ap some p) in
        absurd
          (Reaches-none level ls' node i ne (subst (λ ls. Reaches ls node i [] r) (sym pushed) h))
    Reaches-mem (suc fuel) (x ∷ y ∷ l) node i (s ∷ ss) {r} g al an as' h =
        let level : List Digest32 = x ∷ y ∷ l in
        let (ls', e, pushed) = push-some level _ (sym (grow-cons blake3 fuel x y l) ∙ g) in
        let ne : ls' ≢ [] = λ p. grow-ne-nil fuel (next_level blake3 level) (e ∙ ap some p) in
        let left : Bool = i % 2 == 0 in
        let up : Digest32 = if left then parent blake3 node s else parent blake3 s node in
        let reach : Reaches ls' up (i / 2) ss r =
          Reaches-cons level ls' node i s ss ne
            (subst (λ ls. Reaches ls node i (s ∷ ss) r) (sym pushed) h) in
        elim (Reaches-mem fuel (next_level blake3 level) up (i / 2) ss e
          (next_level-IsArray32 level) (branch-IsArray32 node s left) as'.1 reach) [
            | inl m ↦ descend level node s left al an as'.0 m
            | inr c ↦ inr c
          ]
