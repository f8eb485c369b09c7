-- ===== src/Merkle/Paths.antt =====
-- Inclusion proofs in crates/mirror-pool-merkle: every leaf climbs to the root along its siblings.
use mathlib.Core.Option.{some-injective}
use mathlib.Core.Path.{subst}
use mirror_pool.Prelude.{
  ℕ, zero, suc, ◌/◌, ◌%◌, ◌≡◌, Option, none, some, List, [], ◌∷◌, Bytes, refl, sym, ◌∙◌, ap,
  get_elem?, if◌then◌else◌, ◌==◌,
}
use mirror_pool.Core.Defs.{Digest32}
use mirror_pool.Merkle.Defs.{
  parent, next_level, grow, push, climb, sibling, siblings, pick, all_but_last, last_level,
}
use mirror_pool.Merkle.Levels.{next_level-sibling, grow-cons}

last_level-cons :
    (l k : List Digest32) (ls : List (List Digest32))
    → last_level ls ≡ some k
    → (last_level (l ∷ ls) ≡ some k) × (all_but_last (l ∷ ls) ≡ l ∷ all_but_last ls)
unfolding last_level all_but_last
last_level-cons l k [] h = cc
last_level-cons l k (m ∷ ms) h = (h, refl)

sibling_total :
    (l : List Digest32) (i : ℕ) {d : Digest32}
    → get_elem? l i ≡ some d
    → (s : Digest32) × (sibling l i ≡ some s)
unfolding sibling
sibling_total l i {d} h = rw h (pick_total _)
  where
    pick_total : (o : Option Digest32) → (s : Digest32) × (pick (some d) o ≡ some s)
    pick_total none = (d, refl)
    pick_total (some s) = (s, refl)

pub push-some :
    (level : List Digest32) (o : Option (List (List Digest32))) {ls : List (List Digest32)}
    → push level o ≡ some ls
    → (ls' : List (List Digest32)) × (o ≡ some ls') × (level ∷ ls' ≡ ls)
push-some level none h = cc
push-some level (some ls') h = (ls', refl, some-injective _ _ h)

module _ (blake3 : Bytes → Bytes) where
  -- What the loop of `proof` collects for a place of a level leads from the digest there to the root.
  abbrev pub Leads : List (List Digest32) → Digest32 → ℕ → Type 0
  Leads ls d i =
      (ss : List Digest32) × (r : Digest32) × (siblings (all_but_last ls) i ≡ some ss)
      × (last_level ls ≡ some (r ∷ []))
      × (climb blake3 d i ss ≡ r)

  Leads-cons :
      (level : List Digest32) (ls : List (List Digest32)) (i : ℕ) {d : Digest32}
      → get_elem? level i ≡ some d
      → ((s : Digest32)
          → sibling level i ≡ some s
          → Leads ls (if i % 2 == 0 then parent blake3 d s else parent blake3 s d) (i / 2))
      → Leads (level ∷ ls) d i
  unfolding siblings climb
  Leads-cons level ls i h up =
      let (s, sib) = sibling_total level i h in
      let (ss, r, collected, top, climbs) = up s sib in
      let (top', below) = last_level-cons level (r ∷ []) ls top in
      (s ∷ ss, r, rw (below, sib, collected), top', climbs)

  pub grow-Leads :
      (fuel : ℕ) (level : List Digest32) (i : ℕ) {d : Digest32} {ls : List (List Digest32)}
      → grow blake3 fuel level ≡ some ls
      → get_elem? level i ≡ some d
      → Leads ls d i
  unfolding grow siblings all_but_last last_level climb
  grow-Leads zero level i g h = cc
  grow-Leads (suc fuel) [] i g h = cc
  grow-Leads (suc fuel) (x ∷ []) zero {d} g h =
      subst (λ ls. Leads ls d 0) (some-injective _ _ g)
        ([], d, refl, ap (λ r. some (r ∷ [])) (some-injective _ _ h), refl)
  grow-Leads (suc fuel) (x ∷ []) (suc i) g h = cc
  grow-Leads (suc fuel) (x ∷ y ∷ l) i {d} g h =
      let level : List Digest32 = x ∷ y ∷ l in
      let above : List Digest32 = next_level blake3 level in
      let (ls', e, pushed) = push-some level _ (sym (grow-cons blake3 fuel x y l) ∙ g) in
      subst (λ ls. Leads ls d i) pushed
        (Leads-cons level ls' i h
          (λ s sib. grow-Leads fuel above (i / 2) e (next_level-sibling blake3 level i h sib)))
