-- ===== src/Merkle/Levels.antt =====
-- The levels that `build` of crates/mirror-pool-merkle grows: enough fuel, and the path to the root.
use mirror_pool.Prelude.{
  ℕ, zero, suc, ◌+◌, ◌/◌, ◌%◌, ◌*◌, ◌<◌, ◌≤◌, ◌≡◌, some, List, [], ◌∷◌, Bytes, arith, refl, sym,
  ◌∙◌, ap, length, get_elem?, if◌then◌else◌, lt→ltb, ◌==◌,
}
use mirror_pool.Core.Defs.{Digest32}
use mirror_pool.Merkle.Defs.{parent, next_level, grow, push, sibling, sibling_index, pick}

sibling_index-step : (i : ℕ) → sibling_index (suc (suc i)) ≡ suc (suc (sibling_index i))
unfolding sibling_index
sibling_index-step i = ground arith

sibling-step :
    (x y : Digest32) (l : List Digest32) (i : ℕ) → sibling (x ∷ y ∷ l) (suc (suc i)) ≡ sibling l i
unfolding sibling
sibling-step x y l i =
    ap (λ n. pick (get_elem? l i) (get_elem? (x ∷ y ∷ l) n)) (sibling_index-step i)

module _ (blake3 : Bytes → Bytes) where
  length-next_level :
      (l : List Digest32)
      → (2 * length (next_level blake3 l) ≤ length l + 1)
        × (length l ≤ 2 * length (next_level blake3 l))
  unfolding next_level
  length-next_level [] = omega arith
  length-next_level (d ∷ []) = omega arith
  length-next_level (d ∷ e ∷ es) = omega (arith, length-next_level es)

  -- A level of two digests or more is pushed, and the loop goes on above it.
  pub grow-cons :
      (fuel : ℕ) (x y : Digest32) (l : List Digest32)
      → grow blake3 (suc fuel) (x ∷ y ∷ l)
        ≡ push (x ∷ y ∷ l) (grow blake3 fuel (next_level blake3 (x ∷ y ∷ l)))
  unfolding grow
  grow-cons fuel x y l = rw (lt→ltb 1 (length (x ∷ y ∷ l)) (omega arith))

  -- As many rounds as the level has digests suffice, and the last level holds one digest.
  pub grow_total :
      (fuel : ℕ) (level : List Digest32)
      → 0 < length level
      → length level ≤ fuel
      → (ls : List (List Digest32)) × (grow blake3 fuel level ≡ some ls)
  unfolding grow
  grow_total zero level p h = absurd (omega arith)
  grow_total (suc fuel) [] p h = absurd (omega arith)
  grow_total (suc fuel) (d ∷ []) p h = ((d ∷ []) ∷ [], refl)
  grow_total (suc fuel) (d ∷ e ∷ es) p h =
      let level : List Digest32 = d ∷ e ∷ es in
      let (ls, grown) =
        grow_total fuel (next_level blake3 level) (omega (arith, length-next_level level))
          (omega (arith, length-next_level level)) in
      (level ∷ ls, rw (grow-cons fuel d e es, grown))

  -- One step up: the digest over a place is the parent of what stands there and its sibling.
  pub next_level-sibling :
      (l : List Digest32) (i : ℕ) {d s : Digest32}
      → get_elem? l i ≡ some d
      → sibling l i ≡ some s
      → get_elem? (next_level blake3 l) (i / 2)
        ≡ some (if i % 2 == 0 then parent blake3 d s else parent blake3 s d)
  unfolding next_level
  next_level-sibling [] i h k = cc
  next_level-sibling (x ∷ []) zero h k = unfold sibling in cc
  next_level-sibling (x ∷ []) (suc i) h k = cc
  next_level-sibling (x ∷ y ∷ l) zero h k = unfold sibling in cc
  next_level-sibling (x ∷ y ∷ l) (suc zero) h k = unfold sibling in cc
  next_level-sibling (x ∷ y ∷ l) (suc (suc i)) h k =
      let half : suc (suc i) / 2 ≡ suc (i / 2) = omega arith in
      let parity : suc (suc i) % 2 ≡ i % 2 = omega arith in
      rw (half, parity) (next_level-sibling l i h (sym (sibling-step x y l i) ∙ k))
