-- ===== src/Simulator/Counting.antt =====
-- What `metrics` of crates/mirror-pool-simulator/src/lib.rs counts: slots, groups and links.
use mirror_pool.Prelude.{
  ℕ, suc, ◌+◌, ◌-◌, Bool, true, false, List, [], ◌∷◌, Bytes, bytes_eq, bytes_lt, ltb, ◌==◌,
  if◌then◌else◌, u32_mod,
}
use mirror_pool.Simulator.Defs.{Observation, min, max}

abbrev pub abs_diff : ℕ → ℕ → ℕ
abs_diff a b = if ltb a b then b - a else a - b

-- `sort_unstable` of numbers.
abbrev pub insert_slot : ℕ → List ℕ → List ℕ
insert_slot n [] = n ∷ []
insert_slot n (m ∷ ms) = let rest = insert_slot n ms in if ltb m n then m ∷ rest else n ∷ m ∷ ms

unfoldable pub sort_slots : List ℕ → List ℕ
sort_slots [] = []
sort_slots (n ∷ ns) = insert_slot n (sort_slots ns)

-- `iter().max()` and `iter().min()`, with `unwrap_or`.
unfoldable pub max_or : ℕ → List ℕ → ℕ
max_or d [] = d
max_or d (n ∷ []) = n
max_or d (n ∷ m ∷ ms) = max n (max_or d (m ∷ ms))

unfoldable pub min_or : ℕ → List ℕ → ℕ
min_or d [] = d
min_or d (n ∷ []) = n
min_or d (n ∷ m ∷ ms) = min n (min_or d (m ∷ ms))

-- `*groups.entry(key).or_default() += 1` on a BTreeMap, which is the list of its entries in the order
-- of their keys.
unfoldable pub count_one : Bytes → List (Bytes × ℕ) → List (Bytes × ℕ)
count_one key [] = (key, 1) ∷ []
count_one key ((k, n) ∷ rest) =
    let later = count_one key rest in
    if bytes_lt key k
    then (key, 1) ∷ (k, n) ∷ rest
    else if bytes_eq key k
    then (k, n + 1) ∷ rest
    else (k, n) ∷ later

-- The values of the map.
abbrev pub values : List (Bytes × ℕ) → List ℕ
values [] = []
values ((k, n) ∷ rest) = n ∷ values rest

-- `values().filter(|&&n| n == 1).count()`
unfoldable pub ones : List ℕ → ℕ
ones [] = 0
ones (n ∷ ns) = if n == 1 then suc (ones ns) else ones ns

-- `u32::try_from(len).unwrap_or(u32::MAX)`
abbrev pub saturating_u32 : ℕ → ℕ
saturating_u32 n = if ltb n u32_mod then n else u32_mod - 1

module _ {F : Type 0} where
  -- `obs.iter().filter(|o| o.executed)`
  unfoldable pub only_executed : List (Observation F) → List (Observation F)
  only_executed [] = []
  only_executed (o ∷ os) = if o.executed then o ∷ only_executed os else only_executed os

  abbrev pub slots : List (Observation F) → List ℕ
  slots [] = []
  slots (o ∷ os) = o.slot ∷ slots os

  abbrev pub deviations : ℕ → List (Observation F) → List ℕ
  deviations target [] = []
  deviations target (o ∷ os) = abs_diff o.slot target ∷ deviations target os

  unfoldable pub group : List (Bytes × ℕ) → List (Observation F) → List (Bytes × ℕ)
  unfolding count_one
  group groups [] = groups
  group groups (o ∷ os) = group (count_one o.fingerprint groups) os

  unfoldable pub spread_of : ℕ → List (Observation F) → ℕ
  unfolding max_or min_or
  spread_of target executed = max_or target (slots executed) - min_or target (slots executed)

  unfoldable pub linked : Bool → List (Observation F) → List (Observation F)
  linked b [] = []
  linked true (o ∷ os) = if o.true_link then o ∷ linked true os else linked true os
  linked false (o ∷ os) = if o.true_link then linked false os else o ∷ linked false os
