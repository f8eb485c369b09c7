-- ===== src/Simulator/Groups.antt =====
-- The groups of `metrics` in crates/mirror-pool-simulator/src/lib.rs: one for each fingerprint, with
-- the number of the observations that have it.
use mathlib.Core.List.{Memᴰ}
use mirror_pool.Prelude.{
  ℕ, suc, ltb, ◌+◌, ◌≤◌, ◌<◌, ◌≡◌, ◌⊎◌, inl, inr, true, false, List, [], ◌∷◌, Bytes, bytes_eq,
  bytes_lt, bytes_eq_iff, bytes_eq_refl, bytes_lt_trans, bytes_lt_irrefl, bytes_lt_total,
  if◌then◌else◌, Bool-cases, refl, sym, ap, ◌∙◌, arith,
}
use mirror_pool.Simulator.Defs.{Observation}
use mirror_pool.Simulator.Counting.{count_one, group, values, min_or}

-- The keys lie above a key.
abbrev Above : Bytes → List (Bytes × ℕ) → Type 0
Above key [] = Unit
Above key ((k, n) ∷ rest) = (bytes_lt key k ≡ true) × Above key rest

-- The keys ascend, and no count is zero.
abbrev IsTable : List (Bytes × ℕ) → Type 0
IsTable [] = Unit
IsTable ((k, n) ∷ rest) = (0 < n) × Above k rest × IsTable rest

-- The count of a key, 0 if it has none.
abbrev find : Bytes → List (Bytes × ℕ) → ℕ
find key [] = 0
find key ((k, n) ∷ rest) = if bytes_eq key k then n else find key rest

Above-trans : (j k : Bytes) (g : List (Bytes × ℕ)) → bytes_lt j k ≡ true → Above k g → Above j g
Above-trans j k [] lt a = tt
Above-trans j k ((i, n) ∷ rest) lt a = (bytes_lt_trans j k i lt a.0, Above-trans j k rest lt a.1)

bytes_eq-lt : (j k : Bytes) → bytes_lt j k ≡ true → bytes_eq j k ≡ false
bytes_eq-lt j k lt = elim (Bool-cases (bytes_eq j k)) [
  | inl same ↦
      let e : j ≡ k = (bytes_eq_iff j k).0 same in
      let bad : bytes_lt k k ≡ true = rw e at lt in absurd (ground (arith, bytes_lt_irrefl k))
  | inr other ↦ other
]

find-Above : (key : Bytes) (g : List (Bytes × ℕ)) → Above key g → find key g ≡ 0
find-Above key [] a = refl
find-Above key ((k, n) ∷ rest) a = rw (bytes_eq-lt key k a.0) (find-Above key rest a.1)

count_one-Above :
    (j key : Bytes) (g : List (Bytes × ℕ))
    → bytes_lt j key ≡ true
    → Above j g
    → Above j (count_one key g)
unfolding count_one
count_one-Above j key [] lt a = (lt, tt)
count_one-Above j key ((k, n) ∷ rest) lt a = ground (arith, count_one-Above j key rest)

count_one-IsTable : (key : Bytes) (g : List (Bytes × ℕ)) → IsTable g → IsTable (count_one key g)
unfolding count_one
count_one-IsTable key [] t = (omega arith, tt, tt)
count_one-IsTable key ((k, n) ∷ rest) t = elim (Bool-cases (bytes_lt key k)) [
  | inl below ↦ rw below (omega arith, (below, Above-trans key k rest below t.1), t)
  | inr above ↦ elim (Bool-cases (bytes_eq key k)) [
    | inl same ↦ rw (above, same) (omega arith, t.1, t.2)
    | inr other ↦
        rw (above, other)
          (t.0, count_one-Above k key rest (ne-lt above other) t.1, count_one-IsTable key rest t.2)
  ]
]
  where
    ne-lt : bytes_lt key k ≡ false → bytes_eq key k ≡ false → bytes_lt k key ≡ true
    ne-lt above other = elim (Bool-cases (bytes_lt k key)) [
      | inl below ↦ below
      | inr both ↦ ground (arith, bytes_lt_total key k above both, bytes_eq_iff key k)
    ]

find-count_one :
    (j key : Bytes) (g : List (Bytes × ℕ))
    → IsTable g
    → find j (count_one key g) ≡ (if bytes_eq j key then suc (find key g) else find j g)
unfolding count_one
find-count_one j key [] t = refl
find-count_one j key ((k, n) ∷ rest) t = elim (Bool-cases (bytes_lt key k)) [
  | inl below ↦
      let none_later = find-Above key rest (Above-trans key k rest below t.1) in
      rw (below, bytes_eq-lt key k below, none_later) refl
  | inr above ↦ ground (
    arith,
    bytes_eq_iff j key,
    bytes_eq_iff j k,
    bytes_eq_iff key k,
    find-count_one j key rest t.2,
  )
]

module _ {F : Type 0} where
  -- How many observations have a fingerprint.
  unfoldable pub share : Bytes → List (Observation F) → ℕ
  share key [] = 0
  share key (o ∷ os) = if bytes_eq key o.fingerprint then suc (share key os) else share key os

  group-IsTable :
      (g : List (Bytes × ℕ)) (os : List (Observation F)) → IsTable g → IsTable (group g os)
  unfolding group
  group-IsTable g [] t = t
  group-IsTable g (o ∷ os) t =
      group-IsTable (count_one o.fingerprint g) os (count_one-IsTable o.fingerprint g t)

  find-group :
      (j : Bytes) (g : List (Bytes × ℕ)) (os : List (Observation F))
      → IsTable g
      → find j (group g os) ≡ find j g + share j os
  unfolding group share
  find-group j g [] t = omega arith
  find-group j g (o ∷ os) t = ground (
    arith,
    bytes_eq_iff j o.fingerprint,
    find-count_one j o.fingerprint g t,
    find-group j (count_one o.fingerprint g) os (count_one-IsTable o.fingerprint g t),
  )

  share-mem :
      (o : Observation F) (os : List (Observation F)) → Memᴰ o os → 0 < share o.fingerprint os
  unfolding share
  share-mem o [] m = elim m [ ]
  share-mem o (x ∷ os) (Memᴰ.head e) =
      rw
        (ap (λ (z : Observation F). bytes_eq o.fingerprint z.fingerprint) (sym e)
          ∙ bytes_eq_refl o.fingerprint)
        (omega arith)
  share-mem o (x ∷ os) (Memᴰ.tail m) = ground (arith, share-mem o os m)

  -- A fingerprint that is shared is the fingerprint of an observation.
  mem-share :
      (key : Bytes) (os : List (Observation F))
      → 0 < share key os
      → (o : Observation F) × Memᴰ o os × (o.fingerprint ≡ key)
  unfolding share
  mem-share key [] h = absurd (omega arith)
  mem-share key (x ∷ os) h = elim (Bool-cases (bytes_eq key x.fingerprint)) [
    | inl same ↦ (x, Memᴰ.head refl, sym ((bytes_eq_iff key x.fingerprint).0 same))
    | inr other ↦ let (o, m, e) = mem-share key os (rw other at h) in (o, Memᴰ.tail m, e)
  ]

min_or-le : (j : Bytes) (g : List (Bytes × ℕ)) → 0 < find j g → min_or 0 (values g) ≤ find j g
unfolding min_or
min_or-le j [] h = absurd (omega arith)
min_or-le j ((k, n) ∷ []) h = ground arith
min_or-le j ((k, n) ∷ (i, m) ∷ rest) h = ground (arith, min_or-le j ((i, m) ∷ rest))

-- The minimum is the count of a key.
min_or-find :
    (k : Bytes) (n : ℕ) (rest : List (Bytes × ℕ))
    → IsTable ((k, n) ∷ rest)
    → (j : Bytes) × (find j ((k, n) ∷ rest) ≡ min_or 0 (n ∷ values rest))
      × (0 < min_or 0 (n ∷ values rest))
unfolding min_or
min_or-find k n [] t = (k, rw (bytes_eq_refl k) refl, t.0)
min_or-find k n ((i, m) ∷ rest) t =
    let (j, found, positive) = min_or-find i m rest t.2 in
    elim (Bool-cases (ltb (min_or 0 (m ∷ values rest)) n)) [
      | inl smaller ↦
          let other : bytes_eq j k ≡ false = ground (
            arith,
            found,
            positive,
            bytes_eq_iff j k,
            ap (λ (x : Bytes). find x ((i, m) ∷ rest)) ((bytes_eq_iff j k).0 _),
            find-Above k ((i, m) ∷ rest) t.1,
          ) in
          (j, rw (smaller, other) found, rw smaller positive)
      | inr larger ↦ (k, rw (larger, bytes_eq_refl k) refl, rw larger t.0)
    ]

module _ {F : Type 0} where
  -- What `minimum_k_anonymity` is to be: the size of the smallest class of observations that share
  -- a fingerprint.
  pub record IsMinimum (k : ℕ) (os : List (Observation F)) : Type 0 where
    pub least : (o : Observation F) → Memᴰ o os → k ≤ share o.fingerprint os
    pub attained :
        ((os ≡ []) × (k ≡ 0)) ⊎ ((o : Observation F) × Memᴰ o os × (share o.fingerprint os ≡ k))

  find-share : (j : Bytes) (os : List (Observation F)) → find j (group [] os) ≡ share j os
  find-share j os = omega (arith, find-group j [] os tt)

  attained-by :
      (g : List (Bytes × ℕ)) (os : List (Observation F))
      → IsTable g
      → ((j : Bytes) → find j g ≡ share j os)
      → ((os ≡ []) × (min_or 0 (values g) ≡ 0))
        ⊎ ((o : Observation F) × Memᴰ o os × (share o.fingerprint os ≡ min_or 0 (values g)))
  unfolding min_or
  attained-by [] [] t shares = inl (refl, refl)
  attained-by [] (o ∷ os) t shares =
      absurd (omega (arith, shares o.fingerprint, share-mem o (o ∷ os) (Memᴰ.head refl)))
  attained-by ((k, n) ∷ rest) os t shares =
      let (j, found, positive) = min_or-find k n rest t in
      let (o, m, e) = mem-share j os (omega (arith, shares j, found, positive)) in
      inr (o, m, ap (λ key. share key os) e ∙ sym (shares j) ∙ found)

  pub min_or-IsMinimum :
      (os : List (Observation F)) → IsMinimum (min_or 0 (values (group [] os))) os
  min_or-IsMinimum os = record {
    least = λ o m.
        let shared = find-share o.fingerprint os in
        rw shared at (min_or-le o.fingerprint (group [] os) (rw shared (share-mem o os m)));
    attained = attained-by (group [] os) os (group-IsTable [] os tt) (λ j. find-share j os);
  }
