-- ===== src/Merkle/Leaves.antt =====
-- The leaves of crates/mirror-pool-merkle: the sort permutes them, and its check for equal
-- neighbours finds every duplicate.
use mathlib.Core.HLevel.{⊥_prop}
use mathlib.Core.List.{Mem, Perm, Nodup, Nodup-cons, mem-cons, not-mem-nil, Nodup-nil}
use mathlib.Core.List.Perm
use mathlib.Core.Logic.Or
use mirror_pool.Prelude.{
  ◌≡◌, ◌↔◌, true, false, List, [], ◌∷◌, bytes_eq, bytes_lt, bytes_eq_iff, bytes_lt_irrefl,
  bytes_lt_trans, refl, All, inl, inr, Bool-cases,
}
use mirror_pool.Core.Defs.{Digest32}
use mirror_pool.Merkle.Defs.{insert, sort, repeats}
use mirror_pool.Merkle.Sorting.{IsStrict, sort-IsStrict}

insert-Perm : (d : Digest32) (l : List Digest32) → Perm (insert d l) (d ∷ l)
unfolding insert
insert-Perm d [] = Perm.refl (d ∷ [])
insert-Perm d (e ∷ es) = elim (Bool-cases (bytes_lt e d)) [
  | inl below ↦ rw below (Perm.trans (Perm.cons e (insert-Perm d es)) (Perm.swap d e es))
  | inr above ↦ rw above (Perm.refl (d ∷ e ∷ es))
]

pub sort-permutes : (l : List Digest32) → Perm (sort l) l
unfolding sort
sort-permutes [] = Perm.refl []
sort-permutes (d ∷ ds) = Perm.trans (insert-Perm d (sort ds)) (Perm.cons d (sort-permutes ds))

All-insert {κ} :
    (P : Digest32 → Type κ) (d : Digest32) (l : List Digest32) → P d → All P l → All P (insert d l)
unfolding insert
All-insert P d [] p h = (p, h)
All-insert P d (e ∷ es) p h = elim (Bool-cases (bytes_lt e d)) [
  | inl below ↦ rw below (h.0, All-insert P d es p h.1)
  | inr above ↦ rw above (p, h)
]

pub All-sort {κ} : (P : Digest32 → Type κ) (l : List Digest32) → All P l → All P (sort l)
unfolding sort
All-sort P [] h = h
All-sort P (d ∷ ds) h = All-insert P d (sort ds) h.0 (All-sort P ds h.1)

-- What lies below the first of a strict list lies below all of it.
IsStrict-below :
    (d e : Digest32) (l : List Digest32)
    → bytes_lt d e ≡ true
    → IsStrict (e ∷ l)
    → All (λ a. bytes_lt d a ≡ true) (e ∷ l)
IsStrict-below d e [] h s = (h, tt)
IsStrict-below d e (f ∷ l) h s = (h, IsStrict-below d f l (bytes_lt_trans d e f h s.0) s.1)

below-not-mem : (d : Digest32) (l : List Digest32) → All (λ a. bytes_lt d a ≡ true) l → ¬ Mem d l
below-not-mem d [] h m = not-mem-nil m
below-not-mem d (e ∷ es) h m =
    Or.elim ⊥_prop (mem-cons.0 m) (λ p. cc (bytes_lt_irrefl d, p, h.0)) (below-not-mem d es h.1)

IsStrict-Nodup : (l : List Digest32) → IsStrict l → Nodup l
IsStrict-Nodup [] s = Nodup-nil
IsStrict-Nodup (d ∷ []) s = Nodup-cons.1 (not-mem-nil, Nodup-nil)
IsStrict-Nodup (d ∷ e ∷ es) s =
    Nodup-cons.1
      (below-not-mem d (e ∷ es) (IsStrict-below d e es s.0 s.1), IsStrict-Nodup (e ∷ es) s.1)

Nodup-repeats : (l : List Digest32) → Nodup l → repeats l ≡ false
unfolding repeats
Nodup-repeats [] n = refl
Nodup-repeats (d ∷ []) n = refl
Nodup-repeats (d ∷ e ∷ es) n =
    let (new, rest) = Nodup-cons.0 n in
    elim (Bool-cases (bytes_eq d e)) [
      | inl same ↦ absurd (new (mem-cons.1 (Or.inl ((bytes_eq_iff d e).0 same))))
      | inr other ↦ rw other (Nodup-repeats (e ∷ es) rest)
    ]

-- After the sort no two neighbours are equal exactly if no leaf occurs twice.
pub repeats-sort : (l : List Digest32) → (repeats (sort l) ≡ false) ↔ Nodup l
repeats-sort l = (
  (λ r. Perm.nodup (sort-permutes l) (IsStrict-Nodup (sort l) (sort-IsStrict l r))),
  (λ n. Nodup-repeats (sort l) (Perm.nodup (Perm.symm (sort-permutes l)) n)),
)
