-- ===== src/Merkle/Sorting.antt =====
-- The sort of crates/mirror-pool-merkle: it forgets the order of the leaves and keeps the leaves.
use mathlib.Core.Logic.{∥∥₁_elim}
use mathlib.Core.List.{Memᴰ, Perm, Permᴰ}
use mirror_pool.Prelude.{
  ℕ, suc, ◌≡◌, true, false, some, List, [], ◌∷◌, bytes_eq, bytes_lt, bytes_eq_iff, bytes_lt_trans,
  bytes_lt_total, bytes_lt_asymm, arith, refl, sym, ◌∙◌, ap, length, get_elem?, inl, inr,
  Bool-cases,
}
use mirror_pool.Core.Defs.{Digest32}
use mirror_pool.Merkle.Defs.{insert, sort, repeats, position}

insert_comm : (a b : Digest32) (l : List Digest32) → insert a (insert b l) ≡ insert b (insert a l)
unfolding insert
insert_comm a b [] = ground (arith, bytes_lt_asymm a b, bytes_lt_total a b)
insert_comm a b (e ∷ es) = ground (
  arith,
  insert_comm a b es,
  bytes_lt_asymm a b,
  bytes_lt_total a b,
  bytes_lt_asymm e a,
  bytes_lt_asymm e b,
  bytes_lt_trans e a b,
  bytes_lt_trans e b a,
)

sort-Permᴰ : {xs ys : List Digest32} → Permᴰ xs ys → sort xs ≡ sort ys
unfolding sort
sort-Permᴰ Permᴰ.nil = refl
sort-Permᴰ (Permᴰ.cons {a = a} e p) = rw (e, sort-Permᴰ p)
sort-Permᴰ (Permᴰ.swap {a = a} {b = b} {l = l} e f) = rw (e, f) (insert_comm _ _ (sort l))
sort-Permᴰ (Permᴰ.trans p q) = sort-Permᴰ p ∙ sort-Permᴰ q

Leaves-set : IsSet (List Digest32)
Leaves-set = hlevel

pub sort-Perm : {xs ys : List Digest32} → Perm xs ys → sort xs ≡ sort ys
sort-Perm p = ∥∥₁_elim p (Leaves-set _ _) sort-Permᴰ

length-insert : (d : Digest32) (l : List Digest32) → length (insert d l) ≡ suc (length l)
unfolding insert
length-insert d [] = refl
length-insert d (e ∷ es) = ground (arith, length-insert d es)

pub length-sort : (l : List Digest32) → length (sort l) ≡ length l
unfolding sort
length-sort [] = refl
length-sort (d ∷ ds) = omega (arith, length-insert d (sort ds), length-sort ds)

mem-insert_self : (d : Digest32) (l : List Digest32) → Memᴰ d (insert d l)
unfolding insert
mem-insert_self d [] = Memᴰ.head refl
mem-insert_self d (e ∷ es) = elim (Bool-cases (bytes_lt e d)) [
  | inl below ↦ rw below (Memᴰ.tail (mem-insert_self d es))
  | inr above ↦ rw above (Memᴰ.head refl)
]

mem-insert_other :
    {a : Digest32} (d : Digest32) (l : List Digest32) → Memᴰ a l → Memᴰ a (insert d l)
unfolding insert
mem-insert_other d [] m = elim m [ ]
mem-insert_other d (e ∷ es) (Memᴰ.head p) = elim (Bool-cases (bytes_lt e d)) [
  | inl below ↦ rw below (Memᴰ.head p)
  | inr above ↦ rw above (Memᴰ.tail (Memᴰ.head p))
]
mem-insert_other d (e ∷ es) (Memᴰ.tail m) = elim (Bool-cases (bytes_lt e d)) [
  | inl below ↦ rw below (Memᴰ.tail (mem-insert_other d es m))
  | inr above ↦ rw above (Memᴰ.tail (Memᴰ.tail m))
]

pub mem-sort : {a : Digest32} (l : List Digest32) → Memᴰ a l → Memᴰ a (sort l)
unfolding sort
mem-sort [] m = elim m [ ]
mem-sort (d ∷ ds) (Memᴰ.head e) = rw e (mem-insert_self d (sort ds))
mem-sort (d ∷ ds) (Memᴰ.tail m) = mem-insert_other d (sort ds) (mem-sort ds m)

-- `binary_search` finds every leaf of the list, at a place where it stands.
pub position-mem :
    {a : Digest32} (l : List Digest32)
    → Memᴰ a l
    → (i : ℕ) × (position a l ≡ some i) × (get_elem? l i ≡ some a)
unfolding position
position-mem [] m = elim m [ ]
position-mem {a} (e ∷ es) (Memᴰ.head p) = (0, ground (arith, bytes_eq_iff e a), sym (ap some p))
position-mem {a} (e ∷ es) (Memᴰ.tail m) =
    let (i, at, got) = position-mem es m in
    elim (Bool-cases (bytes_eq e a)) [
      | inl same ↦ (0, rw same, ap some ((bytes_eq_iff e a).0 same))
      | inr other ↦ (suc i, rw (other, at), got)
    ]

-- Each leaf lies below the next.
abbrev pub IsStrict : List Digest32 → Type 0
IsStrict [] = Unit
IsStrict (d ∷ []) = Unit
IsStrict (d ∷ e ∷ es) = (bytes_lt d e ≡ true) × IsStrict (e ∷ es)

-- No leaf lies above the next.
abbrev IsOrdered : List Digest32 → Type 0
IsOrdered [] = Unit
IsOrdered (d ∷ []) = Unit
IsOrdered (d ∷ e ∷ es) = (bytes_lt e d ≡ false) × IsOrdered (e ∷ es)

insert-IsOrdered : (d : Digest32) (l : List Digest32) → IsOrdered l → IsOrdered (insert d l)
unfolding insert
insert-IsOrdered d [] h = tt
insert-IsOrdered d (e ∷ []) h = ground (arith, bytes_lt_asymm e d)
insert-IsOrdered d (e ∷ f ∷ fs) h =
    ground (arith, insert-IsOrdered d (f ∷ fs) h.1, bytes_lt_asymm e d)

sort-IsOrdered : (l : List Digest32) → IsOrdered (sort l)
unfolding sort
sort-IsOrdered [] = tt
sort-IsOrdered (d ∷ ds) = insert-IsOrdered d (sort ds) (sort-IsOrdered ds)

IsOrdered-IsStrict : (l : List Digest32) → IsOrdered l → repeats l ≡ false → IsStrict l
unfolding repeats
IsOrdered-IsStrict [] h r = tt
IsOrdered-IsStrict (d ∷ []) h r = tt
IsOrdered-IsStrict (d ∷ e ∷ es) h r =
    ground (arith, IsOrdered-IsStrict (e ∷ es) h.1, bytes_lt_total d e, bytes_eq_iff d e)

-- Sorted leaves without a repeated neighbour are in strict order.
pub sort-IsStrict : (l : List Digest32) → repeats (sort l) ≡ false → IsStrict (sort l)
sort-IsStrict l r = IsOrdered-IsStrict (sort l) (sort-IsOrdered l) r
