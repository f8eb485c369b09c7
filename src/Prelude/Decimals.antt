-- ===== src/Prelude/Decimals.antt =====
-- Numbers in decimal, as `{}` prints an unsigned integer.
use Prim.Native.Nat.{ℕ, zero, suc, ◌+◌, ◌-◌, ◌*◌, ◌/◌, ◌%◌, ◌<◌}
use mathlib.Core.Path.{◌≡◌, refl, sym, ap, ◌∙◌}
use mathlib.Core.List.{List, [], ◌∷◌, ◌++◌}
use native.Mathlib.Omega.{arith}
use mirror_pool.Prelude.Tests.{ltb, if◌then◌else◌}
use mirror_pool.Prelude.Lists.{All}

-- A digit for each round; a number has fewer digits than itself plus one.
unfoldable pub digits : ℕ → ℕ → List ℕ
digits zero n = []
digits (suc fuel) n =
    let rest = digits fuel (n / 10) ++ (48 + n % 10) ∷ [] in
    if ltb n 10 then (48 + n) ∷ [] else rest

unfoldable pub decimal : ℕ → List ℕ
unfolding digits
decimal n = digits (suc n) n

-- The number that digits spell behind `acc`.
spelled : ℕ → List ℕ → ℕ
spelled acc [] = acc
spelled acc (c ∷ cs) = spelled (acc * 10 + (c - 48)) cs

spelled-append :
    (acc : ℕ) (xs : List ℕ) (c : ℕ) → spelled acc (xs ++ c ∷ []) ≡ spelled acc xs * 10 + (c - 48)
unfolding spelled
spelled-append acc [] c = refl
spelled-append acc (x ∷ xs) c = spelled-append (acc * 10 + (x - 48)) xs c

spelled-digits : (fuel n : ℕ) → n < fuel → spelled 0 (digits fuel n) ≡ n
unfolding digits spelled
spelled-digits zero n h = absurd (omega arith)
spelled-digits (suc fuel) n h =
    ground
      (arith, spelled-append 0 (digits fuel (n / 10)) (48 + n % 10), spelled-digits fuel (n / 10))

pub decimal-injective : (m n : ℕ) → decimal m ≡ decimal n → m ≡ n
unfolding decimal
decimal-injective m n e =
    sym (spelled-digits (suc m) m (omega arith))
    ∙ ap (spelled 0) e
    ∙ spelled-digits (suc n) n (omega arith)

-- Below the colon.
abbrev pub IsDigit : ℕ → Type 0
IsDigit c = c < 58

All-digits : (fuel n : ℕ) → All IsDigit (digits fuel n)
unfolding digits
All-digits zero n = tt
All-digits (suc fuel) n = ground (arith, All-last (digits fuel (n / 10)), All-digits fuel (n / 10))
  where
    All-last : (xs : List ℕ) → All IsDigit xs → All IsDigit (xs ++ (48 + n % 10) ∷ [])
    All-last [] a = omega arith
    All-last (x ∷ xs) (p, a) = (p, All-last xs a)

pub All-decimal : (n : ℕ) → All IsDigit (decimal n)
unfolding decimal
All-decimal n = All-digits (suc n) n

-- What stands before the first colon, and what stands behind it.
pub colon_unique :
    (xs ys rest rest' : List ℕ)
    → All IsDigit xs
    → All IsDigit ys
    → xs ++ 58 ∷ rest ≡ ys ++ 58 ∷ rest'
    → (xs ≡ ys) × (rest ≡ rest')
colon_unique [] [] rest rest' a b e = (refl, cc)
colon_unique [] (y ∷ ys) rest rest' a b e = let same : ◌≡◌ {A = ℕ} 58 y = cc in absurd (omega arith)
colon_unique (x ∷ xs) [] rest rest' a b e = let same : x ≡ 58 = cc in absurd (omega arith)
colon_unique (x ∷ xs) (y ∷ ys) rest rest' a b e =
    let (front, behind) = colon_unique xs ys rest rest' a.1 b.1 (cc) in
    let same : x ≡ y = cc in (cc, behind)
