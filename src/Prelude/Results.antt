-- ===== src/Prelude/Results.antt =====
-- Rust's `Result<A, E>` with the `?` operator as bind, and the checked arithmetic of `u32` and `u64`.
use Prim.Native.Nat.{ℕ, ◌+◌, ◌-◌, ◌<◌, ◌≤◌}
use mathlib.Core.Path.{ap, ◌≡◌, refl}
use mathlib.Core.Bool.{Bool, true, false}
use mathlib.Core.Option.{Option, none, some}
use native.Mathlib.Omega.{arith}
use mirror_pool.Prelude.Tests.{ltb, leb, if◌then◌else◌}

pub data Result {ℓ} (A E : Type ℓ) : Type ℓ where
  err : E → Result A E
  ok : A → Result A E

-- `if fault { return Err(e); }`
abbrev pub fail_if {ℓ} : {E : Type ℓ} → Bool → E → Result (Unit {ℓ}) E
fail_if true e = err e
fail_if false e = ok tt

-- `ok_or(e)`
abbrev pub ok_or {ℓ} : {A E : Type ℓ} → Option A → E → Result A E
ok_or none e = err e
ok_or (some a) e = ok a

-- The `?` operator: an error ends the function, a value goes on.
abbrev pub ◌>>=◌ {ℓ} : {A B E : Type ℓ} → Result A E → (A → Result B E) → Result B E
err fault >>= next = err fault
ok value >>= next = next value

abbrev pub ◌>>◌ {ℓ} : {A B E : Type ℓ} → Result A E → Result B E → Result B E
check >> after = check >>= λ passed. after

infixl 5 ◌>>=◌ ◌>>◌
-- `map_err(|_| e)`
abbrev pub map_err {ℓ} : {A E F : Type ℓ} → Result A E → F → Result A F
map_err (ok a) f = ok a
map_err (err e) f = err f

pub ok-injective {ℓ} : {A E : Type ℓ} {a b : A} → ◌≡◌ {A = Result A E} (ok a) (ok b) → a ≡ b
ok-injective h = cc

pub >>=-eq-ok {ℓ} :
    {A B E : Type ℓ} (action : Result A E) (next : A → Result B E) {result : B}
    → (action >>= next) ≡ ok result
    → (value : A) × (action ≡ ok value) × (next value ≡ ok result)
>>=-eq-ok (err fault) next succeeds = cc
>>=-eq-ok (ok value) next succeeds = (value, refl, succeeds)

abbrev pub u32_mod : ℕ
u32_mod = 4294967296

abbrev pub u64_mod : ℕ
u64_mod = 18446744073709551616

abbrev pub i64_mod : ℕ
i64_mod = 9223372036854775808

-- `a.checked_add(b)` at a width whose values lie below `m`.
abbrev pub checked_add : ℕ → ℕ → ℕ → Option ℕ
checked_add m a b = if ltb (a + b) m then some (a + b) else none

-- `a.checked_sub(b)` of an unsigned type.
abbrev pub checked_sub : ℕ → ℕ → Option ℕ
checked_sub a b = if leb b a then some (a - b) else none

-- A fault that was not met, and the rest of the block.
pub guarded {ℓ} :
    {A E : Type ℓ} (c : Bool) (e : E) (m : Result A E) {a : A}
    → (fail_if c e >> m) ≡ ok a
    → (c ≡ false) × (m ≡ ok a)
guarded true e m h = cc
guarded false e m h = (refl, h)

-- An option that was there, and the rest of the block.
pub supplied {ℓ} :
    {A B E : Type ℓ} (o : Option A) (e : E) (f : A → Result B E) {b : B}
    → (ok_or o e >>= f) ≡ ok b
    → (a : A) × (o ≡ some a) × (f a ≡ ok b)
supplied none e f h = cc
supplied (some a) e f h = (a, refl, h)

pub checked_sub-some : (a b : ℕ) {d : ℕ} → checked_sub a b ≡ some d → (b ≤ a) × (d ≡ a - b)
checked_sub-some a b h = ground arith

pub checked_add-some : (m a b : ℕ) {s : ℕ} → checked_add m a b ≡ some s → (a + b < m) × (s ≡ a + b)
checked_add-some m a b h = ground arith

pub map_err-ok {ℓ} :
    {A E F : Type ℓ} (m : Result A E) (f : F) {a : A} → map_err m f ≡ ok a → m ≡ ok a
map_err-ok (ok b) f h = ap ok (ok-injective h)
map_err-ok (err e) f h = cc

-- A block whose first step is known goes on with its value.
pub >>=-ok {ℓ} :
    {A B E : Type ℓ} {action : Result A E} {value : A}
    → action ≡ ok value
    → (next : A → Result B E) → (action >>= next) ≡ next value
>>=-ok e next = rw e

pub >>=-err {ℓ} :
    {A B E : Type ℓ} {action : Result A E} {fault : E}
    → action ≡ err fault
    → (next : A → Result B E) → (action >>= next) ≡ err fault
>>=-err e next = rw e

pub >>=-some {ℓ} :
    {A B E : Type ℓ} {o : Option A} {value : A}
    → o ≡ some value
    → (e : E) (next : A → Result B E) → (ok_or o e >>= next) ≡ next value
>>=-some e fault next = rw e
