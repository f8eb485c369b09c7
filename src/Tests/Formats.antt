-- ===== src/Tests/Formats.antt =====
-- Formats of files that read back what they write, for the examples of crates/mirror-pool-cli.
use mirror_pool.Prelude.{
  ℕ, zero, suc, ◌≡◌, Option, none, some, List, [], ◌∷◌, Bytes, length, refl, sym, ap, ◌∙◌,
}
use mathlib.Core.Option.{some-injective}
use mirror_pool.Store.Defs.{Json}
use mirror_pool.Tests.Host.{put, chunk, chunk-put}

-- A value in front of other bytes.
pub record Format (A : Type 0) : Type 0 where
  pub put : A → Bytes → Bytes
  pub get : Bytes → A × Bytes
  pub law : (a : A) (rest : Bytes) → get (put a rest) ≡ (a, rest)

abbrev pub ◌▹◌ : {A B : Type 0} → A → B → A × B
a ▹ b = (a, b)

infixr 5 ◌▹◌
abbrev get_number : Bytes → ℕ × Bytes
get_number [] = (0, [])
get_number (n ∷ bytes) = (n, bytes)

abbrev pub number : Format ℕ
number = record { put = λ n rest. n ∷ rest; get = get_number; law = λ n rest. refl }

abbrev pub bytes : Format Bytes
bytes = record { put = mirror_pool.Tests.Host.put; get = chunk; law = chunk-put }

module _ {A B : Type 0} where
  pub both_law :
      (f : Format A) (g : Format B) (a : A) (b : B) (rest : Bytes)
      → (let (x, left) = f.get (f.put a (g.put b rest)) in
          let (y, right) = g.get left in ◌≡◌ {A = (A × B) × Bytes} ((x, y), right) ((a, b), rest))
  both_law f g a b rest = rw (f.law a (g.put b rest), g.law b rest) refl

  abbrev pub ◌⊗◌ : Format A → Format B → Format (A × B)
  f ⊗ g = record {
    put = λ (a, b) rest. f.put a (g.put b rest);
    get = λ bs. let (a, left) = f.get bs in let (b, right) = g.get left in ((a, b), right);
    law = λ (a, b) rest. both_law f g a b rest;
  }

  infixr 5 ◌⊗◌
  -- A format of the values that others stand for.
  abbrev pub mapped :
      (f : Format A) (to : A → B) (from : B → A) (law : (b : B) → to (from b) ≡ b) → Format B
  mapped f to from law = record {
    put = λ b rest. f.put (from b) rest;
    get = λ bs. let (a, left) = f.get bs in (to a, left);
    law = λ b rest. rw (f.law (from b) rest, law b) refl;
  }

module _ {A : Type 0} (f : Format A) where
  abbrev put_option : Option A → Bytes → Bytes
  put_option none rest = 0 ∷ rest
  put_option (some a) rest = 1 ∷ f.put a rest

  abbrev get_option : Bytes → Option A × Bytes
  get_option [] = (none, [])
  get_option (zero ∷ bs) = (none, bs)
  get_option (suc n ∷ bs) = let (a, left) = f.get bs in (some a, left)

  pub option_law : (o : Option A) (rest : Bytes) → get_option (put_option o rest) ≡ (o, rest)
  option_law none rest = refl
  option_law (some a) rest = rw (f.law a rest) refl

  abbrev pub option : Format (Option A)
  option = record { put = put_option; get = get_option; law = option_law }

  abbrev put_all : List A → Bytes → Bytes
  put_all [] rest = rest
  put_all (a ∷ l) rest = f.put a (put_all l rest)

  abbrev get_all : ℕ → Bytes → List A × Bytes
  get_all zero bs = ([], bs)
  get_all (suc n) bs = let (a, left) = f.get bs in let (l, right) = get_all n left in (a ∷ l, right)

  pub all_law : (l : List A) (rest : Bytes) → get_all (length l) (put_all l rest) ≡ (l, rest)
  all_law [] rest = refl
  all_law (a ∷ l) rest = rw (f.law a (put_all l rest), all_law l rest) refl

  abbrev get_list : Bytes → List A × Bytes
  get_list [] = ([], [])
  get_list (n ∷ bs) = get_all n bs

  abbrev pub list : Format (List A)
  list = record { put = λ l rest. length l ∷ put_all l rest; get = get_list; law = all_law }

  abbrev pub json_of : Json A
  json_of = record { to_string = λ a. some (f.put a []); from_str = λ bs. some ((f.get bs).0) }

  pub json_of_reads :
      (a : A) (text : Bytes) → json_of.to_string a ≡ some text → json_of.from_str text ≡ some a
  json_of_reads a text e =
      ap (λ bs. some ((f.get bs).0)) (some-injective _ _ (sym e))
      ∙ ap (λ (x : A × Bytes). some x.0) (f.law a [])
