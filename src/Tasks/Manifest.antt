-- ===== src/Tasks/Manifest.antt =====
-- xtask/src/main.rs: the manifest of the evidence, the names of its files, and the search for patterns.
use mirror_pool.Prelude.{
  ℕ, Bool, true, false, ◌||◌, ◌&&◌, Option, none, some, List, [], ◌∷◌, ◌++◌, Bytes, codes, bytes_eq,
  ◌==◌, if◌then◌else◌, any,
}

-- What `generate` takes from a local demo.
pub record LocalDemoResult : Type 0 where
  pub submitted : ℕ
  pub confirmed : ℕ
  pub spread : ℕ

-- A member of a `serde_json::Value`; `other` is one that is no u64 and no string.
pub data Value : Type 0 where
  number : ℕ → Value
  text : Bytes → Value
  other : Value

-- The members of an object; what is no object has none.
abbrev pub Object : Type 0
Object = List (Bytes × Value)

-- `manifest[key]`
abbrev pub member : Object → Bytes → Value
member [] key = other
member ((k, v) ∷ rest) key = if bytes_eq k key then v else member rest key

-- `as_u64().unwrap_or(0)`
abbrev pub as_u64 : Value → ℕ
as_u64 (number n) = n
as_u64 _ = 0

abbrev pub is_number : ℕ → Value → Bool
is_number n (number m) = m == n
is_number n _ = false

abbrev pub is_text : Bytes → Value → Bool
is_text t (text u) = bytes_eq u t
is_text t _ = false

-- `path.join(name)`
abbrev pub join : Bytes → Bytes → Bytes
join path name = path ++ (47 ∷ name)

abbrev pub json_name : Bytes
json_name = codes "evaluation.json"

abbrev pub csv_name : Bytes
csv_name = codes "evaluation.csv"

abbrev pub md_name : Bytes
md_name = codes "evaluation.md"

abbrev pub manifest_name : Bytes
manifest_name = codes "manifest.json"

-- `text.contains(pattern)`
unfoldable pub starts_with : Bytes → Bytes → Bool
starts_with t [] = true
starts_with [] (p ∷ ps) = false
starts_with (c ∷ cs) (p ∷ ps) = c == p && starts_with cs ps

unfoldable pub contains : Bytes → Bytes → Bool
unfolding starts_with
contains [] pattern = starts_with [] pattern
contains (c ∷ cs) pattern = starts_with (c ∷ cs) pattern || contains cs pattern

unfoldable pub is_sensitive : Bytes → Bool
unfolding contains
is_sensitive t =
    any (contains t)
      (codes "seed phrase" ∷ codes "private key" ∷ codes "passphrase" ∷ codes "/users/" ∷ [])

abbrev pub submitted_of : Option LocalDemoResult → ℕ
submitted_of none = 0
submitted_of (some l) = l.submitted

abbrev pub confirmed_of : Option LocalDemoResult → ℕ
confirmed_of none = 0
confirmed_of (some l) = l.confirmed

abbrev pub spread_of : Option LocalDemoResult → ℕ
spread_of none = 0
spread_of (some l) = l.spread
