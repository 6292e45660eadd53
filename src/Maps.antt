-- ===== src/Maps.antt =====
-- Go maps keyed by numbers (digests, addresses, heights), as association lists without a repeated
-- key. The order of the entries stands for the order of one iteration over the map.
pub mod Laws
pub mod Weigh
pub mod Values
use ngcore.Base.{ℕ, Bool, true, false, Option, none, some, List, [], ◌∷◌, ◌≡◌, ◌==◌, if◌then◌else◌}

abbrev pub Map {ℓ} : Type ℓ → Type ℓ
Map A = List (ℕ × A)

module _ {ℓ} {A : Type ℓ} where
  unfoldable pub lookup : ℕ → Map A → Option A
  lookup key [] = none
  lookup key ((a, new) ∷ rest) = if a == key then some new else lookup key rest

  -- m[k] = v
  unfoldable pub insert : ℕ → A → Map A → Map A
  insert key new [] = (key, new) ∷ []
  insert key new ((a, x) ∷ rest) =
      if a == key then (key, new) ∷ rest else (a, x) ∷ insert key new rest

  -- delete(m, k)
  unfoldable pub erase : ℕ → Map A → Map A
  erase key [] = []
  erase key ((a, x) ∷ rest) = let kept = erase key rest in if a == key then kept else (a, x) ∷ kept

  -- No key occurs twice.
  abbrev pub Distinct : Map A → Type ℓ
  Distinct [] = Unit {ℓ}
  Distinct ((a, x) ∷ rest) = (lookup a rest ≡ none) × Distinct rest
