-- ===== src/Maps/Values.antt =====
-- A map with a function applied to its values.
use ngcore.Base.{
  ℕ, ◌≡◌, refl, ap₂, subst, Option, none, some, [], ◌∷◌, All, ◌==◌, inl, inr, Bool-cases, arith,
}
use ngcore.Maps.{Map, lookup, insert, erase, Distinct}

module _ {A : Type 0} {B : Type 0} (f : A → B) where
  abbrev pub map_values : Map A → Map B
  map_values [] = []
  map_values ((a, x) ∷ m) = (a, f x) ∷ map_values m

  abbrev pub apply_some : Option A → Option B
  apply_some none = none
  apply_some (some x) = some (f x)

  pub lookup-map_values :
      (key : ℕ) (m : Map A) → lookup key (map_values m) ≡ apply_some (lookup key m)
  unfolding lookup
  lookup-map_values key [] = refl
  lookup-map_values key ((a, x) ∷ m) = elim (Bool-cases (a == key)) [
    | inl e ↦ ground (arith, lookup-map_values key m)
    | inr e ↦ ground (arith, lookup-map_values key m)
  ]

  pub map_values-insert :
      (key : ℕ) (x : A) (m : Map A) → map_values (insert key x m) ≡ insert key (f x) (map_values m)
  unfolding insert
  map_values-insert key x [] = refl
  map_values-insert key x ((a, y) ∷ m) = elim (Bool-cases (a == key)) [
    | inl e ↦ ground (arith, map_values-insert key x m)
    | inr e ↦ ground (arith, map_values-insert key x m)
  ]

  pub map_values-erase : (key : ℕ) (m : Map A) → map_values (erase key m) ≡ erase key (map_values m)
  unfolding erase
  map_values-erase key [] = refl
  map_values-erase key ((a, y) ∷ m) = elim (Bool-cases (a == key)) [
    | inl e ↦ ground (arith, map_values-erase key m)
    | inr e ↦ ground (arith, map_values-erase key m)
  ]

  pub map_values-Distinct : (m : Map A) → Distinct m → Distinct (map_values m)
  map_values-Distinct [] d = tt
  map_values-Distinct ((a, x) ∷ m) d =
      (ground (arith, lookup-map_values a m, d.0), map_values-Distinct m d.1)

module _ {A : Type 0} (P : ℕ × A → Type 0) where
  pub All-insert : (key : ℕ) (x : A) (m : Map A) → All P m → P (key, x) → All P (insert key x m)
  unfolding insert
  All-insert key x [] all p = (p, tt)
  All-insert key x ((a, y) ∷ m) all p = elim (Bool-cases (a == key)) [
    | inl e ↦ rw e (p, all.1)
    | inr e ↦ rw e (all.0, All-insert key x m all.1 p)
  ]

  pub All-lookup : (key : ℕ) (x : A) (m : Map A) → All P m → lookup key m ≡ some x → P (key, x)
  unfolding lookup
  All-lookup key x [] all e = cc
  All-lookup key x ((a, y) ∷ m) all e = elim (Bool-cases (a == key)) [
    | inl same ↦
        let p : a ≡ key = ground arith in
        let q : y ≡ x = ground arith in
        subst (λ (z : ℕ × A). P z) (ap₂ (λ (k : ℕ) (v : A). (k, v)) p q) all.0
    | inr other ↦ All-lookup key x m all.1 (ground arith)
  ]
