-- ===== src/Maps/Laws.antt =====
-- The laws of maps, in the form of conditionals.
use ngcore.Base.{
  ℕ, suc, ◌≤◌, ◌<◌, ◌≡◌, refl, none, some, [], ◌∷◌, ◌==◌, length, In, inl, inr, ap, arith,
  Bool-cases, if◌then◌else◌,
}
use ngcore.Maps.{Map, lookup, insert, erase, Distinct}

module _ {ℓ} {A : Type ℓ} where
  pub lookup-insert :
      (key at : ℕ) (new : A) (rest : Map A)
      → lookup at (insert key new rest) ≡ (if key == at then some new else lookup at rest)
  unfolding lookup insert
  lookup-insert key at new [] = refl
  lookup-insert key at new ((a, x) ∷ rest) = ground (arith, lookup-insert key at new rest)

  pub lookup-erase :
      (key at : ℕ) (rest : Map A)
      → lookup at (erase key rest) ≡ (if key == at then none else lookup at rest)
  unfolding lookup erase
  lookup-erase key at [] = ground arith
  lookup-erase key at ((a, x) ∷ rest) = ground (arith, lookup-erase key at rest)

  pub insert-Distinct :
      (key : ℕ) (new : A) (rest : Map A) → Distinct rest → Distinct (insert key new rest)
  unfolding lookup insert
  insert-Distinct key new [] h = (refl, tt)
  insert-Distinct key new ((a, x) ∷ rest) h =
      ground (arith, insert-Distinct key new rest h.1, lookup-insert key a new rest)

  pub erase-Distinct : (key : ℕ) (rest : Map A) → Distinct rest → Distinct (erase key rest)
  unfolding erase
  erase-Distinct key [] h = tt
  erase-Distinct key ((a, x) ∷ rest) h =
      ground (arith, erase-Distinct key rest h.1, lookup-erase key a rest)

  pub length-insert_new :
      (key : ℕ) (new : A) (rest : Map A)
      → lookup key rest ≡ none
      → length (insert key new rest) ≡ suc (length rest)
  unfolding lookup insert
  length-insert_new key new [] h = refl
  length-insert_new key new ((a, x) ∷ rest) h = ground (arith, length-insert_new key new rest)

  pub length-insert_old :
      (key : ℕ) (new x : A) (rest : Map A)
      → lookup key rest ≡ some x
      → length (insert key new rest) ≡ length rest
  unfolding lookup insert
  length-insert_old key new x [] h = cc
  length-insert_old key new x ((a, y) ∷ rest) h = ground (arith, length-insert_old key new x rest)

  pub length-insert_le :
      (key : ℕ) (new : A) (rest : Map A) → length (insert key new rest) ≤ suc (length rest)
  unfolding insert
  length-insert_le key new [] = omega arith
  length-insert_le key new ((a, x) ∷ rest) = ground (arith, length-insert_le key new rest)

  pub length-erase_le : (key : ℕ) (rest : Map A) → length (erase key rest) ≤ length rest
  unfolding erase
  length-erase_le key [] = omega arith
  length-erase_le key ((a, x) ∷ rest) = ground (arith, length-erase_le key rest)

  pub length-erase_lt :
      (key : ℕ) (x : A) (rest : Map A)
      → lookup key rest ≡ some x
      → length (erase key rest) < length rest
  unfolding lookup erase
  length-erase_lt key x [] h = cc
  length-erase_lt key x ((a, y) ∷ rest) h =
      ground (arith, length-erase_lt key x rest, length-erase_le key rest)

-- Entries and lookups say the same of a map without a repeated key.
module _ {A : Type 0} where
  pub lookup-In :
      (key : ℕ) (new : A) (rest : Map A) → lookup key rest ≡ some new → In (key, new) rest
  unfolding lookup
  lookup-In key new [] h = cc
  lookup-In key new ((a, x) ∷ rest) h = elim (Bool-cases (a == key)) [
    | inl e ↦ inl (ground arith)
    | inr n ↦ inr (lookup-In key new rest (rw n at h))
  ]

  pub In-lookup :
      (key : ℕ) (new : A) (rest : Map A)
      → Distinct rest
      → In (key, new) rest
      → lookup key rest ≡ some new
  unfolding lookup
  In-lookup key new [] d h = absurd h
  In-lookup key new ((a, x) ∷ rest) d (inl e) =
      ground (arith, ap (λ (p : ℕ × A). p.0) e, ap (λ (p : ℕ × A). p.1) e)
  In-lookup key new ((a, x) ∷ rest) d (inr h) = ground (arith, In-lookup key new rest d.1 h)
