-- ===== src/Commits/Buckets/Laws.antt =====
-- Reading a bucket after a write.
use ngcore.Base.{
  ℕ, ◌≡◌, refl, Bool, false, ◌&&◌, ◌||◌, none, some, List, [], ◌∷◌, inl, inr, ◌==◌, ◌≤◌, ◌<◌,
  Bool-cases, if◌then◌else◌, arith,
}
use ngcore.Types.{Hash}
use ngcore.Commits.Buckets.{Bucket, get, delete, put, keys_below}

-- Whether a key is listed.
abbrev pub has_key : ℕ → Hash → List (ℕ × Hash) → Bool
has_key h g [] = false
has_key h g ((i, j) ∷ ks) = i == h && j == g || has_key h g ks

module _ {A : Type 0} where
  pub get-delete :
      (h i : ℕ) (g j : Hash) (b : Bucket A)
      → get i j (delete h g b) ≡ (if h == i && g == j then none else get i j b)
  unfolding get delete
  get-delete h i g j [] = elim (Bool-cases (h == i && g == j)) [
    | inl e ↦ rw e refl
    | inr e ↦ rw e refl
  ]
  get-delete h i g j (((k, l), a) ∷ b) = ground (arith, get-delete h i g j b)

  pub get-put :
      (h i : ℕ) (g j : Hash) (a : A) (b : Bucket A)
      → get i j (put h g a b) ≡ (if h == i && g == j then some a else get i j b)
  unfolding get put
  get-put h i g j a b = ground (arith, get-delete h i g j b)

  pub has_key-below :
      (cutoff h : ℕ) (g : Hash) (b : Bucket A)
      → cutoff ≤ h
      → has_key h g (keys_below cutoff b) ≡ false
  unfolding keys_below
  has_key-below cutoff h g [] le = refl
  has_key-below cutoff h g (((i, j), a) ∷ b) le = ground (arith, has_key-below cutoff h g b le)

  pub get-below :
      (cutoff h : ℕ) (g : Hash) (b : Bucket A)
      → h < cutoff
      → has_key h g (keys_below cutoff b) ≡ false
      → get h g b ≡ none
  unfolding keys_below get
  get-below cutoff h g [] lt e = refl
  get-below cutoff h g (((i, j), a) ∷ b) lt e = ground (arith, get-below cutoff h g b lt)
