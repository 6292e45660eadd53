-- ===== src/Commits/Buckets.antt =====
-- Buckets whose keys are a height and a digest (the keys of ngstate/commit.go).
pub mod Laws
use ngcore.Base.{
  ℕ, Bool, true, false, ◌&&◌, Option, none, some, List, [], ◌∷◌, ◌==◌, ltb, if◌then◌else◌,
}
use ngcore.Types.{Hash}

abbrev pub Bucket : Type 0 → Type 0
Bucket A = List ((ℕ × Hash) × A)

module _ {A : Type 0} where
  -- `bucket.Get`
  unfoldable pub get : ℕ → Hash → Bucket A → Option A
  get h g [] = none
  get h g (((i, j), a) ∷ b) = let rest = get h g b in if i == h && j == g then some a else rest

  -- `bucket.Delete`
  unfoldable pub delete : ℕ → Hash → Bucket A → Bucket A
  delete h g [] = []
  delete h g (((i, j), a) ∷ b) =
      let rest = delete h g b in if i == h && j == g then rest else ((i, j), a) ∷ rest

  -- `bucket.Put`
  unfoldable pub put : ℕ → Hash → A → Bucket A → Bucket A
  unfolding delete
  put h g a b = ((h, g), a) ∷ delete h g b

  -- The digests and values of a height: what a cursor reads that seeks the height's prefix.
  unfoldable pub entries_at : ℕ → Bucket A → List (Hash × A)
  entries_at h [] = []
  entries_at h (((i, j), a) ∷ b) =
      let rest = entries_at h b in if i == h then (j, a) ∷ rest else rest

  -- The keys below a height: what the cursor of `pruneHeightBucketBelow` collects.
  unfoldable pub keys_below : ℕ → Bucket A → List (ℕ × Hash)
  keys_below cutoff [] = []
  keys_below cutoff (((i, j), a) ∷ b) =
      let rest = keys_below cutoff b in if ltb i cutoff then (i, j) ∷ rest else rest
