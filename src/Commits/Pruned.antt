-- ===== src/Commits/Pruned.antt =====
-- Undoing a reveal after the block's `pruneCommits` (ngstate/commit.go).
use ngcore.Base.{
  ℕ, ◌+◌, ◌-◌, ◌≡◌, ◌≢◌, ◌≤◌, ◌<◌, refl, ◌∙◌, none, some, List, [], ◌∷◌, inl, inr, ◌==◌, ◌&&◌, ltb,
  leb, All, Bool-cases, if◌then◌else◌, arith,
}
use ngcore.Types.{Address, Hash}
use ngcore.Params.{commit_window}
use ngcore.Commits.Buckets.{Bucket, get, delete, entries_at, keys_below}
use ngcore.Commits.Buckets.Laws.{get-delete, get-put}
use ngcore.Commits.{
  CommitStore, put_commit, consume_commit, journal_consumed, delete_all, prune_commits, restore_one,
  restore_all, restore_consumed_at_height,
}
use ngcore.Commits.Undo.{entries_at-put, same_key}
use ngcore.Commits.Window.{get-prune_commits}

module _ {A : Type 0} where
  entries_at-delete_other :
      (h i : ℕ) (g : Hash) (b : Bucket A) → i ≢ h → entries_at h (delete i g b) ≡ entries_at h b
  unfolding entries_at delete
  entries_at-delete_other h i g [] ne = refl
  entries_at-delete_other h i g (((k, l), a) ∷ b) ne =
      ground (arith, entries_at-delete_other h i g b ne)

  entries_at-delete_all :
      (h : ℕ) (ks : List (ℕ × Hash)) (b : Bucket A)
      → All (λ k. k.0 < h) ks
      → entries_at h (delete_all ks b) ≡ entries_at h b
  unfolding delete_all
  entries_at-delete_all h [] b below = refl
  entries_at-delete_all h ((i, j) ∷ ks) b below =
      entries_at-delete_all h ks (delete i j b) below.1
      ∙ entries_at-delete_other h i j b (omega (arith, below.0))

  keys_below-All :
      (cutoff h : ℕ) (b : Bucket A) → cutoff ≤ h → All (λ k. k.0 < h) (keys_below cutoff b)
  unfolding keys_below
  keys_below-All cutoff h [] le = tt
  keys_below-All cutoff h (((i, j), a) ∷ b) le = elim (Bool-cases (ltb i cutoff)) [
    | inl below ↦ rw below (ground arith, keys_below-All cutoff h b le)
    | inr above ↦ rw above (keys_below-All cutoff h b le)
  ]

-- Pruning at a height leaves the journal of that height.
entries_at-prune_commits :
    (s : CommitStore) (tip : ℕ)
    → entries_at tip (prune_commits s tip).spent ≡ entries_at tip s.spent
unfolding prune_commits
entries_at-prune_commits s tip = elim (Bool-cases (leb tip commit_window)) [
  | inl early ↦ rw early refl
  | inr late ↦ rw late (
      entries_at-delete_all tip (keys_below (tip - commit_window) s.spent) s.spent
        (keys_below-All (tip - commit_window) tip s.spent (omega arith)))
]

restore-single :
    (s : CommitStore) (reveal h i : ℕ) (hash j : Hash) (from : Address)
    → entries_at reveal s.spent ≡ (hash, (h, from)) ∷ []
    → get i j (restore_consumed_at_height s reveal).pending
      ≡ (if h == i && hash == j then some from else get i j s.pending)
unfolding restore_consumed_at_height restore_all restore_one put_commit
restore-single s reveal h i hash j from e = rw e (ground (arith, get-put h i hash j from s.pending))

-- After the pruning, a spent commitment is put back too, and what the pruning dropped is not.
pub restore-prune_commits :
    (s : CommitStore) (reveal h i : ℕ) (hash j : Hash) (from : Address)
    → get h hash s.pending ≡ some from
    → entries_at reveal s.spent ≡ []
    → reveal ≤ h + commit_window
    → get i j
        (restore_consumed_at_height
          (prune_commits (consume_commit (journal_consumed s reveal h hash from) h hash) reveal)
          reveal).pending
      ≡ (if ltb (i + commit_window) reveal then none else get i j s.pending)
unfolding consume_commit journal_consumed
restore-prune_commits s reveal h i hash j from got fresh near =
    let now = consume_commit (journal_consumed s reveal h hash from) h hash in
    let entries =
      entries_at-prune_commits now reveal ∙ entries_at-put reveal hash (h, from) s.spent fresh in
    ground (
      arith,
      restore-single (prune_commits now reveal) reveal h i hash j from entries,
      get-prune_commits now reveal i j,
      get-delete h i hash j s.pending,
      same_key h i hash j s.pending,
    )
