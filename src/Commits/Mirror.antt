-- ===== src/Commits/Mirror.antt =====
-- The state commitment's leaves follow the pending commitments through every operation.
use ngcore.Base.{ℕ, ◌≡◌, refl, ap, List, [], ◌∷◌, leb, Bool-cases, inl, inr}
use ngcore.Types.{Address, Hash}
use ngcore.Params.{commit_window}
use ngcore.Commits.Buckets.{put, delete}
use ngcore.Commits.{
  CommitStore, put_commit, consume_commit, journal_consumed, delete_all, delete_commits_at_height,
  restore_one, restore_all, restore_consumed_at_height, prune_commits,
}

abbrev pub empty : CommitStore
empty = record { pending = []; spent = []; leaves = [] }

-- The stores that a run of the operations reaches.
pub data Reachable : CommitStore → Type 0 where
  start : Reachable empty
  recorded :
      (s : CommitStore) (h : ℕ) (g : Hash) (a : Address)
      → Reachable s
      → Reachable (put_commit s h g a)
  consumed : (s : CommitStore) (h : ℕ) (g : Hash) → Reachable s → Reachable (consume_commit s h g)
  journaled :
      (s : CommitStore) (r h : ℕ) (g : Hash) (a : Address)
      → Reachable s
      → Reachable (journal_consumed s r h g a)
  restored : (s : CommitStore) (h : ℕ) → Reachable s → Reachable (restore_consumed_at_height s h)
  undone : (s : CommitStore) (h : ℕ) → Reachable s → Reachable (delete_commits_at_height s h)
  pruned : (s : CommitStore) (tip : ℕ) → Reachable s → Reachable (prune_commits s tip)

restore_all-Mirror :
    (h : ℕ) (s : CommitStore) (es : List (Hash × (ℕ × Address)))
    → s.leaves ≡ s.pending
    → (restore_all h s es).leaves ≡ (restore_all h s es).pending
unfolding restore_all restore_one put_commit
restore_all-Mirror h s [] e = e
restore_all-Mirror h s ((g, (k, a)) ∷ es) e =
    restore_all-Mirror h (restore_one h s (g, (k, a))) es (ap (put k g a) e)

-- In every store that a run of the operations reaches from the empty one, the leaves of the state
-- commitment are the pending commitments.
pub Reachable-Mirror : (s : CommitStore) → Reachable s → s.leaves ≡ s.pending
unfolding put_commit consume_commit journal_consumed restore_consumed_at_height
    delete_commits_at_height prune_commits
Reachable-Mirror s start = refl
Reachable-Mirror _ (recorded s h g a r) = ap (put h g a) (Reachable-Mirror s r)
Reachable-Mirror _ (consumed s h g r) = ap (delete h g) (Reachable-Mirror s r)
Reachable-Mirror _ (journaled s k h g a r) = Reachable-Mirror s r
Reachable-Mirror _ (restored s h r) = restore_all-Mirror h s _ (Reachable-Mirror s r)
Reachable-Mirror _ (undone s h r) = ap (delete_all _) (Reachable-Mirror s r)
Reachable-Mirror _ (pruned s tip r) = elim (Bool-cases (leb tip commit_window)) [
  | inl early ↦ rw early (Reachable-Mirror s r)
  | inr late ↦ rw late (ap (delete_all _) (Reachable-Mirror s r))
]
