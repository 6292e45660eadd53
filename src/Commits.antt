-- ===== src/Commits.antt =====
-- The commit-reveal store (ngstate/commit.go): pending commitments, the journal of spent ones, and
-- the leaves that mirror the pending ones in the state commitment (`trieSetCommit`).
-- A key is heightLE ‖ Hash, the pair of its parts; a bbolt bucket is an association list without a
-- repeated key, and a cursor over a height's prefix is the list of that height's entries.
pub mod Buckets
pub mod Window
pub mod Undo
pub mod Pruned
pub mod Reveal
pub mod Mirror
mod Examples
use ngcore.Base.{
  ℕ, zero, suc, ◌+◌, ◌-◌, Bool, true, false, not, ◌&&◌, ◌||◌, Option, none, some, List, [], ◌∷◌,
  ◌==◌, ltb, leb, if◌then◌else◌,
}
use ngcore.Params.{commit_window}
use ngcore.Types.{Address, Hash, Commitment}
use Buckets.{Bucket, get, put, delete, entries_at, keys_below}

pub record CommitStore : Type 0 where
  pub pending : Bucket Address
  -- At (reveal height, hash): the height the commitment was recorded at, and its committer.
  pub spent : Bucket (ℕ × Address)
  -- The state commitment's leaves for pending commitments.
  pub leaves : Bucket Address

-- `putCommit`
unfoldable pub put_commit : CommitStore → ℕ → Hash → Address → CommitStore
put_commit s height hash from = record s {
  pending = put height hash from s.pending;
  leaves = put height hash from s.leaves;
}

-- The loop of `findCommit`: `n` heights from `h` on.
unfoldable pub find_from : Bucket Address → Address → Hash → ℕ → ℕ → Option ℕ
find_from b from hash h zero = none
find_from b from hash h (suc n) =
    let rest = find_from b from hash (suc h) n in
    elim (get h hash b) [ none ↦ rest | some a ↦ if a == from then some h else rest ]

-- The lowest height that a reveal may spend from.
unfoldable pub window_low : ℕ → ℕ
window_low reveal = if ltb commit_window reveal then reveal - commit_window else 0

-- `findCommit`
unfoldable pub find_commit : CommitStore → Address → Hash → ℕ → Option ℕ
unfolding window_low
find_commit s from hash reveal =
    find_from s.pending from hash (window_low reveal) (reveal - window_low reveal)

-- `consumeCommit`
unfoldable pub consume_commit : CommitStore → ℕ → Hash → CommitStore
consume_commit s height hash = record s {
  pending = delete height hash s.pending;
  leaves = delete height hash s.leaves;
}

-- The lowest height that `commitFromPending` scans.
unfoldable pub pending_low : ℕ → ℕ
pending_low height = if ltb (commit_window + 1) height then height - commit_window - 1 else 0

unfoldable pub is_found : Option ℕ → Bool
is_found none = false
is_found (some h) = true

-- `commitFromPending`; `CommitOnChain` is the same function.
unfoldable pub commit_from_pending : CommitStore → Address → Hash → ℕ → Bool
unfolding pending_low is_found
commit_from_pending s from hash height =
    is_found (find_from s.pending from hash (pending_low height) (height - pending_low height))

-- `journalConsumed`
unfoldable pub journal_consumed : CommitStore → ℕ → ℕ → Hash → Address → CommitStore
journal_consumed s reveal recorded hash from = record s {
  spent = put reveal hash (recorded, from) s.spent;
}

-- One round of the loop of `restoreConsumedAtHeight`.
unfoldable pub restore_one : ℕ → CommitStore → Hash × (ℕ × Address) → CommitStore
unfolding put_commit
restore_one h s (hash, (recorded, from)) =
    let s' = put_commit s recorded hash from in record s' { spent = delete h hash s'.spent }

unfoldable pub restore_all : ℕ → CommitStore → List (Hash × (ℕ × Address)) → CommitStore
restore_all h s [] = s
restore_all h s (e ∷ es) = restore_all h (restore_one h s e) es

-- `restoreConsumedAtHeight`
unfoldable pub restore_consumed_at_height : CommitStore → ℕ → CommitStore
restore_consumed_at_height s h = restore_all h s (entries_at h s.spent)

unfoldable pub delete_all : {A : Type 0} → List (ℕ × Hash) → Bucket A → Bucket A
delete_all [] b = b
delete_all ((h, g) ∷ ks) b = delete_all ks (delete h g b)

unfoldable pub keys_at : {A : Type 0} → ℕ → List (Hash × A) → List (ℕ × Hash)
keys_at h [] = []
keys_at h ((g, a) ∷ es) = (h, g) ∷ keys_at h es

-- `deleteCommitsAtHeight`
unfoldable pub delete_commits_at_height : CommitStore → ℕ → CommitStore
delete_commits_at_height s h =
    let keys = keys_at h (entries_at h s.pending) in
    record s { pending = delete_all keys s.pending; leaves = delete_all keys s.leaves }

-- `pruneCommits`, with the two calls of `pruneHeightBucketBelow`.
unfoldable pub prune_commits : CommitStore → ℕ → CommitStore
prune_commits s tip =
    if leb tip commit_window
    then s
    else let cutoff = tip - commit_window in
      let stale = keys_below cutoff s.pending in
      record {
        pending = delete_all stale s.pending;
        leaves = delete_all stale s.leaves;
        spent = delete_all (keys_below cutoff s.spent) s.spent;
      }

-- `CheckCommitment`: `check_error` is the commitment's own check (its fields and its signature),
-- `sender` the address of its envelope, and `balance` the committed balance.
pub data CommitError : Type 0 where
  malformed no_sender duplicate unaffordable : CommitError

unfoldable pub check_commitment :
    (Commitment → ℕ → Bool)
    → (Commitment → Option Address)
    → (Address → ℕ)
    → CommitStore
    → Commitment
    → ℕ
    → Option CommitError
check_commitment check_error sender balance s commit height =
    if check_error commit height
    then elim (sender commit) [
      | none ↦ some no_sender
      | some from ↦
          if commit_from_pending s from commit.hash height
          then some duplicate
          else if ltb (balance from) commit.fee
          then some unaffordable
          else none
    ]
    else some malformed
