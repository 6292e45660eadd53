-- ===== src/Commits/Examples.antt =====
-- Commitments on a store of three: recorded at 8, 9 and 10, and revealed at 11.
use ngcore.Base.{
  ℕ, ◌+◌, ◌≡◌, ◌≤◌, ◌<◌, ltb, if◌then◌else◌, refl, Option, none, some, [], ◌∷◌, replicate, arith,
}
use ngcore.Types.{FullTx, Address, Hash}
use ngcore.Params.{commit_window, min_salt_size}
use ngcore.Commits.Buckets.{get, entries_at}
use ngcore.Commits.{
  CommitStore, find_commit, find_from, window_low, prune_commits, put_commit, consume_commit,
  journal_consumed, commit_from_pending, restore_consumed_at_height,
}
use ngcore.Commits.Window.{find_commit-prune_commits}
use ngcore.Commits.Mirror.{start, recorded, pruned, Reachable-Mirror, empty}
use ngcore.Commits.Reveal.{
  consume_reveal, check_reveal, applied, check_reveal-applies, consume_reveal-spends,
  restore-consume_reveal,
}

-- The digest 70 committed by 1 and by 2, and the digest 71 by 1.
abbrev store : CommitStore
store = record {
  pending = ((8, 70), 1) ∷ ((9, 70), 2) ∷ ((10, 71), 1) ∷ [];
  spent = [];
  leaves = ((8, 70), 1) ∷ ((9, 70), 2) ∷ ((10, 71), 1) ∷ [];
}

found : find_commit store 2 70 11 ≡ some 9
unfolding find_commit window_low find_from get
found = refl

held : get 9 70 store.pending ≡ some 2
unfolding get
held = refl

find_commit-prune_commits_example :
    (find_commit (prune_commits store 12) 2 70 13 ≡ find_commit store 2 70 13)
    × (commit_from_pending (prune_commits store 12) 2 70 13 ≡ commit_from_pending store 2 70 13)
find_commit-prune_commits_example = find_commit-prune_commits store 2 70 12 13 (omega arith)

abbrev one_recorded : CommitStore
one_recorded = prune_commits (put_commit empty 9 70 1) 12

Reachable-Mirror_example : one_recorded.leaves ≡ one_recorded.pending
Reachable-Mirror_example = Reachable-Mirror one_recorded (pruned _ 12 (recorded _ 9 70 1 start))

abbrev reveal : FullTx
reveal = record {
  network = 0;
  type = 2;
  height = 11;
  to = 3;
  value = 0;
  fee = 5;
  extra = [];
  sign = [];
  salt = replicate 16 7;
}

abbrev sender : FullTx → Option Address
sender tx = some 2

abbrev reveal_hash : FullTx → Hash
reveal_hash tx = 70

admitted : check_reveal sender reveal_hash store reveal ≡ none
unfolding check_reveal find_commit window_low find_from get
admitted = refl

abbrev spent : CommitStore
spent = consume_commit (journal_consumed store 11 9 70 2) 9 70

spends : consume_reveal sender reveal_hash store reveal ≡ applied spent
unfolding consume_reveal find_commit window_low find_from get
spends = refl

check_reveal-applies_example :
    (s' : CommitStore) × (consume_reveal sender reveal_hash store reveal ≡ applied s')
check_reveal-applies_example = check_reveal-applies sender reveal_hash store reveal admitted

consume_reveal-spends_example :
    (from : Address) × (h : ℕ) × (some 2 ≡ some from)
    × (min_salt_size ≤ 16)
    × (h < 11)
    × (11 ≤ h + commit_window)
    × (get h 70 store.pending ≡ some from)
    × (get h 70 spent.pending ≡ none)
consume_reveal-spends_example =
    consume_reveal-spends sender reveal_hash store spent reveal spends (omega arith)

nothing_spent : entries_at 11 store.spent ≡ []
unfolding entries_at
nothing_spent = refl

restore-consume_reveal_example :
    (get 9 70 (restore_consumed_at_height spent 11).pending ≡ get 9 70 store.pending)
    × (get 9 70 (restore_consumed_at_height spent 11).spent ≡ get 9 70 store.spent)
    × (get 9 70 (restore_consumed_at_height (prune_commits spent 11) 11).pending
        ≡ (if ltb (9 + commit_window) 11 then none else get 9 70 store.pending))
restore-consume_reveal_example =
    restore-consume_reveal sender reveal_hash store spent reveal 9 70 spends (omega arith)
      nothing_spent
