-- ===== src/Commits/Reveal.antt =====
-- Revealing a commitment: `consumeReveal` (ngstate/state_handle.go), which applies a reveal, and
-- `checkReveal` (ngstate/state_check.go), which admits one. `sender` is the address of the signature
-- envelope, and `reveal_hash` the digest of a transaction's content and salt.
use ngcore.Base.{
  Bool-cases, ==_self, [], ℕ, ◌≡◌, refl, ap, ◌∙◌, Option, none, some, inl, inr, ◌==◌, ltb, ◌<◌, ◌≤◌,
  ◌+◌, length, Option-cases, if◌then◌else◌, arith,
}
use ngcore.Types.{Address, Hash, FullTx}
use ngcore.Params.{commit_window, min_salt_size}
use ngcore.Commits.Buckets.{get, entries_at}
use ngcore.Commits.{
  CommitStore, find_commit, consume_commit, journal_consumed, restore_consumed_at_height,
  prune_commits,
}
use ngcore.Commits.Buckets.Laws.{get-delete}
use ngcore.Commits.Window.{find_commit-window}
use ngcore.Commits.Undo.{restore-consume}
use ngcore.Commits.Pruned.{restore-prune_commits}

pub data RevealError : Type 0 where
  not_committed salt_too_short no_sender : RevealError

pub data Reveal : Type 0 where
  applied : CommitStore → Reveal
  refused : RevealError → Reveal

module _ (sender : FullTx → Option Address) (reveal_hash : FullTx → Hash) where
  -- `consumeReveal`
  unfoldable pub consume_reveal : CommitStore → FullTx → Reveal
  consume_reveal s tx =
      if tx.height == 0
      then applied s
      else if ltb (length tx.salt) min_salt_size
      then refused salt_too_short
      else elim (sender tx) [
        | none ↦ refused no_sender
        | some from ↦
            let hash = reveal_hash tx in
            elim (find_commit s from hash tx.height) [
              | none ↦ refused not_committed
              | some h ↦ applied (consume_commit (journal_consumed s tx.height h hash from) h hash)
            ]
      ]

  -- `checkReveal`
  unfoldable pub check_reveal : CommitStore → FullTx → Option RevealError
  check_reveal s tx =
      if tx.height == 0
      then none
      else if length tx.salt == 0
      then some not_committed
      else if ltb (length tx.salt) min_salt_size
      then some salt_too_short
      else elim (sender tx) [
        | none ↦ some no_sender
        | some from ↦ elim (find_commit s from (reveal_hash tx) tx.height) [
          | none ↦ some not_committed
          | some h ↦ none
        ]
      ]

  -- The store after `tx` has revealed the commitment of height `h`.
  abbrev spent_store : CommitStore → FullTx → Address → ℕ → CommitStore
  spent_store s tx from h =
      consume_commit (journal_consumed s tx.height h (reveal_hash tx) from) h (reveal_hash tx)

  -- A reveal that the check admits is applied against the same store.
  pub check_reveal-applies :
      (s : CommitStore) (tx : FullTx)
      → check_reveal s tx ≡ none
      → (s' : CommitStore) × (consume_reveal s tx ≡ applied s')
  unfolding check_reveal consume_reveal
  check_reveal-applies s tx e = elim (Option-cases (sender tx)) [
    | inl missing ↦ elim (Bool-cases (tx.height == 0)) [
      | inl genesis ↦ (s, ground arith)
      | inr later ↦ ground arith
    ]
    | inr (from, sent) ↦ elim (Option-cases (find_commit s from (reveal_hash tx) tx.height)) [
      | inl nothing ↦ elim (Bool-cases (tx.height == 0)) [
        | inl genesis ↦ (s, ground arith)
        | inr later ↦ ground arith
      ]
      | inr (h, found) ↦ elim (Bool-cases (tx.height == 0)) [
        | inl genesis ↦ (s, ground arith)
        | inr later ↦ (spent_store s tx from h, ground arith)
      ]
    ]
  ]

  consume_reveal-cases :
      (s s' : CommitStore) (tx : FullTx)
      → consume_reveal s tx ≡ applied s'
      → 0 < tx.height
      → (from : Address) × (h : ℕ) × (sender tx ≡ some from)
        × (min_salt_size ≤ length tx.salt)
        × (find_commit s from (reveal_hash tx) tx.height ≡ some h)
        × (s' ≡ spent_store s tx from h)
  unfolding consume_reveal
  consume_reveal-cases s s' tx e pos = elim (Option-cases (sender tx)) [
    | inl missing ↦ ground arith
    | inr (from, sent) ↦ elim (Option-cases (find_commit s from (reveal_hash tx) tx.height)) [
      | inl nothing ↦ ground arith
      | inr (h, found) ↦ (from, h, sent, ground arith, found, ground arith)
    ]
  ]

  spent_store-gone :
      (s : CommitStore) (tx : FullTx) (from : Address) (h : ℕ)
      → get h (reveal_hash tx) (spent_store s tx from h).pending ≡ none
  unfolding consume_commit journal_consumed
  spent_store-gone s tx from h =
      rw
        (
          get-delete h h (reveal_hash tx) (reveal_hash tx) s.pending,
          ==_self h,
          ==_self (reveal_hash tx),
        )
        refl

  -- An applied reveal above genesis has a salt of at least 16 bytes and spends a commitment of its
  -- sender and its hash, which a block one to three below recorded, and which is then no longer
  -- pending at that height.
  pub consume_reveal-spends :
      (s s' : CommitStore) (tx : FullTx)
      → consume_reveal s tx ≡ applied s'
      → 0 < tx.height
      → (from : Address) × (h : ℕ) × (sender tx ≡ some from)
        × (min_salt_size ≤ length tx.salt)
        × (h < tx.height)
        × (tx.height ≤ h + commit_window)
        × (get h (reveal_hash tx) s.pending ≡ some from)
        × (get h (reveal_hash tx) s'.pending ≡ none)
  consume_reveal-spends s s' tx e pos =
      let (from, h, sent, salted, found, now) = consume_reveal-cases s s' tx e pos in
      let (below, near, got) = find_commit-window s from (reveal_hash tx) tx.height h found in
      (
        from,
        h,
        sent,
        salted,
        below,
        near,
        got,
        ap (λ (u : CommitStore). get h (reveal_hash tx) u.pending) now
            ∙ spent_store-gone s tx from h,
      )

  -- `restoreConsumedAtHeight` right after one applied reveal, at the height of the reveal, where the
  -- height is above genesis and had no journal entry before: every pending commitment and every
  -- journal entry reads as before that reveal. Where the block's `pruneCommits` comes in between, every
  -- pending commitment reads as before that reveal from three blocks below it on, and those that are
  -- older are gone.
  pub restore-consume_reveal :
      (s s' : CommitStore) (tx : FullTx) (i : ℕ) (j : Hash)
      → consume_reveal s tx ≡ applied s'
      → 0 < tx.height
      → entries_at tx.height s.spent ≡ []
      → (get i j (restore_consumed_at_height s' tx.height).pending ≡ get i j s.pending)
        × (get i j (restore_consumed_at_height s' tx.height).spent ≡ get i j s.spent)
        × (get i j (restore_consumed_at_height (prune_commits s' tx.height) tx.height).pending
            ≡ (if ltb (i + commit_window) tx.height then none else get i j s.pending))
  restore-consume_reveal s s' tx i j e pos fresh =
      let (from, h, sent, salted, found, now) = consume_reveal-cases s s' tx e pos in
      let (below, near, got) = find_commit-window s from (reveal_hash tx) tx.height h found in
      let (pending, journal) = restore-consume s tx.height h i (reveal_hash tx) j from got fresh in
      rw now (
        pending,
        journal,
        restore-prune_commits s tx.height h i (reveal_hash tx) j from got fresh near,
      )
