-- ===== src/Relay.antt =====
-- The relay of commitments and reveals (ngpool/relay.go): a node holds the two signed halves of a
-- transaction and tries them again at every new tip until their window closes.
-- A drain answers the copies that it hands to the pool, in order; the pool's answers are only logged.
pub mod Bounded
mod Examples
use ngcore.Base.{
  ℕ, ◌+◌, ◌*◌, Bool, true, false, not, ◌&&◌, ◌||◌, Option, none, some, List, [], ◌∷◌, length, ltb,
  leb, ◌==◌, if◌then◌else◌,
}
use ngcore.Params.{commit_window, min_salt_size}
use ngcore.Types.{Address, Hash, FullTx, Commitment, transact_tx, deploy_tx, tx_is_signed}
use ngcore.Maps.{Map, lookup, insert}
use ngcore.Commits.{CommitError, check_commitment, commit_from_pending}
use ngcore.Envelope.{Crypto, Resolver, tx_from, commitment_from, verify_commitment}
use ngcore.Accounts.{State, get_balance}
use ngcore.Accounts.Keys.{key_resolver}
use ngcore.Accounts.Run.{Engine}
use ngcore.Accounts.Check.{CheckError, check_reveal_except_commitment}

-- `relayExpiry`
unfoldable pub relay_expiry : ℕ → ℕ
relay_expiry next = next + 2 * commit_window

pub record Relay : Type 0 where
  pub max_size : ℕ
  -- What is held for an address, and the last height at which it is tried.
  pub commit_queue : Map (Commitment × ℕ)
  pub reveal_queue : Map (FullTx × ℕ)

pub data RelayError : Type 0 where
  unsigned no_sender not_effect_tx salt_too_short pool_full : RelayError
  bad_commitment : CommitError → RelayError
  bad_reveal : CheckError → RelayError

-- A queue after an item is accepted, or `none` where it is full.
unfoldable pub enqueue : {A : Type 0} → ℕ → Address → A → ℕ → Map (A × ℕ) → Option (Map (A × ℕ))
enqueue max_size from item expire_at queue = elim (lookup from queue) [
  | some held ↦ some (insert from (item, expire_at) queue)
  | none ↦ if leb max_size (length queue) then none else some (insert from (item, expire_at) queue)
]

-- The queue that a drain at a height leaves.
unfoldable pub drop_expired : {A : Type 0} → ℕ → Map (A × ℕ) → Map (A × ℕ)
drop_expired next [] = []
drop_expired next ((from, (item, expire_at)) ∷ queue) =
    let rest = drop_expired next queue in
    if ltb expire_at next then rest else (from, (item, expire_at)) ∷ rest

-- `Commitment.CheckError`; a hash has 32 bytes and a fee is there.
unfoldable pub commitment_check_error : Crypto → Resolver → Commitment → ℕ → Bool
unfolding verify_commitment
commitment_check_error k lookup c block_height =
    if c.height == block_height
    then elim (verify_commitment k lookup c) [ none ↦ true | some e ↦ false ]
    else false

-- The copies of the held commitments that are not on chain yet.
unfoldable pub commit_attempts : State → ℕ → Map (Commitment × ℕ) → List Commitment
unfolding commit_from_pending
commit_attempts s next [] = []
commit_attempts s next ((from, (c, expire_at)) ∷ queue) =
    let rest = commit_attempts s next queue in
    if commit_from_pending s.commits from c.hash next
    then rest
    else record c { height = next } ∷ rest

-- `relayCommits`, after the block `latest`.
unfoldable pub relay_commits : State → ℕ → Relay → Relay × List Commitment
unfolding drop_expired commit_attempts
relay_commits s latest relay =
    let kept = drop_expired (latest + 1) relay.commit_queue in
    (record relay { commit_queue = kept }, commit_attempts s (latest + 1) kept)

unfoldable pub reveal_attempts : ℕ → Map (FullTx × ℕ) → List FullTx
reveal_attempts next [] = []
reveal_attempts next ((from, (tx, expire_at)) ∷ queue) =
    record tx { height = next } ∷ reveal_attempts next queue

-- `relayReveals`
unfoldable pub relay_reveals : ℕ → Relay → Relay × List FullTx
unfolding drop_expired reveal_attempts
relay_reveals latest relay =
    let kept = drop_expired (latest + 1) relay.reveal_queue in
    (record relay { reveal_queue = kept }, reveal_attempts (latest + 1) kept)

-- What a request makes of the relay: the relay and what it tries at once, or the error.
pub data Relayed (A : Type 0) : Type 0 where
  held : Relay → List A → Relayed A
  rejected : RelayError → Relayed A

module _ (k : Crypto) (engine : Engine) (reveal_hash : FullTx → Hash)
    (encoded_length : FullTx → Option ℕ) where
  -- `RelayCommit`
  unfoldable pub relay_commit : State → ℕ → Relay → Commitment → Relayed Commitment
  unfolding commitment_from check_commitment commitment_check_error key_resolver get_balance enqueue
      relay_expiry relay_commits
  relay_commit s latest relay c =
      let next = latest + 1 in
      if length c.sign == 0 then rejected unsigned else elim (commitment_from k c) [
        | none ↦ rejected no_sender
        | some from ↦
            elim (check_commitment (commitment_check_error k (key_resolver s)) (commitment_from k)
              (get_balance s) s.commits (record c { height = next }) next) [
                | some e ↦ rejected (bad_commitment e)
                | none ↦
                    elim (enqueue relay.max_size from c (relay_expiry next) relay.commit_queue) [
                      | none ↦ rejected pool_full
                      | some queue ↦
                          let (relay', attempts) =
                            relay_commits s latest (record relay { commit_queue = queue }) in
                          held relay' attempts
                    ]
              ]
      ]

  -- `RelayReveal`
  unfoldable pub relay_reveal : State → ℕ → Relay → FullTx → Relayed FullTx
  unfolding tx_is_signed tx_from check_reveal_except_commitment enqueue relay_expiry relay_reveals
  relay_reveal s latest relay tx =
      let probe = if tx.height == 0 then record tx { height = 1 } else tx in
      if not (tx_is_signed tx)
      then rejected unsigned
      else if not (tx.type == transact_tx || tx.type == deploy_tx)
      then rejected not_effect_tx
      else if ltb (length tx.salt) min_salt_size
      then rejected salt_too_short
      else elim (check_reveal_except_commitment k engine reveal_hash encoded_length s probe) [
        | some e ↦ rejected (bad_reveal e)
        | none ↦ elim (tx_from k tx) [
          | none ↦ rejected no_sender
          | some from ↦
              elim (enqueue relay.max_size from tx (relay_expiry (latest + 1)) relay.reveal_queue) [
                | none ↦ rejected pool_full
                | some queue ↦
                    let (relay', attempts) =
                      relay_reveals latest (record relay { reveal_queue = queue }) in
                    held relay' attempts
              ]
        ]
      ]
