-- ===== src/Accounts/Beacon.antt =====
-- The native randomness beacon (ngstate/beacon.go), with its part of ngstate/changeset.go.
-- The seed is a digest; an absent one reads as 32 zero bytes, the number 0.
use ngcore.Base.{
  ℕ, zero, suc, ◌/◌, ◌%◌, ◌≡◌, refl, sym, ◌∙◌, Option, none, some, List, [], ◌∷◌, ◌++◌, ◌==◌,
  ==_self, inl, inr, Bool-cases, Option-cases, arith, if◌then◌else◌,
}
use ngcore.Forks.{is_fork_active, fork_random_beacon}
use ngcore.Types.{Hash, Bytes, FullTx, FullBlock}
use ngcore.Maps.{lookup, insert, erase}
use ngcore.Maps.Laws.{lookup-insert}
use ngcore.Accounts.{State}

-- "ngcore/randao"
abbrev pub beacon_domain : Bytes
beacon_domain = 110 ∷ 103 ∷ 99 ∷ 111 ∷ 114 ∷ 101 ∷ 47 ∷ 114 ∷ 97 ∷ 110 ∷ 100 ∷ 97 ∷ 111 ∷ []

-- `PackUint64LE` at 8 bytes; the 32 bytes of a digest are big-endian.
unfoldable pub little_endian : ℕ → ℕ → Bytes
little_endian zero n = []
little_endian (suc w) n = n % 256 ∷ little_endian w (n / 256)

unfoldable pub big_endian : ℕ → ℕ → Bytes → Bytes
big_endian zero n after = after
big_endian (suc w) n after = big_endian w (n / 256) (n % 256 ∷ after)

-- `getBeacon`
unfoldable pub get_beacon : State → Hash
get_beacon s = elim s.beacon [ none ↦ 0 | some seed ↦ seed ]

-- `recordBeacon`
unfoldable pub record_beacon : State → State
record_beacon s = elim s.recorder [
  | none ↦ s
  | some h ↦ elim (lookup h s.beacon_changes) [
    | some old ↦ s
    | none ↦ record s { beacon_changes = insert h s.beacon s.beacon_changes }
  ]
]

-- `setBeacon`
unfoldable pub set_beacon : State → Hash → State
unfolding record_beacon
set_beacon s seed = record (record_beacon s) { beacon = some seed; beacon_leaf = some seed }

-- `revertBeacon`
unfoldable pub revert_beacon : State → ℕ → State
revert_beacon s h = elim (lookup h s.beacon_changes) [
  | none ↦ s
  | some old ↦ record s {
    beacon = old;
    beacon_leaf = old;
    beacon_changes = erase h s.beacon_changes;
  }
]

unfoldable pub salts : List FullTx → Bytes
salts [] = []
salts (tx ∷ txs) = tx.salt ++ salts txs

module _ (hash256 : Bytes → Hash) where
  unfoldable pub next_seed : Hash → FullBlock → Hash
  unfolding salts little_endian big_endian
  next_seed prev block = hash256 (
      beacon_domain
      ++ big_endian 32 prev []
      ++ big_endian 32 block.prev_block_hash []
      ++ big_endian 32 (hash256 (salts block.txs)) []
      ++ little_endian 8 block.height)

  -- `updateBeacon`
  unfoldable pub update_beacon : State → FullBlock → State
  unfolding get_beacon set_beacon next_seed
  update_beacon s block =
      if is_fork_active block.network fork_random_beacon block.height
      then if block.height == 0 then s else set_beacon s (next_seed (get_beacon s) block)
      else s

set_beacon-recorded :
    (s : State) (h : ℕ) (seed : Hash)
    → s.recorder ≡ some h
    → lookup h s.beacon_changes ≡ none
    → (lookup h (set_beacon s seed).beacon_changes ≡ some s.beacon)
unfolding set_beacon record_beacon
set_beacon-recorded s h seed e fresh =
    ground (arith, lookup-insert h h s.beacon s.beacon_changes, ==_self h)

revert_beacon-found :
    (s : State) (h : ℕ) (old : Option Hash)
    → lookup h s.beacon_changes ≡ some old
    → ((revert_beacon s h).beacon ≡ old) × ((revert_beacon s h).beacon_leaf ≡ old)
unfolding revert_beacon
revert_beacon-found s h old e = ground arith

revert_beacon-missing :
    (s : State) (h : ℕ) → lookup h s.beacon_changes ≡ none → revert_beacon s h ≡ s
unfolding revert_beacon
revert_beacon-missing s h e = ground arith

-- Reverting a recorded block's height gives the beacon the seed and the leaf that it had before the
-- block's update, whether or not the fork was active.
pub revert_beacon-update_beacon :
    (hash256 : Bytes → Hash) (s : State) (block : FullBlock) (h : ℕ)
    → s.recorder ≡ some h
    → lookup h s.beacon_changes ≡ none
    → s.beacon_leaf ≡ s.beacon
    → ((revert_beacon (update_beacon hash256 s block) h).beacon ≡ s.beacon)
      × ((revert_beacon (update_beacon hash256 s block) h).beacon_leaf ≡ s.beacon_leaf)
unfolding update_beacon
revert_beacon-update_beacon hash256 s block h rec fresh mirror =
    let kept = revert_beacon-missing s h fresh in
    elim (Bool-cases (is_fork_active block.network fork_random_beacon block.height)) [
      | inr before ↦ rw (before, kept) (refl, refl)
      | inl active ↦ elim (Bool-cases (block.height == 0)) [
        | inl genesis ↦ rw (active, genesis, kept) (refl, refl)
        | inr later ↦
            let seed = next_seed hash256 (get_beacon s) block in
            let (old, leaf) =
              revert_beacon-found (set_beacon s seed) h s.beacon
                (set_beacon-recorded s h seed rec fresh) in
            rw (active, later) (old, leaf ∙ sym mirror)
      ]
    ]

balances-record_beacon : (s : State) → (record_beacon s).balances ≡ s.balances
unfolding record_beacon
balances-record_beacon s = elim (Option-cases s.recorder) [
  | inl e ↦ ground arith
  | inr (h, e) ↦ elim (Option-cases (lookup h s.beacon_changes)) [
    | inl fresh ↦ ground arith
    | inr (old, there) ↦ ground arith
  ]
]

pub balances-update_beacon :
    (hash256 : Bytes → Hash) (s : State) (block : FullBlock)
    → (update_beacon hash256 s block).balances ≡ s.balances
unfolding update_beacon set_beacon
balances-update_beacon hash256 s block =
    elim (Bool-cases (is_fork_active block.network fork_random_beacon block.height)) [
      | inr before ↦ ground arith
      | inl active ↦ elim (Bool-cases (block.height == 0)) [
        | inl genesis ↦ ground arith
        | inr later ↦ ground (arith, balances-record_beacon s)
      ]
    ]
