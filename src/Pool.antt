-- ===== src/Pool.antt =====
-- The transaction pool (ngpool/pool.go, ngpool/pool_put.go, ngpool/pool_get.go): admission,
-- replacement, eviction and packing. A call runs under the pool's lock, so it is one step.
pub mod Env
pub mod Eviction
pub mod Admission
pub mod Effects
pub mod Floor
pub mod Pack
mod Examples
use ngcore.Base.{
  ℕ, ◌+◌, ◌*◌, Bool, true, false, ◌&&◌, Option, none, some, List, [], ◌∷◌, ◌++◌, length, take, ltb,
  leb, ◌==◌, add64, if◌then◌else◌,
}
use ngcore.Base.Int.{pos}
use ngcore.Params.{max_block_tx_count}
use ngcore.Types.{FullTx, FullBlock, Commitment, Address, Hash}
use ngcore.Forks.{is_fork_active, fork_fee_market}
use ngcore.Fee.{next_base_fee, block_used_bytes}
use ngcore.Maps.{Map, lookup, insert, erase}
use Env.{
  PoolEnv, Error, Outcome, ok, err, panic, invalid_height, fee_below_floor, encode_failed, rejected,
  no_from, fee_too_low, pool_full,
}

-- `announced` are the calls of `OnNewTx` and `OnNewCommit`, in order. A relay floor of 0 is none.
pub record TxPool : Type 0 where
  pub tx_map : Map FullTx
  pub commit_map : Map Commitment
  pub max_size : ℕ
  pub min_fee_per_byte : ℕ
  pub announced : List FullTx
  pub announced_commits : List Commitment

abbrev pub default_pool_size : ℕ
default_pool_size = 4096

abbrev pub default_min_fee_per_byte : ℕ
default_min_fee_per_byte = 10000000000

-- `Init`
unfoldable pub init : TxPool
init = record {
  tx_map = [];
  commit_map = [];
  max_size = default_pool_size;
  min_fee_per_byte = default_min_fee_per_byte;
  announced = [];
  announced_commits = [];
}

-- `Reset`
unfoldable pub reset : TxPool → TxPool
reset pool = record pool { tx_map = []; commit_map = [] }

-- One round of `cheapestEntry`.
unfoldable pub cheaper : ℕ × FullTx → Option (Address × ℕ) → Option (Address × ℕ)
cheaper (a, tx) none = some (a, tx.fee)
cheaper (a, tx) (some (addr, fee)) =
    if ltb tx.fee fee
    then some (a, tx.fee)
    else if tx.fee == fee && ltb addr a
    then some (a, tx.fee)
    else some (addr, fee)

pub cheapest_from : Map FullTx → Option (Address × ℕ) → Option (Address × ℕ)
cheapest_from [] best = best
cheapest_from (e ∷ m) best = cheapest_from m (cheaper e best)

-- `cheapestEntry`: `none` is the nil fee of an empty map.
unfoldable pub cheapest_entry : Map FullTx → Option (Address × ℕ)
cheapest_entry m = cheapest_from m none

module _ (env : PoolEnv) where
  open env use {tip, tx_size, commit_size, tx_from, commit_from, check_tx, check_commitment}

  -- `GetLatestBlockHeight() + 1`
  unfoldable pub next_height : ℕ
  next_height = add64 env.latest_height 1

  -- The base fee of the next block, where the fork is active for it.
  unfoldable pub consensus_floor : Option ℕ
  consensus_floor = elim tip [
    | none ↦ none
    | some b ↦
        if is_fork_active b.network fork_fee_market (add64 b.height 1)
        then some
            (next_base_fee b.network b.height (some (pos b.base_fee)) (block_used_bytes tx_size b))
        else none
  ]

  -- `effectiveFloorPerByte`: the larger of the relay floor and the next block's base fee.
  unfoldable pub effective_floor_per_byte : TxPool → ℕ
  effective_floor_per_byte pool = elim consensus_floor [
    | none ↦ pool.min_fee_per_byte
    | some fee ↦ if ltb pool.min_fee_per_byte fee then fee else pool.min_fee_per_byte
  ]

  -- The floor test of `PutTx` and `PutCommitment`, on an encoded size and a fee.
  unfoldable pub clears_floor : TxPool → Option ℕ → ℕ → Option Error
  clears_floor pool size fee =
      let per_byte = effective_floor_per_byte pool in
      if ltb 0 per_byte
      then elim size [
        | none ↦ some encode_failed
        | some n ↦ if ltb fee (per_byte * n) then some fee_below_floor else none
      ]
      else none

  -- The write of an admitted transaction, and its announcement.
  unfoldable pub admit : TxPool → Map FullTx → Address → FullTx → Outcome TxPool
  admit pool m from tx =
      ok (record pool { tx_map = insert from tx m; announced = pool.announced ++ tx ∷ [] })

  -- The end of `PutTx`: replacement, or capacity and eviction.
  unfoldable pub place_tx : TxPool → Address → FullTx → Outcome TxPool
  unfolding admit
  place_tx pool from tx = elim (lookup from pool.tx_map) [
    | some existing ↦
        if leb tx.fee existing.fee then err fee_too_low else admit pool pool.tx_map from tx
    | none ↦
        if leb pool.max_size (length pool.tx_map)
        then elim (cheapest_entry pool.tx_map) [
          | none ↦ panic
          | some (addr, fee) ↦
              if leb tx.fee fee then err pool_full else admit pool (erase addr pool.tx_map) from tx
        ]
        else admit pool pool.tx_map from tx
  ]

  -- `PutTx`
  unfoldable pub put_tx : TxPool → FullTx → Outcome TxPool
  unfolding next_height
  put_tx pool tx =
      if tx.height == next_height
      then elim (clears_floor pool (tx_size tx) tx.fee) [
        | some e ↦ err e
        | none ↦
            if check_tx tx
            then elim (tx_from tx) [ none ↦ err no_from | some from ↦ place_tx pool from tx ]
            else err rejected
      ]
      else err invalid_height

  unfoldable pub place_commitment : TxPool → Address → Commitment → Outcome TxPool
  place_commitment pool from commit =
      let placed = ok (record pool {
        commit_map = insert from commit pool.commit_map;
        announced_commits = pool.announced_commits ++ commit ∷ [];
      }) in
      elim (lookup from pool.commit_map) [
        | some existing ↦ if leb commit.fee existing.fee then err fee_too_low else placed
        | none ↦ placed
      ]

  -- `PutCommitment`
  unfoldable pub put_commitment : TxPool → Commitment → Outcome TxPool
  unfolding next_height
  put_commitment pool commit =
      if check_commitment commit next_height
      then elim (clears_floor pool (commit_size commit) commit.fee) [
        | some e ↦ err e
        | none ↦ elim (commit_from commit) [
          | none ↦ err no_from
          | some from ↦ place_commitment pool from commit
        ]
      ]
      else err rejected
