-- ===== src/Fee.antt =====
-- The burn-only dynamic base fee (ngtypes/feemarket.go).
pub mod Bounds
mod Examples
use ngcore.Base.{
  ℕ, ◌+◌, ◌-◌, ◌*◌, ◌/◌, Bool, Option, none, some, List, [], ◌∷◌, ltb, ◌==◌, add64, if◌then◌else◌,
}
use ngcore.Base.Int.{ℤ, pos, negsuc}
use ngcore.Params.{max_block_bytes}
use ngcore.Types.{FullTx, FullBlock, generate_tx}
use ngcore.Forks.{Network, is_fork_active, fork_fee_market}

abbrev pub min_base_fee : ℕ
min_base_fee = 10000000000

abbrev pub base_fee_target_bytes : ℕ
base_fee_target_bytes = max_block_bytes / 2

abbrev pub base_fee_max_change_denom : ℕ
base_fee_max_change_denom = 8

unfoldable pub clamp_min_base_fee : ℕ → ℕ
clamp_min_base_fee x = if ltb x min_base_fee then min_base_fee else x

-- `parent == nil || parent.Sign() <= 0` snaps to the floor.
unfoldable pub sane_parent : Option ℤ → ℕ
sane_parent none = min_base_fee
sane_parent (some (negsuc n)) = min_base_fee
sane_parent (some (pos n)) = if n == 0 then min_base_fee else n

-- The proportional step for `excess` bytes off the target.
unfoldable pub base_fee_delta : ℕ → ℕ → ℕ
base_fee_delta parent excess = excess * parent / base_fee_target_bytes / base_fee_max_change_denom

-- A rising fee moves by one raw unit at least.
abbrev pub at_least_one : ℕ → ℕ
at_least_one delta = if delta == 0 then 1 else delta

-- The `switch` of `NextBaseFee`: the parent's fee and used bytes.
unfoldable pub update_base_fee : ℕ → ℕ → ℕ
unfolding clamp_min_base_fee base_fee_delta
update_base_fee parent used =
    if used == base_fee_target_bytes
    then clamp_min_base_fee parent
    else if ltb base_fee_target_bytes used
    then clamp_min_base_fee
        (parent + at_least_one (base_fee_delta parent (used - base_fee_target_bytes)))
    else clamp_min_base_fee (parent - base_fee_delta parent (base_fee_target_bytes - used))

unfoldable pub next_base_fee : Network → ℕ → Option ℤ → ℕ → ℕ
next_base_fee net parent_height parent_base_fee parent_used_bytes =
    if is_fork_active net fork_fee_market (add64 parent_height 1)
    then update_base_fee (sane_parent parent_base_fee) parent_used_bytes
    else min_base_fee

pub data FeeError : Type 0 where
  encode_failed fee_below_base_fee : FeeError

-- `rlp.EncodeToBytes` is a library's: its result's length, or `none` where it fails.
module _ (encoded_length : FullTx → Option ℕ) where
  used_from : List FullTx → ℕ → ℕ
  used_from [] used = used
  used_from (tx ∷ txs) used = used_from txs (
      if tx.type == generate_tx
      then used
      else elim (encoded_length tx) [ none ↦ used | some n ↦ add64 used n ])

  unfoldable pub block_used_bytes : FullBlock → ℕ
  unfolding used_from
  block_used_bytes block = used_from block.txs 0

  -- `checkTxBaseFee` (ngstate/state_check.go).
  unfoldable pub check_tx_base_fee : FullBlock → FullTx → Option FeeError
  check_tx_base_fee block tx =
      if is_fork_active block.network fork_fee_market block.height
      then elim (encoded_length tx) [
        | none ↦ some encode_failed
        | some n ↦ if ltb tx.fee (block.base_fee * n) then some fee_below_base_fee else none
      ]
      else none
