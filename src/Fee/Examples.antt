-- ===== src/Fee/Examples.antt =====
-- Tests of the base fee, and the theorems about it at concrete inputs.
use ngcore.Base.{◌*◌, ◌+◌, ◌-◌, ◌≤◌, ◌≡◌, refl, none, arith}
use ngcore.Params.{max_block_bytes}
use ngcore.Forks.{zeronet, fork_height, is_fork_active}
use ngcore.Fee.{
  min_base_fee, base_fee_max_change_denom, sane_parent, update_base_fee, next_base_fee,
}
use ngcore.Fee.Bounds.{update_base_fee-step}

full_block : update_base_fee min_base_fee max_block_bytes ≡ 11250000000
unfolding update_base_fee
full_block = refl

no_parent : next_base_fee zeronet 5 none 0 ≡ min_base_fee
unfolding next_base_fee is_fork_active fork_height update_base_fee sane_parent
no_parent = refl

update_base_fee-step_example :
    (base_fee_max_change_denom * update_base_fee 20000000000 max_block_bytes
      ≤ (base_fee_max_change_denom + 1) * 20000000000)
    × ((base_fee_max_change_denom - 1) * 20000000000
        ≤ base_fee_max_change_denom * update_base_fee 20000000000 max_block_bytes)
update_base_fee-step_example =
    update_base_fee-step 20000000000 max_block_bytes (omega arith) (omega arith)
