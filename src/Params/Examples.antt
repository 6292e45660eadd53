-- ===== src/Params/Examples.antt =====
-- Tests of the height arithmetic, and the theorems about it at concrete inputs.
use ngcore.Base.{◌+◌, ◌-◌, ◌<◌, ◌≡◌, refl, arith}
use ngcore.Params.{uncle_max_depth, finality_height, side_block_prune_height}
use ngcore.Params.Heights.{side_block_prune_height-safe}

finality_at_twenty : finality_height 20 ≡ 10
unfolding finality_height
finality_at_twenty = refl

side_block_prune_height-safe_example : (60 < finality_height 100) × (uncle_max_depth < 100 + 1 - 60)
unfolding side_block_prune_height
side_block_prune_height-safe_example = side_block_prune_height-safe 100 60 (omega arith)
