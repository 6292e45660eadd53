-- ===== src/Params/Heights.antt =====
-- The finality and pruning lines of blockchain/fork.go.
use ngcore.Base.{ℕ, ◌+◌, ◌-◌, ◌≤◌, ◌<◌, ◌≡◌, true, arith}
use ngcore.Params.{uncle_max_depth, is_head, finality_height, side_block_prune_height}

-- The finality line of a tip above the origin is the last checkpoint below the tip: it is a
-- checkpoint, lies below the tip, and no checkpoint below the tip lies above it.
pub finality_height-checkpoint :
    (tip h : ℕ)
    → h < tip
    → is_head h ≡ true
    → (is_head (finality_height tip) ≡ true)
      × (finality_height tip < tip)
      × (h ≤ finality_height tip)
unfolding finality_height is_head
finality_height-checkpoint tip h lt e = (ground arith, ground arith, ground arith)

-- The finality line never moves back when the tip advances.
pub finality_height_mono : (a b : ℕ) → a ≤ b → finality_height a ≤ finality_height b
unfolding finality_height
finality_height_mono a b h = ground arith

-- Every height below the pruning line is below the finality line, and so deep that the block after
-- the tip cannot refer to it as an uncle any more.
pub side_block_prune_height-safe :
    (tip h : ℕ)
    → h < side_block_prune_height tip
    → (h < finality_height tip) × (uncle_max_depth < tip + 1 - h)
unfolding side_block_prune_height
side_block_prune_height-safe tip h lt = ground arith
