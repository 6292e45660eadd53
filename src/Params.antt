-- ===== src/Params.antt =====
-- The consensus constants (ngtypes/defaults.go) and the height arithmetic on them.
pub mod Heights
mod Examples
use ngcore.Base.{ℕ, ◌+◌, ◌-◌, ◌*◌, ◌/◌, ◌%◌, ◌^◌, Bool, ltb, ◌==◌, add64, if◌then◌else◌}

abbrev pub minimum_difficulty : ℕ
minimum_difficulty = 200 * 2 ^ 4

-- `TargetTime` in milliseconds.
abbrev pub target_time : ℕ
target_time = 4000

abbrev pub block_check_round : ℕ
block_check_round = 10

abbrev pub max_uncles : ℕ
max_uncles = 2

abbrev pub uncle_max_depth : ℕ
uncle_max_depth = 30

abbrev pub timestamp_drift_tolerance : ℕ
timestamp_drift_tolerance = 15000

abbrev pub mature_round : ℕ
mature_round = 10

abbrev pub mature_height : ℕ
mature_height = mature_round * block_check_round

abbrev pub max_block_tx_count : ℕ
max_block_tx_count = 512

abbrev pub max_block_bytes : ℕ
max_block_bytes = 2 ^ 23

abbrev pub max_block_gas : ℕ
max_block_gas = 2 ^ 27

abbrev pub commit_window : ℕ
commit_window = 3

abbrev pub max_block_commit_count : ℕ
max_block_commit_count = max_block_tx_count

abbrev pub min_salt_size : ℕ
min_salt_size = 16

abbrev pub max_target : ℕ
max_target = 2 ^ 256 - 1

abbrev pub hash_size : ℕ
hash_size = 32

-- The raw units of one NG.
abbrev pub pico : ℕ
pico = 10 ^ 18

-- `GetMatureHeight`
unfoldable pub get_mature_height : ℕ → ℕ
get_mature_height current =
    if ltb current mature_height then 0 else current / mature_height * mature_height

-- `FullBlock.IsHead` and `FullBlock.IsTail`, on the header's height.
unfoldable pub is_head : ℕ → Bool
is_head height = height % block_check_round == 0

unfoldable pub is_tail : ℕ → Bool
is_tail height = add64 height 1 % block_check_round == 0

-- `finalityHeight` of blockchain/fork.go: the last checkpoint strictly below the tip.
unfoldable pub finality_height : ℕ → ℕ
finality_height tip = if tip == 0 then 0 else (tip - 1) / block_check_round * block_check_round

-- `sideBlockPruneHeight` of blockchain/fork.go.
unfoldable pub side_block_prune_height : ℕ → ℕ
unfolding finality_height
side_block_prune_height tip =
    let fh = finality_height tip in
    let keep = tip - uncle_max_depth in
    if ltb uncle_max_depth tip then (if ltb keep fh then keep else fh) else 0
