-- ===== src/Reward.antt =====
-- Block and uncle rewards (ngtypes/reward_curve.go).
pub mod Curve
mod Examples
use ngcore.Base.{ℕ, zero, suc, ◌+◌, ◌-◌, ◌*◌, ◌/◌, ltb, leb, if◌then◌else◌}
use ngcore.Params.{pico, uncle_max_depth}

abbrev pub reward_era : ℕ
reward_era = 1000000

abbrev pub max_block_reward_ng : ℕ
max_block_reward_ng = 10

abbrev pub min_block_reward_ng : ℕ
min_block_reward_ng = 2

abbrev pub floating_block_reward_ng : ℕ
floating_block_reward_ng = max_block_reward_ng - min_block_reward_ng

abbrev pub min_reward : ℕ
min_reward = pico * min_block_reward_ng

abbrev pub floating_reward : ℕ
floating_reward = pico * floating_block_reward_ng

-- The loop of `GetBlockReward`, on the eras left.
unfoldable pub decay : ℕ → ℕ → ℕ
decay zero reward = reward
decay (suc eras) reward = decay eras (reward - reward / 10)

unfoldable pub get_block_reward : ℕ → ℕ
get_block_reward height = decay (height / reward_era) floating_reward + min_reward

unfoldable pub uncle_reward : ℕ → ℕ → ℕ
unfolding get_block_reward
uncle_reward uncle_height nephew_height =
    if leb nephew_height uncle_height
    then 0
    else if ltb uncle_max_depth (nephew_height - uncle_height)
    then 0
    else get_block_reward uncle_height
      * (uncle_max_depth + 1 - (nephew_height - uncle_height))
      / (uncle_max_depth + 1)
