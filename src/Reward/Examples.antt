-- ===== src/Reward/Examples.antt =====
-- Tests of the reward curve, and the theorems about it at concrete inputs.
use ngcore.Base.{◌≡◌, refl}
use ngcore.Reward.{decay, get_block_reward}

second_era : get_block_reward 1000000 ≡ 9200000000000000000
unfolding get_block_reward decay
second_era = refl
