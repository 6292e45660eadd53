-- ===== src/Difficulty/Examples.antt =====
-- Tests of the retarget, and the theorems about it at concrete inputs.
use ngcore.Base.{◌+◌, ◌*◌, ◌/◌, ◌≤◌, ◌≡◌, refl, none, some}
use ngcore.Base.Int.{◌+ℤ◌, ◌-ℤ◌, ◌*ℤ◌, quo, int64_of, wrap64}
use ngcore.Params.{target_time}
use ngcore.Forks.{testnet}
use ngcore.Difficulty.{
  minimum_diff_of, get_genesis_timestamp, clamp_factor, raw_factor, bomb, get_next_diff,
}
use ngcore.Difficulty.Retarget.{get_next_diff_step}

-- A block one second after its parent raises the difficulty, one after a minute lowers it.
fast_block : get_next_diff 7 1605093072000 testnet 1605093071000 4096000 ≡ some 4097500
unfolding get_next_diff get_genesis_timestamp minimum_diff_of clamp_factor raw_factor int64_of
    wrap64 quo ◌+ℤ◌ ◌-ℤ◌ ◌*ℤ◌
fast_block = refl

slow_block : get_next_diff 7 1605093131000 testnet 1605093071000 4096000 ≡ some 4068000
unfolding get_next_diff get_genesis_timestamp minimum_diff_of clamp_factor raw_factor int64_of
    wrap64 quo ◌+ℤ◌ ◌-ℤ◌ ◌*ℤ◌
slow_block = refl

before_genesis : get_next_diff 7 99 testnet 98 4096000 ≡ none
unfolding get_next_diff get_genesis_timestamp
before_genesis = refl

bump_at_200000 : bomb 200000 ≡ 1
unfolding bomb int64_of quo ◌-ℤ◌
bump_at_200000 = refl

get_next_diff_step_example :
    (4097500 ≤ minimum_diff_of testnet + (4096000 + 4096000 / 2048 + bomb 7))
    × (4096000 ≤ 4097500 + 99 * 4096000 / 2048)
get_next_diff_step_example =
    get_next_diff_step 7 1605093072000 testnet 1605093071000 4096000 fast_block

on_time_block :
    get_next_diff 7 (1605093071000 + target_time) testnet 1605093071000 4096000 ≡ some 4096000
unfolding get_next_diff get_genesis_timestamp minimum_diff_of clamp_factor raw_factor int64_of
    wrap64 quo ◌+ℤ◌ ◌-ℤ◌ ◌*ℤ◌
on_time_block = refl
