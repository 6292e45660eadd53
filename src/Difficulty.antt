-- ===== src/Difficulty.antt =====
-- The difficulty retarget (ngtypes/difficulty.go, the genesis times of ngtypes/defaults.go).
-- A parent stamped before the network's genesis panics; `none` is the panic.
pub mod Retarget
mod Examples
use ngcore.Base.{ℕ, ◌+◌, ◌-◌, ◌*◌, ◌/◌, ◌^◌, Bool, Option, none, some, ltb, ◌==◌, if◌then◌else◌}
use ngcore.Base.Int.{
  ℤ, pos, negsuc, pos_part, neg_part, ◌+ℤ◌, ◌-ℤ◌, ◌*ℤ◌, ltb_ℤ, quo, int64_of, wrap64, sub_ℕ,
}
use ngcore.Params.{minimum_difficulty, target_time}
use ngcore.Forks.{Network, zeronet, testnet}

-- `targetTimeAt` in milliseconds: every fork has the same target.
unfoldable pub target_time_at : Network → ℕ → ℕ
target_time_at net height = target_time

unfoldable pub minimum_diff_of : Network → ℕ
minimum_diff_of network = if network == zeronet then 1 else minimum_difficulty

-- `GetGenesisTimestamp`: 2020-10-24 and 2020-11-11 11:11:11 UTC, in milliseconds; the main network
-- and an unknown one panic.
unfoldable pub get_genesis_timestamp : Network → Option ℕ
get_genesis_timestamp network =
    if network == zeronet
    then some 1603497600000
    else if network == testnet
    then some 1605093071000
    else none

-- int64(x) - int64(y)
abbrev diff64 : ℤ → ℤ → ℤ
diff64 a b = wrap64 (a -ℤ b)

-- The clamped factor: `target - d` within [-99 * target, target].
unfoldable pub clamp_factor : ℕ → ℤ → ℤ
clamp_factor target raw =
    let factor = if ltb_ℤ (pos target) raw then pos target else raw in
    if ltb_ℤ factor (pos 0 -ℤ pos (99 * target)) then pos 0 -ℤ pos (99 * target) else factor

-- `target - d`, where d is the interval between the two stamps as int64 values.
unfoldable pub raw_factor : ℕ → ℕ → ℕ → ℤ
raw_factor target block_time parent_time =
    diff64 (pos target) (diff64 (int64_of block_time) (int64_of parent_time))

-- diff + diff * factor / (2048 * target), the quotient truncated towards zero.
unfoldable pub retarget : ℕ → ℤ → ℕ → ℤ
retarget diff factor target = pos diff +ℤ quo (pos diff *ℤ factor) (2048 * target)

-- The bump 2 ^ (height / 100000 - 2), absent while that exponent is negative.
unfoldable pub bomb : ℕ → ℕ
bomb block_height =
    let exp = quo (int64_of block_height) 100000 -ℤ pos 2 in
    elim exp [ pos e ↦ 2 ^ e | negsuc n ↦ 0 ]

-- `diff.Cmp(minimum) < 0`
unfoldable pub floor_diff : ℕ → ℤ → ℕ
floor_diff minimum diff = if ltb_ℤ diff (pos minimum) then minimum else pos_part diff

-- The parent's network, stamp and declared difficulty are the arguments.
unfoldable pub get_next_diff : ℕ → ℕ → Network → ℕ → ℕ → Option ℕ
unfolding target_time_at retarget bomb floor_diff
get_next_diff block_height block_time network parent_time parent_diff =
    elim (get_genesis_timestamp network) [
      | none ↦ none
      | some genesis ↦
          if ltb parent_time genesis
          then none
          else let target = target_time_at network block_height in
            let factor = clamp_factor target (raw_factor target block_time parent_time) in
            some (
              floor_diff (minimum_diff_of network)
                (retarget parent_diff factor target +ℤ pos (bomb block_height)))
    ]
