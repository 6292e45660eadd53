-- ===== src/Fee/Bounds.antt =====
-- The laws of the base fee update.
use ngcore.Base.{ℕ, ◌+◌, ◌-◌, ◌*◌, ◌≤◌, ◌<◌, ◌≡◌, true, Option, some, arith, add64}
use ngcore.Base.Int.{ℤ, pos}
use ngcore.Params.{max_block_bytes}
use ngcore.Forks.{Network, is_fork_active, fork_fee_market}
use ngcore.Fee.{
  min_base_fee, base_fee_target_bytes, base_fee_max_change_denom, sane_parent, base_fee_delta,
  update_base_fee, next_base_fee,
}

-- A step over at most the whole target is at most an eighth of the parent's fee.
base_fee_delta-le :
    (parent excess : ℕ)
    → excess ≤ base_fee_target_bytes
    → base_fee_max_change_denom * base_fee_delta parent excess ≤ parent
unfolding base_fee_delta
base_fee_delta-le parent excess h = grind arith

base_fee_delta_mono : (parent a b : ℕ) → a ≤ b → base_fee_delta parent a ≤ base_fee_delta parent b
unfolding base_fee_delta
base_fee_delta_mono parent a b h = grind arith

-- Whatever the network, the height and the parent, the next base fee is at least the floor.
pub next_base_fee-floor :
    (net : Network) (height : ℕ) (parent : Option ℤ) (used : ℕ)
    → min_base_fee ≤ next_base_fee net height parent used
unfolding next_base_fee update_base_fee
next_base_fee-floor net height parent used = ground arith

-- After a parent at or above the floor that is no larger than a block may be, the fee moves by at
-- most an eighth of the parent's, up or down.
pub update_base_fee-step :
    (parent used : ℕ)
    → min_base_fee ≤ parent
    → used ≤ max_block_bytes
    → (base_fee_max_change_denom * update_base_fee parent used
        ≤ (base_fee_max_change_denom + 1) * parent)
      × ((base_fee_max_change_denom - 1) * parent
          ≤ base_fee_max_change_denom * update_base_fee parent used)
unfolding update_base_fee
update_base_fee-step parent used h k = ground (
  arith,
  base_fee_delta-le parent (used - base_fee_target_bytes),
  base_fee_delta-le parent (base_fee_target_bytes - used),
)

-- A parent over the target raises the fee.
pub update_base_fee-rises :
    (parent used : ℕ) → base_fee_target_bytes < used → parent < update_base_fee parent used
unfolding update_base_fee
update_base_fee-rises parent used h = ground arith

-- A parent at or under the target never raises a fee that is at or above the floor.
pub update_base_fee-falls :
    (parent used : ℕ)
    → min_base_fee ≤ parent
    → used ≤ base_fee_target_bytes
    → update_base_fee parent used ≤ parent
unfolding update_base_fee
update_base_fee-falls parent used h k = ground arith

-- The fee is monotone in the bytes that the parent used: a fuller parent never makes the next
-- block cheaper.
pub update_base_fee_mono :
    (parent a b : ℕ)
    → min_base_fee ≤ parent
    → a ≤ b
    → update_base_fee parent a ≤ update_base_fee parent b
unfolding update_base_fee
update_base_fee_mono parent a b h k = ground (
  arith,
  base_fee_delta_mono parent (a - base_fee_target_bytes) (b - base_fee_target_bytes),
  base_fee_delta_mono parent (base_fee_target_bytes - b) (base_fee_target_bytes - a),
)

-- From a chain whose parent carries a fee at or above the floor, the next base fee of an active fork
-- is the update of that fee, so the floor and the step bound hold along the whole chain.
pub next_base_fee-active :
    (net : Network) (height parent used : ℕ)
    → is_fork_active net fork_fee_market (add64 height 1) ≡ true
    → min_base_fee ≤ parent
    → next_base_fee net height (some (pos parent)) used ≡ update_base_fee parent used
unfolding next_base_fee sane_parent
next_base_fee-active net height parent used e h = ground arith
