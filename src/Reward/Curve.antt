-- ===== src/Reward/Curve.antt =====
-- The shape of the reward curve.
use ngcore.Base.{ℕ, zero, suc, ◌+◌, ◌-◌, ◌*◌, ◌/◌, ◌≤◌, ◌<◌, ◌≡◌, refl, ◌⊎◌, arith}
use native.Mathlib.Nat.{add-suc, add-zero, le_refl}
use ngcore.Params.{pico, uncle_max_depth}
use ngcore.Reward.{
  reward_era, max_block_reward_ng, min_reward, floating_reward, decay, get_block_reward,
  uncle_reward,
}

decay-le : (n r : ℕ) → decay n r ≤ r
unfolding decay
decay-le zero r = omega arith
decay-le (suc n) r = omega (arith, decay-le n (r - r / 10))

decay_mono_start : (n a b : ℕ) → a ≤ b → decay n a ≤ decay n b
unfolding decay
decay_mono_start zero a b h = h
decay_mono_start (suc n) a b h = decay_mono_start n (a - a / 10) (b - b / 10) (omega arith)

decay-suc-le : (n r : ℕ) → decay (suc n) r ≤ decay n r
unfolding decay
decay-suc-le n r = decay_mono_start n (r - r / 10) r (omega arith)

decay_plus-le : (d n r : ℕ) → decay (n + d) r ≤ decay n r
decay_plus-le zero n r = rw add-zero (le_refl (decay n r))
decay_plus-le (suc d) n r = rw add-suc (omega (arith, decay_plus-le d n r, decay-suc-le (n + d) r))

decay_antitone : (a b r : ℕ) → a ≤ b → decay b r ≤ decay a r
decay_antitone a b r h =
    let e : a + (b - a) ≡ b = omega arith in rw (← e) (decay_plus-le (b - a) a r)

-- One era takes a tenth, rounded down, off the floating part.
decay-step : (n r : ℕ) → decay (suc n) r ≡ decay n r - decay n r / 10
unfolding decay
decay-step zero r = refl
decay-step (suc n) r = decay-step n (r - r / 10)

-- The block reward lies between 2 NG and 10 NG at every height.
pub get_block_reward_bounds :
    (h : ℕ) → (min_reward ≤ get_block_reward h) × (get_block_reward h ≤ pico * max_block_reward_ng)
unfolding get_block_reward
get_block_reward_bounds h = omega (arith, decay-le (h / reward_era) floating_reward)

-- The block reward never grows with the height.
pub get_block_reward_antitone : (a b : ℕ) → a ≤ b → get_block_reward b ≤ get_block_reward a
unfolding get_block_reward
get_block_reward_antitone a b h =
    omega (arith, decay_antitone (a / reward_era) (b / reward_era) floating_reward (omega arith))

-- One era later the part of the reward above 2 NG is a tenth smaller, rounded in the miner's favour.
pub get_block_reward-next_era :
    (h : ℕ)
    → get_block_reward (h + reward_era)
      ≡ get_block_reward h - (get_block_reward h - min_reward) / 10
unfolding get_block_reward
get_block_reward-next_era h =
    let e : (h + reward_era) / reward_era ≡ suc (h / reward_era) = omega arith in
    rw e (omega (arith, decay-step (h / reward_era) floating_reward))

-- The weight of an uncle, over 31.
share : ℕ → ℕ → ℕ
share base k = base * k / (uncle_max_depth + 1)

share_bounds :
    (base k : ℕ) → 31 ≤ base → 0 < k → k < 31 → (0 < share base k) × (share base k < base)
unfolding share
share_bounds base k h p q = grind arith

share_mono : (base j k : ℕ) → j ≤ k → share base j ≤ share base k
unfolding share
share_mono base j k h = grind arith

-- An uncle 1 to 30 generations back is paid something, and less than its own block reward.
pub uncle_reward_bounds :
    (u n : ℕ)
    → u < n
    → n ≤ u + uncle_max_depth
    → (0 < uncle_reward u n) × (uncle_reward u n < get_block_reward u)
unfolding uncle_reward share
uncle_reward_bounds u n h k = ground (
  arith,
  share_bounds (get_block_reward u) (uncle_max_depth + 1 - (n - u)),
  get_block_reward_bounds u,
)

-- Outside that window an uncle is paid nothing.
pub uncle_reward_outside : (u n : ℕ) → (n ≤ u) ⊎ (u + uncle_max_depth < n) → uncle_reward u n ≡ 0
unfolding uncle_reward
uncle_reward_outside u n h = ground arith

-- The uncle reward never grows as the nephew moves away.
pub uncle_reward_antitone : (u m n : ℕ) → u < m → m ≤ n → uncle_reward u n ≤ uncle_reward u m
unfolding uncle_reward share
uncle_reward_antitone u m n h k = ground (
  arith,
  share_mono (get_block_reward u) (uncle_max_depth + 1 - (n - u)) (uncle_max_depth + 1 - (m - u)),
)
