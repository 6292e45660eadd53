-- ===== src/Forks/Examples.antt =====
-- Tests of the fork schedule, and the theorems about it at concrete inputs.
use ngcore.Base.{ℕ, ◌≤◌, ◌≡◌, ◌⊎◌, In, [], ◌∷◌, refl, true, false, inl, inr}
use ngcore.Forks.{
  Schedule, Fork, fork_genesis, zeronet, mainnet, fork_random_beacon, fork_fee_market, fork_height,
  is_fork_active, active_fork, no_fork, fork_schedule,
}
use ngcore.Forks.Active.{IsOrder, active_fork-highest}

zeronet_active : active_fork (fork_schedule zeronet) zeronet 7 ≡ fork_random_beacon
unfolding active_fork fork_schedule is_fork_active fork_height
zeronet_active = refl

mainnet_never : is_fork_active mainnet fork_fee_market no_fork ≡ false
unfolding is_fork_active fork_height
mainnet_never = refl

-- The schedule, as it is written and in the opposite order.
abbrev reversed : Schedule
reversed = (3, 0) ∷ (2, 0) ∷ (1, 0) ∷ []

written-IsOrder : IsOrder zeronet (fork_schedule zeronet)
written-IsOrder = record { only = λ e i. i; every = λ e i. i }

reversed-IsOrder : IsOrder zeronet reversed
unfolding fork_schedule
reversed-IsOrder = record {
  only = λ e i. elim i [
    | inl third ↦ inr (inr (inl third))
    | inr (inl second) ↦ inr (inl second)
    | inr (inr (inl first)) ↦ inl first
    | inr (inr (inr nothing)) ↦ absurd nothing
  ];
  every = λ e i. elim i [
    | inl first ↦ inr (inr (inl first))
    | inr (inl second) ↦ inr (inl second)
    | inr (inr (inl third)) ↦ inl third
    | inr (inr (inr nothing)) ↦ absurd nothing
  ];
}

active_fork-highest_example :
    ((active_fork reversed zeronet 7 ≡ fork_genesis)
      ⊎ ((k : ℕ) × In (active_fork reversed zeronet 7, k) (fork_schedule zeronet)))
    × (is_fork_active zeronet (active_fork reversed zeronet 7) 7 ≡ true)
    × ((f : Fork) (k : ℕ)
        → In (f, k) (fork_schedule zeronet)
        → is_fork_active zeronet f 7 ≡ true
        → f ≤ active_fork reversed zeronet 7)
    × (active_fork reversed zeronet 7 ≡ active_fork (fork_schedule zeronet) zeronet 7)
active_fork-highest_example =
    active_fork-highest zeronet 7 reversed (fork_schedule zeronet) reversed-IsOrder written-IsOrder
