-- ===== src/Forks.antt =====
-- Protocol forks selected by height (ngtypes/forks.go, the networks of ngtypes/network.go).
-- A network is a byte and a fork a 16-bit number in the source; both are only compared.
pub mod Active
mod Examples
use ngcore.Base.{
  ℕ, ◌<◌, Bool, true, false, Option, none, some, List, [], ◌∷◌, ◌==◌, ltb, leb, ◌&&◌, max_u64,
  if◌then◌else◌,
}

abbrev pub Network : Type 0
Network = ℕ

abbrev pub zeronet : Network
zeronet = 0

abbrev pub testnet : Network
testnet = 1

abbrev pub mainnet : Network
mainnet = 2

abbrev pub Fork : Type 0
Fork = ℕ

abbrev pub fork_genesis : Fork
fork_genesis = 0

abbrev pub fork_fee_market : Fork
fork_fee_market = 1

abbrev pub fork_state_rent : Fork
fork_state_rent = 2

abbrev pub fork_random_beacon : Fork
fork_random_beacon = 3

abbrev pub fee_market_fork_height : ℕ
fee_market_fork_height = 0

abbrev pub state_rent_fork_height : ℕ
state_rent_fork_height = 0

abbrev pub random_beacon_fork_height : ℕ
random_beacon_fork_height = 0

-- The sentinel of a fork that is never active.
abbrev pub no_fork : ℕ
no_fork = max_u64

abbrev pub Schedule : Type 0
Schedule = List (Fork × ℕ)

abbrev dev_schedule : Schedule
dev_schedule =
    (fork_fee_market, fee_market_fork_height)
    ∷ (fork_state_rent, state_rent_fork_height)
    ∷ (fork_random_beacon, random_beacon_fork_height)
    ∷ []

abbrev mainnet_schedule : Schedule
mainnet_schedule =
    (fork_fee_market, no_fork) ∷ (fork_state_rent, no_fork) ∷ (fork_random_beacon, no_fork) ∷ []

-- `forkSchedule`: an unknown network has no entry.
pub fork_schedule : Network → Schedule
fork_schedule net =
    if net == zeronet
    then dev_schedule
    else if net == testnet
    then dev_schedule
    else if net == mainnet
    then mainnet_schedule
    else []

abbrev pub scheduled : Schedule → Fork → Option ℕ
scheduled [] f = none
scheduled ((g, h) ∷ s) f = if g == f then some h else scheduled s f

unfoldable pub fork_height : Network → Fork → ℕ
unfolding fork_schedule
fork_height net f =
    if f == fork_genesis
    then 0
    else elim (scheduled (fork_schedule net) f) [ some h ↦ h | none ↦ no_fork ]

unfoldable pub is_fork_active : Network → Fork → ℕ → Bool
is_fork_active net f height =
    let h = fork_height net f in if h == no_fork then false else leb h height

-- The loop of `ActiveFork` over the entries that the map's iteration yields, in any order.
pub active_fork_from : Network → ℕ → Schedule → Fork → Fork
active_fork_from net height [] active = active
active_fork_from net height ((f, h) ∷ s) active =
    active_fork_from net height s
      (if ltb active f && is_fork_active net f height then f else active)

-- `ActiveFork`, for an order in which the iteration over the network's schedule yields its entries.
pub active_fork : Schedule → Network → ℕ → Fork
unfolding active_fork_from
active_fork order net height = active_fork_from net height order fork_genesis
