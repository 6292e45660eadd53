-- ===== src/Forks/Active.antt =====
-- Which rulesets are in force at a height.
use ngcore.Base.{
  ℕ, ◌≤◌, ◌≡◌, ◌⊎◌, refl, Bool-cases, inl, inr, ap, true, [], ◌∷◌, ltb, ◌&&◌, In, arith,
  if◌then◌else◌,
}
use ngcore.Forks.{
  Network, Fork, Schedule, fork_genesis, fork_schedule, fork_height, is_fork_active,
  active_fork_from, active_fork,
}

-- A fork that is active at a height stays active at every later height.
pub is_fork_active_mono :
    (net : Network) (f : Fork) (h k : ℕ)
    → h ≤ k
    → is_fork_active net f h ≡ true
    → is_fork_active net f k ≡ true
unfolding is_fork_active
is_fork_active_mono net f h k le a = ground arith

is_fork_active-genesis : (net : Network) (h : ℕ) → is_fork_active net fork_genesis h ≡ true
unfolding is_fork_active fork_height
is_fork_active-genesis net h = ground arith

-- What the loop returns, whatever order the entries come in.
record IsHighest (net : Network) (h : ℕ) (s : Schedule) (a best : Fork) : Type 0 where
  active : is_fork_active net best h ≡ true
  source : (best ≡ a) ⊎ ((k : ℕ) × In (best, k) s)
  above : a ≤ best
  highest : (f : Fork) (k : ℕ) → In (f, k) s → is_fork_active net f h ≡ true → f ≤ best

fst_eq : (f g : Fork) (k j : ℕ) → ◌≡◌ {A = Fork × ℕ} (f, k) (g, j) → f ≡ g
fst_eq f g k j e = ap (λ (p : Fork × ℕ). p.0) e

step : Network → ℕ → Fork → Fork → Fork
step net h f a = if ltb a f && is_fork_active net f h then f else a

step-active :
    (net : Network) (h : ℕ) (f a : Fork)
    → is_fork_active net a h ≡ true
    → is_fork_active net (step net h f a) h ≡ true
unfolding step
step-active net h f a p = ground arith

step-above :
    (net : Network) (h : ℕ) (f a : Fork)
    → (a ≤ step net h f a) × (is_fork_active net f h ≡ true → f ≤ step net h f a)
unfolding step
step-above net h f a = ground arith

highest_first :
    (net : Network) (h : ℕ) (f g : Fork) (k j : ℕ) (st best : Fork)
    → ◌≡◌ {A = Fork × ℕ} (f, k) (g, j)
    → (is_fork_active net g h ≡ true → g ≤ st)
    → st ≤ best
    → is_fork_active net f h ≡ true
    → f ≤ best
highest_first net h f g k j st best e below up q =
    ground (arith, fst_eq f g k j e, below (rw (← fst_eq f g k j e) q))

source_step :
    (net : Network) (h : ℕ) (g a : Fork) (j : ℕ) (s : Schedule) (best : Fork)
    → (best ≡ step net h g a) ⊎ ((k : ℕ) × In (best, k) s)
    → (best ≡ a) ⊎ ((k : ℕ) × In (best, k) ((g, j) ∷ s))
unfolding step
source_step net h g a j s best (inr (k, there)) = inr (k, inr there)
source_step net h g a j s best (inl e) = elim (Bool-cases (ltb a g && is_fork_active net g h)) [
  | inl taken ↦ let p : best ≡ g = ground arith in inr (j, inl (ap (λ (f : Fork). (f, j)) p))
  | inr left ↦ inl (ground arith)
]

active_fork_from-IsHighest :
    (net : Network) (h : ℕ) (s : Schedule) (a : Fork)
    → is_fork_active net a h ≡ true
    → IsHighest net h s a (active_fork_from net h s a)
unfolding active_fork_from step
active_fork_from-IsHighest net h [] a p = record {
  active = p;
  source = inl refl;
  above = omega arith;
  highest = λ f k m q. absurd m;
}
active_fork_from-IsHighest net h ((g, j) ∷ s) a p =
    let rest = active_fork_from-IsHighest net h s (step net h g a) (step-active net h g a p) in
    record {
      active = rest.active;
      source = source_step net h g a j s _ rest.source;
      above = omega (arith, step-above net h g a, rest.above);
      highest = λ f k m q. elim m [
        | inl e ↦
            highest_first net h f g k j (step net h g a) _ e (step-above net h g a).1 rest.above q
        | inr n ↦ rest.highest f k n q
      ];
    }

-- The entries of the schedule, in some order.
pub record IsOrder (net : Network) (order : Schedule) : Type 0 where
  pub only : (e : Fork × ℕ) → In e order → In e (fork_schedule net)
  pub every : (e : Fork × ℕ) → In e (fork_schedule net) → In e order

active_fork-IsHighest :
    (net : Network) (h : ℕ) (order : Schedule)
    → IsHighest net h order fork_genesis (active_fork order net h)
unfolding active_fork
active_fork-IsHighest net h order =
    active_fork_from-IsHighest net h order fork_genesis (is_fork_active-genesis net h)

scheduled-source :
    (net : Network) (order : Schedule) (best : Fork)
    → IsOrder net order
    → (best ≡ fork_genesis) ⊎ ((k : ℕ) × In (best, k) order)
    → (best ≡ fork_genesis) ⊎ ((k : ℕ) × In (best, k) (fork_schedule net))
scheduled-source net order best same (inl e) = inl e
scheduled-source net order best same (inr (k, there)) = inr (k, same.only (best, k) there)

highest_le :
    (net : Network) (h : ℕ) (order order' : Schedule) (a b : Fork)
    → IsOrder net order
    → IsOrder net order'
    → IsHighest net h order fork_genesis a
    → IsHighest net h order' fork_genesis b
    → a ≤ b
highest_le net h order order' a b same same' best best' = elim best.source [
  | inl e ↦ ground (arith, best'.above)
  | inr (k, there) ↦ best'.highest a k (same'.every (a, k) (same.only (a, k) there)) best.active
]

highest_unique :
    (net : Network) (h : ℕ) (order order' : Schedule) {a b : Fork}
    → IsOrder net order
    → IsOrder net order'
    → IsHighest net h order fork_genesis a
    → IsHighest net h order' fork_genesis b
    → a ≡ b
highest_unique net h order order' {a} {b} same same' best best' = omega (
  arith,
  highest_le net h order order' a b same same' best best',
  highest_le net h order' order b a same' same best' best,
)

-- In whatever order the iteration yields the entries of the network's schedule, the ruleset in force
-- at a height is the genesis ruleset or scheduled, it is active there, no scheduled fork that is
-- active there is above it, and any other order of the entries gives the same ruleset.
pub active_fork-highest :
    (net : Network) (h : ℕ) (order order' : Schedule)
    → IsOrder net order
    → IsOrder net order'
    → ((active_fork order net h ≡ fork_genesis)
        ⊎ ((k : ℕ) × In (active_fork order net h, k) (fork_schedule net)))
      × (is_fork_active net (active_fork order net h) h ≡ true)
      × ((f : Fork) (k : ℕ)
          → In (f, k) (fork_schedule net)
          → is_fork_active net f h ≡ true
          → f ≤ active_fork order net h)
      × (active_fork order net h ≡ active_fork order' net h)
active_fork-highest net h order order' same same' =
    let best = active_fork-IsHighest net h order in
    let best' = active_fork-IsHighest net h order' in
    let source = scheduled-source net order _ same best.source in
    let source' = scheduled-source net order' _ same' best'.source in
    (
      source,
      best.active,
      λ f k m q. best.highest f k (same.every (f, k) m) q,
      highest_unique net h order order' same same' best best',
    )

-- On the main network, and on a network with no schedule, no height activates any fork but the
-- genesis ruleset.
pub active_fork-mainnet :
    (net h : ℕ) → 2 ≤ net → active_fork (fork_schedule net) net h ≡ fork_genesis
unfolding active_fork fork_schedule is_fork_active fork_height
active_fork-mainnet net h le = ground arith
