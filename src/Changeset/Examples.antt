-- ===== src/Changeset/Examples.antt =====
-- Runs of a domain's archive: balances, whose zero has no leaf.
use ngcore.Base.{ℕ, ◌≡◌, refl, Option, none, some, List, [], ◌∷◌, ◌==◌, arith, if◌then◌else◌}
use ngcore.Maps.{lookup, insert, erase}
use ngcore.Commits.Buckets.{entries_at, get, put, delete}
use ngcore.Changeset.Leaves.{leaf_of}
use ngcore.Changeset.{Domain, revert_domain, Change, set, apply}

abbrev coin_leaf : ℕ → Option ℕ
coin_leaf n = if n == 0 then none else some n

abbrev opening : Domain ℕ
opening = record {
  current = (1, 50) ∷ [];
  pre_images = ((3, 1), none) ∷ [];
  history = (1, 3) ∷ [];
  leaves = (1, 50) ∷ [];
}

-- Height 9 pays 20 from the first address to the second and empties the first.
abbrev payment : List (Change ℕ)
payment = set 1 30 ∷ set 2 20 ∷ set 1 0 ∷ []

pair-unwind : revert_domain coin_leaf 9 (apply coin_leaf (some 9) payment opening) ≡ opening
unfolding revert_domain apply entries_at get put delete lookup insert erase
pair-unwind = refl

opening-mirror : (a : ℕ) → lookup a opening.leaves ≡ leaf_of coin_leaf (lookup a opening.current)
unfolding lookup
opening-mirror a = ground arith
