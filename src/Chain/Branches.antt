-- ===== src/Chain/Branches.antt =====
-- What `collectBranch` (blockchain/fork.go) returns, and that `SwitchToBranch` (ngblocks/branch.go)
-- takes it.
use ngcore.Base.{
  ℕ, zero, suc, ◌+◌, ◌≡◌, ◌≤◌, ◌<◌, refl, true, false, Option, none, some, List, [], ◌∷◌, ◌⊎◌, inl,
  inr, ◌==◌, leb, subst, All, Bool-cases, Option-cases, arith,
}
use ngcore.Types.{Hash, FullBlock}
use ngcore.Maps.{lookup}
use ngcore.Blocks.{BlockStore, get_block_by_hash}
use ngcore.Chain.{ChainError, is_canonical, collect_branch}

-- The branch from `first` ends in `block`, each block of it built on the one before.
abbrev pub Links : BlockStore → FullBlock → List FullBlock → FullBlock → Type 0
Links s first [] block = first ≡ block
Links s first (c ∷ cs) block = (lookup c.prev_block_hash s.bodies ≡ some first) × Links s c cs block

module _ (block_hash : FullBlock → Hash) where
  -- No block of the branch is canonical.
  abbrev pub OffMain : BlockStore → List FullBlock → Type 0
  OffMain s bs = All (λ b. is_canonical block_hash s b ≡ false) bs

  -- The branch builds on a canonical block above the origin, or on the origin.
  abbrev pub IsFork : BlockStore → FullBlock → Type 0
  IsFork s first =
      ((parent : FullBlock) × (lookup first.prev_block_hash s.bodies ≡ some parent)
        × (is_canonical block_hash s parent ≡ true)
        × (s.origin_height + 1 < first.height))
      ⊎ ((first.prev_block_hash ≡ s.origin_hash) × (first.height ≤ s.origin_height + 1))

  -- The blocks that the walk has gone past.
  abbrev Passed : BlockStore → List FullBlock → Type 0
  Passed s [] = Unit
  Passed s (c ∷ cs) = s.origin_height + 1 < c.height

  same_branch :
      {x y : Option ChainError} {bs cs : List FullBlock}
      → ◌≡◌ {A = Option ChainError × List FullBlock} (x, bs) (y, cs)
      → bs ≡ cs
  same_branch e = cc

  Collected : BlockStore → FullBlock → List FullBlock → Type 0
  Collected s block [] = Unit
  Collected s block (first ∷ rest) =
      Links s first rest block × OffMain s (first ∷ rest) × IsFork s first

  ended :
      (s : BlockStore) (cur block : FullBlock) (acc : List FullBlock)
      → Links s cur acc block
      → OffMain s acc
      → Passed s acc
      → is_canonical block_hash s cur ≡ true
      → Collected s block acc
  unfolding Collected
  ended s cur block [] l off past here = tt
  ended s cur block (c ∷ cs) l off past here = (l.1, off, inl (cur, l.0, here, past))

  collect_branch-Collected :
      (fuel : ℕ) (s : BlockStore) (cur block : FullBlock) (acc branch : List FullBlock)
      → Links s cur acc block
      → OffMain s acc
      → Passed s acc
      → collect_branch block_hash fuel s cur acc ≡ (none, branch)
      → Collected s block branch
  unfolding collect_branch get_block_by_hash Collected
  collect_branch-Collected zero s cur block acc branch l off past e = absurd (ground arith)
  collect_branch-Collected (suc fuel) s cur block acc branch l off past e =
      elim (Bool-cases (is_canonical block_hash s cur)) [
        | inl here ↦
            subst (λ (bs : List FullBlock). Collected s block bs)
              (same_branch {x = none} {y = none} (ground (arith, here)))
              (ended s cur block acc l off past here)
        | inr side ↦ elim (Bool-cases (leb cur.height (s.origin_height + 1))) [
          | inl low ↦ elim (Bool-cases (cur.prev_block_hash == s.origin_hash)) [
            | inr lost ↦ absurd (ground (arith, side))
            | inl origin ↦
                let mine : Collected s block (cur ∷ acc) =
                  (l, (side, off), inr (ground arith, ground arith)) in
                let same : (cur ∷ acc) ≡ branch =
                  same_branch {x = none} {y = none} (ground (arith, side, low, origin)) in
                subst (λ (bs : List FullBlock). Collected s block bs) same mine
          ]
          | inr high ↦ elim (Option-cases (lookup cur.prev_block_hash s.bodies)) [
            | inl cut ↦ absurd (ground (arith, side, high))
            | inr (parent, there) ↦
                collect_branch-Collected fuel s parent block (cur ∷ acc) branch (there, l)
                  (side, off) (ground arith) (ground (arith, side, high, there))
          ]
        ]
      ]

  pub collect_branch-Links :
      (fuel : ℕ) (s : BlockStore) (block first : FullBlock) (rest : List FullBlock)
      → collect_branch block_hash fuel s block [] ≡ (none, first ∷ rest)
      → Links s first rest block × OffMain s (first ∷ rest) × IsFork s first
  unfolding Collected
  collect_branch-Links fuel s block first rest e =
      collect_branch-Collected fuel s block block [] (first ∷ rest) refl tt tt e
