-- ===== src/Blocks/Branch.antt =====
-- A branch that is put block by block on a canonical block (ngblocks/branch.go).
use ngcore.Base.{
  ℕ, ◌+◌, ◌^◌, ◌≡◌, ◌≤◌, ◌<◌, refl, sym, ap, ◌∙◌, true, some, List, [], ◌∷◌, ◌⊎◌, inl, inr, ◌==◌,
  subst, Bool-cases, arith,
}
use ngcore.Types.{Hash, FullBlock}
use ngcore.Maps.{Map, lookup, insert}
use ngcore.Maps.Laws.{lookup-insert, lookup-erase}
use ngcore.Blocks.{BlockStore, put_block, connect_branch, connected, last}
use ngcore.Blocks.Consistent.{Fits, IsIndexed, put_block-IsIndexed, put_block-canon}
use ngcore.Blocks.Linked.{IsLinked, Own, put_block-IsLinked}
use ngcore.Blocks.Switch.{AllFit}

-- A block that was canonical is still, at a height up to `t`, or it is marked as a side block.
abbrev pub Kept : BlockStore → ℕ → ℕ → Hash → Type 0
Kept s t h g = ((lookup h s.canon ≡ some g) × (h ≤ t)) ⊎ (lookup g s.side ≡ some h)

module _ (block_hash : FullBlock → Hash) where
  -- No block of the branch has the digest of another stored block, and each is below the highest
  -- height of a 64-bit word.
  abbrev pub AllOwn : Map FullBlock → List FullBlock → Type 0
  AllOwn bodies [] = Unit
  AllOwn bodies (b ∷ bs) =
      Own block_hash bodies b × (b.height + 1 < 2 ^ 64) × AllOwn (insert (block_hash b) b bodies) bs

  pub AllOwn-AllFit :
      (bodies : Map FullBlock) (bs : List FullBlock)
      → AllOwn bodies bs
      → AllFit block_hash bodies bs
  AllOwn-AllFit bodies [] own = tt
  AllOwn-AllFit bodies (b ∷ bs) own = (
    λ c there. ap (λ (x : FullBlock). x.height) (own.0 c there),
    AllOwn-AllFit (insert (block_hash b) b bodies) bs own.2,
  )

  pub AllOwn-last :
      (bodies : Map FullBlock) (b : FullBlock) (bs : List FullBlock)
      → AllOwn bodies (b ∷ bs)
      → (last b bs).height + 1 < 2 ^ 64
  unfolding last
  AllOwn-last bodies b [] own = own.1
  AllOwn-last bodies b (c ∷ cs) own = AllOwn-last (insert (block_hash b) b bodies) c cs own.2

  pub put_block-Kept :
      (s : BlockStore) (block : FullBlock) (t h : ℕ) (g : Hash)
      → Own block_hash s.bodies block
      → block.height ≡ t + 1
      → IsIndexed s
      → Kept s t h g
      → Kept (put_block block_hash s block) (t + 1) h g
  unfolding put_block
  put_block-Kept s block t h g own high i (inl (at, low)) =
      inl (ground (arith, lookup-insert block.height h (block_hash block) s.canon), omega arith)
  put_block-Kept s block t h g own high i (inr marked) = elim (Bool-cases (block_hash block == g)) [
    | inr other ↦ inr (ground (arith, lookup-erase (block_hash block) g s.side))
    | inl same ↦
        let p : block_hash block ≡ g = ground arith in
        let (c, held, at) = i.marked g h marked in
        let q = ap (λ (x : FullBlock). x.height) (own c (ap (λ k. lookup k s.bodies) p ∙ held)) in
        inl (
          ground (arith, lookup-insert block.height h (block_hash block) s.canon),
          omega (arith, q),
        )
  ]

  -- The branch above a canonical block, put block by block.
  pub connect_branch-linked :
      (s : BlockStore) (prev : FullBlock) (blocks : List FullBlock) (m : ℕ)
      → prev.height + 1 < 2 ^ 64
      → lookup prev.height s.canon ≡ some (block_hash prev)
      → connected block_hash prev blocks ≡ true
      → AllOwn s.bodies blocks
      → IsIndexed s
      → IsLinked s prev.height m
      → IsLinked (connect_branch block_hash s blocks) (last prev blocks).height m
        × ((h : ℕ) (g : Hash)
            → Kept s prev.height h g
            → Kept (connect_branch block_hash s blocks) (last prev blocks).height h g)
        × ((connect_branch block_hash s blocks).origin_height ≡ s.origin_height)
        × (prev.height ≤ (last prev blocks).height)
        × ((h : ℕ)
            → h ≤ prev.height
            → lookup h (connect_branch block_hash s blocks).canon ≡ lookup h s.canon)
  unfolding connect_branch connected last put_block
  connect_branch-linked s prev [] m small on joined own i l =
      (l, λ h g k. k, refl, omega arith, λ h le. refl)
  connect_branch-linked s prev (block ∷ blocks) m small on joined own i l =
      let up : block.height ≡ prev.height + 1 = ground arith in
      let parent : block.prev_block_hash ≡ block_hash prev = ground arith in
      let on_prev : lookup prev.height s.canon ≡ some block.prev_block_hash =
        on ∙ ap (λ (k : Hash). some k) (sym parent) in
      let put = put_block-IsLinked block_hash s block prev.height m own.0 up on_prev i l in
      let fits : Fits s.bodies (block_hash block) block.height =
        λ c there. ap (λ (x : FullBlock). x.height) (own.0 c there) in
      let (linked, kept, origin, le, below) =
        connect_branch-linked (put_block block_hash s block) block blocks m own.1
          (put_block-canon block_hash s block) (ground arith) own.2
          (put_block-IsIndexed block_hash s block fits i)
          (subst (λ (k : ℕ). IsLinked (put_block block_hash s block) k m) (sym up) put) in
      (
        linked,
        λ h g k. kept h g (
            subst (λ (j : ℕ). Kept (put_block block_hash s block) j h g) (sym up)
              (put_block-Kept s block prev.height h g own.0 up i k)),
        origin,
        omega (arith, le),
        λ h low.
            below h (omega arith)
            ∙ ground (arith, lookup-insert block.height h (block_hash block) s.canon),
      )
