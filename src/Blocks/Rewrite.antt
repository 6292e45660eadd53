-- ===== src/Blocks/Rewrite.antt =====
-- `SwitchToBranch` on a linked chain (ngblocks/branch.go): the canonical chain is the old one up to the
-- fork point and the branch above it, and the blocks it leaves are side blocks.
use ngcore.Base.{
  ℕ, ◌+◌, ◌-◌, ◌^◌, ◌≡◌, ◌≤◌, ◌<◌, sym, ap, ◌∙◌, true, some, List, ◌∷◌, ◌⊎◌, inl, inr, ltb, subst,
  Bool-cases, arith, add64, sub64,
}
use ngcore.Types.{Hash, FullBlock}
use ngcore.Maps.{lookup}
use ngcore.Maps.Laws.{lookup-insert}
use ngcore.Blocks.{
  BlockStore, ok, put_block, put_latest_tags, connect_branch, connected, unlink, last,
  switch_to_branch,
}
use ngcore.Blocks.Consistent.{Fits, IsIndexed, IsConsistent, put_block-IsIndexed, put_block-canon}
use ngcore.Blocks.Linked.{IsLinked, IsChain, put_block-IsLinked}
use ngcore.Blocks.Switch.{
  switched, switched-of, mark_side-IsIndexed, switch_to_branch-IsConsistent, unlink-canon,
  unlink-rest,
}
use ngcore.Blocks.Branch.{
  Kept, AllOwn, AllOwn-AllFit, AllOwn-last, put_block-Kept, connect_branch-linked,
}
use ngcore.Blocks.Marks.{mark_side-marks}

module _ (block_hash : FullBlock → Hash) where
  -- The chain below the fork point, as the marked store has it.
  forked-IsLinked :
      (s marked : BlockStore) (t : ℕ)
      → marked.bodies ≡ s.bodies
      → marked.canon ≡ s.canon
      → marked.origin_height ≡ s.origin_height
      → IsLinked s s.latest_height s.latest_height
      → IsLinked marked t s.latest_height
  forked-IsLinked s marked t bodies canon origin l = record {
    linked = λ h g b o le at held.
        let was = sym (ap (lookup h) canon) ∙ at in
        let low : h ≤ s.latest_height = elim (l.under h g was) [
          | inl below ↦ below
          | inr below ↦ below
        ] in
        ap (lookup (h - 1)) canon
        ∙ l.linked h g b (omega arith) low was (sym (ap (lookup g) bodies) ∙ held);
    under = λ h g at. elim (l.under h g (sym (ap (lookup h) canon) ∙ at)) [
      | inl below ↦ inr below
      | inr below ↦ inr below
    ];
  }

  -- Unlinking what lies above the new tip leaves a chain that ends at it.
  unlinked-IsLinked :
      (s : BlockStore) (t m : ℕ) (hash : Hash)
      → t + 1 < 2 ^ 64
      → IsLinked s t m
      → IsLinked (put_latest_tags (unlink s (add64 t 1) (m + 1 - add64 t 1)) t hash) t t
  unfolding put_latest_tags
  unlinked-IsLinked s t m hash small l =
      let start = add64 t 1 in
      let n = m + 1 - start in
      record {
        linked = λ h g b o le at held.
            let was : lookup h s.canon ≡ some g = ground (arith, unlink-canon s start n h) in
            let body : lookup g s.bodies ≡ some b =
              sym (ap (lookup g) (unlink-rest s start n).0) ∙ held in
            let above : s.origin_height < h = omega (arith, o, (unlink-rest s start n).2) in
            ground (arith, unlink-canon s start n (h - 1), l.linked h g b above le was body);
        under = λ h g at.
            let was : lookup h s.canon ≡ some g = ground (arith, unlink-canon s start n h) in
            elim (l.under h g was) [
              | inl low ↦ inl low
              | inr low ↦ inl (ground (arith, unlink-canon s start n h))
            ];
      }

  unlinked-Kept :
      (s : BlockStore) (t n h : ℕ) (g : Hash)
      → t + 1 < 2 ^ 64
      → Kept s t h g
      → (lookup h (unlink s (add64 t 1) n).canon ≡ some g)
        ⊎ (lookup g (unlink s (add64 t 1) n).side ≡ some h)
  unlinked-Kept s t n h g small (inl (at, low)) =
      inl (ground (arith, unlink-canon s (add64 t 1) n h))
  unlinked-Kept s t n h g small (inr marked) =
      inr (ap (lookup g) (unlink-rest s (add64 t 1) n).1 ∙ marked)

  -- The marked store, with the first block of the branch put on its ancestor and the rest above it.
  record IsConnected (s marked : BlockStore) (block : FullBlock) (blocks : List FullBlock)
      : Type 0 where
    pub linked :
        IsLinked
          (connect_branch block_hash marked (block ∷ blocks))
          (last block blocks).height
          s.latest_height
    pub kept :
        (h : ℕ) (g : Hash)
        → Kept marked (block.height - 1) h g
        → Kept (connect_branch block_hash marked (block ∷ blocks)) (last block blocks).height h g
    pub origin : (connect_branch block_hash marked (block ∷ blocks)).origin_height ≡ s.origin_height
    pub grows : block.height ≤ (last block blocks).height
    pub below :
        (h : ℕ)
        → h < block.height
        → lookup h (connect_branch block_hash marked (block ∷ blocks)).canon ≡ lookup h s.canon

  connect-IsConnected :
      (s marked : BlockStore) (block : FullBlock) (blocks : List FullBlock)
      → s.origin_height < block.height
      → AllOwn block_hash marked.bodies (block ∷ blocks)
      → IsIndexed marked
      → marked.bodies ≡ s.bodies
      → marked.canon ≡ s.canon
      → marked.origin_height ≡ s.origin_height
      → IsLinked s s.latest_height s.latest_height
      → connected block_hash block blocks ≡ true
      → lookup (block.height - 1) s.canon ≡ some block.prev_block_hash
      → IsConnected s marked block blocks
  unfolding connect_branch put_block
  connect-IsConnected s marked block blocks above own i bodies canon origin l joined on =
      let t = block.height - 1 in
      let up : block.height ≡ t + 1 = omega arith in
      let start = forked-IsLinked s marked t bodies canon origin l in
      let on_marked : lookup t marked.canon ≡ some block.prev_block_hash =
        ap (lookup t) canon ∙ on in
      let put =
        put_block-IsLinked block_hash marked block t s.latest_height own.0 up on_marked i start in
      let fits : Fits marked.bodies (block_hash block) block.height =
        λ c there. ap (λ (x : FullBlock). x.height) (own.0 c there) in
      let (linked, kept, kept_origin, grows, below) =
        connect_branch-linked block_hash (put_block block_hash marked block) block blocks
          s.latest_height own.1 (put_block-canon block_hash marked block) joined own.2
          (put_block-IsIndexed block_hash marked block fits i)
          (subst (λ (k : ℕ). IsLinked (put_block block_hash marked block) k s.latest_height)
            (sym up) put) in
      record {
        linked = linked;
        kept = λ h g k. kept h g (
            subst (λ (j : ℕ). Kept (put_block block_hash marked block) j h g) (sym up)
              (put_block-Kept block_hash marked block t h g own.0 up i k));
        origin = kept_origin ∙ origin;
        grows = grows;
        below = λ h low.
            below h (omega arith)
            ∙ ground (arith, lookup-insert block.height h (block_hash block) marked.canon)
            ∙ ap (lookup h) canon;
      }

  switched-IsChain :
      (s marked : BlockStore) (block : FullBlock) (blocks : List FullBlock)
      → s.origin_height < block.height
      → (last block blocks).height + 1 < 2 ^ 64
      → IsConnected s marked block blocks
      → IsConsistent (switched block_hash s marked block blocks)
      → IsChain (switched block_hash s marked block blocks)
  unfolding put_latest_tags
  switched-IsChain s marked block blocks above small c consistent =
      let tip = last block blocks in
      let linked = connect_branch block_hash marked (block ∷ blocks) in
      let l = unlinked-IsLinked linked tip.height s.latest_height (block_hash tip) small c.linked in
      record {
        consistent = consistent;
        chain = record { linked = l.linked; under = l.under };
        above_origin = omega (
          arith,
          c.origin,
          c.grows,
          (unlink-rest linked (add64 tip.height 1) (s.latest_height + 1 - add64 tip.height 1)).2,
        );
      }

  -- A successful switch of a linked chain to a branch that begins above the origin, where each body
  -- is stored under its digest and no block of the branch has the digest of another stored block,
  -- leaves a consistent chain, linked from the last block of the branch down to the origin, with no
  -- canonical height above it. The heights below the branch are as before, and every block that was
  -- canonical is so still or is marked as a side block. The heights are below 2 ^ 64 - 1.
  pub switch_to_branch-IsChain :
      (s s' : BlockStore) (block : FullBlock) (blocks : List FullBlock)
      → s.origin_height < block.height
      → ((b : FullBlock) (h : Hash) → lookup h s.bodies ≡ some b → block_hash b ≡ h)
      → AllOwn block_hash s.bodies (block ∷ blocks)
      → IsChain s
      → switch_to_branch block_hash s (block ∷ blocks) ≡ ok s'
      → IsChain s'
        × (s'.latest_height ≡ (last block blocks).height)
        × (s'.latest_hash ≡ block_hash (last block blocks))
        × ((h : ℕ) → h < block.height → lookup h s'.canon ≡ lookup h s.canon)
        × ((h : ℕ) (g : Hash)
            → lookup h s.canon ≡ some g
            → (lookup h s'.canon ≡ some g) ⊎ (lookup g s'.side ≡ some h))
  unfolding put_latest_tags
  switch_to_branch-IsChain s s' block blocks above digests own c e =
      let fits = AllOwn-AllFit block_hash s.bodies (block ∷ blocks) own in
      let small = AllOwn-last block_hash s.bodies block blocks own in
      let (consistent, height, hash) =
        switch_to_branch-IsConsistent block_hash s s' block blocks digests fits small c.consistent
          e in
      let (marked, m, q, joined, at) = switched-of block_hash s s' block blocks e in
      let (i, bodies, canon, origin) =
        mark_side-IsIndexed block_hash s marked block.height (s.latest_height + 1 - block.height)
          digests m c.consistent.indexed in
      let word : block.height + 1 < 2 ^ 64 = own.1 in
      let down : sub64 block.height 1 ≡ block.height - 1 = omega arith in
      let on : lookup (block.height - 1) s.canon ≡ some block.prev_block_hash =
        ap (λ k. lookup k s.canon) (sym down) ∙ at in
      let own' : AllOwn block_hash marked.bodies (block ∷ blocks) = rw bodies own in
      let j =
        connect-IsConnected s marked block blocks above own' i bodies canon origin c.chain joined
          on in
      let linked = connect_branch block_hash marked (block ∷ blocks) in
      let start = add64 (last block blocks).height 1 in
      let n = s.latest_height + 1 - start in
      let consistent' : IsConsistent (switched block_hash s marked block blocks) =
        subst (λ (r : BlockStore). IsConsistent r) (sym q) consistent in
      (
        subst (λ (r : BlockStore). IsChain r) q
            (switched-IsChain s marked block blocks above small j consistent'),
        height,
        hash,
        λ h low.
            ap (λ (r : BlockStore). lookup h r.canon) (sym q)
            ∙ ground (arith, unlink-canon linked start n h, j.grows)
            ∙ j.below h low,
        λ h g was.
            let top : h ≤ s.latest_height = elim (c.chain.under h g was) [
              | inl le ↦ le
              | inr le ↦ le
            ] in
            let before : Kept marked (block.height - 1) h g =
              elim (Bool-cases (ltb h block.height)) [
                | inl low ↦ inl (ap (lookup h) canon ∙ was, ground arith)
                | inr high ↦ inr (
                    mark_side-marks block_hash s marked block.height
                      (s.latest_height + 1 - block.height) h g digests m c.consistent.indexed
                      (inr (ground arith, ground arith, was)))
              ] in
            subst (λ (r : BlockStore). (lookup h r.canon ≡ some g) ⊎ (lookup g r.side ≡ some h)) q
              (unlinked-Kept linked (last block blocks).height n h g small (j.kept h g before)),
      )
