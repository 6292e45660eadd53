-- ===== src/Chain/Takeover.antt =====
-- A reorganisation from the side path of `ApplyBlock` (blockchain/pow_chain.go) to the end of
-- `SwitchToBranch` (ngblocks/branch.go).
use ngcore.Base.{
  ℕ, zero, suc, ◌+◌, ◌-◌, ◌^◌, ◌≡◌, ◌≤◌, ◌<◌, refl, sym, ap, ◌∙◌, Bool, true, Option, none, some,
  List, [], ◌∷◌, ◌⊎◌, inl, inr, ◌==◌, ==_self, subst, Bool-cases, Option-cases, arith, add64, sub64,
}
use ngcore.Params.{finality_height}
use ngcore.Types.{Hash, BlockHeader, FullBlock, FullTx}
use ngcore.Maps.{Map, lookup, insert}
use ngcore.Maps.Laws.{lookup-insert}
use ngcore.Blocks.{
  BlockStore, ok, get_block_by_hash, get_latest_block, get_block_by_height, mark_side, connected,
  last, switch_to_branch, put_side_block, put_block_work, put_latest_tags,
}
use ngcore.Blocks.Linked.{IsChain, canonical-below}
use ngcore.Blocks.Switch.{switched}
use ngcore.Chain.{is_canonical, cumulative_work, work_of, check_block_target, validate_uncles}
use ngcore.Chain.Branches.{Links, OffMain, IsFork, collect_branch-Links}
use ngcore.Chain.Finality.{
  reorg, apply_side, apply_side-choose, choose_side-reorg, check_branch_block-passed,
}

some_store :
    {v w : ℕ} {s t : BlockStore}
    → ◌≡◌ {A = Option (ℕ × BlockStore)} (some (v, s)) (some (w, t))
    → s ≡ t
some_store e = cc

module _ (block_hash : FullBlock → Hash) where
  -- A store whose bodies stand under their digests, one height above their stored parents, and whose
  -- origin is canonical.
  pub record IsTall (s : BlockStore) : Type 0 where
    pub digests : (g : Hash) (b : FullBlock) → lookup g s.bodies ≡ some b → block_hash b ≡ g
    pub small : (g : Hash) (b : FullBlock) → lookup g s.bodies ≡ some b → b.height + 1 < 2 ^ 64
    pub rising :
        (g : Hash) (b parent : FullBlock)
        → lookup g s.bodies ≡ some b
        → lookup b.prev_block_hash s.bodies ≡ some parent
        → b.height ≡ parent.height + 1
    pub origin : lookup s.origin_height s.canon ≡ some s.origin_hash

  Links-held :
      (s : BlockStore) (first block : FullBlock) (rest : List FullBlock)
      → lookup (block_hash block) s.bodies ≡ some block
      → Links s first rest block
      → (g : Hash) × (lookup g s.bodies ≡ some first)
  Links-held s first block [] held l =
      (block_hash block, held ∙ ap (λ (b : FullBlock). some b) (sym l))
  Links-held s first block (c ∷ cs) held l = (c.prev_block_hash, l.0)

  Links-connected :
      (s : BlockStore) (first block : FullBlock) (rest : List FullBlock)
      → IsTall s
      → lookup (block_hash block) s.bodies ≡ some block
      → Links s first rest block
      → (connected block_hash first rest ≡ true) × (last first rest ≡ block)
  unfolding connected last
  Links-connected s first block [] tall held l = (refl, l)
  Links-connected s first block (c ∷ cs) tall held l =
      let (g, here) = Links-held s c block cs held l.1 in
      let (joined, ends) = Links-connected s c block cs tall held l.1 in
      let up = tall.rising g c first here l.0 in
      let low = tall.small g c here in
      let on = tall.digests c.prev_block_hash first l.0 in
      let step : (c.height == add64 first.height 1) ≡ true = ground arith in
      let parent : (c.prev_block_hash == block_hash first) ≡ true = ground arith in
      (ground (arith, joined, step, parent), ends)

  -- Where the branch starts, right above a canonical block that is not below the origin.
  IsFork-attached :
      (s : BlockStore) (g : Hash) (first : FullBlock)
      → IsTall s
      → IsChain s
      → lookup g s.bodies ≡ some first
      → IsFork block_hash s first
      → (s.origin_height < first.height)
        × (lookup (sub64 first.height 1) s.canon ≡ some first.prev_block_hash)
  unfolding is_canonical
  IsFork-attached s g first tall c here (inl (parent, there, main, high)) =
      elim (Option-cases (lookup parent.height s.canon)) [
        | inl missing ↦ absurd (ground (arith, main))
        | inr (k, at) ↦
            let named : block_hash parent ≡ first.prev_block_hash =
              tall.digests first.prev_block_hash parent there in
            let same : k ≡ block_hash parent = ground (arith, main, at) in
            let up = tall.rising g first parent here there in
            let low = tall.small g first here in
            let down : sub64 first.height 1 ≡ parent.height = omega arith in
            (
              omega arith,
              ap (λ h. lookup h s.canon) down ∙ at ∙ ap (λ (x : Hash). some x) (same ∙ named),
            )
      ]
  IsFork-attached s g first tall c here (inr (on, low)) =
      let (b, held, height) =
        c.consistent.indexed.canonical s.origin_height s.origin_hash tall.origin in
      let up = tall.rising g first b here (ap (λ k. lookup k s.bodies) on ∙ held) in
      let word = tall.small g first here in
      let down : sub64 first.height 1 ≡ s.origin_height = omega arith in
      (
        omega arith,
        ap (λ h. lookup h s.canon) down ∙ tall.origin ∙ ap (λ (x : Hash). some x) (sym on),
      )

  mark_side-total :
      (s : BlockStore) (height n : ℕ)
      → ((h : ℕ)
          → height ≤ h
          → h < height + n
          → (b : FullBlock) × (get_block_by_height s h ≡ some b))
      → (s' : BlockStore) × (mark_side block_hash s height n ≡ some s')
  unfolding mark_side get_block_by_height
  mark_side-total s height zero all = (s, refl)
  mark_side-total s height (suc n) all =
      let (old, here) = all height (omega arith) (omega arith) in
      let s₁ : BlockStore = record s { side = insert (block_hash old) old.height s.side } in
      let (s', e) =
        mark_side-total s₁ (suc height) n (λ h low high. all h (omega arith) (omega arith)) in
      (s', ground (arith, here, e))

  canonical-block :
      (s : BlockStore) (h : ℕ)
      → IsChain s
      → s.origin_height ≤ h
      → h ≤ s.latest_height
      → (b : FullBlock) × (get_block_by_height s h ≡ some b)
  unfolding get_block_by_height
  canonical-block s h c low high =
      let (g, at) = canonical-below s (s.latest_height - h) h c (omega arith) low in
      let (b, held, _) = c.consistent.indexed.canonical h g at in (b, ground (arith, at, held))

  -- The branch that the walk collects is one that the switch takes.
  switch_to_branch-takes :
      (s : BlockStore) (block first : FullBlock) (rest : List FullBlock)
      → IsTall s
      → IsChain s
      → lookup (block_hash block) s.bodies ≡ some block
      → Links s first rest block
      → IsFork block_hash s first
      → (s' : BlockStore) × (switch_to_branch block_hash s (first ∷ rest) ≡ ok s')
        × (s'.latest_hash ≡ block_hash block)
        × (s'.latest_height ≡ block.height)
  unfolding switch_to_branch put_latest_tags
  switch_to_branch-takes s block first rest tall c held l f =
      let (g, here) = Links-held s first block rest held l in
      let (joined, ends) = Links-connected s first block rest tall held l in
      let (above, on) = IsFork-attached s g first tall c here f in
      let (marked, m) =
        mark_side-total s first.height (s.latest_height + 1 - first.height)
          (λ h low high. canonical-block s h c (omega arith) (omega arith)) in
      (
        switched block_hash s marked first rest,
        ground (arith, joined, on, m),
        ap (λ (b : FullBlock). block_hash b) ends,
        ap (λ (b : FullBlock). b.height) ends,
      )

  -- The walk over a chain's work writes works only.
  cumulative_work-only :
      (fuel : ℕ) (s s' : BlockStore) (block : FullBlock) (w : ℕ)
      → cumulative_work block_hash fuel s block ≡ some (w, s')
      → (m : Map ℕ) × (record s { work = m } ≡ s')
  unfolding cumulative_work put_block_work get_block_by_hash
  cumulative_work-only zero s s' block w e = absurd (ground arith)
  cumulative_work-only (suc fuel) s s' block w e =
      elim (Option-cases (lookup (block_hash block) s.work)) [
        | inr (total, known) ↦ (s.work, some_store {v = total} {w = w} (ground (arith, known)))
        | inl unknown ↦ elim (Bool-cases (block_hash block == s.origin_hash)) [
          | inl here ↦ (
            insert (block_hash block) (work_of block) s.work,
            some_store {v = work_of block} {w = w} (ground (arith, unknown, here)),
          )
          | inr above ↦ elim (Option-cases (lookup block.prev_block_hash s.bodies)) [
            | inl cut ↦ absurd (ground (arith, unknown, above))
            | inr (parent, there) ↦ elim (Option-cases (cumulative_work block_hash fuel s parent)) [
              | inl short ↦ absurd (ground (arith, unknown, above, there))
              | inr ((total, s₁), done) ↦
                  let (m, same) = cumulative_work-only fuel s s₁ parent total done in
                  let total' = total + work_of block in
                  (
                    insert (block_hash block) total' s₁.work,
                    ap
                          (λ (x : BlockStore).
                            put_block_work (record x { work = s₁.work }) (block_hash block) total')
                          same
                        ∙ some_store {v = total'} {w = w}
                            (ground (arith, unknown, above, there, done)),
                  )
            ]
          ]
        ]
      ]

  -- What `apply_side` needs of the store with the new block in it.
  pub record IsSound (s : BlockStore) : Type 0 where
    pub tall : IsTall s
    pub chain : IsChain s

  IsSound-work : (s : BlockStore) (m : Map ℕ) → IsSound s → IsSound (record s { work = m })
  IsSound-work s m fine = record {
    tall = record {
      digests = fine.tall.digests;
      small = fine.tall.small;
      rising = fine.tall.rising;
      origin = fine.tall.origin;
    };
    chain = record {
      consistent = record {
        indexed = record {
          canonical = fine.chain.consistent.indexed.canonical;
          marked = fine.chain.consistent.indexed.marked;
        };
        tip = fine.chain.consistent.tip;
      };
      chain = record { linked = fine.chain.chain.linked; under = fine.chain.chain.under };
      above_origin = fine.chain.above_origin;
    };
  }

  weighed-IsSound :
      (fuel : ℕ) (s s' : BlockStore) (block : FullBlock) (w : ℕ)
      → cumulative_work block_hash fuel s block ≡ some (w, s')
      → IsSound s
      → IsSound s' × (s'.bodies ≡ s.bodies)
  weighed-IsSound fuel s s' block w e fine =
      let (m, same) = cumulative_work-only fuel s s' block w e in
      (
        subst (λ (x : BlockStore). IsSound x) same (IsSound-work s m fine),
        ap (λ (x : BlockStore). x.bodies) (sym same),
      )

module _ (block_hash : FullBlock → Hash) (header_hash : BlockHeader → Hash)
    (tx_size : FullTx → Option ℕ) (actual_diff : FullBlock → ℕ)
    (check_error : FullBlock → Bool) where
  -- Where the store with the block in it is a linked chain with a canonical origin, its bodies stand
  -- under their digests and one height above their stored parents: a side block takes the chain over
  -- only if its own check, its target and its uncles pass, and its chain has more work than the tip's,
  -- or as much and a lower digest. The blocks that are then switched to are a stored branch off the
  -- canonical chain, each built on the one before, from a canonical block or the origin to the new
  -- block; the height below the first of them is not below the finality line of the tip; and
  -- `SwitchToBranch` takes them and makes the block the tip.
  pub apply_side-reorg :
      (fuel : ℕ) (s s' : BlockStore) (block first : FullBlock) (rest : List FullBlock)
      → IsSound block_hash (put_side_block block_hash s block)
      → apply_side block_hash header_hash tx_size actual_diff check_error fuel s block
        ≡ reorg s' (first ∷ rest)
      → ((prev : FullBlock) × (get_block_by_hash s block.prev_block_hash ≡ some prev)
          × (check_error block ≡ true)
          × (check_block_target tx_size actual_diff block prev ≡ none)
          × (validate_uncles (get_block_by_hash s) block_hash header_hash block ≡ none))
        × ((s₁ : BlockStore) × (tip : FullBlock) × (work : ℕ) × (tip_work : ℕ) × (cumulative_work
                block_hash fuel
                (put_side_block block_hash s block)
                block
              ≡ some (work, s₁))
            × (get_latest_block s₁ ≡ some tip)
            × (cumulative_work block_hash fuel s₁ tip ≡ some (tip_work, s'))
            × ((tip_work < work) ⊎ ((work ≡ tip_work) × (block_hash block < block_hash tip)))
            × (finality_height tip.height ≤ sub64 first.height 1))
        × Links s' first rest block
        × OffMain block_hash s' (first ∷ rest)
        × IsFork block_hash s' first
        × ((s'' : BlockStore) × (switch_to_branch block_hash s' (first ∷ rest) ≡ ok s'')
            × (s''.latest_hash ≡ block_hash block)
            × (s''.latest_height ≡ block.height))
  unfolding put_side_block
  apply_side-reorg fuel s s' block first rest sound e =
      let stored = put_side_block block_hash s block in
      let (prev, there, good, chosen) =
        apply_side-choose block_hash header_hash tx_size actual_diff check_error fuel s s' block
          first rest e in
      let passed =
        check_branch_block-passed block_hash header_hash tx_size actual_diff check_error s block
          prev good in
      let (s₁, tip, work, tip_work, weighed, latest, tip_weighed, wins, line, walk) =
        choose_side-reorg block_hash header_hash tx_size actual_diff check_error fuel stored s'
          block first rest chosen in
      let (sound₁, same₁) = weighed-IsSound block_hash fuel stored s₁ block work weighed sound in
      let (sound', same') = weighed-IsSound block_hash fuel s₁ s' tip tip_work tip_weighed sound₁ in
      let (links, off, fork) = collect_branch-Links block_hash fuel s' block first rest walk in
      let digest = block_hash block in
      let held : lookup digest s'.bodies ≡ some block =
        ap (lookup digest) (same' ∙ same₁)
        ∙ ground (arith, lookup-insert digest digest block s.bodies, ==_self digest) in
      (
        (prev, there, passed.0, passed.1, passed.2),
        (s₁, tip, work, tip_work, weighed, latest, tip_weighed, wins, line),
        links,
        off,
        fork,
        switch_to_branch-takes block_hash s' block first rest sound'.tall sound'.chain held links
            fork,
      )
